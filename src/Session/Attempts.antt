-- ===== src/Session/Attempts.antt =====
-- A connection attempt of the session's `connect` of src/session.cpp on behalf of a client whose own
-- connection stands, and the record that is made once the client has its reply.
use socks5_proxy_sum_2022_co.Prelude.{
  ℕ, ◌≡◌, ◌≢◌, ◌↔◌, refl, ◌∙◌, ap, Bool, true, false, ◌++◌, Option, Option-cases, inl, inr, Bytes,
  arith,
}
use socks5_proxy_sum_2022_co.StringUtils.{decimal}
use socks5_proxy_sum_2022_co.Asio.{ErrorCode, IsStream, success, failed}
use socks5_proxy_sum_2022_co.World.{
  Env, World, NewSession, Outcome, returned, thrown, out_of_fuel, modify, pure, ◌>>=◌, on_return,
}
use socks5_proxy_sum_2022_co.World.Triple.{Triple, Keeps, keeps_rules}
use socks5_proxy_sum_2022_co.Session.Io.{write_bytes}
use socks5_proxy_sum_2022_co.Session.Connect
use socks5_proxy_sum_2022_co.Session.Connect.{ask}
use socks5_proxy_sum_2022_co.Session.Stream.{Stands, Result, modify-Stands, write_bytes-Stands}
use socks5_proxy_sum_2022_co.Socks.{store_session, create_record}

module _ {Net Db : Type 0} (e : Env Net Db) where
  Keeps-ask_net :
      {A : Type 0} (query : Net → Option A) → Keeps (λ (v : World Net Db). v.net) (ask e query)
  unfolding ask
  Keeps-ask_net query = record { at = λ w. ground arith }

  Keeps-store_net : (n : NewSession) → Keeps (λ (v : World Net Db). v.net) (store_session e n)
  unfolding store_session
  Keeps-store_net n = record {
    at = λ w. elim (Option-cases (e.database.create n w.db).0) [
      | inl h ↦ rw (h, store_session) refl
      | inr (i, h) ↦ rw (h, store_session) refl
    ];
  }

  Keeps-record_net : Keeps (λ (v : World Net Db). v.net) (create_record e)
  unfolding create_record
  Keeps-record_net = search (keeps_rules, Keeps-ask_net, Keeps-store_net) depth 9

  not_false :
      (o : Outcome Bool) (w : World Net Db)
      → ((on_return o (λ _. pure (returned true)) w).0 ≢ returned false)
        × ((on_return o (λ _. pure (returned true)) w).1 ≡ w)
  unfolding on_return pure
  not_false (returned b) w = ((λ p. cc), refl)
  not_false thrown w = ((λ p. cc), refl)
  not_false out_of_fuel w = ((λ p. cc), refl)

module _ {Net Db : Type 0} (e : Env Net Db) (s : IsStream e.asio) where
  -- From every state like `w₀` the attempt returns with that error, or none, and that port, and the
  -- client's connection stands as before.
  abbrev pub Ends : World Net Db → Bytes → Bytes → ErrorCode → ℕ → Type 0
  Ends w₀ ins outs ec port =
      (u : World Net Db)
      → Stands s w₀ ins outs u
      → ((Connect.connect e u.dst_address (decimal u.dst_port) u).0 ≡ returned (ec, port))
        × Stands s w₀ ins outs (Connect.connect e u.dst_address (decimal u.dst_port) u).1

  -- How a handshake has ended for the client: it has been sent those bytes, none but the request's
  -- have been taken, and the result is false just if the attempt had an error.
  abbrev pub Told : Bytes → Bytes → ErrorCode → Outcome Bool → World Net Db → Type 0
  Told ins outs ec result w =
      (s.incoming w.net ≡ ins)
      × (s.outgoing w.net ≡ outs)
      × ((result ≡ returned false) ↔ (failed ec ≡ true))

  pub refused-Told :
      {w₀ w : World Net Db} (ins outs : Bytes) (ec : ErrorCode)
      → failed ec ≡ true
      → Stands s w₀ ins outs w
      → Told ins outs ec (returned false) w
  refused-Told ins outs ec bad h = (h.coming, h.sent, ((λ _. bad), (λ _. refl)))

  -- What is done once the client has its reply: a failed record is logged and nothing more.
  pub recorded-Told :
      {w₀ : World Net Db} (ins outs : Bytes)
      → Triple
          (Stands s w₀ ins outs)
          (do created ← create_record e; on_return created λ _. pure (returned true))
          (Told ins outs success)
  unfolding ◌>>=◌
  recorded-Told ins outs = record {
    at = λ w h.
        let (o, v) = create_record e w in
        let (runs, same) = not_false e o v in
        let kept : (on_return o (λ _. pure (returned true)) v).1.net ≡ w.net =
          ap (λ (x : World Net Db). x.net) same ∙ (Keeps-record_net e).at w in
        (
          ap s.incoming kept ∙ h.coming,
          ap s.outgoing kept ∙ h.sent,
          (λ no. absurd (runs no), λ p. cc),
        );
  }

  -- The reply that is written behind the attempt.
  pub reply-Stands :
      (w₀ : World Net Db) (ins outs reply : Bytes) (port : ℕ) (v : World Net Db)
      → Stands s w₀ ins outs v
      → Result e s
          (record w₀ { bind_port = port })
          success
          ins
          (outs ++ reply)
          (write_bytes e reply (record v { bind_port = port })).0
          (write_bytes e reply (record v { bind_port = port })).1
  unfolding modify
  reply-Stands w₀ ins outs reply port v h =
      let bound =
        (modify-Stands e s w₀ (λ w. record w { bind_port = port }) ins outs λ w n. refl).at v h in
      (write_bytes-Stands e s (record w₀ { bind_port = port }) reply ins outs).at
        (record v { bind_port = port }) bound.1
