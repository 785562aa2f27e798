-- ===== src/Statistics/Credits.antt =====
-- What the writes of src/session.cpp leave of the account of the session's record.
use socks5_proxy_sum_2022_co.Prelude.{
  ℕ, ◌+◌, ◌≡◌, ◌<◌, ◌≤◌, ◌^◌, ◌==◌, refl, ◌∙◌, inl, inr, Bool, true, false, some, Bytes, length,
  take, arith, ==_refl,
}
use socks5_proxy_sum_2022_co.Asio.{ErrorCode, failed}
use socks5_proxy_sum_2022_co.World.{Env, World, Version}
use socks5_proxy_sum_2022_co.World.Triple.{Triple, Pred}
use socks5_proxy_sum_2022_co.Session.Relay.{write_to_socket}
use socks5_proxy_sum_2022_co.Statistics.Account.{
  own_record, other_records, all_records, IsMetered, Phase, Account,
}
use socks5_proxy_sum_2022_co.Statistics.Forms.{write_form, write_failed, length-taken}
use socks5_proxy_sum_2022_co.Statistics.Sqlite.{Sqlite}
use socks5_proxy_sum_2022_co.Statistics.Laws.{IsSqlite}
use socks5_proxy_sum_2022_co.Statistics.Refine.{Usage, usage, credited, Fits}
use socks5_proxy_sum_2022_co.Statistics.Available.{IsAvailable}
use socks5_proxy_sum_2022_co.Statistics.Sessions.{served, usages, write_to_socket_credits, dest_of}
use socks5_proxy_sum_2022_co.Statistics.Reads.{At-net, At-less}

module _ {Net Db Stmt : Type 0} (e : Env Net Db) (meter : IsMetered e.asio) (a : Sqlite Db Stmt)
    (s : IsSqlite a) (v : IsAvailable a s) where
  module _ (id sent₀ recv₀ : ℕ) (start : World Net Db) (positive : 0 < id)
      (small : id < 2 ^ 31) where
    abbrev At : ℕ → Pred Net Db
    At rest = Account meter a s id sent₀ recv₀ start rest

    -- A session that is open, where a write returned without an error.
    Phase-open :
        (w : World Net Db)
        → Phase meter a s id w
        → meter.is_shut w.net ≡ false
        → (w.is_closed ≡ false) × (w.id ≡ id) × ((ver : Version) × (w.socks ≡ some ver))
    Phase-open w (inl going) up = going
    Phase-open w (inr (is_over, no_id, shut)) up = cc

    -- A write without an error: the state behind it, and what the records are.
    write-credits :
        (socket : Bytes → Net → ErrorCode × Net) (buffer : Bytes) (n : ℕ) (is_server : Bool)
        (w : World Net Db) (u : Usage)
        → failed (socket (take n buffer) w.net).0 ≡ false
        → w.id ≡ id
        → usages a s w id ≡ some u
        → Fits (dest_of is_server) n u
        → (db : Db) × ((write_to_socket (served a e) socket buffer n is_server w).1
            ≡ record w { net = (socket (take n buffer) w.net).1; db = db })
          × ((k : ℕ) → usage k (s.rows db) ≡ credited id n (dest_of is_server) (usages a s w) k)
    write-credits socket buffer n is_server w u good number there fits =
        let numbered : (w.id == 0) ≡ false = ground (arith, number) in
        let (db, form) = write_form (served a e) socket buffer n is_server w numbered good in
        let old : usage w.id (s.rows w.db) ≡ some u = rw number there in
        let credits =
          (write_to_socket_credits e a s v socket buffer n is_server w u good old fits
            (omega (arith, number)) (omega (arith, number))).1 in
        (db, form, λ k. (rw form at credits) k ∙ rw number refl)

    pub write_server-At :
        (rest n : ℕ) (buffer : Bytes)
        → n ≤ length buffer
        → Triple
            (At (n + rest))
            (write_to_socket (served a e) e.asio.write_server buffer n true)
            (λ _. At rest)
    write_server-At rest n buffer long = record {
      at = λ w h.
          let net = (e.asio.write_server (take n buffer) w.net).1 in
          let (recv, shuts, cases) = meter.write_server (take n buffer) w.net in
          elim cases [
            | inr (bad, sent) ↦
                rw (write_failed (served a e) e.asio.write_server buffer n true w bad) (
                  At-net e meter a s v id sent₀ recv₀ start positive small rest w net sent recv
                    shuts (At-less e meter a s v id sent₀ recv₀ start positive small rest n w h))
            | inl (good, sent, up) ↦
                let going = Phase-open w h.phase up in
                let room : h.sent + n < 2 ^ 31 = omega (arith, h.sent_fits) in
                let (db, form, credits) =
                  write-credits e.asio.write_server buffer n true w _ good going.1
                    (own_record meter a s h) (h.sent, refl, room) in
                rw form (record {
                  sent = h.sent + n;
                  recv = h.recv;
                  records =
                      all_records _ _ id _
                        (credits id ∙ rw (==_refl id, (own_record meter a s h)) refl)
                        (λ k other. credits k ∙ rw other (other_records meter a s h k other));
                  sent_is = omega (arith, h.sent_is, sent, length-taken n buffer long);
                  recv_is = rw recv h.recv_is;
                  sent_fits = omega (arith, h.sent_fits);
                  recv_fits = omega (arith, h.recv_fits);
                  phase = inl going;
                })
          ];
    }

    pub write_client-At :
        (rest n : ℕ) (buffer : Bytes)
        → n ≤ length buffer
        → Triple
            (At (n + rest))
            (write_to_socket (served a e) e.asio.write buffer n false)
            (λ _. At rest)
    write_client-At rest n buffer long = record {
      at = λ w h.
          let net = (e.asio.write (take n buffer) w.net).1 in
          let (sent, shuts, cases) = meter.write (take n buffer) w.net in
          elim cases [
            | inr (bad, recv) ↦ rw (write_failed (served a e) e.asio.write buffer n false w bad) (
                At-net e meter a s v id sent₀ recv₀ start positive small rest w net sent recv shuts
                  (At-less e meter a s v id sent₀ recv₀ start positive small rest n w h))
            | inl (good, recv, up) ↦
                let going = Phase-open w h.phase up in
                let room : h.recv + n < 2 ^ 31 = omega (arith, h.recv_fits) in
                let (db, form, credits) =
                  write-credits e.asio.write buffer n false w _ good going.1
                    (own_record meter a s h) (h.recv, refl, room) in
                rw form (record {
                  sent = h.sent;
                  recv = h.recv + n;
                  records =
                      all_records _ _ id _
                        (credits id ∙ rw (==_refl id, (own_record meter a s h)) refl)
                        (λ k other. credits k ∙ rw other (other_records meter a s h k other));
                  sent_is = rw sent h.sent_is;
                  recv_is = omega (arith, h.recv_is, recv, length-taken n buffer long);
                  sent_fits = omega (arith, h.sent_fits);
                  recv_fits = omega (arith, h.recv_fits);
                  phase = inl going;
                })
          ];
    }
