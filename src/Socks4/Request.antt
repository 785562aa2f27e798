-- ===== src/Socks4/Request.antt =====
-- The request of SOCKS4 that `Socks4::init` of src/socks4.cpp reads, and the loop over its user.
use mathlib.Core.List.{append_assoc, append-nil}
use socks5_proxy_sum_2022_co.Prelude.{
  ℕ, zero, suc, ◌+◌, ◌*◌, ◌<◌, ◌≡◌, ◌≢◌, refl, ap, true, false, ◌||◌, [], ◌∷◌, ◌++◌, Bytes, length,
  get_or, All, arith, ◌==◌, if◌then◌else◌, inl, inr, Bool-cases,
}
use socks5_proxy_sum_2022_co.StringUtils.{decimal, form_ip_address_string}
use socks5_proxy_sum_2022_co.StringUtils.Address.{to_string_lem, quad-is_empty}
use socks5_proxy_sum_2022_co.Asio.{IsStream, success, failed, ErrorCode}
use socks5_proxy_sum_2022_co.World.{
  Env, World, returned, out_of_fuel, pure, get, modify, ◌>>=◌, on_return,
}
use socks5_proxy_sum_2022_co.World.Triple.{Triple, Triple-pure, Triple-then}
use socks5_proxy_sum_2022_co.Session.Io.{read_byte, write_bytes}
use socks5_proxy_sum_2022_co.Session.Connect
use socks5_proxy_sum_2022_co.Session.Stream.{
  Stands, read_byte-Stands, read_bytes-Stands, modify-Stands,
}
use socks5_proxy_sum_2022_co.Socks.{read_ipv4, create_record}
use socks5_proxy_sum_2022_co.Socks5.Request.{read_port-Stands}
use socks5_proxy_sum_2022_co.Socks4.{reply, read_userid, connect_and_reply, init}

pub record Request : Type 0 where
  pub high : ℕ
  pub low : ℕ
  pub a : ℕ
  pub b : ℕ
  pub c : ℕ
  pub d : ℕ
  pub userid : Bytes

abbrev pub NonZero : ℕ → Type 0
NonZero c = (c == 0) ≡ false

pub record IsRequest (r : Request) : Type 0 where
  pub high_is_byte : r.high < 256
  pub low_is_byte : r.low < 256
  pub no_zero : All NonZero r.userid

-- The request behind its version byte: CONNECT, the port, the address, the user and a zero.
abbrev pub encode : Request → Bytes → Bytes
encode r rest = 1 ∷ r.high ∷ r.low ∷ r.a ∷ r.b ∷ r.c ∷ r.d ∷ (r.userid ++ 0 ∷ rest)

abbrev pub filled : {Net Db : Type 0} → World Net Db → Request → World Net Db
filled w r = record w {
  dst_port = r.high * 256 + r.low;
  dst_address = form_ip_address_string (r.a ∷ r.b ∷ r.c ∷ r.d ∷ []);
  username = r.userid;
}

module _ {Net Db : Type 0} (e : Env Net Db) (s : IsStream e.asio) where
  userid-Stands :
      (w₀ : World Net Db) (fuel : ℕ) (read userid rest outs : Bytes)
      → All NonZero userid
      → length userid < fuel
      → Triple
          (Stands s w₀ (userid ++ 0 ∷ rest) outs)
          (read_userid e fuel read)
          (λ r w. (r ≡ returned (success, read ++ userid)) × Stands s w₀ rest outs w)
  unfolding read_userid
  userid-Stands w₀ zero read userid rest outs nz h = absurd (omega arith)
  userid-Stands w₀ (suc fuel) read [] rest outs nz h =
      Triple-then _ (success, 0) (read_byte-Stands e s w₀ 0 rest outs)
        (Triple-pure _ λ w p. (rw append-nil refl, p))
  userid-Stands w₀ (suc fuel) read (c ∷ cs) rest outs nz h =
      let later = userid-Stands w₀ fuel (read ++ c ∷ []) cs rest outs nz.1 (omega arith) in
      Triple-then _ (success, c) (read_byte-Stands e s w₀ c (cs ++ 0 ∷ rest) outs)
        (rw nz.0 (rw append_assoc at later))

  -- On a client that sends finitely many bytes the loop ends: one round for each byte left, and one
  -- more, is enough fuel.
  pub read_userid_ends :
      (fuel : ℕ) (read : Bytes) (w : World Net Db)
      → length (s.incoming w.net) < fuel
      → (read_userid e fuel read w).0 ≢ out_of_fuel
  unfolding read_userid ◌>>=◌ pure read_byte
  read_userid_ends zero read w h = absurd (omega arith)
  read_userid_ends (suc fuel) read w h = ends (s.incoming w.net) refl (read_userid_ends fuel)
    where
      ends :
          (ins : Bytes)
          → s.incoming w.net ≡ ins
          → ((more : Bytes) (v : World Net Db)
              → length (s.incoming v.net) < fuel
              → (read_userid e fuel more v).0 ≢ out_of_fuel)
          → (read_userid e (suc fuel) read w).0 ≢ out_of_fuel
      ends [] coming later =
          let bound : length (s.incoming w.net) < 1 = rw coming (omega arith) in
          let short = (s.read_short w.net 1 bound).0 in
          elim (Bool-cases (get_or (e.asio.read 1 w.net).1 0 0 == 0)) [
            | inl is_zero ↦ rw is_zero λ p. cc
            | inr other ↦ rw (other, short) λ p. cc
          ]
      ends (c ∷ cs) coming later =
          let (m, ok, left, _, _) = s.read_ok w.net (c ∷ []) cs coming in
          let v = record w { net = m } in
          let bound : length (s.incoming m) < fuel =
            omega (arith, ap length left, ap length coming) in
          elim (Bool-cases (c == 0)) [
            | inl is_zero ↦ rw (ok, is_zero) λ p. cc
            | inr other ↦ rw (ok, other) (later (read ++ c ∷ []) v bound)
          ]

  request-Stands :
      (w₀ : World Net Db) (fuel : ℕ) (r : Request) (rest outs : Bytes)
      → IsRequest r
      → length r.userid < fuel
      → Triple (Stands s w₀ (encode r rest) outs) (init e fuel) (λ o v.
        (w : World Net Db) × Stands s (filled w₀ r) rest outs w
        × (o ≡ (connect_and_reply e w).0)
        × (v ≡ (connect_and_reply e w).1))
  unfolding init on_return read_ipv4
  request-Stands w₀ fuel r rest outs h enough =
      let user = r.userid ++ 0 ∷ rest in
      let address = r.a ∷ r.b ∷ r.c ∷ r.d ∷ [] in
      let w₁ = record w₀ { dst_port = r.high * 256 + r.low } in
      let w₂ = record w₁ { dst_address = form_ip_address_string address } in
      Triple-then _ (success, 1)
        (read_byte-Stands e s w₀ 1 (r.high ∷ r.low ∷ (address ++ user)) outs)
        (Triple-then _ true
          (read_port-Stands e s w₀ r.high r.low (address ++ user) outs h.high_is_byte h.low_is_byte)
          (Triple-then _ (form_ip_address_string address)
            (Triple-then _ (success, address) (read_bytes-Stands e s w₁ address user outs)
              (Triple-pure _ λ w p. (refl, p)))
            (Triple-then _ tt (modify-Stands e s w₁ _ user outs λ w n. refl) (
              rw (quad-is_empty r.a r.b r.c r.d) (
                Triple-then _ (returned (success, r.userid))
                  (userid-Stands w₂ fuel [] r.userid rest outs h.no_zero enough)
                  (rw (to_string_lem r.userid) (
                    Triple-then _ tt (modify-Stands e s w₂ _ rest outs λ w n. refl)
                      (record { at = λ w p. (w, p, refl, refl) }))))))))

  -- A well-formed CONNECT request is read back, whatever bytes follow it: `init` ends as
  -- `connect_and_reply` does at a state that holds just the request's address, port and user; exactly
  -- the request's bytes have been taken from the client, and none sent.
  pub init-encode_request :
      (w : World Net Db) (fuel : ℕ) (r : Request) (rest : Bytes)
      → IsRequest r
      → length r.userid < fuel
      → s.incoming w.net ≡ encode r rest
      → s.is_up w.net ≡ true
      → (v : World Net Db) × Stands s (filled w r) rest (s.outgoing w.net) v
        × ((init e fuel w).0 ≡ (connect_and_reply e v).0)
        × ((init e fuel w).1 ≡ (connect_and_reply e v).1)
  init-encode_request w fuel r rest h enough coming up =
      (request-Stands w fuel r rest (s.outgoing w.net) h enough).at w
        (record { same = refl; coming = coming; sent = refl; up = up })

module _ {Net Db : Type 0} (e : Env Net Db) (w : World Net Db) where
  -- Where the session's `connect` returns, the reply to its error is sent. An error, or a failure to send them, ends the handshake; otherwise the session is recorded, and a
  -- failure of the database does not end it.
  pub connect_and_reply_lem :
      (ec : ErrorCode) (port : ℕ) (v : World Net Db)
      → Connect.connect e w.dst_address (decimal w.dst_port) w ≡ (returned (ec, port), v)
      → let sent = write_bytes e (reply ec) (record v { bind_port = port }) in
        connect_and_reply e w ≡ (
          if failed sent.0 || failed ec
          then (returned false, sent.1)
          else on_return
              (create_record e sent.1).0
              (λ _. pure (returned true))
              (create_record e sent.1).1)
  unfolding connect_and_reply ◌>>=◌ get modify pure on_return
  connect_and_reply_lem success port v h =
      rw h
        (elim (Bool-cases
          (failed (write_bytes e (reply success) (record v { bind_port = port })).0)) [
            | inl f ↦ rw f
            | inr f ↦ rw f
          ])
  connect_and_reply_lem ec port v h =
      rw h
        (elim (Bool-cases (failed (write_bytes e (reply ec) (record v { bind_port = port })).0)) [
          | inl f ↦ rw f
          | inr f ↦ rw f
        ])
