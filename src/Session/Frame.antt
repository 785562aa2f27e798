-- ===== src/Session/Frame.antt =====
-- What the calls of src/session.cpp and src/socks.cpp that a handshake makes leave alone.
use socks5_proxy_sum_2022_co.Prelude.{
  ℕ, ◌≡◌, refl, ◌∙◌, Option, Bytes, arith, List, [], ◌∷◌, Bool-cases, Option-cases, inl, inr,
}
use socks5_proxy_sum_2022_co.Asio.{ErrorCode, failed}
use socks5_proxy_sum_2022_co.World.{Env, World, NewSession, Version}
use socks5_proxy_sum_2022_co.World.Triple.{Keeps, keeps_rules}
use socks5_proxy_sum_2022_co.Session.Io.{read_byte, read_bytes, write_bytes}
use socks5_proxy_sum_2022_co.Session.Connect.{try_endpoints, ask, resolve, connect}
use socks5_proxy_sum_2022_co.Socks.{
  check_version, read_port, read_ipv4, store_session, create_record,
}

-- A view of the state that does not see the network or the fields of a request.
pub record IsFrame {Net Db X : Type 0} (f : World Net Db → X) : Type 0 where
  pub net : (w : World Net Db) (n : Net) → f (record w { net = n }) ≡ f w
  pub dst_address : (w : World Net Db) (a : Bytes) → f (record w { dst_address = a }) ≡ f w
  pub dst_port : (w : World Net Db) (p : ℕ) → f (record w { dst_port = p }) ≡ f w
  pub bind_port : (w : World Net Db) (p : ℕ) → f (record w { bind_port = p }) ≡ f w
  pub atyp : (w : World Net Db) (p : ℕ) → f (record w { atyp = p }) ≡ f w
  pub cmd : (w : World Net Db) (p : ℕ) → f (record w { cmd = p }) ≡ f w

-- One that does not see the database and the number of the session's record either.
pub record IsUnrecorded {Net Db X : Type 0} (f : World Net Db → X) : Type 0 where
  pub db : (w : World Net Db) (d : Db) → f (record w { db = d }) ≡ f w
  pub record_id : (w : World Net Db) (d : Db) (i : ℕ) → f (record w { db = d; id = i }) ≡ f w

module _ {Net Db X : Type 0} (e : Env Net Db) {f : World Net Db → X} (frame : IsFrame f) where
  pub Keeps-read_byte : Keeps f (read_byte e)
  unfolding read_byte
  Keeps-read_byte = record { at = λ w. frame.net w _ }

  pub Keeps-read_bytes : (size : ℕ) → Keeps f (read_bytes e size)
  unfolding read_bytes
  Keeps-read_bytes size = record { at = λ w. frame.net w _ }

  pub Keeps-write_bytes : (bytes : Bytes) → Keeps f (write_bytes e bytes)
  unfolding write_bytes
  Keeps-write_bytes bytes = record { at = λ w. frame.net w _ }

  pub Keeps-ask : {A : Type 0} (query : Net → Option A) → Keeps f (ask e query)
  unfolding ask
  Keeps-ask query = record { at = λ w. ground arith }

  pub Keeps-check_version : (v : Version) → Keeps f (check_version e v)
  unfolding check_version
  Keeps-check_version v = search (keeps_rules, Keeps-read_byte)

  pub Keeps-read_port : Keeps f (read_port e)
  unfolding read_port
  Keeps-read_port = search (keeps_rules, Keeps-read_byte, frame.dst_port) depth 9

  pub Keeps-read_ipv4 : Keeps f (read_ipv4 e)
  unfolding read_ipv4
  Keeps-read_ipv4 = search (keeps_rules, Keeps-read_bytes)

  try_endpoints-frame :
      (ps : List ℕ) (ec : ErrorCode) (w : World Net Db) → f (try_endpoints e ps ec w).1 ≡ f w
  unfolding try_endpoints
  try_endpoints-frame [] ec w = refl
  try_endpoints-frame (p ∷ ps) ec w =
      let closed = (e.asio.close_server_ec w.net).1 in
      let net = (e.asio.connect_server p closed).1 in
      let ec' = (e.asio.connect_server p closed).0 in
      let rest = try_endpoints-frame ps ec' (record w { net = net }) ∙ frame.net w net in
      elim (Bool-cases (failed ec)) [ inl h ↦ rw h rest | inr h ↦ rw h refl ]

  Keeps-try_endpoints : (ps : List ℕ) (ec : ErrorCode) → Keeps f (try_endpoints e ps ec)
  Keeps-try_endpoints ps ec = record { at = try_endpoints-frame ps ec }

  Keeps-resolve : (host service : Bytes) → Keeps f (resolve e host service)
  unfolding resolve
  Keeps-resolve host service = record { at = λ w. frame.net w _ }

  pub Keeps-connect : (host service : Bytes) → Keeps f (connect e host service)
  unfolding connect
  Keeps-connect host service =
      search (keeps_rules, Keeps-ask, Keeps-try_endpoints, Keeps-resolve) depth 12

module _ {Net Db X : Type 0} (e : Env Net Db) {f : World Net Db → X} (frame : IsFrame f)
    (unseen : IsUnrecorded f) where
  Keeps-store_session : (s : NewSession) → Keeps f (store_session e s)
  unfolding store_session
  Keeps-store_session s = record {
    at = λ w. elim (Option-cases (e.database.create s w.db).0) [
      | inl h ↦ rw (h, store_session) (unseen.db w _)
      | inr (i, h) ↦ rw (h, store_session) (unseen.record_id w _ i)
    ];
  }

  pub Keeps-create_record : Keeps f (create_record e)
  unfolding create_record
  Keeps-create_record = search (keeps_rules, Keeps-ask e frame, Keeps-store_session) depth 9
