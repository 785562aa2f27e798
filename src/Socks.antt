-- ===== src/Socks.antt =====
-- src/socks.h, src/socks.cpp: what the two protocols share.
use Prim.Native.Nat.{bit_or}
use socks5_proxy_sum_2022_co.Prelude.{
  ℕ, ◌*◌, ◌%◌, ◌^◌, Bool, true, false, not, [], none, some, Bytes, ◌==◌, if◌then◌else◌,
}
use socks5_proxy_sum_2022_co.StringUtils.{decimal, form_ip_address_string}
use socks5_proxy_sum_2022_co.Asio.{failed}
use socks5_proxy_sum_2022_co.World.{
  Env, World, to_server, to_client, NewSession, Version, socks4_ver, socks5_ver, Outcome, returned,
  M, pure, modify, get, ◌>>=◌, ◌>>◌, on_return,
}
use socks5_proxy_sum_2022_co.Session.Io.{read_byte, read_bytes}
use socks5_proxy_sum_2022_co.Session.Connect.{ask}

abbrev pub rsv : ℕ
rsv = 0

abbrev pub ver_byte : Version → ℕ
ver_byte socks4_ver = 4
ver_byte socks5_ver = 5

-- `AUTH_STATUS`.
abbrev pub auth_success : ℕ
auth_success = 0

abbrev pub auth_deny : ℕ
auth_deny = 1

-- `CMD`.
abbrev pub cmd_connect : ℕ
cmd_connect = 1

abbrev pub cmd_bind : ℕ
cmd_bind = 2

abbrev pub cmd_udp_associate : ℕ
cmd_udp_associate = 3

module _ {Net Db : Type 0} (e : Env Net Db) where
  unfoldable pub check_version : Version → M Net Db Bool
  check_version socks_ver = do
    (ec, ver) ← read_byte e
    if failed ec then pure false else pure (ver == ver_byte socks_ver)

  -- The first byte is stored before the second is read; `_dstPort` has sixteen bits.
  unfoldable pub read_port : M Net Db Bool
  read_port = do
    (ec, high) ← read_byte e
    modify (λ w. record w { dst_port = high })
    if failed ec then pure false else do
      (ec', low) ← read_byte e
      modify (λ w. record w { dst_port = bit_or (high * 2 ^ 8) low % 2 ^ 16 })
      pure (not (failed ec'))

  -- The empty text stands for a failed read.
  unfoldable pub read_ipv4 : M Net Db Bytes
  read_ipv4 = do
    (ec, dst_add) ← read_bytes e 4
    if failed ec then pure [] else pure (form_ip_address_string dst_add)

  -- `DatabaseService::create` inside its `try`: a failure is caught and logged.
  unfoldable pub store_session : NewSession → M Net Db Bool
  store_session s w = elim (e.database.create s w.db).0 [
    | none ↦ (false, record w { db = (e.database.create s w.db).1 })
    | some id ↦ (true, record w { db = (e.database.create s w.db).1; id = id })
  ]

  -- The row that a session is recorded by, with the client's address.
  abbrev pub new_session : World Net Db → Bytes × ℕ → NewSession
  new_session w endpoint = record {
    user = w.username;
    src_addr = endpoint.0;
    src_port = decimal endpoint.1;
    dst_addr = w.dst_address;
    dst_port = decimal w.dst_port;
  }

  -- An exception of the socket is not caught here.
  unfoldable pub create_record : M Net Db (Outcome Bool)
  create_record = do
    address ← ask e e.asio.client_endpoint
    on_return address λ endpoint. do
      w ← get
      created ← store_session (new_session w endpoint)
      pure (returned created)

  -- `Socks::close`; an exception of the database is caught.
  unfoldable pub close : M Net Db (Unit {0})
  close w =
      let (_, db) = e.database.close w.id w.db in
      if w.id == 0 then (tt, w) else (tt, record w { db = db; id = 0 })

  unfoldable pub write_stat : ℕ → Bool → M Net Db (Unit {0})
  write_stat bytes is_server w =
      let dest = if is_server then to_server else to_client in
      let (_, db) = e.database.update w.id bytes dest w.db in
      if w.id == 0 then (tt, w) else (tt, record w { db = db })
