-- ===== src/Session/Start.antt =====
-- `start`, `createProxy`, `client_read` and `server_read` of src/session.cpp.
use socks5_proxy_sum_2022_co.Prelude.{
  ℕ, Bool, true, false, not, Option, none, some, ◌==◌, if◌then◌else◌,
}
use socks5_proxy_sum_2022_co.Asio.{failed}
use socks5_proxy_sum_2022_co.World.{
  Env, Version, socks4_ver, socks5_ver, Outcome, returned, thrown, out_of_fuel, M, pure, modify,
  ◌>>=◌, ◌>>◌, on_return,
}
use socks5_proxy_sum_2022_co.Session.Io.{read_byte}
use socks5_proxy_sum_2022_co.Session.Connect.{ask}
use socks5_proxy_sum_2022_co.Socks.{ver_byte}
use socks5_proxy_sum_2022_co.Socks4
use socks5_proxy_sum_2022_co.Socks5

module _ {Net Db : Type 0} (e : Env Net Db) where
  -- The `switch`: the class that serves a version.
  unfoldable pub version_of : ℕ → Option Version
  version_of socks_ver =
      if socks_ver == ver_byte socks5_ver
      then some socks5_ver
      else if socks_ver == ver_byte socks4_ver
      then some socks4_ver
      else none

  -- `make_unique` of that class, or the `default` case, which leaves `_socks` alone.
  unfoldable pub make_socks : Option Version → M Net Db (Option Version)
  make_socks none = pure none
  make_socks (some v) = do modify (λ w. record w { socks = some v }); pure (some v)

  -- The version of the object made, which stands for `true`.
  unfoldable pub create_proxy : M Net Db (Option Version)
  unfolding version_of make_socks
  create_proxy = do
    (ec, socks_ver) ← read_byte e
    if failed ec then pure none else make_socks (version_of socks_ver)

  -- The virtual call `_socks->init()`.
  unfoldable pub init_proxy : ℕ → Version → M Net Db (Outcome Bool)
  init_proxy fuel socks5_ver = Socks5.init e
  init_proxy fuel socks4_ver = Socks4.init e fuel

  unfoldable pub client_read : M Net Db (Unit {0})
  client_read w =
      if e.asio.client_is_open w.net
      then (tt, record w { net = e.asio.async_read_client w.net })
      else (tt, w)

  unfoldable pub server_read : M Net Db (Unit {0})
  server_read w =
      if e.asio.server_is_open w.net
      then (tt, record w { net = e.asio.async_read_server w.net })
      else (tt, w)

  -- The body of the `try` behind `createProxy`; the log line asks for both addresses. The result
  -- says whether the relay was started.
  unfoldable pub run_proxy : ℕ → Option Version → M Net Db (Outcome Bool)
  unfolding client_read server_read
  run_proxy fuel none = pure (returned false)
  run_proxy fuel (some v) = do
    ready ← init_proxy fuel v
    on_return ready λ ok. if not ok then pure (returned false) else do
      modify (λ w. record w { session_id = w.id })
      client ← ask e e.asio.client_endpoint
      on_return client λ _. do
        server ← ask e e.asio.server_endpoint
        on_return server λ _. do client_read; server_read; pure (returned true)

  -- `catch (const std::runtime_error&)`: the exception is logged.
  abbrev pub caught : Outcome Bool → Outcome Bool
  caught (returned b) = returned b
  caught thrown = returned false
  caught out_of_fuel = out_of_fuel

  unfoldable pub start : ℕ → M Net Db (Outcome Bool)
  start fuel = do
    client ← ask e e.asio.client_endpoint
    result ← on_return client λ _. do proxy ← create_proxy; run_proxy fuel proxy
    pure (caught result)
