-- ===== src/Session/Relay.antt =====
-- The handlers, `writeToSocket` and `close` of src/session.cpp. A handler is called by the one
-- thread that runs the `io_context`, when the read that it was given to is complete.
use socks5_proxy_sum_2022_co.Prelude.{
  ℕ, Bool, true, false, Option, none, some, Bytes, ltb, take, if◌then◌else◌,
}
use socks5_proxy_sum_2022_co.Asio.{ErrorCode, failed}
use socks5_proxy_sum_2022_co.World.{Env, World, Version, pred_ℤ, M, pure, modify, get, ◌>>=◌, ◌>>◌}
use socks5_proxy_sum_2022_co.Socks
use socks5_proxy_sum_2022_co.Session.Start.{client_read, server_read}

module _ {Net Db : Type 0} (e : Env Net Db) where
  -- `if (_socks != nullptr) _socks->close()`.
  unfoldable pub close_socks : Option Version → M Net Db (Unit {0})
  close_socks none = pure tt
  close_socks (some v) = Socks.close e

  -- The body of `close`; the exceptions of the sockets are caught.
  unfoldable pub close_open : M Net Db (Unit {0})
  close_open = do
    modify
        (λ w. record w { is_closed = true; net = e.asio.close_server (e.asio.close_client w.net) })
    w ← get
    close_socks w.socks
    modify (λ w. record w { sessions = pred_ℤ w.sessions })

  -- `_isClosed.exchange(true)` lets one call through.
  unfoldable pub close : M Net Db (Unit {0})
  close = do w ← get; if w.is_closed then pure tt else close_open

  unfoldable pub write_to_socket :
      (Bytes → Net → ErrorCode × Net) → Bytes → ℕ → Bool → M Net Db Bool
  write_to_socket socket buffer len is_server w =
      let (ec, net) = socket (take len buffer) w.net in
      let written : World Net Db = record w { net = net } in
      if failed ec then (false, written) else (true, (Socks.write_stat e len is_server written).1)

  unfoldable pub client_handle : ErrorCode → ℕ → M Net Db (Unit {0})
  unfolding close
  client_handle error bytes_transferred = do
    w ← get
    if failed error then close else do
      sent ←
          if ltb 0 bytes_transferred
          then write_to_socket e.asio.write_server w.client_buf bytes_transferred true
          else pure false
      if sent then client_read e else close

  unfoldable pub server_handle : ErrorCode → ℕ → M Net Db (Unit {0})
  unfolding close
  server_handle error bytes_transferred = do
    w ← get
    if failed error then close else do
      sent ←
          if ltb 0 bytes_transferred
          then write_to_socket e.asio.write w.server_buf bytes_transferred false
          else pure false
      if sent then server_read e else close
