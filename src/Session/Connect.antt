-- ===== src/Session/Connect.antt =====
-- `TcpSession::connect` of src/session.cpp: the endpoints of a name, tried in turn.
use socks5_proxy_sum_2022_co.Prelude.{ℕ, List, [], ◌∷◌, Option, none, some, Bytes, if◌then◌else◌}
use socks5_proxy_sum_2022_co.Asio.{ErrorCode, host_not_found, failed}
use socks5_proxy_sum_2022_co.World.{Env, Outcome, returned, thrown, M, pure, ◌>>=◌, on_return}

module _ {Net Db : Type 0} (e : Env Net Db) where
  -- `while (ec && endpoint_iterator != end)`; the error of `close` is overwritten.
  unfoldable pub try_endpoints : List ℕ → ErrorCode → M Net Db ErrorCode
  try_endpoints [] ec w = (ec, w)
  try_endpoints (p ∷ ps) ec w =
      let (_, closed) = e.asio.close_server_ec w.net in
      let (ec', net) = e.asio.connect_server p closed in
      let rest = try_endpoints ps ec' (record w { net = net }) in
      if failed ec then rest else (ec, w)

  -- A socket's address, asked for by a log line or for the port; it may throw.
  unfoldable pub ask : {A : Type 0} → (Net → Option A) → M Net Db (Outcome A)
  ask query w = elim (query w.net) [ none ↦ (thrown, w) | some a ↦ (returned a, w) ]

  unfoldable pub resolve : Bytes → Bytes → M Net Db (ErrorCode × List ℕ)
  resolve host_name service_name w =
      let (ec, endpoints, net) = e.asio.resolve host_name service_name w.net in
      ((ec, endpoints), record w { net = net })

  -- The port is asked for first, and then the server's address for a log line.
  unfoldable pub connect : Bytes → Bytes → M Net Db (Outcome (ErrorCode × ℕ))
  connect host_name service_name = do
    (ec, endpoints) ← resolve host_name service_name
    if failed ec then pure (returned (ec, 0)) else do
      ec ← try_endpoints endpoints host_not_found
      if failed ec then pure (returned (ec, 0)) else do
        port ← ask e.asio.local_port
        on_return port λ bind_port. do
          remote ← ask e.asio.server_endpoint
          on_return remote λ _. pure (returned (ec, bind_port))
