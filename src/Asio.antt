-- ===== src/Asio.antt =====
-- What the proxy calls and does not implement: Boost.Asio's sockets and resolver (the calls in
-- src/session.cpp and src/socks.cpp), as an interface over a state `Net` of both sockets.
use socks5_proxy_sum_2022_co.Prelude.{
  ℕ, ◌≡◌, ◌<◌, Bool, true, false, List, ◌++◌, Option, Bytes, length,
}

-- `bs::error_code`: no error, the codes of `ba::error` that the source names, and the others.
pub data ErrorCode : Type 0 where
  success eof host_not_found host_unreachable connection_aborted connection_refused : ErrorCode
  timed_out network_unreachable : ErrorCode
  other : ℕ → ErrorCode

-- `if (ec)`.
abbrev pub failed : ErrorCode → Bool
failed success = false
failed _ = true

pub record Asio (Net : Type 0) : Type 0 where
  -- `ba::read(_client_socket, ba::buffer(vec), ec)` of a buffer of that size: the error and what
  -- the buffer holds afterwards.
  pub read : ℕ → Net → ErrorCode × Bytes × Net
  -- `ba::write` to the client, and to the server.
  pub write : Bytes → Net → ErrorCode × Net
  pub write_server : Bytes → Net → ErrorCode × Net
  -- `resolver.resolve(query, ec)`: the endpoints that its iterator runs through.
  pub resolve : Bytes → Bytes → Net → ErrorCode × List ℕ × Net
  -- `_server_socket.close(ec)` and `_server_socket.connect(endpoint, ec)`.
  pub close_server_ec : Net → ErrorCode × Net
  pub connect_server : ℕ → Net → ErrorCode × Net
  -- `local_endpoint().port()` and `remote_endpoint()`; `none` is a thrown `system_error`.
  pub local_port : Net → Option ℕ
  pub client_endpoint : Net → Option (Bytes × ℕ)
  pub server_endpoint : Net → Option (Bytes × ℕ)
  pub client_is_open : Net → Bool
  pub server_is_open : Net → Bool
  -- `async_read_some` with the session's handler.
  pub async_read_client : Net → Net
  pub async_read_server : Net → Net
  -- `close()` inside its `try`, which throws or not.
  pub close_client : Net → Net
  pub close_server : Net → Net

-- The documented behaviour of a connected stream: `read` returns the next bytes in order, or an
-- error if the peer's bytes end before; `write` hands over all bytes in order, or fails.
pub record IsStream {Net : Type 0} (a : Asio Net) : Type 0 where
  pub incoming : Net → Bytes
  pub outgoing : Net → Bytes
  -- The peer still takes bytes.
  pub is_up : Net → Bool
  pub read_ok :
      (n : Net) (xs ys : Bytes)
      → incoming n ≡ xs ++ ys
      → (m : Net) × (a.read (length xs) n ≡ (success, xs, m))
        × (incoming m ≡ ys)
        × (outgoing m ≡ outgoing n)
        × (is_up m ≡ is_up n)
  pub read_short :
      (n : Net) (k : ℕ)
      → length (incoming n) < k
      → (failed (a.read k n).0 ≡ true) × (outgoing (a.read k n).2 ≡ outgoing n)
  pub write_ok :
      (n : Net) (bs : Bytes)
      → is_up n ≡ true
      → (m : Net) × (a.write bs n ≡ (success, m))
        × (incoming m ≡ incoming n)
        × (outgoing m ≡ outgoing n ++ bs)
        × (is_up m ≡ true)
