-- ===== src/Session/Events.antt =====
-- The handlers of src/session.cpp over the life of a session: each completed read is an event, and so
-- are the two reads that `start` asks for on a thread of the pool, each of which may come late, and
-- the end of the object, whose destructor calls `close`. Each call runs whole.
use socks5_proxy_sum_2022_co.Prelude.{ℕ, ◌+◌, List, [], ◌∷◌, ◌++◌, Bytes, length, drop}
use socks5_proxy_sum_2022_co.Asio.{ErrorCode}
use socks5_proxy_sum_2022_co.World.{Env, World}
use socks5_proxy_sum_2022_co.Session.Start.{client_read, server_read}
use socks5_proxy_sum_2022_co.Session.Relay.{close, client_handle, server_handle}

-- A completed read of some bytes into the start of a buffer, with its error.
pub data Event : Type 0 where
  client_done server_done : ErrorCode → Bytes → Event
  destroyed : Event
  -- The calls of `client_read` and `server_read` at the end of `start`.
  client_reads server_reads : Event

-- `async_read_some` has put the bytes at the start of the buffer.
abbrev pub fill : Bytes → Bytes → Bytes
fill chunk buffer = chunk ++ drop (length chunk) buffer

-- The bytes that events bring.
abbrev pub event_bytes : Event → ℕ
event_bytes (client_done ec chunk) = length chunk
event_bytes (server_done ec chunk) = length chunk
event_bytes destroyed = 0
event_bytes client_reads = 0
event_bytes server_reads = 0

abbrev pub total_bytes : List Event → ℕ
total_bytes [] = 0
total_bytes (ev ∷ evs) = event_bytes ev + total_bytes evs

module _ {Net Db : Type 0} (e : Env Net Db) where
  unfoldable pub handle : Event → World Net Db → World Net Db
  handle (client_done ec chunk) w =
      (client_handle e ec (length chunk) (record w { client_buf = fill chunk w.client_buf })).1
  handle (server_done ec chunk) w =
      (server_handle e ec (length chunk) (record w { server_buf = fill chunk w.server_buf })).1
  handle destroyed w = (close e w).1
  handle client_reads w = (client_read e w).1
  handle server_reads w = (server_read e w).1

  unfoldable pub handle_all : List Event → World Net Db → World Net Db
  unfolding handle
  handle_all [] w = w
  handle_all (ev ∷ evs) w = handle_all evs (handle ev w)
