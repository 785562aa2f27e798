-- ===== src/Session/Create.antt =====
-- A new session: the constructors of src/session.cpp, src/socks.h and src/socks5.h.
use socks5_proxy_sum_2022_co.Prelude.{ℕ, ◌*◌, ◌%◌, ◌^◌, false, [], none, replicate}
use socks5_proxy_sum_2022_co.World.{ℤ, World}

-- `TcpSession::create`, on the sockets that are accepted, the database and the server's counter as they
-- are. The fields of the Socks object, which is made later, have the values that it is made with; its
-- `_atyp` and `_cmd` have none until a request is read, and stand at 0.
unfoldable pub create : {Net Db : Type 0} → Net → Db → ℤ → ℕ → World Net Db
create net db sessions buffer_size_kb = record {
  net = net;
  db = db;
  socks = none;
  id = 0;
  dst_address = [];
  dst_port = 0;
  bind_port = 0;
  username = [];
  atyp = 0;
  cmd = 0;
  session_id = 0;
  is_closed = false;
  client_buf = replicate (buffer_size_kb * 1024 % 2 ^ 64) 0;
  server_buf = replicate (buffer_size_kb * 1024 % 2 ^ 64) 0;
  sessions = sessions;
}
