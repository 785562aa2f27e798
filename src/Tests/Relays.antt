-- ===== src/Tests/Relays.antt =====
-- Sockets that count what is written to them, for the examples, and what happens to a relay.
use socks5_proxy_sum_2022_co.Prelude.{
  ltb, take, drop, Bytes, ℕ, ◌+◌, refl, inl, inr, Bool, true, false, List, [], ◌∷◌, some, length,
  codes, if◌then◌else◌, Bool-cases,
}
use socks5_proxy_sum_2022_co.Asio.{Asio, success, eof, other}
use socks5_proxy_sum_2022_co.World.{pos, Env, World, socks5_ver}
use socks5_proxy_sum_2022_co.Session.Events.{
  Event, client_done, server_done, destroyed, client_reads, server_reads,
}
use socks5_proxy_sum_2022_co.Statistics.Service.{database_service}
use socks5_proxy_sum_2022_co.Statistics.Account.{IsMetered, Meters}
use socks5_proxy_sum_2022_co.Tests.Rows.{Db, memory}
use socks5_proxy_sum_2022_co.Statistics.Sqlite.{new_row}
use socks5_proxy_sum_2022_co.Tests.Records.{ann}

pub record Pipes : Type 0 where
  -- What the client still sends.
  pub ins : Bytes
  pub sent : ℕ
  pub recv : ℕ
  pub shut : Bool

abbrev pub pipes : Asio Pipes
pipes = record {
  read = λ n p.
      if ltb (length p.ins) n
      then (eof, [], record p { ins = [] })
      else (success, take n p.ins, record p { ins = drop n p.ins });
  write =
      λ bs p. if p.shut then (other 9, p) else (success, record p { recv = p.recv + length bs });
  write_server =
      λ bs p. if p.shut then (other 9, p) else (success, record p { sent = p.sent + length bs });
  resolve = λ host service p. (success, 1 ∷ [], p);
  close_server_ec = λ p. (success, p);
  connect_server = λ endpoint p. (success, p);
  local_port = λ p. some 4660;
  client_endpoint = λ p. some (codes "10.0.0.2", 50000);
  server_endpoint = λ p. some (codes "10.0.0.3", 80);
  client_is_open = λ p. true;
  server_is_open = λ p. true;
  async_read_client = λ p. p;
  async_read_server = λ p. p;
  close_client = λ p. p;
  close_server = λ p. record p { shut = true };
}

-- The state of both sockets says what a write does.
pub write-Meters :
    Meters (λ p. p.sent) (λ p. p.recv) (λ p. p.shut) pipes.write_server
    × Meters (λ p. p.recv) (λ p. p.sent) (λ p. p.shut) pipes.write
write-Meters = (
  λ bytes p. elim (Bool-cases p.shut) [
    | inl down ↦ rw down (refl, λ h. h, inr (refl, refl))
    | inr up ↦ rw up (refl, λ h. cc, inl (refl, refl, refl))
  ],
  λ bytes p. elim (Bool-cases p.shut) [
    | inl down ↦ rw down (refl, λ h. h, inr (refl, refl))
    | inr up ↦ rw up (refl, λ h. cc, inl (refl, refl, refl))
  ],
)

abbrev pub pipes-IsMetered : IsMetered pipes
pipes-IsMetered = record {
  sent_bytes = λ p. p.sent;
  recv_bytes = λ p. p.recv;
  is_shut = λ p. p.shut;
  write_server = write-Meters.0;
  write = write-Meters.1;
  keeps_sent = λ p. (refl, refl, refl);
  keeps_recv = λ p. (refl, refl, refl);
  shut_client = λ p h. h;
  shut_server = λ p h. h;
  shuts = λ p. refl;
}

abbrev pub piped : Env Pipes Db
piped = record { asio = pipes; database = database_service memory; auth_flag = false; users = [] }

abbrev pub opened : World Pipes Db
opened = record {
  net = record { ins = []; sent = 7; recv = 0; shut = false };
  db = record {
    rows =
        record (new_row 1 (codes "then") ann) { bytes_sent = pos 40 }
        ∷ new_row 2 (codes "then") ann
        ∷ [];
    last = 2;
  };
  socks = some socks5_ver;
  id = 1;
  dst_address = [];
  dst_port = 80;
  bind_port = 0;
  username = [];
  atyp = 0;
  cmd = 1;
  session_id = 1;
  is_closed = false;
  client_buf = [];
  server_buf = [];
  sessions = pos 1;
}

-- An answer still comes in after the client is gone.
abbrev pub events : List Event
events =
    client_reads
    ∷ client_done success (codes "GET ")
    ∷ server_reads
    ∷ server_done success (codes "OK")
    ∷ client_done eof []
    ∷ server_done success (codes "more")
    ∷ destroyed
    ∷ []
