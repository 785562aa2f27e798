-- ===== src/Tests/Sessions.antt =====
-- The relay of src/session.cpp and its end.
use socks5_proxy_sum_2022_co.Prelude.{
  ℕ, ◌+◌, ◌≡◌, refl, inl, inr, true, false, not, List, [], ◌∷◌, ◌++◌, none, some, Bool-cases, codes,
  if◌then◌else◌,
}
use socks5_proxy_sum_2022_co.Asio.{Asio, success, eof, other}
use socks5_proxy_sum_2022_co.World.{Env, World, pred_ℤ, pos}
use socks5_proxy_sum_2022_co.Session.Events.{
  Event, client_done, server_done, destroyed, client_reads, server_reads, handle_all,
}
use socks5_proxy_sum_2022_co.Session.Closing.{counted_once}
use socks5_proxy_sum_2022_co.Session.Forwards.{
  Sockets, give_server, give_client, Gives, IsPair, bring_all, nothing, Relayed,
}
use socks5_proxy_sum_2022_co.Session.Forwards.Over.{relay_forwards}
use socks5_proxy_sum_2022_co.Tests.Peer.{env, world}

abbrev events : List Event
events = client_done success (codes "GET") ∷ server_done eof [] ∷ client_done eof [] ∷ []

counted_once_example :
    (handle_all (env false) (events ++ destroyed ∷ []) (world [])).sessions ≡ pred_ℤ (pos 1)
counted_once_example = counted_once (env false) (world []) events refl

-- A pair of sockets that keeps what it is given, and takes no bytes once it is closed.
abbrev keeper : Asio Sockets
keeper = record {
  read = λ n p. (eof, [], p);
  write = λ bs p. if p.is_shut then (other 9, p) else (success, give_client bs p);
  write_server = λ bs p. if p.is_shut then (other 9, p) else (success, give_server bs p);
  resolve = λ host service p. (success, 1 ∷ [], p);
  close_server_ec = λ p. (success, p);
  connect_server = λ endpoint p. (success, p);
  local_port = λ p. some 4660;
  client_endpoint = λ p. some (codes "10.0.0.2", 50000);
  server_endpoint = λ p. some (codes "10.0.0.3", 80);
  client_is_open = λ p. not p.is_shut;
  server_is_open = λ p. not p.is_shut;
  async_read_client = λ p. record p { asked_client = p.asked_client + 1 };
  async_read_server = λ p. record p { asked_server = p.asked_server + 1 };
  close_client = λ p. p;
  close_server = λ p. record p { is_shut = true };
}

keeper-Gives :
    Gives (λ p. p) give_server keeper.write_server × Gives (λ p. p) give_client keeper.write
keeper-Gives = (
  λ bytes p. elim (Bool-cases p.is_shut) [
    | inl down ↦ rw down (inr (refl, inr (refl, refl)))
    | inr up ↦ rw up (inl (refl, refl, refl))
  ],
  λ bytes p. elim (Bool-cases p.is_shut) [
    | inl down ↦ rw down (inr (refl, inr (refl, refl)))
    | inr up ↦ rw up (inl (refl, refl, refl))
  ],
)

abbrev keeper-IsPair : IsPair keeper
keeper-IsPair = record {
  view = λ p. p;
  write_server = keeper-Gives.0;
  write = keeper-Gives.1;
  client_is_open = λ p up. rw up refl;
  server_is_open = λ p up. rw up refl;
  reads_client = λ p. refl;
  reads_server = λ p. refl;
  closes = λ p. refl;
}

abbrev keeps : Env Sockets ℕ
keeps = record { asio = keeper; database = (env false).database; auth_flag = false; users = [] }

abbrev both_open : Sockets
both_open = record {
  to_server = [];
  to_client = codes "ok";
  asked_client = 0;
  asked_server = 0;
  is_shut = false;
  is_broken = false;
}

abbrev relaying : World Sockets ℕ
relaying = record {
  net = both_open;
  db = 0;
  socks = none;
  id = 0;
  dst_address = [];
  dst_port = 0;
  bind_port = 0;
  username = [];
  atyp = 0;
  cmd = 0;
  session_id = 0;
  is_closed = false;
  client_buf = codes "....";
  server_buf = [];
  sessions = pos 1;
}

-- The server's answer comes in after the client is gone.
abbrev relayed : List Event
relayed =
    client_reads
    ∷ client_done success (codes "GET")
    ∷ server_reads
    ∷ client_done eof []
    ∷ server_done success (codes "OK")
    ∷ []

relay_forwards_example :
    Relayed both_open (bring_all relayed nothing) (handle_all keeps relayed relaying).net
    × ((handle_all keeps relayed relaying).is_closed
        ≡ (handle_all keeps relayed relaying).net.is_shut)
relay_forwards_example = relay_forwards keeps keeper-IsPair relaying relayed refl refl
