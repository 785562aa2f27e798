-- ===== src/Tests/Lifetimes.antt =====
-- An example for a session from its start to its end: a SOCKS5 client with no login, the sockets that
-- count, and the rows in memory.
use socks5_proxy_sum_2022_co.Prelude.{Bool, ◌≡◌, refl, true, false, [], ◌∷◌, arith}
use socks5_proxy_sum_2022_co.World.{
  pos, Outcome, World, returned, pure, modify, get, ◌>>=◌, on_return,
}
use socks5_proxy_sum_2022_co.Session.Io.{read_byte, read_bytes, write_bytes}
use socks5_proxy_sum_2022_co.Session.Connect
use socks5_proxy_sum_2022_co.Session.Events.{handle_all}
use socks5_proxy_sum_2022_co.Session.Start.{
  start, create_proxy, version_of, make_socks, run_proxy, client_read, server_read, init_proxy,
}
use socks5_proxy_sum_2022_co.StringUtils.{decimal, form_ip_address_string, c_string}
use socks5_proxy_sum_2022_co.Socks.{
  check_version, read_port, read_ipv4, create_record, store_session,
}
use socks5_proxy_sum_2022_co.Socks5
use socks5_proxy_sum_2022_co.Statistics.Service
use socks5_proxy_sum_2022_co.Statistics.Sessions.{served}
use socks5_proxy_sum_2022_co.Statistics.Lifetime.{Accounted, run_session, session_accounts}
use socks5_proxy_sum_2022_co.Session.Create.{create}
use socks5_proxy_sum_2022_co.Tests.Rows.{Db, memory, memory-IsSqlite}
use socks5_proxy_sum_2022_co.Tests.Records.{memory-IsAvailable}
use socks5_proxy_sum_2022_co.Tests.Relays.{Pipes, piped, pipes-IsMetered, opened, events}

-- The version, no method but the one without a login, and CONNECT to 10.0.0.3:80.
abbrev caller : Pipes
caller = record {
  ins = 5 ∷ 1 ∷ 0 ∷ 5 ∷ 1 ∷ 0 ∷ 1 ∷ 10 ∷ 0 ∷ 0 ∷ 3 ∷ 0 ∷ 80 ∷ [];
  sent = 0;
  recv = 0;
  shut = false;
}

abbrev outcome : Outcome Bool × World Pipes Db
outcome =
    run_session piped pipes-IsMetered memory memory-IsSqlite memory-IsAvailable 0 1 caller opened.db
      (pos 1)

relays : (outcome.0 ≡ returned true) × (outcome.1.id ≡ 3)
unfolding create start create_proxy version_of make_socks run_proxy client_read server_read
    init_proxy Socks5.init Socks5.read_method_request Socks5.check_method
    Socks5.send_method_response Socks5.read_command_request Socks5.read_address Socks5.run_command
    Socks5.connect Socks5.record_connected Socks5.send_command_response Socks5.reply_of pure modify
    get ◌>>=◌ on_return read_byte read_bytes write_bytes check_version read_port read_ipv4
    create_record store_session Connect.connect Connect.resolve Connect.try_endpoints Connect.ask
    decimal form_ip_address_string Socks5.port_bytes c_string Service.create Service.with_connection
    Service.with_statement Service.step_done
relays = (refl, refl)

session_accounts_example :
    Accounted piped pipes-IsMetered memory memory-IsSqlite memory-IsAvailable
      (create caller opened.db (pos 1) 1)
      outcome.1
      (handle_all (served memory piped) events outcome.1)
session_accounts_example =
    session_accounts piped pipes-IsMetered memory memory-IsSqlite memory-IsAvailable 0 1 caller
      opened.db (pos 1) events relays.0 (omega (arith, relays.1)) (omega arith)
