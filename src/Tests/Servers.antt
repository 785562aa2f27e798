-- ===== src/Tests/Servers.antt =====
-- Runs of src/server.cpp.
use socks5_proxy_sum_2022_co.Prelude.{◌≡◌, ◌≤◌, refl, true, false, arith}
use socks5_proxy_sum_2022_co.Server.{
  Server, init, waiting, spinning, Step, is_full, start_accept, handle_accept,
}
use socks5_proxy_sum_2022_co.Server.Run.{Reachable, live}
use socks5_proxy_sum_2022_co.Server.Bound.{live_bound}
use socks5_proxy_sum_2022_co.Server.Stuck.{limit_reaches_stuck, limit_exceeded}

-- A limit of two: the server waits, one client is accepted, and then an accept fails.
abbrev ready : Server
ready = start_accept false (init 2)

ready-Reachable : Reachable 2 0 ready
ready-Reachable = Reachable.next (Step.spins false refl) Reachable.begins

ready_waits : ready.io ≡ waiting
unfolding start_accept is_full
ready_waits = refl

abbrev dropped : Server
dropped = start_accept true (handle_accept true ready)

accept_fails : (handle_accept true ready).io ≡ spinning true
unfolding handle_accept
accept_fails = refl

dropped-Reachable : Reachable 2 1 dropped
dropped-Reachable =
    Reachable.next (Step.spins true accept_fails)
      (Reachable.next (Step.accepts true ready_waits) ready-Reachable)

live_bound_example : live dropped ≤ 3
live_bound_example = live_bound (omega arith) dropped-Reachable

limit_reaches_stuck_example :
    (s : Server) × (Reachable 2 0 s) × (s.relaying ≡ 2) × ((t : Server) → Step s t → t ≡ s)
limit_reaches_stuck_example = limit_reaches_stuck 2 (omega arith)

limit_exceeded_example : (s : Server) × (Reachable 2 1 s) × (live s ≡ 3)
limit_exceeded_example = limit_exceeded 2
