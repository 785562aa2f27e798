-- ===== src/Server.antt =====
-- src/server.h, src/server.cpp: the server's counter of sessions, and who runs what. The accept
-- loop and the sessions' handlers share the one thread that runs the `io_context` (src/main.cpp);
-- `TcpSession::start` runs on a pool.
pub mod Run
pub mod Bound
pub mod Stuck
use socks5_proxy_sum_2022_co.Prelude.{
  ℕ, zero, suc, ◌+◌, ◌-◌, ◌^◌, ◌<◌, ◌≡◌, Bool, true, false, ◌&&◌, ltb, ◌==◌, Option, none, some,
  if◌then◌else◌,
}
use socks5_proxy_sum_2022_co.World.{ℤ, pos, negsuc, suc_ℤ, pred_ℤ}

-- What the thread of the `io_context` does: it waits for a completed operation, or it is in the loop
-- of `start_accept`. The flag says that the accept before it failed: the session made for it is
-- destroyed once its handler returns.
pub data IoThread : Type 0 where
  waiting : IoThread
  spinning : Bool → IoThread

pub record Server : Type 0 where
  -- `_sessions` and `_maxSessions`.
  pub sessions : ℤ
  pub max_sessions : ℕ
  pub io : IoThread
  -- Sessions accepted and not yet closed: those whose `start` has not returned, and those that relay.
  pub starting : ℕ
  pub relaying : ℕ

-- The constructor, up to the loop of its `start_accept`.
abbrev pub init : ℕ → Server
init max_sessions = record {
  sessions = pos 0;
  max_sessions = max_sessions;
  io = spinning false;
  starting = 0;
  relaying = 0;
}

-- The conversion of the counter, an `int`, to `size_t` in a comparison.
abbrev pub to_size : ℤ → ℕ
to_size (pos n) = n
to_size (negsuc n) = 2 ^ 64 - suc n

-- The condition of the loop.
unfoldable pub is_full : Server → Bool
is_full s = ltb 0 s.max_sessions && to_size s.sessions == s.max_sessions

-- `close` of a session, as far as the server sees it.
unfoldable pub drop_session : Server → Server
drop_session s = record s { sessions = pred_ℤ s.sessions }

-- One test of the loop: the thread goes on spinning, or starts to wait for the next client.
unfoldable pub start_accept : Bool → Server → Server
unfolding is_full drop_session
start_accept failed s =
    let accepting = record s { io = waiting } in
    if is_full s then s else if failed then drop_session accepting else accepting

-- `handle_accept`, up to the loop of its `start_accept`. The argument is `error`.
unfoldable pub handle_accept : Bool → Server → Server
handle_accept true s = record s { io = spinning true }
handle_accept false s = record s {
  sessions = suc_ℤ s.sessions;
  starting = suc s.starting;
  io = spinning false;
}

-- What can happen next. A relaying session ends only in a handler, which wants the `io_context`'s
-- thread; a session that fails to start ends on the pool. The session that was accepted last is kept by
-- its handler while that is in the loop, and ends only behind it: here it may end sooner.
pub data Step : Server → Server → Type 0 where
  accepts : {s : Server} (error : Bool) → s.io ≡ waiting → Step s (handle_accept error s)
  spins : {s : Server} (failed : Bool) → s.io ≡ spinning failed → Step s (start_accept failed s)
  starts :
      {s : Server} (n : ℕ)
      → s.starting ≡ suc n
      → Step s (record s { starting = n; relaying = suc s.relaying })
  fails_to_start :
      {s : Server} (n : ℕ) → s.starting ≡ suc n → Step s (drop_session (record s { starting = n }))
  ends :
      {s : Server} (n : ℕ)
      → s.io ≡ waiting
      → s.relaying ≡ suc n
      → Step s (drop_session (record s { relaying = n }))
