-- ===== src/Statistics/Lifetime.antt =====
-- A session's record from `start` of src/session.cpp to any point of its relay.
use socks5_proxy_sum_2022_co.Prelude.{
  Bool, ℕ, ◌≡◌, ◌<◌, ◌^◌, refl, ◌∙◌, true, List, none, arith, ==_refl,
}
use socks5_proxy_sum_2022_co.World.{ℤ, Env, World, Outcome, returned}
use socks5_proxy_sum_2022_co.Session.Start.{start}
use socks5_proxy_sum_2022_co.Session.Create.{create}
use socks5_proxy_sum_2022_co.Session.Made.{start-is_closed, start_made}
use socks5_proxy_sum_2022_co.Session.Events.{Event, handle_all, total_bytes}
use socks5_proxy_sum_2022_co.Statistics.Sqlite.{Sqlite}
use socks5_proxy_sum_2022_co.Statistics.Laws.{IsSqlite}
use socks5_proxy_sum_2022_co.Statistics.Refine.{begun}
use socks5_proxy_sum_2022_co.Statistics.Available.{IsAvailable}
use socks5_proxy_sum_2022_co.Statistics.Sessions.{served, usages}
use socks5_proxy_sum_2022_co.Statistics.Account.{IsMetered, Account}
use socks5_proxy_sum_2022_co.Statistics.Started.{start_begins}
use socks5_proxy_sum_2022_co.Statistics.Relay.{relay_accounts}

module _ {Net Db Stmt : Type 0} (e : Env Net Db) (meter : IsMetered e.asio) (a : Sqlite Db Stmt)
    (s : IsSqlite a) (v : IsAvailable a s) where
  -- What a session that has a relay has done to the records: it has begun one under a number that was
  -- free, and keeps the account of it.
  abbrev pub Accounted : World Net Db → World Net Db → World Net Db → Type 0
  Accounted w relay now =
      (usages a s w relay.id ≡ none)
      × ((k : ℕ) → usages a s relay k ≡ begun relay.id (usages a s w) k)
      × Account meter a s relay.id 0 0 relay 0 now

  -- The session that `TcpSession::create` makes, after its `start`.
  abbrev pub run_session : ℕ → ℕ → Net → Db → ℤ → Outcome Bool × World Net Db
  run_session fuel buffer_size_kb net db sessions =
      start (served a e) fuel (create net db sessions buffer_size_kb)

  -- Once `start` of a new session has started a relay, whenever the first reads are asked for, whatever
  -- reads complete in whatever order and with whatever errors, and whichever writes fail: `start` has
  -- begun a record with no bytes under a free number and changed no other, and since then that record
  -- has grown by just the bytes that were written without an error, to each side, is open as long as the
  -- session is, and no other record has changed. This when no call of sqlite fails and no write to a
  -- shut socket succeeds, and if the number and all bytes that are read fit an `int`.
  pub session_accounts :
      (fuel buffer_size_kb : ℕ) (net : Net) (db : Db) (sessions : ℤ) (evs : List Event)
      → (run_session fuel buffer_size_kb net db sessions).0 ≡ returned true
      → (run_session fuel buffer_size_kb net db sessions).1.id < 2 ^ 31
      → total_bytes evs < 2 ^ 31
      → Accounted
          (create net db sessions buffer_size_kb)
          (run_session fuel buffer_size_kb net db sessions).1
          (handle_all (served a e) evs (run_session fuel buffer_size_kb net db sessions).1)
  unfolding create
  session_accounts fuel buffer_size_kb net db sessions evs relays small room =
      let w = create net db sessions buffer_size_kb in
      let now = (start (served a e) fuel w).1 in
      let (ver, there) = start_made (served a e) fuel w relays in
      let (positive, (free, begins)) = start_begins e a s v (s.rows w.db) fuel w refl refl relays in
      (
        free,
        begins,
        relay_accounts e meter a s v now evs ver 0 0 (start-is_closed (served a e) fuel w) there
            positive small (begins now.id ∙ rw (==_refl now.id) refl) (omega (arith, room))
            (omega (arith, room)),
      )
