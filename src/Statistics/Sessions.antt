-- ===== src/Statistics/Sessions.antt =====
-- The records as a running session uses them: `writeToSocket` of src/session.cpp and `Socks::close` of
-- src/socks.cpp, on the database of src/stat_db_service.cpp.
use socks5_proxy_sum_2022_co.Prelude.{
  ℕ, ◌≡◌, ◌<◌, ◌^◌, ◌==◌, refl, sym, ap, ◌∙◌, inl, inr, Bool, true, false, List, Option, none, some,
  Bytes, Option-cases, take, arith, if◌then◌else◌,
}
use socks5_proxy_sum_2022_co.Asio.{ErrorCode, failed}
use socks5_proxy_sum_2022_co.World.{pos, Env, World, Dest, to_server, to_client}
use socks5_proxy_sum_2022_co.Socks
use socks5_proxy_sum_2022_co.Session.Relay.{write_to_socket}
use socks5_proxy_sum_2022_co.Statistics.Sqlite.{Sqlite, Row, find_row}
use socks5_proxy_sum_2022_co.Statistics.Service.{update, close, database_service}
use socks5_proxy_sum_2022_co.Statistics.Laws.{IsSqlite}
use socks5_proxy_sum_2022_co.Statistics.Calls.{Does}
use socks5_proxy_sum_2022_co.Statistics.Refine.{
  Usage, usage, usage_of, Statistics, credited, ended, Fits, update_refines, close_refines,
}
use socks5_proxy_sum_2022_co.Statistics.Available.{IsAvailable, update_returns, close_returns}

abbrev pub dest_of : Bool → Dest
dest_of is_server = if is_server then to_server else to_client

usage-row :
    (id : ℕ) (rs : List Row) (u : Usage)
    → usage id rs ≡ some u
    → (r : Row) × (find_row (pos id) rs ≡ some r)
usage-row id rs u h = elim (Option-cases (find_row (pos id) rs)) [
  | inl missing ↦ let no : none ≡ some u = sym (ap usage_of missing) ∙ h in cc
  | inr found ↦ found
]

module _ {Net Db Stmt : Type 0} (a : Sqlite Db Stmt) where
  -- The environment with this database.
  abbrev pub served : Env Net Db → Env Net Db
  served e = record e { database = database_service a }

  abbrev pub usages : IsSqlite a → World Net Db → Statistics
  usages s w k = usage k (s.rows w.db)

module _ {Net Db Stmt : Type 0} (e : Env Net Db) (a : Sqlite Db Stmt) (s : IsSqlite a)
    (v : IsAvailable a s) where
  Does-returned :
      (rs : List Row) (Q : Unit {0} → List Row → Type 0) (x : Option (Unit {0}) × Db)
      → Does a s rs Q x
      → x.0 ≡ some tt
      → Q tt (s.rows x.1)
  Does-returned rs Q (none, db) h returns = cc
  Does-returned rs Q (some u, db) h returns = h

  update-credited :
      (id bytes : ℕ) (dest : Dest) (u : Usage) (db : Db)
      → usage id (s.rows db) ≡ some u
      → Fits dest bytes u
      → 0 < id
      → id < 2 ^ 31
      → (k : ℕ)
      → usage k (s.rows (update a id bytes dest db).1)
        ≡ credited id bytes dest (λ j. usage j (s.rows db)) k
  update-credited id bytes dest u db there fits positive small =
      let (r, found) = usage-row id (s.rows db) u there in
      Does-returned (s.rows db)
        (λ _ left. (k : ℕ) → usage k left ≡ credited id bytes dest (λ j. usage j (s.rows db)) k)
        (update a id bytes dest db) (update_refines a s id bytes dest u db there fits)
        (update_returns a s v id bytes dest r db found positive small)

  -- When no call of sqlite fails, a write without an error is added to the counter of the session's own
  -- record, on the side that the bytes went to, and no other record changes, as long as the record is
  -- there, its number is positive and fits an `int`, and so does the sum.
  pub write_to_socket_credits :
      (socket : Bytes → Net → ErrorCode × Net) (buffer : Bytes) (len : ℕ) (is_server : Bool)
      (w : World Net Db) (u : Usage)
      → failed (socket (take len buffer) w.net).0 ≡ false
      → usage w.id (s.rows w.db) ≡ some u
      → Fits (dest_of is_server) len u
      → 0 < w.id
      → w.id < 2 ^ 31
      → ((write_to_socket (served a e) socket buffer len is_server w).0 ≡ true)
        × ((k : ℕ)
            → usages a s (write_to_socket (served a e) socket buffer len is_server w).1 k
              ≡ credited w.id len (dest_of is_server) (usages a s w) k)
  unfolding write_to_socket Socks.write_stat
  write_to_socket_credits socket buffer len is_server w u sent there fits positive small =
      let open_record : (w.id == 0) ≡ false = ground arith in
      rw (sent, open_record)
        (refl, update-credited w.id len (dest_of is_server) u w.db there fits positive small)

  -- When no call of sqlite fails, `Socks::close` ends the session's own record, forgets its number, and
  -- changes no other record, as long as the record is there and its number is positive and fits an
  -- `int`.
  pub close_ends :
      (w : World Net Db) (u : Usage)
      → usage w.id (s.rows w.db) ≡ some u
      → 0 < w.id
      → w.id < 2 ^ 31
      → ((Socks.close (served a e) w).1.id ≡ 0)
        × ((k : ℕ) → usages a s (Socks.close (served a e) w).1 k ≡ ended w.id (usages a s w) k)
  unfolding Socks.close
  close_ends w u there positive small =
      let open_record : (w.id == 0) ≡ false = ground arith in
      let (r, found) = usage-row w.id (s.rows w.db) u there in
      rw open_record (
        refl,
        Does-returned (s.rows w.db) (λ _ left. (k : ℕ) → usage k left ≡ ended w.id (usages a s w) k)
            (close a w.id w.db) (close_refines a s w.id w.db small)
            (close_returns a s v w.id r w.db found positive small),
      )
