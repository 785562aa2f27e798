-- ===== src/Tests/Records.antt =====
-- Examples for the sessions' records, on the rows in memory.
use socks5_proxy_sum_2022_co.Prelude.{
  ℕ, ◌≡◌, ◌≢◌, ◌+◌, ◌^◌, refl, true, [], ◌∷◌, List, none, some, codes, arith,
}
use socks5_proxy_sum_2022_co.World.{ℤ, pos, NewSession, to_server}
use socks5_proxy_sum_2022_co.Statistics.Sqlite.{
  select_all, selects_all, selects, row, failed, Changes, inserts, Row, new_row, find_row,
}
use socks5_proxy_sum_2022_co.Statistics.Service.{select_everything, create, update}
use socks5_proxy_sum_2022_co.Statistics.Calls.{Does}
use socks5_proxy_sum_2022_co.Statistics.Refine.{
  usage, Becomes, credited, begun, update_refines, create_refines,
}
use socks5_proxy_sum_2022_co.Statistics.Overflow.{Loses, update_cuts_counter}
use socks5_proxy_sum_2022_co.Statistics.Available.{IsAvailable}
use socks5_proxy_sum_2022_co.Statistics.Laws.{Shows, BindsTexts}
use socks5_proxy_sum_2022_co.Statistics.Selection.{SelectsAll, sessions_of, select_everything-rows}
use socks5_proxy_sum_2022_co.Tests.Rows.{
  shows, prepared, Db, Stmt, memory, memory-IsSqlite, fresh, step_query, step_query_runs,
  insert_done, query,
}

abbrev pub ann : NewSession
ann = record {
  user = codes "ann";
  src_addr = codes "10.0.0.2";
  src_port = codes "50000";
  dst_addr = codes "a.org";
  dst_port = codes "80";
}

abbrev row_of : ℕ → ℤ → Row
row_of id sent = record (new_row id (codes "then") ann) { bytes_sent = sent }

-- Two sessions, the first with a counter past the range of an `int`.
abbrev db : Db
db = record { rows = row_of 1 (pos (2 ^ 31)) ∷ row_of 2 (pos 40) ∷ []; last = 2 }

update_refines_example :
    Becomes memory memory-IsSqlite
      (credited 2 5 to_server (λ k. usage k db.rows))
      db
      (update memory 2 5 to_server db)
update_refines_example =
    update_refines memory memory-IsSqlite 2 5 to_server
      (record { sent = pos 40; recv = pos 0; is_open = true }) db refl (40, refl, omega arith)

create_refines_example :
    Does memory memory-IsSqlite db.rows
      (λ id left.
        (usage id db.rows ≡ none) × ((k : ℕ) → usage k left ≡ begun id (λ j. usage j db.rows) k))
      (create memory ann db)
create_refines_example = create_refines memory memory-IsSqlite ann db λ stmt i text. refl

update_cuts_counter_example :
    Does memory memory-IsSqlite db.rows
      (λ _. Loses memory memory-IsSqlite 1 (2 ^ 31 + 5))
      (update memory 1 5 to_server db)
update_cuts_counter_example =
    update_cuts_counter memory memory-IsSqlite 1 5 (2 ^ 31)
      (record { sent = pos (2 ^ 31); recv = pos 0; is_open = true }) db refl refl (omega arith)
      (omega arith)

row-found :
    (stmt : Stmt) (db : Db) (id : ℤ) (r : Row)
    → query stmt ≡ selects id
    → find_row id db.rows ≡ some r
    → (step_query (query stmt) stmt db).0 ≡ row
row-found stmt db id r selecting found = rw (selecting, step_query, found) refl

done_if_changing :
    (stmt : Stmt) (db : Db) → Changes (query stmt) → (step_query (query stmt) stmt db).0 ≢ failed
done_if_changing stmt db changes refused =
    let finished = (step_query_runs (query stmt) stmt db changes).0 in cc

stored :
    (stmt : Stmt) (db : Db) (new : NewSession)
    → query stmt ≡ inserts new
    → (step_query (query stmt) stmt db).0 ≢ failed
stored stmt db new inserting = rw inserting λ refused. let finished = insert_done stmt db new in cc

memory-BindsTexts : BindsTexts memory
memory-BindsTexts stmt i text = refl

pub memory-IsAvailable : IsAvailable memory memory-IsSqlite
memory-IsAvailable = record {
  opens = λ db. refl;
  prepares = λ sql db. (fresh sql db, refl);
  runs = done_if_changing;
  binds = memory-BindsTexts;
  stores = stored;
  finds = row-found;
}

prepared-all :
    (db : Db) (stmt : Stmt)
    → (memory.prepare select_all db).0 ≡ some stmt
    → (query stmt ≡ selects_all) × (stmt.rest ≡ db.rows)
prepared-all db stmt h =
    (prepared select_all db stmt query h, prepared select_all db stmt (λ x. x.rest) h)

gives-next :
    (stmt : Stmt) (db : Db) (r : Row) (rs : List Row)
    → query stmt ≡ selects_all
    → stmt.rest ≡ r ∷ rs
    → ((memory.step stmt db).0 ≡ row)
      × Shows memory (memory.step stmt db).1 r
      × (query (memory.step stmt db).1 ≡ selects_all)
      × ((memory.step stmt db).1.rest ≡ rs)
gives-next stmt db r rs selecting left =
    rw (selecting, step_query, left) (refl, shows (record stmt { rest = rs }) r, selecting, refl)

abbrev memory-SelectsAll : SelectsAll memory memory-IsSqlite
memory-SelectsAll = record {
  left = λ stmt. stmt.rest;
  prepared_all = prepared-all;
  gives = gives-next;
  ends = λ stmt db selecting left. rw (selecting, step_query, left) refl;
}

select_everything-rows_example : (select_everything memory 3 db).0 ≡ some (sessions_of db.rows)
select_everything-rows_example =
    select_everything-rows memory memory-IsSqlite memory-IsAvailable memory-SelectsAll 3 db
      (omega arith)
