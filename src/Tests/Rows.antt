-- ===== src/Tests/Rows.antt =====
-- A small database for the examples: its rows in memory, where every call succeeds.
use socks5_proxy_sum_2022_co.Prelude.{
  ℕ, suc, ◌≡◌, ◌<◌, ◌⊎◌, refl, sym, inl, inr, Bool, true, List, [], ◌∷◌, ◌++◌, Option, none, some,
  Bytes, Option-cases, ◌==◌, ltb, if◌then◌else◌, codes, arith,
}
use socks5_proxy_sum_2022_co.World.{ℤ, pos, NewSession}
use socks5_proxy_sum_2022_co.Statistics.Sqlite.{
  Sqlite, Sql, create_table_sql, create_session, update_sent_bytes, update_recv_bytes,
  update_inactive, set_all_inactive, select_all, select_id, StepCode, row, done, failed, Row,
  to_int, of_bool, Query, inserts, sets_sent, sets_recv, deactivates, selects, selects_all,
  find_row, new_row, run_query, Changes,
}
use socks5_proxy_sum_2022_co.Statistics.Service.{bind_session}
use socks5_proxy_sum_2022_co.Statistics.Laws.{IsSqlite, Shows}

-- A statement: its text, the parameters bound so far, and the row that it stands at.
pub record Stmt : Type 0 where
  pub sql : Sql
  pub texts : NewSession
  pub first : ℤ
  pub second : ℤ
  pub current : Option Row
  -- The rows that a selection of all has not given yet.
  pub rest : List Row

abbrev pub now : Bytes
now = codes "now"

abbrev pub blank : Stmt
blank = record {
  sql = select_all;
  texts = record { user = []; src_addr = []; src_port = []; dst_addr = []; dst_port = [] };
  first = pos 0;
  second = pos 0;
  current = none;
  rest = [];
}

abbrev pub query : Stmt → Query
query stmt = elim stmt.sql [
  | create_session ↦ inserts stmt.texts
  | update_sent_bytes ↦ sets_sent stmt.first stmt.second
  | update_recv_bytes ↦ sets_recv stmt.first stmt.second
  | update_inactive ↦ deactivates stmt.first
  | select_id ↦ selects stmt.first
  | create_table_sql ↦ selects_all
  | set_all_inactive ↦ selects_all
  | select_all ↦ selects_all
]

-- The number of the next row is one more than the last number and than that of every row.
pub record Db : Type 0 where
  pub rows : List Row
  pub last : ℕ

abbrev pub bind_text : Stmt → ℕ → Bytes → Bool × Stmt
bind_text stmt i text =
    let texts = stmt.texts in
    let bound =
      if i == 1
      then record texts { user = text }
      else if i == 2
      then record texts { src_addr = text }
      else if i == 3
      then record texts { src_port = text }
      else if i == 4
      then record texts { dst_addr = text }
      else if i == 5
      then record texts { dst_port = text }
      else texts in
    (true, record stmt { texts = bound })

abbrev pub bind_int64 : Stmt → ℕ → ℤ → Stmt
bind_int64 stmt i n = if i == 1 then record stmt { first = n } else record stmt { second = n }

abbrev pub top : List Row → ℕ → ℕ
top [] n = n
top (r ∷ rs) n = if ltb (top rs n) r.id then r.id else top rs n

find_row-top : (rs : List Row) (n k : ℕ) → top rs n < k → find_row (pos k) rs ≡ none
find_row-top [] n k h = refl
find_row-top (r ∷ rs) n k h = ground (arith, find_row-top rs n k)

abbrev pub next_id : Db → ℕ
next_id db = suc (top db.rows db.last)

abbrev pub step_query : Query → Stmt → Db → StepCode × Stmt × Db
step_query (inserts s) stmt db = elim (find_row (pos (next_id db)) db.rows) [
  | none ↦
      (done, stmt, record { rows = db.rows ++ new_row (next_id db) now s ∷ []; last = next_id db })
  | some r ↦ (failed, stmt, db)
]
step_query (selects id) stmt db = elim (find_row id db.rows) [
  | none ↦ (done, stmt, db)
  | some r ↦ (row, record stmt { current = some r }, db)
]
step_query selects_all stmt db = elim stmt.rest [
  | [] ↦ (done, stmt, db)
  | r ∷ rs ↦ (row, record stmt { current = some r; rest = rs }, db)
]
step_query q stmt db = (done, stmt, record db { rows = run_query q now db.rows })

-- The columns of a row.
abbrev pub int_of : Row → ℕ → ℤ
int_of r i =
    if i == 0
    then to_int (pos r.id)
    else if i == 4
    then of_bool r.is_active
    else if i == 9
    then to_int r.bytes_sent
    else to_int r.bytes_recv

abbrev pub text_of : Row → ℕ → Bytes
text_of r i =
    if i == 1
    then r.user
    else if i == 2
    then r.create_date
    else if i == 3
    then r.update_date
    else if i == 5
    then r.src_addr
    else if i == 6
    then r.src_port
    else if i == 7
    then r.dst_addr
    else r.dst_port

abbrev pub column_int : Stmt → ℕ → ℤ
column_int stmt i = elim stmt.current [ none ↦ pos 0 | some r ↦ int_of r i ]

abbrev pub column_text : Stmt → ℕ → Option Bytes
column_text stmt i = elim stmt.current [ none ↦ none | some r ↦ some (text_of r i) ]

abbrev pub fresh : Sql → Db → Stmt
fresh sql db = record blank { sql = sql; rest = db.rows }

abbrev pub memory : Sqlite Db Stmt
memory = record {
  open_db = λ db. (true, db);
  close_db = λ db. db;
  exec = λ sql db. (true, db);
  prepare = λ sql db. (some (fresh sql db), db);
  finalize = λ db. db;
  bind_text = bind_text;
  bind_int64 = bind_int64;
  step = λ stmt db. step_query (query stmt) stmt db;
  column_int = column_int;
  column_text = column_text;
  last_insert_rowid = λ db. db.last;
}

pub step_query_runs :
    (q : Query) (stmt : Stmt) (db : Db)
    → Changes q
    → ((step_query q stmt db).0 ≡ done) × ((step_query q stmt db).2.rows ≡ run_query q now db.rows)
step_query_runs (sets_sent n id) stmt db u = (refl, refl)
step_query_runs (sets_recv n id) stmt db u = (refl, refl)
step_query_runs (deactivates id) stmt db u = (refl, refl)
step_query_runs (inserts s) stmt db u = absurd u
step_query_runs (selects id) stmt db u = absurd u
step_query_runs selects_all stmt db u = absurd u

abbrev pub Inserted : Sqlite Db Stmt → NewSession → Db → StepCode × Stmt × Db → Type 0
Inserted a s db x =
    ((time : Bytes) × (id : ℕ) × (x.0 ≡ done)
      × (0 < id)
      × (find_row (pos id) db.rows ≡ none)
      × (a.last_insert_rowid x.2 ≡ id)
      × (x.2.rows ≡ db.rows ++ new_row id time s ∷ []))
    ⊎ ((x.0 ≡ failed) × (x.2.rows ≡ db.rows))

pub step_inserts :
    (stmt : Stmt) (db : Db) (s : NewSession) → Inserted memory s db (step_query (inserts s) stmt db)
step_inserts stmt db s = elim (Option-cases (find_row (pos (next_id db)) db.rows)) [
  | inl fresh ↦ rw (step_query, fresh) (inl (now, next_id db, refl, omega arith, fresh, refl, refl))
  | inr (r, there) ↦ rw (step_query, there) (inr (refl, refl))
]

-- An insertion never fails.
pub insert_done :
    (stmt : Stmt) (db : Db) (s : NewSession) → (step_query (inserts s) stmt db).0 ≡ done
insert_done stmt db s =
    let fresh : find_row (pos (next_id db)) db.rows ≡ none =
      find_row-top db.rows db.last (next_id db) (omega arith) in
    rw (step_query, fresh) refl

abbrev pub Selected : ℤ → Db → StepCode × Stmt × Db → Type 0
Selected id db x =
    (x.2.rows ≡ db.rows)
    × (((r : Row) × (x.0 ≡ row) × (find_row id db.rows ≡ some r) × Shows memory x.1 r)
        ⊎ ((x.0 ≡ done) ⊎ (x.0 ≡ failed)))

abbrev pub shows : (stmt : Stmt) (r : Row) → Shows memory (record stmt { current = some r }) r
shows stmt r = record {
  id = refl;
  user = refl;
  create_date = refl;
  update_date = refl;
  is_active = refl;
  src_addr = refl;
  src_port = refl;
  dst_addr = refl;
  dst_port = refl;
  bytes_sent = refl;
  bytes_recv = refl;
}

pub step_selects :
    (stmt : Stmt) (db : Db) (id : ℤ) → Selected id db (step_query (selects id) stmt db)
step_selects stmt db id = elim (Option-cases (find_row id db.rows)) [
  | inl missing ↦ rw (step_query, missing) (refl, inr (inl refl))
  | inr (r, there) ↦ rw (step_query, there) (refl, inl (r, refl, refl, shows stmt r))
]

-- What `prepare` gave is the statement.
pub prepared :
    {A : Type 0} (sql : Sql) (db : Db) (stmt : Stmt) (f : Stmt → A)
    → some (fresh sql db) ≡ some stmt
    → f stmt ≡ f (fresh sql db)
prepared sql db stmt f h = let same : fresh sql db ≡ stmt = cc in rw (sym same) refl

abbrev pub memory-IsSqlite : IsSqlite memory
memory-IsSqlite = record {
  rows = λ db. db.rows;
  query = query;
  open_rows = λ db. refl;
  close_rows = λ db. refl;
  finalize_rows = λ db. refl;
  prepare_rows = λ sql db. refl;
  bound_insert = λ db stmt s h binds.
      prepared create_session db stmt (λ x. query (bind_session memory x s).1) h;
  bound_sent = λ db stmt n id h.
      prepared update_sent_bytes db stmt (λ x. query (bind_int64 (bind_int64 x 1 n) 2 id)) h;
  bound_recv = λ db stmt n id h.
      prepared update_recv_bytes db stmt (λ x. query (bind_int64 (bind_int64 x 1 n) 2 id)) h;
  bound_inactive =
      λ db stmt id h. prepared update_inactive db stmt (λ x. query (bind_int64 x 1 id)) h;
  bound_select = λ db stmt id h. prepared select_id db stmt (λ x. query (bind_int64 x 1 id)) h;
  step_changes = λ stmt db changes.
      let (finished, left) = step_query_runs (query stmt) stmt db changes in
      inl (now, finished, left);
  step_inserts = λ stmt db s h. rw h (step_inserts stmt db s);
  step_selects = λ stmt db id h. rw h (step_selects stmt db id);
}
