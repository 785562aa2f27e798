-- ===== src/Statistics/Laws.antt =====
-- The documented behaviour of sqlite on the statements of src/stat_db_service.h: what the file holds
-- is a list of rows, and no call but a step that is done changes it.
use socks5_proxy_sum_2022_co.Prelude.{
  ℕ, ◌≡◌, ◌⊎◌, ◌<◌, true, List, [], ◌∷◌, ◌++◌, none, some, Bytes,
}
use socks5_proxy_sum_2022_co.World.{ℤ, pos, NewSession}
use socks5_proxy_sum_2022_co.Statistics.Sqlite.{
  Sqlite, Sql, create_session, update_sent_bytes, update_recv_bytes, update_inactive, select_id,
  row, done, failed, Row, to_int, of_bool, Query, inserts, sets_sent, sets_recv, deactivates,
  selects, find_row, new_row, run_query, Changes,
}
use socks5_proxy_sum_2022_co.Statistics.Service.{bind_session}

-- The columns that a statement gives of a row; numbers are cut to an `int`.
pub record Shows {Db Stmt : Type 0} (a : Sqlite Db Stmt) (stmt : Stmt) (r : Row) : Type 0 where
  pub id : a.column_int stmt 0 ≡ to_int (pos r.id)
  pub user : a.column_text stmt 1 ≡ some r.user
  pub create_date : a.column_text stmt 2 ≡ some r.create_date
  pub update_date : a.column_text stmt 3 ≡ some r.update_date
  pub is_active : a.column_int stmt 4 ≡ of_bool r.is_active
  pub src_addr : a.column_text stmt 5 ≡ some r.src_addr
  pub src_port : a.column_text stmt 6 ≡ some r.src_port
  pub dst_addr : a.column_text stmt 7 ≡ some r.dst_addr
  pub dst_port : a.column_text stmt 8 ≡ some r.dst_port
  pub bytes_sent : a.column_int stmt 9 ≡ to_int r.bytes_sent
  pub bytes_recv : a.column_int stmt 10 ≡ to_int r.bytes_recv

-- No binding of a text fails: there is memory for it.
abbrev pub BindsTexts : {Db Stmt : Type 0} → Sqlite Db Stmt → Type 0
BindsTexts {Stmt} a = (stmt : Stmt) (i : ℕ) (text : Bytes) → (a.bind_text stmt i text).0 ≡ true

pub record IsSqlite {Db Stmt : Type 0} (a : Sqlite Db Stmt) : Type 0 where
  pub rows : Db → List Row
  -- What a prepared statement does.
  pub query : Stmt → Query
  pub open_rows : (db : Db) → rows (a.open_db db).1 ≡ rows db
  pub close_rows : (db : Db) → rows (a.close_db db) ≡ rows db
  pub finalize_rows : (db : Db) → rows (a.finalize db) ≡ rows db
  pub prepare_rows : (sql : Sql) (db : Db) → rows (a.prepare sql db).1 ≡ rows db
  -- The statements with their parameters bound.
  pub bound_insert :
      (db : Db) (stmt : Stmt) (s : NewSession)
      → (a.prepare create_session db).0 ≡ some stmt
      → BindsTexts a
      → query (bind_session a stmt s).1 ≡ inserts s
  pub bound_sent :
      (db : Db) (stmt : Stmt) (n id : ℤ)
      → (a.prepare update_sent_bytes db).0 ≡ some stmt
      → query (a.bind_int64 (a.bind_int64 stmt 1 n) 2 id) ≡ sets_sent n id
  pub bound_recv :
      (db : Db) (stmt : Stmt) (n id : ℤ)
      → (a.prepare update_recv_bytes db).0 ≡ some stmt
      → query (a.bind_int64 (a.bind_int64 stmt 1 n) 2 id) ≡ sets_recv n id
  pub bound_inactive :
      (db : Db) (stmt : Stmt) (id : ℤ)
      → (a.prepare update_inactive db).0 ≡ some stmt
      → query (a.bind_int64 stmt 1 id) ≡ deactivates id
  pub bound_select :
      (db : Db) (stmt : Stmt) (id : ℤ)
      → (a.prepare select_id db).0 ≡ some stmt
      → query (a.bind_int64 stmt 1 id) ≡ selects id
  -- A statement that changes rows is done, at some time, or fails and changes none.
  pub step_changes :
      (stmt : Stmt) (db : Db)
      → Changes (query stmt)
      → ((now : Bytes) × ((a.step stmt db).0 ≡ done)
          × (rows (a.step stmt db).2 ≡ run_query (query stmt) now (rows db)))
        ⊎ (((a.step stmt db).0 ≡ failed) × (rows (a.step stmt db).2 ≡ rows db))
  -- A new row has a number that no row has, which is the last inserted.
  pub step_inserts :
      (stmt : Stmt) (db : Db) (s : NewSession)
      → query stmt ≡ inserts s
      → ((now : Bytes) × (id : ℕ) × ((a.step stmt db).0 ≡ done)
          × (0 < id)
          × (find_row (pos id) (rows db) ≡ none)
          × (a.last_insert_rowid (a.step stmt db).2 ≡ id)
          × (rows (a.step stmt db).2 ≡ rows db ++ new_row id now s ∷ []))
        ⊎ (((a.step stmt db).0 ≡ failed) × (rows (a.step stmt db).2 ≡ rows db))
  -- A selection by number stands at its row, or fails, or there is none.
  pub step_selects :
      (stmt : Stmt) (db : Db) (id : ℤ)
      → query stmt ≡ selects id
      → (rows (a.step stmt db).2 ≡ rows db)
        × (((r : Row) × ((a.step stmt db).0 ≡ row)
              × (find_row id (rows db) ≡ some r)
              × Shows a (a.step stmt db).1 r)
            ⊎ (((a.step stmt db).0 ≡ done) ⊎ ((a.step stmt db).0 ≡ failed)))
