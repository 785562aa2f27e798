-- ===== src/Statistics/Available.antt =====
-- When no call of sqlite fails, the calls of src/stat_db_service.cpp on a session that has a row
-- return.
use socks5_proxy_sum_2022_co.Prelude.{
  ℕ, ◌≡◌, ◌≢◌, ◌<◌, ◌^◌, ◌∙◌, refl, sym, inl, inr, true, false, List, Option, some, arith,
}
use socks5_proxy_sum_2022_co.World.{ℤ, pos, NewSession, Dest, to_server, to_client}
use socks5_proxy_sum_2022_co.Statistics.Sqlite.{
  Sqlite, Sql, create_session, inserts, update_sent_bytes, update_recv_bytes, update_inactive,
  select_id, row, done, failed, Row, to_int, Query, selects, find_row, Changes,
}
use socks5_proxy_sum_2022_co.Statistics.Service.{
  Session, Service, with_connection, with_statement, step_done, read_row, select_session,
  store_bytes, deactivate, on_session, create, update, close, is_zero,
}
use socks5_proxy_sum_2022_co.Statistics.Laws.{IsSqlite, BindsTexts}
use socks5_proxy_sum_2022_co.Statistics.Refine.{find_row-id}

-- No call fails: the file opens, statements are prepared, texts are bound, and statements run, and a
-- selection finds its row.
pub record IsAvailable {Db Stmt : Type 0} (a : Sqlite Db Stmt) (s : IsSqlite a) : Type 0 where
  pub opens : (db : Db) → (a.open_db db).0 ≡ true
  pub prepares : (sql : Sql) (db : Db) → (stmt : Stmt) × ((a.prepare sql db).0 ≡ some stmt)
  pub runs : (stmt : Stmt) (db : Db) → Changes (s.query stmt) → (a.step stmt db).0 ≢ failed
  pub binds : BindsTexts a
  pub stores :
      (stmt : Stmt) (db : Db) (new : NewSession)
      → s.query stmt ≡ inserts new
      → (a.step stmt db).0 ≢ failed
  pub finds :
      (stmt : Stmt) (db : Db) (id : ℤ) (r : Row)
      → s.query stmt ≡ selects id
      → find_row id (s.rows db) ≡ some r
      → (a.step stmt db).0 ≡ row

row-done : row ≢ done
row-done h = cc

row-failed : row ≢ failed
row-failed h = cc

to_int-small : (n id : ℕ) → n ≡ id → id < 2 ^ 31 → to_int (pos n) ≡ pos id
to_int-small n id same small = ground arith

module _ {Db Stmt : Type 0} (a : Sqlite Db Stmt) (s : IsSqlite a) (v : IsAvailable a s) where
  abbrev Gives : {A : Type 0} → (A → Type 0) → Option A × Db → Type 0
  Gives {A} P x = (r : A) × (x.0 ≡ some r) × P r

  connection-Gives :
      {A : Type 0} (P : A → Type 0) (body : Service Db A) (rs : List Row) (db : Db)
      → s.rows db ≡ rs
      → ((db' : Db) → s.rows db' ≡ rs → Gives P (body db'))
      → Gives P (with_connection a body db)
  unfolding with_connection
  connection-Gives P body rs db same h =
      let (r, gives, holds) = h (a.open_db db).1 (s.open_rows db ∙ same) in
      (r, rw (v.opens db) gives, holds)

  statement-Gives :
      {A : Type 0} (P : A → Type 0) (sql : Sql) (body : Stmt → Service Db A) (rs : List Row)
      (db : Db)
      → s.rows db ≡ rs
      → ((stmt : Stmt) (db' : Db)
          → (a.prepare sql db).0 ≡ some stmt
          → s.rows db' ≡ rs
          → Gives P (body stmt db'))
      → Gives P (with_statement a sql body db)
  unfolding with_statement
  statement-Gives P sql body rs db same h =
      let (stmt, prepared) = v.prepares sql db in
      let (r, gives, holds) = h stmt (a.prepare sql db).1 prepared (s.prepare_rows sql db ∙ same) in
      (r, rw (with_statement, prepared) gives, holds)

  abbrev Any : Unit {0} → Type 0
  Any u = Unit {0}

  step_done-Gives :
      (q : Query) (stmt : Stmt) (db : Db)
      → s.query stmt ≡ q
      → Changes q
      → Gives Any (step_done a stmt (λ _. tt) db)
  unfolding step_done
  step_done-Gives q stmt db is_q changes = elim (s.step_changes stmt db (rw is_q changes)) [
    | inl (now, finished, left) ↦ (tt, rw (step_done, finished) refl, tt)
    | inr (refused, left) ↦ absurd (v.runs stmt db (rw is_q changes) refused)
  ]

  abbrev Numbered : ℕ → Session → Type 0
  Numbered id read = read.id ≡ pos id

  select_session-Gives :
      (id : ℕ) (rs : List Row) (r : Row) (db : Db)
      → s.rows db ≡ rs
      → find_row (pos id) rs ≡ some r
      → id < 2 ^ 31
      → Gives (Numbered id) (select_session a id db)
  unfolding select_session read_row
  select_session-Gives id rs r db same found small =
      connection-Gives (Numbered id) _ rs db same λ db₁ same₁.
        statement-Gives (Numbered id) select_id _ rs db₁ same₁ λ stmt db₂ prepared same₂.
          let selecting = s.bound_select db₁ stmt (pos id) prepared in
          let bound = a.bind_int64 stmt 1 (pos id) in
          let stands = v.finds bound db₂ (pos id) r selecting (rw same₂ found) in
          let (kept, cases) = s.step_selects bound db₂ (pos id) selecting in
          elim cases [
            | inl (r', at_row, found', shown) ↦
                let number = find_row-id id (s.rows db₂) r' found' in
                (
                  read_row a (a.step bound db₂).1,
                  rw at_row refl,
                  shown.id ∙ to_int-small r'.id id number small,
                )
            | inr (inl ended) ↦ absurd (row-done (sym stands ∙ ended))
            | inr (inr refused) ↦ absurd (row-failed (sym stands ∙ refused))
          ]

  on_session-Gives :
      (id : ℕ) (f : Session → Service Db (Unit {0})) (r : Row) (db : Db)
      → find_row (pos id) (s.rows db) ≡ some r
      → 0 < id
      → id < 2 ^ 31
      → ((read : Session) (db' : Db) → Gives Any (f read db'))
      → Gives Any (on_session a id f db)
  unfolding on_session
  on_session-Gives id f r db found positive small h =
      let (read, gives, number) = select_session-Gives id (s.rows db) r db refl found small in
      let there : is_zero read.id ≡ false = rw number (ground arith) in
      rw (on_session, gives, there) (h read (select_session a id db).1)

  store_bytes-Gives :
      (id bytes : ℕ) (dest : Dest) (read : Session) (db : Db)
      → Gives Any (store_bytes a read id bytes dest db)
  unfolding store_bytes
  store_bytes-Gives id bytes to_server read db =
      connection-Gives Any _ (s.rows db) db refl λ db₁ same₁.
        statement-Gives Any update_sent_bytes _ (s.rows db) db₁ same₁ λ stmt db₂ prepared same₂.
          step_done-Gives _ _ db₂ (s.bound_sent db₁ stmt _ (pos id) prepared) tt
  store_bytes-Gives id bytes to_client read db =
      connection-Gives Any _ (s.rows db) db refl λ db₁ same₁.
        statement-Gives Any update_recv_bytes _ (s.rows db) db₁ same₁ λ stmt db₂ prepared same₂.
          step_done-Gives _ _ db₂ (s.bound_recv db₁ stmt _ (pos id) prepared) tt

  deactivate-Gives : (read : Session) (db : Db) → Gives Any (deactivate a read db)
  unfolding deactivate
  deactivate-Gives read db = connection-Gives Any _ (s.rows db) db refl λ db₁ same₁.
      statement-Gives Any update_inactive _ (s.rows db) db₁ same₁
        λ stmt db₂ prepared same₂. step_done-Gives _ _ db₂ (s.bound_inactive db₁ stmt _ prepared) tt

  stores-Gives :
      (new : NewSession) (stmt : Stmt) (db : Db)
      → s.query stmt ≡ inserts new
      → Gives (λ id. Unit {0}) (step_done a stmt a.last_insert_rowid db)
  unfolding step_done
  stores-Gives new stmt db inserting = elim (s.step_inserts stmt db new inserting) [
    | inl (now, id, finished, positive, fresh, last, left) ↦
        (a.last_insert_rowid (a.step stmt db).2, rw (step_done, finished) refl, tt)
    | inr (refused, left) ↦ absurd (v.stores stmt db new inserting refused)
  ]

  -- `create` returns.
  pub create_returns : (new : NewSession) (db : Db) → (id : ℕ) × ((create a new db).0 ≡ some id)
  unfolding create
  create_returns new db =
      let (id, gives, u) =
        connection-Gives (λ id. Unit {0}) _ (s.rows db) db refl
          λ db₁ same₁.
            statement-Gives (λ id. Unit {0}) create_session _ (s.rows db) db₁ same₁
              λ stmt db₂ prepared same₂.
                rw v.binds
                  (stores-Gives new _ db₂ (s.bound_insert db₁ stmt new prepared v.binds)) in
      (id, gives)

  -- `update` of a session that has a row returns.
  pub update_returns :
      (id bytes : ℕ) (dest : Dest) (r : Row) (db : Db)
      → find_row (pos id) (s.rows db) ≡ some r
      → 0 < id
      → id < 2 ^ 31
      → (update a id bytes dest db).0 ≡ some tt
  unfolding update
  update_returns id bytes dest r db found positive small =
      (on_session-Gives id (λ read. store_bytes a read id bytes dest) r db found positive small
        (store_bytes-Gives id bytes dest)).1

  -- So does `close`.
  pub close_returns :
      (id : ℕ) (r : Row) (db : Db)
      → find_row (pos id) (s.rows db) ≡ some r
      → 0 < id
      → id < 2 ^ 31
      → (close a id db).0 ≡ some tt
  unfolding close
  close_returns id r db found positive small =
      (on_session-Gives id (deactivate a) r db found positive small deactivate-Gives).1
