-- ===== src/Statistics/Calls.antt =====
-- What the calls of src/stat_db_service.cpp do to the rows, whichever call of sqlite fails.
use socks5_proxy_sum_2022_co.Prelude.{
  ℕ, ◌≡◌, ◌<◌, inl, inr, refl, ◌∙◌, List, [], ◌∷◌, ◌++◌, Option, none, some, Bytes, Bool-cases,
  Option-cases, if◌then◌else◌,
}
use socks5_proxy_sum_2022_co.World.{pos, NewSession, Dest, to_server, to_client}
use socks5_proxy_sum_2022_co.Statistics.Sqlite.{
  Sqlite, Sql, create_session, update_sent_bytes, update_recv_bytes, update_inactive, select_id,
  Row, to_int, Query, inserts, sets_sent, sets_recv, deactivates, find_row, new_row, run_query,
  Changes,
}
use socks5_proxy_sum_2022_co.Statistics.Service.{
  Session, Service, with_connection, with_statement, step_done, create, read_row, select_session,
  add_bytes, store_bytes, deactivate, on_session, update, close, is_zero,
}
use socks5_proxy_sum_2022_co.Statistics.Laws.{IsSqlite, BindsTexts}

module _ {Db Stmt : Type 0} (a : Sqlite Db Stmt) (s : IsSqlite a) where
  -- A call that throws leaves the rows `rs` alone, and one that returns makes them satisfy `Q`.
  abbrev pub Does : {A : Type 0} → List Row → (A → List Row → Type 0) → Option A × Db → Type 0
  Does rs Q (none, db) = s.rows db ≡ rs
  Does rs Q (some r, db) = Q r (s.rows db)

  Does-left :
      {A : Type 0} (Q : A → List Row → Type 0) (rs : List Row) (o : Option A) (db db' : Db)
      → s.rows db' ≡ s.rows db
      → Does rs Q (o, db)
      → Does rs Q (o, db')
  Does-left Q rs none db db' same h = same ∙ h
  Does-left Q rs (some r) db db' same h = rw same h

  connection-Does :
      {A : Type 0} (Q : A → List Row → Type 0) (body : Service Db A) (rs : List Row) (db : Db)
      → s.rows db ≡ rs
      → ((db' : Db) → s.rows db' ≡ rs → Does rs Q (body db'))
      → Does rs Q (with_connection a body db)
  unfolding with_connection
  connection-Does Q body rs db same h =
      let left = body (a.open_db db).1 in
      let ran = h (a.open_db db).1 (s.open_rows db ∙ same) in
      elim (Bool-cases (a.open_db db).0) [
        | inl opened ↦ rw opened (Does-left Q rs left.0 left.1 _ (s.close_rows left.1) ran)
        | inr refused ↦ rw refused (s.open_rows db ∙ same)
      ]

  statement-Does :
      {A : Type 0} (Q : A → List Row → Type 0) (sql : Sql) (body : Stmt → Service Db A)
      (rs : List Row) (db : Db)
      → s.rows db ≡ rs
      → ((stmt : Stmt) (db' : Db)
          → (a.prepare sql db).0 ≡ some stmt
          → s.rows db' ≡ rs
          → Does rs Q (body stmt db'))
      → Does rs Q (with_statement a sql body db)
  unfolding with_statement
  statement-Does Q sql body rs db same h =
      let ready = (a.prepare sql db).1 in
      let kept = s.prepare_rows sql db ∙ same in
      elim (Option-cases (a.prepare sql db).0) [
        | inl refused ↦ rw (with_statement, refused) (s.finalize_rows ready ∙ kept)
        | inr (stmt, prepared) ↦
            let left = body stmt ready in
            rw (with_statement, prepared)
              (Does-left Q rs left.0 left.1 _ (s.finalize_rows left.1) (h stmt ready prepared kept))
      ]

  -- A statement was run on the rows, at some time.
  abbrev Ran : Query → List Row → Unit {0} → List Row → Type 0
  Ran q rs _ left = (now : Bytes) × (left ≡ run_query q now rs)

  -- A statement that changes rows.
  step_done-Does :
      (q : Query) (stmt : Stmt) (rs : List Row) (db : Db)
      → s.query stmt ≡ q
      → Changes q
      → s.rows db ≡ rs
      → Does rs (Ran q rs) (step_done a stmt (λ _. tt) db)
  unfolding step_done
  step_done-Does q stmt rs db same changes kept = elim (s.step_changes stmt db (rw same changes)) [
    | inl (now, finished, left) ↦ rw (step_done, finished) (now, rw (same, kept) at left)
    | inr (refused, left) ↦ rw (step_done, refused) (left ∙ kept)
  ]

  -- The rows are read, and of the row with that number the numbers are cut.
  abbrev pub Reads : ℕ → List Row → Session → List Row → Type 0
  Reads id rs read left =
      (left ≡ rs)
      × ((r : Row) × (find_row (pos id) rs ≡ some r)
          × (read.id ≡ to_int (pos r.id))
          × (read.bytes_sent ≡ to_int r.bytes_sent)
          × (read.bytes_recv ≡ to_int r.bytes_recv))

  select_session-Does :
      (id : ℕ) (rs : List Row) (db : Db)
      → s.rows db ≡ rs
      → Does rs (Reads id rs) (select_session a id db)
  unfolding select_session read_row
  select_session-Does id rs db same = connection-Does (Reads id rs) _ rs db same λ db₁ same₁.
      statement-Does (Reads id rs) select_id _ rs db₁ same₁ λ stmt db₂ prepared same₂.
        let selecting = s.bound_select db₁ stmt (pos id) prepared in
        let (kept, cases) = s.step_selects (a.bind_int64 stmt 1 (pos id)) db₂ (pos id) selecting in
        let left = kept ∙ same₂ in
        elim cases [
          | inl (r, stands, found, shown) ↦
              rw stands
                (left, (r, (rw same₂ at found), shown.id, shown.bytes_sent, shown.bytes_recv))
          | inr (inl ended) ↦ rw ended left
          | inr (inr refused) ↦ rw refused left
        ]

  -- What `update` runs for a row.
  abbrev pub update_query : Row → ℕ → ℕ → Dest → Query
  update_query r id bytes to_client = sets_recv (add_bytes (to_int r.bytes_recv) bytes) (pos id)
  update_query r id bytes to_server = sets_sent (add_bytes (to_int r.bytes_sent) bytes) (pos id)

  -- The rows are those of a statement run, which is made from the row with that number.
  abbrev pub Runs : ℕ → (Row → Query) → List Row → List Row → Type 0
  Runs id q rs left =
      (r : Row) × (find_row (pos id) rs ≡ some r) × (now : Bytes) × (left ≡ run_query (q r) now rs)

  pub Does-weaken :
      {A : Type 0} (rs : List Row) (Q Q' : A → List Row → Type 0) (x : Option A × Db)
      → Does rs Q x
      → ((r : A) (left : List Row) → Q r left → Q' r left)
      → Does rs Q' x
  Does-weaken rs Q Q' (none, db) h weaker = h
  Does-weaken rs Q Q' (some r, db) h weaker = weaker r (s.rows db) h

  -- What is run on the row that was read, at those rows.
  abbrev Follows : (Row → Query) → (Session → Service Db (Unit {0})) → List Row → ℕ → Type 0
  Follows q f rs id =
      (read : Session) (r : Row) (db : Db)
      → find_row (pos id) rs ≡ some r
      → read.id ≡ to_int (pos r.id)
      → read.bytes_sent ≡ to_int r.bytes_sent
      → read.bytes_recv ≡ to_int r.bytes_recv
      → s.rows db ≡ rs
      → Does rs (Ran (q r) rs) (f read db)

  read-Does :
      (id : ℕ) (q : Row → Query) (f : Session → Service Db (Unit {0})) (rs : List Row)
      → Follows q f rs id
      → (x : Option Session × Db) → Does {A = Session} rs (Reads id rs) x
      → Does {A = Unit {0}} rs
          (λ _. Runs id q rs)
          (elim x.0 [
            | none ↦ (none, x.1)
            | some read ↦ if is_zero read.id then (none, x.1) else f read x.1
          ])
  read-Does id q f rs h (none, db) same = same
  read-Does id q f rs h (some read, db) (left, (r, found, is_id, sent, recv)) =
      elim (Bool-cases (is_zero read.id)) [
        | inl no_row ↦ rw no_row left
        | inr there ↦ rw there (
            Does-weaken rs (Ran (q r) rs) (λ _. Runs id q rs) (f read db)
              (h read r db found is_id sent recv left) λ _ after (now, e). (r, found, now, e))
      ]

  on_session-Does :
      (id : ℕ) (q : Row → Query) (f : Session → Service Db (Unit {0})) (rs : List Row) (db : Db)
      → s.rows db ≡ rs
      → Follows q f rs id
      → Does rs (λ _. Runs id q rs) (on_session a id f db)
  unfolding on_session
  on_session-Does id q f rs db same h =
      read-Does id q f rs h (select_session a id db) (select_session-Does id rs db same)

  store_bytes-Does :
      (id bytes : ℕ) (dest : Dest) (rs : List Row)
      → Follows (λ r. update_query r id bytes dest) (λ read. store_bytes a read id bytes dest) rs id
  unfolding store_bytes
  store_bytes-Does id bytes to_client rs read r db found is_id sent recv same =
      let q = update_query r id bytes to_client in
      connection-Does (Ran q rs) _ rs db same λ db₁ same₁.
        statement-Does (Ran q rs) update_recv_bytes _ rs db₁ same₁ λ stmt db₂ prepared same₂.
          rw recv (step_done-Does _ _ rs db₂ (s.bound_recv db₁ stmt _ (pos id) prepared) tt same₂)
  store_bytes-Does id bytes to_server rs read r db found is_id sent recv same =
      let q = update_query r id bytes to_server in
      connection-Does (Ran q rs) _ rs db same λ db₁ same₁.
        statement-Does (Ran q rs) update_sent_bytes _ rs db₁ same₁ λ stmt db₂ prepared same₂.
          rw sent (step_done-Does _ _ rs db₂ (s.bound_sent db₁ stmt _ (pos id) prepared) tt same₂)

  deactivate-Does :
      (id : ℕ) (rs : List Row) → Follows (λ r. deactivates (to_int (pos r.id))) (deactivate a) rs id
  unfolding deactivate
  deactivate-Does id rs read r db found is_id sent recv same =
      let q = deactivates (to_int (pos r.id)) in
      connection-Does (Ran q rs) _ rs db same λ db₁ same₁.
        statement-Does (Ran q rs) update_inactive _ rs db₁ same₁ λ stmt db₂ prepared same₂.
          rw is_id (step_done-Does _ _ rs db₂ (s.bound_inactive db₁ stmt _ prepared) tt same₂)

  -- `update` runs its statement once for the row of the session, or changes nothing and throws.
  pub update-Does :
      (id bytes : ℕ) (dest : Dest) (db : Db)
      → Does
          (s.rows db)
          (λ _. Runs id (λ r. update_query r id bytes dest) (s.rows db))
          (update a id bytes dest db)
  unfolding update
  update-Does id bytes dest db =
      on_session-Does id (λ r. update_query r id bytes dest) _ (s.rows db) db refl
        (store_bytes-Does id bytes dest (s.rows db))

  -- So does `close`, with the number that was read.
  pub close-Does :
      (id : ℕ) (db : Db)
      → Does
          (s.rows db)
          (λ _. Runs id (λ r. deactivates (to_int (pos r.id))) (s.rows db))
          (close a id db)
  unfolding close
  close-Does id db =
      on_session-Does id (λ r. deactivates (to_int (pos r.id))) _ (s.rows db) db refl
        (deactivate-Does id (s.rows db))

  -- A row was added, under a number that no row had.
  abbrev pub Adds : NewSession → List Row → ℕ → List Row → Type 0
  Adds new rs id left =
      (now : Bytes) × (0 < id)
      × (find_row (pos id) rs ≡ none)
      × (left ≡ rs ++ new_row id now new ∷ [])

  insert-Does :
      (new : NewSession) (stmt : Stmt) (rs : List Row) (db : Db)
      → s.query stmt ≡ inserts new
      → s.rows db ≡ rs
      → Does rs (Adds new rs) (step_done a stmt a.last_insert_rowid db)
  unfolding step_done
  insert-Does new stmt rs db inserting same = elim (s.step_inserts stmt db new inserting) [
    | inl (now, id, finished, positive, fresh, last, left) ↦
        rw (step_done, finished, last) (now, positive, (rw same at fresh), (rw same at left))
    | inr (refused, left) ↦ rw (step_done, refused) (left ∙ same)
  ]

  -- `create` adds one row, or changes nothing and throws.
  pub create-Does :
      (new : NewSession) (db : Db)
      → BindsTexts a
      → Does (s.rows db) (Adds new (s.rows db)) (create a new db)
  unfolding create
  create-Does new db binds =
      let rs = s.rows db in
      connection-Does (Adds new rs) _ rs db refl λ db₁ same₁.
        statement-Does (Adds new rs) create_session _ rs db₁ same₁ λ stmt db₂ prepared same₂.
          rw binds (insert-Does new _ rs db₂ (s.bound_insert db₁ stmt new prepared binds) same₂)
