-- ===== src/Statistics/Service.antt =====
-- `DatabaseService` of src/stat_db_service.cpp, with the two handles of src/stat_handlers.cpp. A call
-- that throws a `DatabaseException` returns `none`; the lock lets one call run at a time.
use socks5_proxy_sum_2022_co.Prelude.{
  ℕ, zero, suc, ◌+◌, ◌-◌, ◌%◌, ◌^◌, Bool, true, false, not, List, [], ◌∷◌, ◌++◌, Option, none, some,
  Bytes, ltb, ◌==◌, if◌then◌else◌,
}
use socks5_proxy_sum_2022_co.World.{
  ℤ, pos, negsuc, NewSession, Dest, to_server, to_client, Database,
}
use socks5_proxy_sum_2022_co.StringUtils.{c_string}
use socks5_proxy_sum_2022_co.Statistics.Sqlite.{
  Sqlite, Sql, create_table_sql, create_session, update_sent_bytes, update_recv_bytes,
  update_inactive, set_all_inactive, select_all, select_id, row, done, failed,
}

-- `Session`, as a row is read into it.
pub record Session : Type 0 where
  pub id : ℤ
  pub user : Bytes
  pub create_date : Bytes
  pub update_date : Bytes
  pub is_active : ℤ
  pub src_addr : Bytes
  pub src_port : Bytes
  pub dst_addr : Bytes
  pub dst_port : Bytes
  pub bytes_sent : ℤ
  pub bytes_recv : ℤ

-- The conversions between `long long` and `size_t`.
abbrev pub to_size : ℤ → ℕ
to_size (pos n) = n % 2 ^ 64
to_size (negsuc n) = 2 ^ 64 - suc (n % 2 ^ 64)

abbrev pub of_size : ℕ → ℤ
of_size n = if ltb n (2 ^ 63) then pos n else negsuc (2 ^ 64 - suc n)

-- `s.bytes_recv + bytes`, added as numbers of type `size_t`.
abbrev pub add_bytes : ℤ → ℕ → ℤ
add_bytes old bytes = of_size ((to_size old + bytes) % 2 ^ 64)

-- The conversion of an `int` to `char`.
abbrev pub to_char : ℤ → ℤ
to_char a =
    let byte = to_size a % 2 ^ 8 in if ltb byte 128 then pos byte else negsuc (2 ^ 8 - suc byte)

abbrev pub is_zero : ℤ → Bool
is_zero (pos n) = n == 0
is_zero (negsuc n) = false

abbrev pub Service : Type 0 → Type 0 → Type 0
Service Db A = Db → Option A × Db

module _ {Db Stmt : Type 0} (a : Sqlite Db Stmt) where
  abbrev pub throw : {A : Type 0} → Service Db A
  throw db = (none, db)

  -- A `DatabaseConnection` on the stack: if it cannot be opened, its destructor does not run.
  unfoldable pub with_connection : {A : Type 0} → Service Db A → Service Db A
  with_connection body db =
      let (opened, db') = a.open_db db in
      let (result, left) = body db' in if opened then (result, a.close_db left) else (none, db')

  -- A `DatabaseStatement` on the stack, prepared; its destructor runs in each case.
  unfoldable pub with_statement : {A : Type 0} → Sql → (Stmt → Service Db A) → Service Db A
  with_statement sql body db = elim (a.prepare sql db).0 [
    | none ↦ (none, a.finalize (a.prepare sql db).1)
    | some stmt ↦
        ((body stmt (a.prepare sql db).1).0, a.finalize (body stmt (a.prepare sql db).1).1)
  ]

  unfoldable pub create_db : Service Db (Unit {0})
  create_db = with_connection λ db. (some tt, db)

  unfoldable pub create_table : Service Db (Unit {0})
  create_table = with_connection λ db.
      let (created, db₁) = a.exec create_table_sql db in
      let (cleared, db₂) = a.exec set_all_inactive db₁ in
      if not created then (none, db₁) else if not cleared then (none, db₂) else (some tt, db₂)

  -- The first call of `getInstance`: the constructor.
  unfoldable pub get_instance : Service Db (Unit {0})
  get_instance db =
      let (created, db') = create_db db in
      elim created [ none ↦ (none, db') | some u ↦ create_table db' ]

  -- The five bindings; the result is that of the last one alone.
  abbrev pub bind_session : Stmt → NewSession → Bool × Stmt
  bind_session stmt s =
      let s₁ = (a.bind_text stmt 1 s.user).1 in
      let s₂ = (a.bind_text s₁ 2 s.src_addr).1 in
      let s₃ = (a.bind_text s₂ 3 s.src_port).1 in
      let s₄ = (a.bind_text s₃ 4 s.dst_addr).1 in a.bind_text s₄ 5 s.dst_port

  -- `step`, where anything but `SQLITE_DONE` is thrown; the result is made of what it leaves.
  unfoldable pub step_done : {A : Type 0} → Stmt → (Db → A) → Service Db A
  step_done stmt result db =
      let (code, _, db') = a.step stmt db in
      elim code [ done ↦ (some (result db'), db') | row ↦ (none, db') | failed ↦ (none, db') ]

  unfoldable pub create : NewSession → Service Db ℕ
  create session = with_connection (
      with_statement create_session λ stmt.
        let (bound, ready) = bind_session stmt session in
        if bound then step_done ready a.last_insert_rowid else throw)

  unfoldable pub read_row : Stmt → Session
  read_row stmt = record {
    id = a.column_int stmt 0;
    user = c_string (a.column_text stmt 1);
    create_date = c_string (a.column_text stmt 2);
    update_date = c_string (a.column_text stmt 3);
    is_active = to_char (a.column_int stmt 4);
    src_addr = c_string (a.column_text stmt 5);
    src_port = c_string (a.column_text stmt 6);
    dst_addr = c_string (a.column_text stmt 7);
    dst_port = c_string (a.column_text stmt 8);
    bytes_sent = a.column_int stmt 9;
    bytes_recv = a.column_int stmt 10;
  }

  -- The error of the binding is not looked at.
  unfoldable pub select_session : ℕ → Service Db Session
  select_session session_id = with_connection (
      with_statement select_id λ stmt db.
        let (code, stood, db') = a.step (a.bind_int64 stmt 1 (pos session_id)) db in
        elim code [
          | row ↦ (some (read_row stood), db')
          | done ↦ (none, db')
          | failed ↦ (none, db')
        ])

  -- The statement and the new sum, by the side that the bytes went to.
  abbrev pub update_sql : Dest → Sql
  update_sql to_client = update_recv_bytes
  update_sql to_server = update_sent_bytes

  abbrev pub new_bytes : Session → Dest → ℕ → ℤ
  new_bytes s to_client bytes = add_bytes s.bytes_recv bytes
  new_bytes s to_server bytes = add_bytes s.bytes_sent bytes

  -- The part of `update` behind the test of the identifier.
  unfoldable pub store_bytes : Session → ℕ → ℕ → Dest → Service Db (Unit {0})
  store_bytes s session_id bytes dest = with_connection (
      with_statement (update_sql dest) λ stmt.
        step_done (a.bind_int64 (a.bind_int64 stmt 1 (new_bytes s dest bytes)) 2 (pos session_id))
          λ _. tt)

  -- The part of `close` behind the test; the identifier is the one that was read.
  unfoldable pub deactivate : Session → Service Db (Unit {0})
  deactivate s =
      with_connection
        (with_statement update_inactive λ stmt. step_done (a.bind_int64 stmt 1 s.id) λ _. tt)

  -- The row is read first, and a row numbered zero is no row.
  unfoldable pub on_session : ℕ → (Session → Service Db (Unit {0})) → Service Db (Unit {0})
  on_session session_id f db = elim (select_session session_id db).0 [
    | none ↦ (none, (select_session session_id db).1)
    | some s ↦
        if is_zero s.id
        then (none, (select_session session_id db).1)
        else f s (select_session session_id db).1
  ]

  unfoldable pub update : ℕ → ℕ → Dest → Service Db (Unit {0})
  update session_id bytes dest = on_session session_id λ s. store_bytes s session_id bytes dest

  unfoldable pub close : ℕ → Service Db (Unit {0})
  close session_id = on_session session_id deactivate

  -- The loop of `selectAll`, up to the first step that gives no row.
  unfoldable pub read_rows : ℕ → Stmt → List Session → Service Db (List Session)
  read_rows zero stmt vec db = (none, db)
  read_rows (suc fuel) stmt vec db =
      let (code, stood, db') = a.step stmt db in
      elim code [
        | row ↦ read_rows fuel stood (vec ++ read_row stood ∷ []) db'
        | done ↦ (some vec, db')
        | failed ↦ (some vec, db')
      ]

  unfoldable pub select_everything : ℕ → Service Db (List Session)
  select_everything fuel =
      with_connection (with_statement select_all λ stmt. read_rows fuel stmt [])

  abbrev did_return : Option (Unit {0}) → Bool
  did_return none = false
  did_return (some u) = true

  -- The service as the proxy's sessions see it.
  abbrev pub database_service : Database Db
  database_service = record {
    create = create;
    update = λ id bytes dest db. let (o, db') = update id bytes dest db in (did_return o, db');
    close = λ id db. let (o, db') = close id db in (did_return o, db');
  }
