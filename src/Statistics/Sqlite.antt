-- ===== src/Statistics/Sqlite.antt =====
-- What src/stat_db_service.cpp calls and does not implement: sqlite, as an interface over the state
-- `Db` of the file and `Stmt` of a prepared statement; and its documented behaviour on the
-- statements of src/stat_db_service.h, over a view of the file as a list of rows.
use socks5_proxy_sum_2022_co.Prelude.{
  ℕ, suc, ◌-◌, ◌%◌, ◌^◌, Bool, true, false, List, [], ◌∷◌, Option, none, some, Bytes, ltb, ◌==◌,
  if◌then◌else◌,
}
use socks5_proxy_sum_2022_co.World.{ℤ, pos, negsuc, NewSession}
use socks5_proxy_sum_2022_co.StringUtils.{c_string}

-- The texts of the statements.
pub data Sql : Type 0 where
  create_table_sql create_session update_sent_bytes update_recv_bytes update_inactive : Sql
  set_all_inactive select_all select_id : Sql

-- `SQLITE_ROW`, `SQLITE_DONE`, and the errors.
pub data StepCode : Type 0 where
  row done failed : StepCode

-- The flags say whether a call returned `SQLITE_OK`; a `Stmt` is what a call leaves of a statement.
pub record Sqlite (Db Stmt : Type 0) : Type 0 where
  pub open_db : Db → Bool × Db
  pub close_db : Db → Db
  pub exec : Sql → Db → Bool × Db
  pub prepare : Sql → Db → Option Stmt × Db
  pub finalize : Db → Db
  pub bind_text : Stmt → ℕ → Bytes → Bool × Stmt
  pub bind_int64 : Stmt → ℕ → ℤ → Stmt
  pub step : Stmt → Db → StepCode × Stmt × Db
  pub column_int : Stmt → ℕ → ℤ
  pub column_text : Stmt → ℕ → Option Bytes
  pub last_insert_rowid : Db → ℕ

-- A row of the table.
pub record Row : Type 0 where
  pub id : ℕ
  pub user : Bytes
  pub create_date : Bytes
  pub update_date : Bytes
  pub is_active : Bool
  pub src_addr : Bytes
  pub src_port : Bytes
  pub dst_addr : Bytes
  pub dst_port : Bytes
  pub bytes_sent : ℤ
  pub bytes_recv : ℤ

-- The conversion of a 64-bit number to an `int` of 32 bits.
abbrev pub word32 : ℤ → ℕ
word32 (pos n) = n % 2 ^ 32
word32 (negsuc n) = 2 ^ 32 - suc (n % 2 ^ 32)

abbrev pub to_int : ℤ → ℤ
to_int a = if ltb (word32 a) (2 ^ 31) then pos (word32 a) else negsuc (2 ^ 32 - suc (word32 a))

abbrev pub of_bool : Bool → ℤ
of_bool true = pos 1
of_bool false = pos 0

-- What a statement does once its parameters are bound.
pub data Query : Type 0 where
  inserts : NewSession → Query
  sets_sent sets_recv : ℤ → ℤ → Query
  deactivates selects : ℤ → Query
  selects_all : Query

abbrev pub has_id : ℤ → Row → Bool
has_id (pos n) r = r.id == n
has_id (negsuc n) r = false

abbrev pub find_row : ℤ → List Row → Option Row
find_row id [] = none
find_row id (r ∷ rs) = if has_id id r then some r else find_row id rs

-- `UPDATE … WHERE id = ?`.
abbrev pub update_rows : ℤ → (Row → Row) → List Row → List Row
update_rows id f [] = []
update_rows id f (r ∷ rs) = (if has_id id r then f r else r) ∷ update_rows id f rs

-- The row of a new session, at a time; a text ends at its first zero byte.
abbrev pub new_row : ℕ → Bytes → NewSession → Row
new_row id now s = record {
  id = id;
  user = c_string (some s.user);
  create_date = now;
  update_date = now;
  is_active = true;
  src_addr = c_string (some s.src_addr);
  src_port = c_string (some s.src_port);
  dst_addr = c_string (some s.dst_addr);
  dst_port = c_string (some s.dst_port);
  bytes_sent = pos 0;
  bytes_recv = pos 0;
}

-- The rows after a statement that changes them, at a time.
abbrev pub run_query : Query → Bytes → List Row → List Row
run_query (sets_sent n id) now rs =
    update_rows id (λ r. record r { update_date = now; bytes_sent = n }) rs
run_query (sets_recv n id) now rs =
    update_rows id (λ r. record r { update_date = now; bytes_recv = n }) rs
run_query (deactivates id) now rs =
    update_rows id (λ r. record r { update_date = now; is_active = false }) rs
run_query _ now rs = rs

abbrev pub Changes : Query → Type 0
Changes (sets_sent n id) = Unit {0}
Changes (sets_recv n id) = Unit {0}
Changes (deactivates id) = Unit {0}
Changes _ = ⊥
