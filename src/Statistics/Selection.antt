-- ===== src/Statistics/Selection.antt =====
-- `selectAll` of src/stat_db_service.cpp: its loop reads the rows of the file in order.
use mathlib.Core.List.{append_assoc, append-nil}
use socks5_proxy_sum_2022_co.Prelude.{
  ℕ, zero, suc, ◌≡◌, ◌<◌, ◌∙◌, refl, sym, ap, List, [], ◌∷◌, ◌++◌, some, length, arith,
}
use socks5_proxy_sum_2022_co.World.{pos}
use socks5_proxy_sum_2022_co.StringUtils.{c_string}
use socks5_proxy_sum_2022_co.Statistics.Sqlite.{
  Sqlite, select_all, row, done, Row, to_int, of_bool, selects_all,
}
use socks5_proxy_sum_2022_co.Statistics.Service.{
  Session, with_connection, with_statement, read_row, read_rows, select_everything, to_char,
}
use socks5_proxy_sum_2022_co.Statistics.Laws.{IsSqlite, Shows}
use socks5_proxy_sum_2022_co.Statistics.Available.{IsAvailable}

-- The documented behaviour of a selection of all rows: `left` are the rows that it has not given yet,
-- and a step gives the next of them, or is done where there is none.
pub record SelectsAll {Db Stmt : Type 0} (a : Sqlite Db Stmt) (s : IsSqlite a) : Type 0 where
  pub left : Stmt → List Row
  pub prepared_all :
      (db : Db) (stmt : Stmt)
      → (a.prepare select_all db).0 ≡ some stmt
      → (s.query stmt ≡ selects_all) × (left stmt ≡ s.rows db)
  pub gives :
      (stmt : Stmt) (db : Db) (r : Row) (rs : List Row)
      → s.query stmt ≡ selects_all
      → left stmt ≡ r ∷ rs
      → ((a.step stmt db).0 ≡ row)
        × Shows a (a.step stmt db).1 r
        × (s.query (a.step stmt db).1 ≡ selects_all)
        × (left (a.step stmt db).1 ≡ rs)
  pub ends :
      (stmt : Stmt) (db : Db)
      → s.query stmt ≡ selects_all
      → left stmt ≡ []
      → (a.step stmt db).0 ≡ done

-- A row as `readRow` reads it: numbers as an `int`, texts up to their first zero byte.
abbrev pub session_of : Row → Session
session_of r = record {
  id = to_int (pos r.id);
  user = c_string (some r.user);
  create_date = c_string (some r.create_date);
  update_date = c_string (some r.update_date);
  is_active = to_char (of_bool r.is_active);
  src_addr = c_string (some r.src_addr);
  src_port = c_string (some r.src_port);
  dst_addr = c_string (some r.dst_addr);
  dst_port = c_string (some r.dst_port);
  bytes_sent = to_int r.bytes_sent;
  bytes_recv = to_int r.bytes_recv;
}

abbrev pub sessions_of : List Row → List Session
sessions_of [] = []
sessions_of (r ∷ rs) = session_of r ∷ sessions_of rs

module _ {Db Stmt : Type 0} (a : Sqlite Db Stmt) (s : IsSqlite a) where
  read_row-Shows : (stmt : Stmt) (r : Row) → Shows a stmt r → read_row a stmt ≡ session_of r
  unfolding read_row
  read_row-Shows stmt r h =
      rw
        (
          read_row, h.id, h.user, h.create_date, h.update_date, h.is_active, h.src_addr, h.src_port,
          h.dst_addr, h.dst_port, h.bytes_sent, h.bytes_recv,
        )
        refl

  module _ (v : IsAvailable a s) (all : SelectsAll a s) where
    read_rows-all :
        (fuel : ℕ) (rs : List Row) (stmt : Stmt) (vec : List Session) (db : Db)
        → s.query stmt ≡ selects_all
        → all.left stmt ≡ rs
        → length rs < fuel
        → (read_rows a fuel stmt vec db).0 ≡ some (vec ++ sessions_of rs)
    unfolding read_rows
    read_rows-all zero rs stmt vec db q h enough = absurd (omega arith)
    read_rows-all (suc fuel) [] stmt vec db q h enough =
        rw (read_rows, all.ends stmt db q h) (ap some (sym (append-nil vec)))
    read_rows-all (suc fuel) (r ∷ rs) stmt vec db q h enough =
        let (stands, shown, still, next) = all.gives stmt db r rs q h in
        let rest =
          read_rows-all fuel rs (a.step stmt db).1 (vec ++ session_of r ∷ []) (a.step stmt db).2
            still next (omega arith) in
        rw (read_rows, stands, read_row-Shows (a.step stmt db).1 r shown)
          (rest ∙ ap some (append_assoc vec (session_of r ∷ []) (sessions_of rs)))

    -- When no call of sqlite fails, `selectAll` returns all rows in their order, with their numbers cut
    -- to an `int`, if its loop may run once more than there are rows.
    pub select_everything-rows :
        (fuel : ℕ) (db : Db)
        → length (s.rows db) < fuel
        → (select_everything a fuel db).0 ≡ some (sessions_of (s.rows db))
    unfolding select_everything with_connection with_statement
    select_everything-rows fuel db enough =
        let opened = (a.open_db db).1 in
        let (stmt, prepared) = v.prepares select_all opened in
        let (selecting, left) = all.prepared_all opened stmt prepared in
        let read =
          read_rows-all fuel (s.rows db) stmt [] (a.prepare select_all opened).1 selecting
            (left ∙ s.open_rows db) enough in
        rw (with_connection, v.opens db, with_statement, prepared) read
