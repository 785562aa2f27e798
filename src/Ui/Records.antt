-- ===== src/Ui/Records.antt =====
-- What the table of ui shows of the database that src/stat_db_service.cpp writes.
use mathlib.Core.List.{map}
use mathlib.Core.Option
use socks5_proxy_sum_2022_co.Prelude.{
  ℕ, zero, suc, ◌^◌, ◌<◌, ◌≡◌, ◌==◌, refl, ap, ◌∙◌, inl, inr, true, List, [], ◌∷◌, ◌++◌, some,
  Bytes, length, get_elem?, if◌then◌else◌, codes, arith, Bool-cases,
}
use socks5_proxy_sum_2022_co.World.{ℤ, pos, negsuc}
use socks5_proxy_sum_2022_co.Statistics.Sqlite.{Row, to_int, find_row, has_id, of_bool}
use socks5_proxy_sum_2022_co.Ui.Table.{
  Qt, Field, Variant, text, number, SessionModel, dao_row, dao_update, dao_get, row_count,
  model_update, model_data,
}

-- The variants that `data` may give for a column: a number for the counters, and a text elsewhere.
abbrev pub IsOfColumn : Field → Variant → Type 0
IsOfColumn Field.bytes_sent v = (n : ℤ) × (v ≡ number n)
IsOfColumn Field.bytes_recv v = (n : ℤ) × (v ≡ number n)
IsOfColumn Field.user v = (t : Bytes) × (v ≡ text t)
IsOfColumn Field.create_date v = (t : Bytes) × (v ≡ text t)
IsOfColumn Field.update_date v = (t : Bytes) × (v ≡ text t)
IsOfColumn Field.is_active v = (t : Bytes) × (v ≡ text t)
IsOfColumn Field.src_endpoint v = (t : Bytes) × (v ≡ text t)
IsOfColumn Field.dst_endpoint v = (t : Bytes) × (v ≡ text t)

-- The numbers of a `qlonglong`, which sqlite's integers are too.
abbrev pub IsInt64 : ℤ → Type 0
IsInt64 (pos n) = n < 2 ^ 63
IsInt64 (negsuc n) = n < 2 ^ 63

dao_update-row :
    (rows : List (ℕ → Bytes)) (r : ℕ)
    → r < length (dao_update rows)
    → (value : ℕ → Bytes) × (get_elem? (dao_update rows) r ≡ some (dao_row value))
unfolding dao_update
dao_update-row [] r h = elim h [ ]
dao_update-row (value ∷ rows) zero h = (value, refl)
dao_update-row (value ∷ rows) (suc r) h = dao_update-row rows r (omega arith)

found_at :
    (id : ℤ) (rows : List Row) (row : Row)
    → find_row id rows ≡ some row
    → (r : ℕ) × (get_elem? rows r ≡ some row)
found_at id [] row h = cc
found_at id (x ∷ rows) row h = elim (Bool-cases (has_id id x)) [
  | inl here ↦ (zero, rw here at h)
  | inr elsewhere ↦ let (r, at) = found_at id rows row (rw elsewhere at h) in (suc r, at)
]

module _ {Date : Type 0} (qt : Qt Date) where
  -- What Qt documents of the text of a number and of `QVariant::toInt` of it: a text that is a
  -- `qlonglong` is converted, and one that is too large for an `int` overflows.
  pub record ReadsInts : Type 0 where
    pub to_int_number : (n : ℤ) → IsInt64 n → qt.to_int (qt.number_text n) ≡ to_int n

  -- The texts of a row of `SELECT * from sessions`, by the columns of the table.
  abbrev pub columns : Row → ℕ → Bytes
  columns row i =
      if i == 1
      then row.user
      else if i == 2
      then row.create_date
      else if i == 3
      then row.update_date
      else if i == 4
      then qt.number_text (of_bool row.is_active)
      else if i == 5
      then row.src_addr
      else if i == 6
      then row.src_port
      else if i == 7
      then row.dst_addr
      else if i == 8
      then row.dst_port
      else if i == 9
      then qt.number_text row.bytes_sent
      else if i == 10
      then qt.number_text row.bytes_recv
      else qt.number_text (pos row.id)

  -- A cell of the table for a session.
  abbrev pub shown : Row → Field → Variant
  shown row Field.user = text row.user
  shown row Field.create_date = text row.create_date
  shown row Field.update_date = text row.update_date
  shown row Field.is_active = text (qt.number_text (of_bool row.is_active))
  shown row Field.src_endpoint = text (row.src_addr ++ codes ":" ++ row.src_port)
  shown row Field.dst_endpoint = text (row.dst_addr ++ codes ":" ++ row.dst_port)
  shown row Field.bytes_sent = number (to_int row.bytes_sent)
  shown row Field.bytes_recv = number (to_int row.bytes_recv)

  -- A cell for a row of the query.
  abbrev cell_of : (ℕ → Bytes) → Field → Variant
  cell_of value Field.user = text (value 1)
  cell_of value Field.create_date = text (value 2)
  cell_of value Field.update_date = text (value 3)
  cell_of value Field.is_active = text (value 4)
  cell_of value Field.src_endpoint = text (value 5 ++ codes ":" ++ value 6)
  cell_of value Field.dst_endpoint = text (value 7 ++ codes ":" ++ value 8)
  cell_of value Field.bytes_sent = number (qt.to_int (value 9))
  cell_of value Field.bytes_recv = number (qt.to_int (value 10))

  model_data-cell_of :
      (m : SessionModel) (r : ℕ) (value : ℕ → Bytes) (f : Field)
      → get_elem? m.sessions r ≡ some (dao_row value)
      → model_data qt m r f true ≡ some (cell_of value f)
  unfolding model_data dao_get
  model_data-cell_of m r value Field.user h = rw h refl
  model_data-cell_of m r value f h = rw h refl

  cell_of-IsOfColumn : (value : ℕ → Bytes) (f : Field) → IsOfColumn f (cell_of value f)
  cell_of-IsOfColumn value Field.user = (value 1, refl)
  cell_of-IsOfColumn value f = (_, refl)

  cell_of-shown :
      (ints : ReadsInts) (row : Row) (f : Field)
      → IsInt64 row.bytes_sent
      → IsInt64 row.bytes_recv
      → cell_of (columns row) f ≡ shown row f
  cell_of-shown ints row Field.bytes_sent sent recv =
      ap number (ints.to_int_number row.bytes_sent sent)
  cell_of-shown ints row Field.bytes_recv sent recv =
      ap number (ints.to_int_number row.bytes_recv recv)
  cell_of-shown ints row f sent recv = refl

  at_row :
      (rows : List Row) (r : ℕ) (row : Row)
      → get_elem? rows r ≡ some row
      → (get_elem? (dao_update (map columns rows)) r ≡ some (dao_row (columns row)))
        × (r < length (dao_update (map columns rows)))
  unfolding dao_update
  at_row [] r row h = cc
  at_row (x ∷ rows) zero row h = (ap (λ o. Option.map (λ y. dao_row (columns y)) o) h, omega arith)
  at_row (x ∷ rows) (suc r) row h = let (there, below) = at_row rows r row h in (there, omega arith)

  -- In a table that has been updated every cell of a row has a value, which is a number in the columns
  -- of the counters and a text in the others.
  pub model_data-IsOfColumn :
      (rows : List (ℕ → Bytes)) (m : SessionModel) (r : ℕ) (f : Field)
      → r < row_count (model_update rows m)
      → (v : Variant) × (model_data qt (model_update rows m) r f true ≡ some v) × IsOfColumn f v
  unfolding model_update
  model_data-IsOfColumn rows m r f inside =
      let (value, there) = dao_update-row rows r inside in
      (cell_of value f, model_data-cell_of _ r value f there, cell_of-IsOfColumn value f)

  -- A session that the database has a row of, whose counters are 64-bit integers, is in a table that
  -- has been updated since: each cell shows the row's column, a counter by its low 32 bits as an `int`.
  pub record_shown :
      (ints : ReadsInts) (rows : List Row) (m : SessionModel) (id : ℤ) (row : Row)
      → find_row id rows ≡ some row
      → IsInt64 row.bytes_sent
      → IsInt64 row.bytes_recv
      → (r : ℕ) × (r < row_count (model_update (map columns rows) m))
        × ((f : Field)
            → model_data qt (model_update (map columns rows) m) r f true ≡ some (shown row f))
  unfolding model_update
  record_shown ints rows m id row found sent recv =
      let (r, there) = found_at id rows row found in
      let (at, below) = at_row rows r row there in
      (
        r,
        below,
        λ f.
            model_data-cell_of _ r (columns row) f at
            ∙ ap some (cell_of-shown ints row f sent recv),
      )
