-- ===== src/Ui/Table.antt =====
-- ui/session.cpp and ui/sessionmodel.cpp: the rows of the table, its headers and the cache of
-- its columns' widths. `none` is an index outside of a QVector.
use socks5_proxy_sum_2022_co.Prelude.{
  ℕ, zero, suc, ◌+◌, Bool, true, List, [], ◌∷◌, ◌++◌, Option, none, some, Bytes, length, ltb, ◌==◌,
  if◌then◌else◌, codes, get_elem?,
}
use socks5_proxy_sum_2022_co.World.{ℤ, pos, negsuc}

-- What the two models call of Qt: a `QString` is the list of its units. `to_int` is
-- `QVariant::toInt` of a variant that holds a text, and `advance` the width of a text in the font of
-- the application.
pub record Qt (Date : Type 0) : Type 0 where
  pub contains : Bytes → Bytes → Bool
  pub to_int : Bytes → ℤ
  pub number_text : ℤ → Bytes
  pub advance : Bytes → ℕ
  pub to_date : Bytes → Date
  pub null_date : Date
  pub is_valid : Date → Bool
  pub year : Date → ℤ
  pub same_date : Date → Date → Bool
  pub leq_date : Date → Date → Bool

-- `fields`.
pub data Field : Type 0 where
  user create_date update_date is_active src_endpoint dst_endpoint bytes_sent bytes_recv : Field

abbrev pub index : Field → ℕ
index user = 0
index create_date = 1
index update_date = 2
index is_active = 3
index src_endpoint = 4
index dst_endpoint = 5
index bytes_sent = 6
index bytes_recv = 7

-- The row that `SessionDao::update` makes of one row of the query, whose columns are texts.
abbrev pub dao_row : (ℕ → Bytes) → List Bytes
dao_row value =
    value 1
    ∷ value 2
    ∷ value 3
    ∷ value 4
    ∷ (value 5 ++ codes ":" ++ value 6)
    ∷ (value 7 ++ codes ":" ++ value 8)
    ∷ value 9
    ∷ value 10
    ∷ []

unfoldable pub dao_update : List (ℕ → Bytes) → List (List Bytes)
dao_update [] = []
dao_update (value ∷ values) = dao_row value ∷ dao_update values

unfoldable pub dao_get : List (List Bytes) → ℕ → ℕ → Option Bytes
dao_get rows r c = elim (get_elem? rows r) [ none ↦ none | some cells ↦ get_elem? cells c ]

-- `QVariant`, as far as the models make one.
pub data Variant : Type 0 where
  empty : Variant
  text : Bytes → Variant
  number : ℤ → Variant

-- `SessionModel`; a width of zero is not known yet.
pub record SessionModel : Type 0 where
  pub sessions : List (List Bytes)
  pub column_widths : List ℕ

abbrev pub header : List Bytes
header =
    codes "Username"
    ∷ codes "Create date"
    ∷ codes "Update date"
    ∷ codes "Is active?"
    ∷ codes "Client [ip:port]"
    ∷ codes "Server [ip:port]"
    ∷ codes "Sent bytes"
    ∷ codes "Recv bytes"
    ∷ []

abbrev pub column_count : ℕ
column_count = index bytes_recv + 1

abbrev pub row_count : SessionModel → ℕ
row_count m = length m.sessions

-- `resize` of an empty vector.
abbrev pub zeros : ℕ → List ℕ
zeros zero = []
zeros (suc n) = 0 ∷ zeros n

unfoldable pub model_update : List (ℕ → Bytes) → SessionModel → SessionModel
unfolding dao_update
model_update rows m = record { sessions = dao_update rows; column_widths = zeros (length header) }

-- The flag says whether the role is `Qt::DisplayRole`.
unfoldable pub header_data : ℤ → Bool → Bool → Option Variant
header_data id is_horizontal is_display =
    if is_display
    then (if is_horizontal
        then elim id [
          | negsuc n ↦ some empty
          | pos n ↦
              if ltb (length header) n
              then some empty
              else elim (get_elem? header n) [ none ↦ none | some title ↦ some (text title) ]
        ]
        else some (text []))
    else some empty

abbrev pub set_at : {A : Type 0} → List A → ℕ → A → List A
set_at [] i a = []
set_at (x ∷ xs) zero a = a ∷ xs
set_at (x ∷ xs) (suc i) a = x ∷ set_at xs i a

module _ {Date : Type 0} (qt : Qt Date) where
  -- The cell is read before the field is looked at.
  unfoldable pub model_data : SessionModel → ℕ → Field → Bool → Option Variant
  unfolding dao_get
  model_data m r field is_display =
      if is_display
      then elim (dao_get m.sessions r (index field)) [
        | none ↦ none
        | some ret ↦ elim field [
          | bytes_sent ↦ some (number (qt.to_int ret))
          | bytes_recv ↦ some (number (qt.to_int ret))
          | user ↦ some (text ret)
          | create_date ↦ some (text ret)
          | update_date ↦ some (text ret)
          | is_active ↦ some (text ret)
          | src_endpoint ↦ some (text ret)
          | dst_endpoint ↦ some (text ret)
        ]
      ]
      else some empty

  -- `toString` of a variant.
  abbrev pub variant_text : Variant → Bytes
  variant_text empty = []
  variant_text (text t) = t
  variant_text (number n) = qt.number_text n

  -- `toInt` of a variant.
  abbrev pub variant_int : Variant → ℤ
  variant_int empty = pos 0
  variant_int (text t) = qt.to_int t
  variant_int (number n) = n

  abbrev pub max : ℕ → ℕ → ℕ
  max a b = if ltb a b then b else a

  -- The loop of `columnWidth` over the rows.
  abbrev pub widest : List (List Bytes) → ℕ → ℕ → Option ℕ
  widest [] c ret = some ret
  widest (cells ∷ rows) c ret = elim (get_elem? cells c) [
    | none ↦ none
    | some cell ↦ widest rows c (max ret (qt.advance cell))
  ]

  -- The width of a column from its header and its cells.
  abbrev pub measure : SessionModel → ℕ → Option ℕ
  measure m c = elim (header_data (pos c) true true) [
    | none ↦ none
    | some title ↦ elim (widest m.sessions c (qt.advance (variant_text title) + 8)) [
      | none ↦ none
      | some ret ↦ some (ret + 10)
    ]
  ]

  -- A column outside of the table has no width; a width that is known is not measured again.
  unfoldable pub column_width : ℤ → SessionModel → Option (ℕ × SessionModel)
  column_width (negsuc n) m = some (0, m)
  column_width (pos c) m = elim (get_elem? m.column_widths c) [
    | none ↦ some (0, m)
    | some known ↦
        if known == 0
        then elim (measure m c) [
          | none ↦ none
          | some width ↦ some (width, record m { column_widths = set_at m.column_widths c width })
        ]
        else some (known, m)
  ]

  -- The loop of `tableWidth`, over the columns that are left.
  unfoldable pub sum_widths : ℕ → ℕ → ℕ → SessionModel → Option (ℕ × SessionModel)
  unfolding column_width
  sum_widths zero c sum m = some (sum, m)
  sum_widths (suc left) c sum m = elim (column_width (pos c) m) [
    | none ↦ none
    | some (width, m') ↦ sum_widths left (suc c) (sum + width) m'
  ]

  unfoldable pub table_width : SessionModel → Option (ℕ × SessionModel)
  unfolding sum_widths
  table_width m = sum_widths (length m.column_widths) 0 0 m
