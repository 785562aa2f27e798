-- ===== src/Tests/Shown.antt =====
-- Examples for the table of ui on the database's rows: numbers are decimal texts.
use socks5_proxy_sum_2022_co.Prelude.{
  ℕ, suc, ◌^◌, ◌-◌, ◌<◌, ◌≡◌, refl, ap, true, List, [], ◌∷◌, some, Bytes, codes, arith,
}
use mathlib.Core.List.{map}
use socks5_proxy_sum_2022_co.World.{ℤ, pos, negsuc}
use socks5_proxy_sum_2022_co.StringUtils.{decimal}
use socks5_proxy_sum_2022_co.Config.Values.{atoi, atoi-decimal, atoi-minus}
use socks5_proxy_sum_2022_co.Statistics.Sqlite.{Row, to_int, new_row}
use socks5_proxy_sum_2022_co.Ui.Table.{
  Qt, Field, Variant, number, SessionModel, row_count, model_update, model_data,
}
use socks5_proxy_sum_2022_co.Ui.Records.{
  ReadsInts, IsOfColumn, IsInt64, columns, shown, model_data-IsOfColumn, record_shown,
}
use socks5_proxy_sum_2022_co.Tests.Tables.{qt}
use socks5_proxy_sum_2022_co.Tests.Records.{ann}

abbrev to_text : ℤ → Bytes
to_text (pos n) = decimal n
to_text (negsuc n) = b'-' ∷ decimal (suc n)

abbrev decimal_qt : Qt ℕ
decimal_qt = record qt { to_int = λ text. to_int (atoi text); number_text = to_text }

atoi-to_text : (n : ℤ) → IsInt64 n → to_int (atoi (to_text n)) ≡ to_int n
atoi-to_text (pos n) h = ap to_int (atoi-decimal n)
atoi-to_text (negsuc n) h = ap to_int (atoi-minus n)

decimal_qt-ReadsInts : ReadsInts decimal_qt
decimal_qt-ReadsInts = record { to_int_number = atoi-to_text }

-- The second session has received more bytes than an `int` holds.
abbrev long_session : Row
long_session = record (new_row 2 (codes "then") ann) {
  bytes_sent = pos 40;
  bytes_recv = pos (2 ^ 31);
}

abbrev rows : List Row
rows = new_row 1 (codes "then") ann ∷ long_session ∷ []

abbrev blank : SessionModel
blank = record { sessions = []; column_widths = [] }

model_data-IsOfColumn_example :
    (v : Variant) × (model_data decimal_qt
        (model_update (map (columns decimal_qt) rows) blank)
        1
        Field.bytes_sent
        true
      ≡ some v)
    × IsOfColumn Field.bytes_sent v
unfolding model_update
model_data-IsOfColumn_example =
    model_data-IsOfColumn decimal_qt (map (columns decimal_qt) rows) blank 1 Field.bytes_sent
      (omega arith)

record_shown_example :
    (r : ℕ) × (r < row_count (model_update (map (columns decimal_qt) rows) blank))
    × ((f : Field)
        → model_data decimal_qt (model_update (map (columns decimal_qt) rows) blank) r f true
          ≡ some (shown decimal_qt long_session f))
record_shown_example =
    record_shown decimal_qt decimal_qt-ReadsInts rows blank (pos 2) long_session refl (omega arith)
      (omega arith)

shown-wrapped : shown decimal_qt long_session Field.bytes_recv ≡ number (negsuc (2 ^ 31 - 1))
shown-wrapped = refl
