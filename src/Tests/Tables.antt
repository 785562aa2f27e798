-- ===== src/Tests/Tables.antt =====
-- Examples for the table of sessions and its filter: a date is a year, 0 none, and a text is as wide
-- as it is long.
use socks5_proxy_sum_2022_co.Prelude.{
  ℕ, ◌≡◌, refl, true, false, not, ◌||◌, List, [], ◌∷◌, Bytes, bytes_eq, length, leb, ◌==◌, ==_iff,
  codes, arith, if◌then◌else◌,
}
use socks5_proxy_sum_2022_co.World.{pos}
use socks5_proxy_sum_2022_co.Config.Values.{atoi}
use socks5_proxy_sum_2022_co.Ui.Table.{Qt, SessionModel, model_update, table_width}
use socks5_proxy_sum_2022_co.Ui.Widths.{Gives, total, table_width-total, model_update-IsTable}
use socks5_proxy_sum_2022_co.Ui.Filter
use socks5_proxy_sum_2022_co.Ui.Filter.{Cells, no_filter, accepts}
use socks5_proxy_sum_2022_co.Ui.Setters.{IsQt, Setting, user, create_date, bytes_sent, apply_all}
use socks5_proxy_sum_2022_co.Ui.Accepts.{all_met, settings, apply_all-accepts}

abbrev pub qt : Qt ℕ
qt = record {
  contains = λ text part. bytes_eq part [] || bytes_eq text part;
  to_int = atoi;
  number_text = λ n. [];
  advance = length;
  to_date = λ text. 0;
  null_date = 0;
  is_valid = λ d. not (d == 0);
  year = pos;
  same_date = λ d e. d == e;
  leq_date = leb;
}

invalid-zero : (d : ℕ) → not (d == 0) ≡ false → pos d ≡ pos 0
invalid-zero d h = ground arith

abbrev qt-IsQt : IsQt qt
qt-IsQt = record {
  same_date_iff = λ d e. (==_iff d e).0;
  null_invalid = refl;
  invalid_year = invalid-zero;
}

-- One row of the query.
abbrev columns : ℕ → Bytes
columns i = if i == 1 then codes "ann" else codes "x"

abbrev table : SessionModel
table = model_update (columns ∷ []) (record { sessions = []; column_widths = [] })

table_width-total_example : Gives qt table (total qt table 8 0) (table_width qt table)
table_width-total_example =
    table_width-total qt table
      (model_update-IsTable qt (columns ∷ []) (record { sessions = []; column_widths = [] }))

abbrev row : Cells ℕ
row = record {
  user = codes "ann";
  create_date = 2022;
  update_date = 2023;
  is_active = codes "1";
  src_endpoint = codes "a:1";
  dst_endpoint = codes "b:2";
  bytes_sent = pos 5;
  bytes_recv = pos 6;
}

abbrev calls : List (Setting ℕ)
calls = user (codes "bob") ∷ create_date 2022 ∷ user (codes "ann") ∷ bytes_sent (pos 5) ∷ []

apply_all-accepts_example :
    accepts qt (apply_all qt calls (no_filter qt)) row
    ≡ all_met qt (settings qt (no_filter qt)) calls row
apply_all-accepts_example = apply_all-accepts qt qt-IsQt calls row

shown : accepts qt (apply_all qt calls (no_filter qt)) row ≡ true
unfolding accepts Filter.set_user_filter Filter.set_create_date_filter Filter.set_bytes_sent_filter
shown = refl
