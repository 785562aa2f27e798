-- ===== src/Config/Settings.antt =====
-- Settings written to a file and read by `parseFile` of src/ConfigReader.cpp.
use socks5_proxy_sum_2022_co.Prelude.{
  take_all, ℕ, zero, suc, ◌+◌, ◌^◌, ◌≡◌, ◌<◌, ◌≤◌, refl, ap, ◌∙◌, Bool, false, ◌||◌, List, [], ◌∷◌,
  ◌++◌, Option, none, some, Bytes, length, length-append, ◌==◌, if◌then◌else◌, contains, is_empty,
  bytes_eq, arith,
}
use socks5_proxy_sum_2022_co.Config.Map.{StringMap, replace, find-replace}
use socks5_proxy_sum_2022_co.Config.Map
use socks5_proxy_sum_2022_co.Config.Text.{is_whitespace, npos}
use socks5_proxy_sum_2022_co.Config.Parse.{
  ConfigReader, config_data, sets, config_line, parse_lines, parse_file,
}
use socks5_proxy_sum_2022_co.Config.Lines.{
  NoneAre, find_none, remove_none, reduce_visible, entry_at_delimiter,
}

-- What a text of a setting has none of.
abbrev pub is_special : ℕ → Bool
is_special c = is_whitespace c || (c == b'#' || (c == b'\r' || c == b'{'))

pub record IsSetting (tag value : Bytes) : Type 0 where
  pub tag_ne : is_empty tag ≡ false
  pub value_ne : is_empty value ≡ false
  pub tag_plain : NoneAre is_special tag
  pub value_plain : NoneAre is_special value
  pub no_delimiter : NoneAre (λ d. d == b'=') tag
  pub small : length tag + 1 + length value < 2 ^ 32

pub NoneAre-mono :
    (p q : ℕ → Bool) (xs : Bytes)
    → ((c : ℕ) → p c ≡ false → q c ≡ false)
    → NoneAre p xs
    → NoneAre q xs
NoneAre-mono p q [] f h = tt
NoneAre-mono p q (x ∷ xs) f h = (f x h.0, NoneAre-mono p q xs f h.1)

pub NoneAre-append :
    (p : ℕ → Bool) (xs : Bytes) (c : ℕ) (ys : Bytes)
    → NoneAre p xs
    → p c ≡ false
    → NoneAre p ys
    → NoneAre p (xs ++ c ∷ ys)
NoneAre-append p [] c ys h e k = (e, k)
NoneAre-append p (x ∷ xs) c ys h e k = (h.0, NoneAre-append p xs c ys h.1 e k)

pub contains_none : (c : ℕ) (xs : Bytes) → NoneAre (λ d. d == c) xs → contains xs c ≡ false
contains_none c [] h = refl
contains_none c (x ∷ xs) h = rw (h.0) (contains_none c xs h.1)

pub config_data_plain :
    (line : Bytes) → NoneAre is_special line → length line < 2 ^ 32 → config_data line ≡ line
unfolding config_data
config_data_plain line h small =
    let no_comment = NoneAre-mono is_special (λ d. d == b'#') line (λ c e. ground arith) h in
    let no_return = NoneAre-mono is_special (λ d. d == b'\r') line (λ c e. ground arith) h in
    rw (find_none b'#' line no_comment)
      (rw (take_all npos line (omega arith)) (remove_none b'\r' line no_return))

abbrev pub print : Bytes → Bytes → Bytes
print tag value = tag ++ b'=' ∷ value

print-is_empty : (tag value : Bytes) → is_empty (print tag value) ≡ false
print-is_empty [] value = refl
print-is_empty (c ∷ cs) value = refl

config_line-print :
    (tag value : Bytes) → IsSetting tag value → config_line (print tag value) ≡ sets tag value
unfolding config_line
config_line-print tag value h =
    let line = print tag value in
    let plain = NoneAre-append is_special tag b'=' value h.tag_plain refl h.value_plain in
    let no_brace =
      contains_none b'{' line
        (NoneAre-mono is_special (λ d. d == b'{') line (λ c e. ground arith) plain) in
    let seen = λ (xs : Bytes) (p : NoneAre is_special xs).
      reduce_visible xs (NoneAre-mono is_special is_whitespace xs (λ c e. ground arith) p) in
    let bound : length line < 2 ^ 32 = omega (arith, h.small, length-append tag (b'=' ∷ value)) in
    rw
      (
        config_data_plain line plain bound,
        print-is_empty tag value,
        no_brace,
        entry_at_delimiter b'=' tag value h.no_delimiter h.small,
        seen tag h.tag_plain,
        seen value h.value_plain,
        h.tag_ne,
        h.value_ne,
      )
      refl

abbrev pub print_all : StringMap → List Bytes
print_all [] = []
print_all ((tag, value) ∷ entries) = print tag value ∷ print_all entries

abbrev pub AreSettings : StringMap → Type 0
AreSettings [] = Unit {0}
AreSettings ((tag, value) ∷ entries) = IsSetting tag value × AreSettings entries

-- The value of the last entry with a tag, or what there was before.
abbrev pub last_value : Bytes → StringMap → Option Bytes → Option Bytes
last_value k [] before = before
last_value k ((tag, value) ∷ entries) before =
    last_value k entries (if bytes_eq tag k then some value else before)

-- What reading the lines of some entries makes of a reader.
Reads : ConfigReader → StringMap → Option ConfigReader → Type 0
Reads reader entries result =
    (after : ConfigReader) × (result ≡ some after)
    × (after.users ≡ reader.users)
    × ((k : Bytes) → Map.find k after.settings ≡ last_value k entries (Map.find k reader.settings))

parse_lines-print :
    (fuel : ℕ) (entries : StringMap) (reader : ConfigReader)
    → length (print_all entries) ≤ fuel
    → AreSettings entries
    → Reads reader entries (parse_lines fuel (print_all entries) reader)
unfolding parse_lines Reads
parse_lines-print zero [] reader h plain = (reader, refl, refl, λ k. refl)
parse_lines-print (suc fuel) [] reader h plain = (reader, refl, refl, λ k. refl)
parse_lines-print zero (pair ∷ entries) reader h plain = absurd (omega arith)
parse_lines-print (suc fuel) ((tag, value) ∷ entries) reader h plain =
    let updated = record reader { settings = replace tag value reader.settings } in
    let (after, done, users, found) =
      parse_lines-print fuel entries updated (omega arith) plain.1 in
    let set = λ (k : Bytes). ap (last_value k entries) (find-replace tag k value reader.settings) in
    rw (parse_lines, config_line-print tag value plain.0) (after, done, users, λ k. found k ∙ set k)

-- A file of `tag=value` lines, without special bytes in either text, is read back: the users stay
-- empty, and a tag has the value of its last line, if it has a line.
pub parse_file-print :
    (entries : StringMap)
    → AreSettings entries
    → (reader : ConfigReader) × (parse_file (some (print_all entries)) ≡ some reader)
      × (reader.users ≡ [])
      × ((k : Bytes) → Map.find k reader.settings ≡ last_value k entries none)
unfolding parse_file Map.find Reads
parse_file-print entries plain =
    parse_lines-print (length (print_all entries)) entries (record { settings = []; users = [] })
      (omega arith) plain
