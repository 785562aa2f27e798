-- ===== src/Config/Parse.antt =====
-- `parseFile`, `fillUsers`, and the reading calls of src/ConfigReader.cpp. The file is the list of
-- the lines that `getline` has still to read.
use socks5_proxy_sum_2022_co.Prelude.{
  ℕ, zero, suc, ◌+◌, ◌%◌, ◌^◌, not, ◌||◌, List, [], ◌∷◌, Option, none, some, Bytes, length, ◌==◌,
  if◌then◌else◌, contains, is_empty, bytes_eq, codes,
}
use socks5_proxy_sum_2022_co.Config.Map.{StringMap, replace}
use socks5_proxy_sum_2022_co.Config.Text.{find, substr, remove, reduce, npos}

pub record ConfigReader : Type 0 where
  pub settings : StringMap
  pub users : StringMap

-- The line up to its comment, without carriage returns.
unfoldable pub config_data : Bytes → Bytes
config_data line = remove b'\r' (substr line 0 (find b'#' line))

-- The position of the delimiter is kept in an `unsigned int`, and compared with `npos`.
abbrev pub delimiter_at : ℕ → Bytes → ℕ
delimiter_at delimiter text = find delimiter text % 2 ^ 32

-- The two texts on both sides of the delimiter, reduced.
unfoldable pub entry : ℕ → Bytes → Bytes × Bytes
entry delimiter text =
    let at = delimiter_at delimiter text in
    if not (at == npos)
    then (reduce (substr text 0 at), reduce (substr text ((at + 1) % 2 ^ 32) npos))
    else (reduce [], reduce [])

-- What `fillUsers` makes of a line: it goes on, it is done, or it has a text.
pub data UserLine : Type 0 where
  skips closes : UserLine
  gives : Bytes → UserLine

-- The first `getline` of a round: a login is looked for.
unfoldable pub login_line : Bytes → UserLine
login_line line1 =
    let text = config_data line1 in
    let (tag, value) = entry b':' text in
    if is_empty text
    then skips
    else if contains text b'}'
    then closes
    else if is_empty tag || is_empty value || not (bytes_eq tag (codes "login"))
    then skips
    else gives value

-- The second: the value is the password, whatever the tag. The brace is looked for with the comment,
-- and again without.
unfoldable pub password_line : Bytes → UserLine
password_line line2 =
    let text = config_data line2 in
    let (tag, value) = entry b':' text in
    if contains line2 b'}'
    then closes
    else if is_empty text
    then skips
    else if contains text b'}'
    then closes
    else if is_empty tag || is_empty value
    then skips
    else gives value

-- The loop; `some value1` is a login whose second `getline` comes next. The result is the map and
-- the lines that are left; `fillUsers` returns `true` at each of its ends.
unfoldable pub fill_users : Option Bytes → List Bytes → StringMap → StringMap × List Bytes
fill_users pending [] users = (users, [])
fill_users none (line1 ∷ lines) users = elim (login_line line1) [
  | skips ↦ fill_users none lines users
  | closes ↦ (users, lines)
  | gives value1 ↦ fill_users (some value1) lines users
]
fill_users (some value1) (line2 ∷ lines) users = elim (password_line line2) [
  | skips ↦ fill_users none lines users
  | closes ↦ (users, lines)
  | gives value2 ↦ fill_users none lines (replace value1 value2 users)
]

-- What `parseFile` makes of a line.
pub data ConfigLine : Type 0 where
  ignored opens_users : ConfigLine
  sets : Bytes → Bytes → ConfigLine

unfoldable pub config_line : Bytes → ConfigLine
config_line line =
    let text = config_data line in
    let (tag, value) = entry b'=' text in
    if is_empty text
    then ignored
    else if contains text b'{'
    then opens_users
    else if is_empty tag || is_empty value
    then ignored
    else sets tag value

-- The loop over a file that could be opened. Each round takes a line, so the number of lines is
-- enough fuel; `none` says that it ran out.
unfoldable pub parse_lines : ℕ → List Bytes → ConfigReader → Option ConfigReader
parse_lines fuel [] reader = some reader
parse_lines zero (line ∷ lines) reader = none
parse_lines (suc fuel) (line ∷ lines) reader = elim (config_line line) [
  | ignored ↦ parse_lines fuel lines reader
  | opens_users ↦
      let (users, rest) = fill_users none lines reader.users in
      parse_lines fuel rest (record reader { users = users })
  | sets tag value ↦
      parse_lines fuel lines (record reader { settings = replace tag value reader.settings })
]

-- The constructor: `none` is a file that cannot be opened, which leaves the maps empty.
unfoldable pub parse_file : Option (List Bytes) → Option ConfigReader
parse_file none = some (record { settings = []; users = [] })
parse_file (some lines) = parse_lines (length lines) lines (record { settings = []; users = [] })

-- `getInstance`: `m_pInstance` is made of the file at the first call, and stays.
unfoldable pub get_instance : Option ConfigReader → Option (List Bytes) → Option ConfigReader
unfolding parse_file
get_instance none file = parse_file file
get_instance (some reader) file = some reader
