-- ===== src/Config/Lines.antt =====
-- How src/ConfigReader.cpp reads the lines of a file.
use socks5_proxy_sum_2022_co.Prelude.{
  ℕ, zero, suc, ◌+◌, ◌%◌, ◌^◌, ◌≡◌, ◌≢◌, ◌⊎◌, inl, inr, ==_refl, ◌<◌, ◌≤◌, refl, Bool, true, false,
  not, List, [], ◌∷◌, ◌++◌, Option, none, some, Bytes, length, take, drop, take_append_length,
  take_all, ◌==◌, All, arith,
}
use socks5_proxy_sum_2022_co.Config.Map.{StringMap, replace}
use socks5_proxy_sum_2022_co.Config.Text.{
  position, last_position, find, remove, is_whitespace, trim, reduce, reduce_from, npos,
}
use socks5_proxy_sum_2022_co.Config.Parse.{
  ConfigReader, entry, UserLine, skips, closes, gives, login_line, password_line, fill_users,
  ConfigLine, ignored, opens_users, sets, config_line, parse_lines, parse_file,
}

UserLine-cases : (u : UserLine) → (u ≡ skips) ⊎ ((u ≡ closes) ⊎ ((v : Bytes) × (u ≡ gives v)))
UserLine-cases skips = inl refl
UserLine-cases closes = inr (inl refl)
UserLine-cases (gives v) = inr (inr (v, refl))

ConfigLine-cases :
    (c : ConfigLine)
    → (c ≡ ignored) ⊎ ((c ≡ opens_users) ⊎ ((t : Bytes) × (v : Bytes) × (c ≡ sets t v)))
ConfigLine-cases ignored = inl refl
ConfigLine-cases opens_users = inr (inl refl)
ConfigLine-cases (sets t v) = inr (inr (t, v, refl))

-- `fillUsers` leaves no more lines than there were.
fill_users_left :
    (pending : Option Bytes) (lines : List Bytes) (users : StringMap)
    → length (fill_users pending lines users).1 ≤ length lines
unfolding fill_users
fill_users_left none [] users = omega arith
fill_users_left (some v) [] users = omega arith
fill_users_left none (line ∷ lines) users = elim (UserLine-cases (login_line line)) [
  | inl e ↦ rw (e, fill_users, length) (omega (arith, fill_users_left none lines users))
  | inr (inl e) ↦ rw (e, fill_users, length) (omega arith)
  | inr (inr (v, e)) ↦
      rw (e, fill_users, length) (omega (arith, fill_users_left (some v) lines users))
]
fill_users_left (some v) (line ∷ lines) users = elim (UserLine-cases (password_line line)) [
  | inl e ↦ rw (e, fill_users, length) (omega (arith, fill_users_left none lines users))
  | inr (inl e) ↦ rw (e, fill_users, length) (omega arith)
  | inr (inr (w, e)) ↦
      rw (e, fill_users, length) (omega (arith, fill_users_left none lines (replace v w users)))
]

parse_lines_ends :
    (fuel : ℕ) (lines : List Bytes) (reader : ConfigReader)
    → length lines ≤ fuel
    → parse_lines fuel lines reader ≢ none
unfolding parse_lines
parse_lines_ends zero [] reader h = λ e. cc
parse_lines_ends (suc fuel) [] reader h = λ e. cc
parse_lines_ends zero (line ∷ lines) reader h = absurd (omega arith)
parse_lines_ends (suc fuel) (line ∷ lines) reader h = elim (ConfigLine-cases (config_line line)) [
  | inl e ↦ rw (e, parse_lines) (parse_lines_ends fuel lines _ (omega arith))
  | inr (inl e) ↦
      rw (e, parse_lines)
        (parse_lines_ends fuel _ _ (omega (arith, fill_users_left none lines reader.users)))
  | inr (inr (t, v, e)) ↦ rw (e, parse_lines) (parse_lines_ends fuel lines _ (omega arith))
]

-- The end of the file is reached, whatever is in it.
pub parse_file_ends : (file : Option (List Bytes)) → parse_file file ≢ none
unfolding parse_file
parse_file_ends none = λ e. cc
parse_file_ends (some lines) = parse_lines_ends (length lines) lines _ (omega arith)

abbrev AllAre : (ℕ → Bool) → Bytes → Type 0
AllAre p = All (λ c. p c ≡ true)

abbrev pub NoneAre : (ℕ → Bool) → Bytes → Type 0
NoneAre p = All (λ c. p c ≡ false)

position-none : (p : ℕ → Bool) (xs : Bytes) → NoneAre p xs → position p xs ≡ none
position-none p [] h = refl
position-none p (c ∷ cs) h = rw (h.0, position-none p cs h.1)

position_append :
    (p : ℕ → Bool) (xs ys : Bytes) (c : ℕ)
    → NoneAre p xs
    → p c ≡ true
    → position p (xs ++ c ∷ ys) ≡ some (length xs)
position_append p [] ys c h t = rw t
position_append p (x ∷ xs) ys c h t = rw (h.0, position_append p xs ys c h.1 t)

last_position_all :
    (p : ℕ → Bool) (c : ℕ) (cs : Bytes)
    → AllAre p (c ∷ cs)
    → last_position p (c ∷ cs) ≡ some (length cs)
unfolding last_position
last_position_all p c [] h = rw h.0
last_position_all p c (d ∷ ds) h = rw (last_position_all p d ds h.1) refl

pub remove_none : (c : ℕ) (xs : Bytes) → NoneAre (λ d. d == c) xs → remove c xs ≡ xs
unfolding remove
remove_none c [] h = refl
remove_none c (x ∷ xs) h = rw (h.0, remove_none c xs h.1)

abbrev is_visible : ℕ → Bool
is_visible c = not (is_whitespace c)

visible : (xs : Bytes) → NoneAre is_whitespace xs → AllAre is_visible xs
visible [] h = tt
visible (x ∷ xs) h = (rw h.0 refl, visible xs h.1)

trim_visible : (c : ℕ) (cs : Bytes) → NoneAre is_whitespace (c ∷ cs) → trim (c ∷ cs) ≡ c ∷ cs
unfolding trim
trim_visible c cs h =
    let first : position is_visible (c ∷ cs) ≡ some 0 = rw (visible (c ∷ cs) h).0 refl in
    rw (trim, first, last_position_all is_visible c cs (visible (c ∷ cs) h))
      (take_all _ (c ∷ cs) (omega arith))

pub reduce_visible : (xs : Bytes) → NoneAre is_whitespace xs → reduce xs ≡ xs
unfolding reduce trim reduce_from
reduce_visible [] h = refl
reduce_visible (c ∷ cs) h =
    rw (trim_visible c cs h, reduce_from, position-none is_whitespace (c ∷ cs) h)
      (trim_visible c cs h)

pub find_none : (c : ℕ) (xs : Bytes) → NoneAre (λ d. d == c) xs → find c xs ≡ npos
unfolding find
find_none c xs h = rw (position-none (λ d. d == c) xs h) refl

find_append : (c : ℕ) (xs ys : Bytes) → NoneAre (λ d. d == c) xs → find c (xs ++ c ∷ ys) ≡ length xs
unfolding find
find_append c xs ys h = rw (position_append (λ d. d == c) xs ys c h (==_refl c)) refl

reduce_both :
    (text : Bytes) (a b : ℕ)
    → length text ≤ a
    → length text ≤ b
    → ◌≡◌ {A = Bytes × Bytes}
        (reduce (take a text), reduce (take b text))
        (reduce text, reduce text)
reduce_both text a b ha hb = rw (take_all a text ha, take_all b text hb) refl

drop-suc : (xs : Bytes) (c : ℕ) (ys : Bytes) → drop (suc (length xs)) (xs ++ c ∷ ys) ≡ ys
drop-suc [] c ys = refl
drop-suc (x ∷ xs) c ys = drop-suc xs c ys

-- A line without the delimiter is not skipped: the position is cut to 32 bits before it is compared
-- with `npos`, so both the tag and the value are the whole line.
pub entry_without_delimiter :
    (delimiter : ℕ) (text : Bytes)
    → NoneAre (λ d. d == delimiter) text
    → length text < 2 ^ 32
    → entry delimiter text ≡ (reduce text, reduce text)
unfolding entry
entry_without_delimiter delimiter text h small =
    rw (find_none delimiter text h)
      (reduce_both text (npos % 2 ^ 32) npos (omega arith) (omega arith))

pub entry_at_delimiter :
    (delimiter : ℕ) (tag value : Bytes)
    → NoneAre (λ d. d == delimiter) tag
    → length tag + 1 + length value < 2 ^ 32
    → entry delimiter (tag ++ delimiter ∷ value) ≡ (reduce tag, reduce value)
unfolding entry
entry_at_delimiter delimiter tag value h small =
    let same : length tag % 2 ^ 32 ≡ length tag = omega arith in
    let next : (length tag + 1) % 2 ^ 32 ≡ suc (length tag) = omega arith in
    let found : (length tag == npos) ≡ false = ground arith in
    rw
      (
        find_append delimiter tag value h,
        same,
        next,
        found,
        take_append_length tag (delimiter ∷ value),
        drop-suc tag delimiter value,
        take_all npos value (omega arith),
      )
      refl
