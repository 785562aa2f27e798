-- ===== src/Config/Text.antt =====
-- The text calls of src/ConfigReader.cpp: `find` and `substr` of `std::string`, and the private
-- `trim` and `reduce`. A `size_t` has 64 bits, and an `unsigned int` has 32.
use socks5_proxy_sum_2022_co.Prelude.{
  ℕ, zero, suc, ◌+◌, ◌-◌, ◌^◌, Bool, not, ◌||◌, [], ◌∷◌, ◌++◌, Option, none, some, Bytes, length,
  take, drop, ◌==◌, if◌then◌else◌,
}

-- The first position whose byte passes a test.
abbrev pub position : (ℕ → Bool) → Bytes → Option ℕ
position p [] = none
position p (c ∷ cs) =
    if p c then some 0 else elim (position p cs) [ none ↦ none | some i ↦ some (suc i) ]

abbrev pub npos : ℕ
npos = 2 ^ 64 - 1

-- `find` of one character, as the `size_t` that it returns.
abbrev pub to_size : Option ℕ → ℕ
to_size none = npos
to_size (some i) = i

unfoldable pub find : ℕ → Bytes → ℕ
find c str = to_size (position (λ d. d == c) str)

-- `substr`, at a position inside the text; the callers pass no other.
abbrev pub substr : Bytes → ℕ → ℕ → Bytes
substr str pos n = take n (drop pos str)

-- `erase(remove(…, '\r'), …)`.
unfoldable pub remove : ℕ → Bytes → Bytes
remove c [] = []
remove c (d ∷ ds) = let rest = remove c ds in if d == c then rest else d ∷ rest

-- The default `whitespace`, and the only one passed.
abbrev pub is_whitespace : ℕ → Bool
is_whitespace c = c == b' ' || c == b'\t'

-- `find_last_not_of` of a text with its first such position at hand: the position of the last.
unfoldable pub last_position : (ℕ → Bool) → Bytes → Option ℕ
last_position p [] = none
last_position p (c ∷ cs) = elim (last_position p cs) [
  | some i ↦ some (suc i)
  | none ↦ if p c then some 0 else none
]

unfoldable pub trim : Bytes → Bytes
unfolding last_position
trim str = elim (position (λ c. not (is_whitespace c)) str) [
  | none ↦ []
  | some str_begin ↦
      let str_end = to_size (last_position (λ c. not (is_whitespace c)) str) in
      substr str str_begin (str_end - str_begin + 1)
]

-- The loop of `reduce` from a position: the next run of white space becomes one space. The text
-- behind `begin_space` shrinks, so its length is enough fuel.
unfoldable pub reduce_from : ℕ → Bytes → ℕ → Bytes
reduce_from zero result start = result
reduce_from (suc fuel) result start = elim (position is_whitespace (drop start result)) [
  | none ↦ result
  | some i ↦
      let begin_space = start + i in
      let run = position (λ c. not (is_whitespace c)) (drop begin_space result) in
      -- `endSpace - beginSpace`; `replace` goes no further than the end of the text.
      let range : ℕ = elim run [ none ↦ npos - begin_space | some k ↦ k ] in
      let replaced = take begin_space result ++ (b' ' ∷ drop (begin_space + range) result) in
      reduce_from fuel replaced (begin_space + 1)
]

unfoldable pub reduce : Bytes → Bytes
unfolding trim reduce_from
reduce str = let result = trim str in reduce_from (suc (length result)) result 0
