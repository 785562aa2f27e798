-- ===== src/Config/Values.antt =====
-- The three `getValue` of src/ConfigReader.cpp, which change their second argument only if the tag
-- is there.
use socks5_proxy_sum_2022_co.Prelude.{
  ℕ, suc, ◌+◌, ◌-◌, ◌*◌, ◌^◌, ◌≡◌, ◌<◌, refl, ap, ◌∙◌, Bool, true, false, not, ◌&&◌, ◌||◌, [], ◌∷◌,
  none, some, Bytes, leb, ◌==◌, if◌then◌else◌, All, arith,
}
use socks5_proxy_sum_2022_co.World.{ℤ, pos, negsuc, sub_ℕ}
use socks5_proxy_sum_2022_co.StringUtils.{decimal}
use socks5_proxy_sum_2022_co.StringUtils.Decimal.{value, value-decimal, IsDigit, decimal-IsDigit}
use socks5_proxy_sum_2022_co.Config.Map
use socks5_proxy_sum_2022_co.Config.Parse.{ConfigReader}

-- `atoi`: white space, a sign, and the digits up to the first other byte. A number that no `int`
-- holds is undefined behaviour of the source, and its value here.
abbrev is_space : ℕ → Bool
is_space c = c == b' ' || (leb 9 c && leb c 13)

abbrev is_digit : ℕ → Bool
is_digit c = leb b'0' c && leb c b'9'

abbrev digits_value : Bytes → ℕ → ℕ
digits_value [] n = n
digits_value (c ∷ cs) n =
    let rest = digits_value cs (n * 10 + (c - b'0')) in if is_digit c then rest else n

abbrev signed_value : Bytes → ℤ
signed_value [] = pos 0
signed_value (c ∷ cs) =
    if c == b'-'
    then sub_ℕ 0 (digits_value cs 0)
    else if c == b'+'
    then pos (digits_value cs 0)
    else pos (digits_value (c ∷ cs) 0)

abbrev skip_spaces : Bytes → Bytes
skip_spaces [] = []
skip_spaces (c ∷ cs) = let rest = skip_spaces cs in if is_space c then rest else c ∷ cs

abbrev pub atoi : Bytes → ℤ
atoi text = signed_value (skip_spaces text)

abbrev is_zero : ℤ → Bool
is_zero (pos n) = n == 0
is_zero (negsuc n) = false

-- The result, and what the second argument holds afterwards.
unfoldable pub get_value_bool : ConfigReader → Bytes → Bool → Bool × Bool
get_value_bool reader tag before = elim (Map.find tag reader.settings) [
  | some text ↦ (true, not (is_zero (atoi text)))
  | none ↦ (false, before)
]

unfoldable pub get_value_int : ConfigReader → Bytes → ℤ → Bool × ℤ
get_value_int reader tag before = elim (Map.find tag reader.settings) [
  | some text ↦ (true, atoi text)
  | none ↦ (false, before)
]

unfoldable pub get_value : ConfigReader → Bytes → Bytes → Bool × Bytes
get_value reader tag before = elim (Map.find tag reader.settings) [
  | some text ↦ (true, text)
  | none ↦ (false, before)
]

digits_value-IsDigit : (cs : Bytes) (n : ℕ) → All IsDigit cs → digits_value cs n ≡ value cs n
digits_value-IsDigit [] n h = refl
digits_value-IsDigit (c ∷ cs) n h =
    let digit : is_digit c ≡ true = ground (arith, h.0) in rw digit (digits_value-IsDigit cs _ h.1)

atoi-IsDigit : (cs : Bytes) → All IsDigit cs → atoi cs ≡ pos (value cs 0)
atoi-IsDigit [] h = refl
atoi-IsDigit (c ∷ cs) h =
    let visible : is_space c ≡ false = ground (arith, h.0) in
    let no_minus : (c == b'-') ≡ false = ground (arith, h.0) in
    let no_plus : (c == b'+') ≡ false = ground (arith, h.0) in
    rw (visible, no_minus, no_plus) (ap pos (digits_value-IsDigit (c ∷ cs) 0 h))

pub atoi-decimal : (n : ℕ) → atoi (decimal n) ≡ pos n
atoi-decimal n = atoi-IsDigit (decimal n) (decimal-IsDigit n) ∙ ap pos (value-decimal n)

pub atoi-minus : (n : ℕ) → atoi (b'-' ∷ decimal (suc n)) ≡ negsuc n
atoi-minus n =
    let read : digits_value (decimal (suc n)) 0 ≡ suc n =
      digits_value-IsDigit (decimal (suc n)) 0 (decimal-IsDigit (suc n)) ∙ value-decimal (suc n) in
    rw read (ground arith)

-- A setting written as a decimal number below the range of `int` is read back as that number, and as
-- a flag it says whether the number is not zero.
pub get_value-decimal :
    (reader : ConfigReader) (tag : Bytes) (n : ℕ) (number : ℤ) (flag : Bool)
    → n < 2 ^ 31
    → Map.find tag reader.settings ≡ some (decimal n)
    → (get_value_int reader tag number ≡ (true, pos n))
      × (get_value_bool reader tag flag ≡ (true, not (n == 0)))
unfolding get_value_int get_value_bool
get_value-decimal reader tag n number flag small found = (
  rw (get_value_int, found) (rw (atoi-decimal n) refl),
  rw (get_value_bool, found) (rw (atoi-decimal n) refl),
)
