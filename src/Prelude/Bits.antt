-- ===== src/Prelude/Bits.antt =====
-- `&` and `|`, as src/socks.cpp and src/socks5.cpp use them on ports: one digit at a time, then a byte.
use Prim.Native.Nat.{
  ℕ, zero, suc, ◌+◌, ◌*◌, ◌/◌, ◌%◌, ◌≤◌, ◌<◌, min, max, bit_and, bit_or, digits, bitwise,
  bit_and-bitwise, bit_or-bitwise,
}
use mathlib.Core.Path.{◌≡◌, refl, ap}
use native.Mathlib.Omega.{arith}

-- An operation on words by its digits: `on_digits` on two of them, `rest` once the first word is zero.
module _ (rest : ℕ → ℕ) (on_digits : ℕ → ℕ → ℕ) where
  -- The count of digits to go does not matter where it is large enough.
  enough_digits :
      (bound count a b : ℕ)
      → a ≤ bound
      → a ≤ count
      → digits rest on_digits count a b ≡ bitwise rest on_digits a b
  enough_digits bound zero zero b small enough = refl
  enough_digits bound (suc count) zero b small enough = refl
  enough_digits bound zero (suc a) b small enough = absurd (omega arith)
  enough_digits zero (suc count) (suc a) b small enough = absurd (omega arith)
  enough_digits (suc bound) (suc count) (suc a) b small enough =
      let halved = λ (c : ℕ) (le : suc a / 2 ≤ c).
        enough_digits bound c (suc a / 2) (b / 2) (omega arith) le in
      omega (arith, halved count (omega arith), halved a (omega arith))

  lowest_digit :
      (a b : ℕ)
      → rest b ≡ rest (b / 2) * 2 + on_digits 0 (b % 2)
      → bitwise rest on_digits a b
        ≡ bitwise rest on_digits (a / 2) (b / 2) * 2 + on_digits (a % 2) (b % 2)
  lowest_digit zero b split = split
  lowest_digit (suc a) b split =
      omega (arith, enough_digits a a (suc a / 2) (b / 2) (omega arith) (omega arith))

and_lowest : (a b : ℕ) → bit_and a b ≡ bit_and (a / 2) (b / 2) * 2 + min (a % 2) (b % 2)
and_lowest a b = omega (
  arith,
  bit_and-bitwise a b,
  bit_and-bitwise (a / 2) (b / 2),
  lowest_digit (λ b. zero) min a b (omega arith),
)

or_lowest : (a b : ℕ) → bit_or a b ≡ bit_or (a / 2) (b / 2) * 2 + max (a % 2) (b % 2)
or_lowest a b = omega (
  arith,
  bit_or-bitwise a b,
  bit_or-bitwise (a / 2) (b / 2),
  lowest_digit (λ b. b) max a b (omega arith),
)

-- A word against zero.
and_or_zero : (bound a : ℕ) → a ≤ bound → (bit_and a 0 ≡ 0) × (bit_or a 0 ≡ a)
and_or_zero bound zero h = (omega (arith, bit_and-bitwise 0 0), omega (arith, bit_or-bitwise 0 0))
and_or_zero zero (suc a) h = absurd (omega arith)
and_or_zero (suc bound) (suc a) h =
    let (conjunction, disjunction) = and_or_zero bound (suc a / 2) (omega arith) in
    (
      omega (arith, and_lowest (suc a) 0, conjunction),
      omega (arith, or_lowest (suc a) 0, disjunction),
    )

-- One digit under a mask of ones.
and_digit : (a n m : ℕ) → n ≡ m * 2 + 1 → bit_and a n ≡ bit_and (a / 2) m * 2 + a % 2
and_digit a n m e =
    let half : n / 2 ≡ m = omega arith in omega (arith, and_lowest a n, ap (bit_and (a / 2)) half)

-- The low byte of a word.
pub bit_and_255 : (a : ℕ) → bit_and a 255 ≡ a % 256
bit_and_255 a = omega (
  arith,
  and_digit a 255 127 refl,
  and_digit (a / 2) 127 63 refl,
  and_digit (a / 2 / 2) 63 31 refl,
  and_digit (a / 2 / 2 / 2) 31 15 refl,
  and_digit (a / 2 / 2 / 2 / 2) 15 7 refl,
  and_digit (a / 2 / 2 / 2 / 2 / 2) 7 3 refl,
  and_digit (a / 2 / 2 / 2 / 2 / 2 / 2) 3 1 refl,
  and_digit (a / 2 / 2 / 2 / 2 / 2 / 2 / 2) 1 0 refl,
  (and_or_zero a (a / 2 / 2 / 2 / 2 / 2 / 2 / 2 / 2) (omega arith)).0,
)

-- One digit of `(h << k) | l`.
or_digit : (a h l : ℕ) → a ≡ h * 2 → bit_or a l ≡ bit_or h (l / 2) * 2 + l % 2
or_digit a h l e =
    let half : a / 2 ≡ h = omega arith in
    omega (arith, or_lowest a l, ap (λ (n : ℕ). bit_or n (l / 2)) half)

-- Four digits of it.
or_nibble : (a h l : ℕ) → a ≡ h * 16 → bit_or a l ≡ bit_or h (l / 2 / 2 / 2 / 2) * 16 + l % 16
or_nibble a h l e = omega (
  arith,
  or_digit a (h * 8) l (omega arith),
  or_digit (h * 8) (h * 4) (l / 2) (omega arith),
  or_digit (h * 4) (h * 2) (l / 2 / 2) (omega arith),
  or_digit (h * 2) h (l / 2 / 2 / 2) (omega arith),
)

-- Two bytes joined into a word of network order.
pub bit_or_bytes : (h l : ℕ) → l < 256 → bit_or (h * 256) l ≡ h * 256 + l
bit_or_bytes h l lt =
    let none_left : l / 2 / 2 / 2 / 2 / 2 / 2 / 2 / 2 ≡ 0 = omega arith in
    omega (
      arith,
      or_nibble (h * 256) (h * 16) l (omega arith),
      or_nibble (h * 16) h (l / 2 / 2 / 2 / 2) refl,
      ap (bit_or h) none_left,
      (and_or_zero h h (omega arith)).1,
    )
