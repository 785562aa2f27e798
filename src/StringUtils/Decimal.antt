-- ===== src/StringUtils/Decimal.antt =====
-- What `std::to_string` of src/string_utils.h promises: digits that read back as the number.
use socks5_proxy_sum_2022_co.Prelude.{
  ℕ, zero, suc, ◌+◌, ◌-◌, ◌*◌, ◌/◌, ◌%◌, ◌≤◌, ◌<◌, ◌≡◌, sym, ap, ◌∙◌, [], ◌∷◌, Bool-cases, inl, inr,
  arith, Bytes, ltb, All,
}
use socks5_proxy_sum_2022_co.StringUtils.{decimal, decimal_digits}

-- Horner's reading of a text of digits, from the number read so far.
abbrev pub value : Bytes → ℕ → ℕ
value [] v = v
value (c ∷ cs) v = value cs (v * 10 + (c - b'0'))

abbrev pub IsDigit : ℕ → Type 0
IsDigit c = (b'0' ≤ c) × (c ≤ b'9')

value-decimal_digits :
    (f n : ℕ) (acc : Bytes) → n < f → value (decimal_digits f n acc) 0 ≡ value acc n
unfolding decimal_digits
value-decimal_digits zero n acc h = absurd (omega arith)
value-decimal_digits (suc f) n acc h = elim (Bool-cases (ltb n 10)) [
  | inl small ↦ let e : 0 * 10 + (b'0' + n - b'0') ≡ n = omega arith in rw small (ap (value acc) e)
  | inr large ↦
      let lt : n / 10 < f = ground arith in
      let e : n / 10 * 10 + (b'0' + n % 10 - b'0') ≡ n = omega arith in
      rw large (value-decimal_digits f (n / 10) ((b'0' + n % 10) ∷ acc) lt ∙ ap (value acc) e)
]

decimal_digits-IsDigit :
    (f n : ℕ) (acc : Bytes) → n < f → All IsDigit acc → All IsDigit (decimal_digits f n acc)
unfolding decimal_digits
decimal_digits-IsDigit zero n acc h d = d
decimal_digits-IsDigit (suc f) n acc h d = elim (Bool-cases (ltb n 10)) [
  | inl small ↦ rw small ((omega arith, ground arith), d)
  | inr large ↦
      let lt : n / 10 < f = ground arith in
      rw large (
        decimal_digits-IsDigit f (n / 10) ((b'0' + n % 10) ∷ acc) lt
          ((omega arith, omega arith), d))
]

-- The text reads back as the number.
pub value-decimal : (n : ℕ) → value (decimal n) 0 ≡ n
unfolding decimal
value-decimal n = value-decimal_digits (suc n) n [] (omega arith)

pub decimal-IsDigit : (n : ℕ) → All IsDigit (decimal n)
unfolding decimal
decimal-IsDigit n = decimal_digits-IsDigit (suc n) n [] (omega arith) tt

pub decimal-injective : (m n : ℕ) → decimal m ≡ decimal n → m ≡ n
decimal-injective m n e = sym (value-decimal m) ∙ ap (λ (s : Bytes). value s 0) e ∙ value-decimal n
