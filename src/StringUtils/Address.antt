-- ===== src/StringUtils/Address.antt =====
-- What formIpAddressString of src/string_utils.h promises for IPv4, and does not for IPv6.
use socks5_proxy_sum_2022_co.Prelude.{
  ℕ, ◌+◌, ◌*◌, ◌/◌, ◌%◌, ◌<◌, ◌≡◌, ◌≢◌, refl, sym, ap, ◌∙◌, [], ◌∷◌, ◌++◌, arith, Bytes, ltb, All,
  length, false, is_empty, ◌&&◌,
}
use mathlib.Core.List.{append_assoc, append-nil}
use socks5_proxy_sum_2022_co.StringUtils.{
  to_string, stream_bytes, decimal, hex_byte, hex_digit, form_ip_address_string,
}
use socks5_proxy_sum_2022_co.StringUtils.Decimal.{IsDigit, decimal-IsDigit, decimal-injective}

stream_bytes-append : (ss vec : Bytes) → stream_bytes ss vec ≡ ss ++ vec
unfolding stream_bytes
stream_bytes-append ss [] = sym (append-nil ss)
stream_bytes-append ss (c ∷ vec) =
    stream_bytes-append (ss ++ c ∷ []) vec ∙ append_assoc ss (c ∷ []) vec

-- A text of bytes is those bytes.
pub to_string_lem : (vec : Bytes) → to_string vec ≡ vec
unfolding to_string
to_string_lem vec = stream_bytes-append [] vec

pub is_empty-append : (xs ys : Bytes) → is_empty (xs ++ ys) ≡ (is_empty xs && is_empty ys)
is_empty-append [] ys = refl
is_empty-append (x ∷ xs) ys = refl

hex_byte-is_empty : (b : ℕ) → is_empty (hex_byte b) ≡ false
unfolding hex_byte
hex_byte-is_empty b = ground arith

-- Texts of digits before a dot are told apart by what they are joined to.
split_at_dot :
    (xs ys r s : Bytes)
    → All IsDigit xs
    → All IsDigit ys
    → xs ++ b'.' ∷ r ≡ ys ++ b'.' ∷ s
    → (xs ≡ ys) × (r ≡ s)
split_at_dot [] [] r s dx dy e = ground arith
split_at_dot [] (y ∷ ys) r s dx dy e = ground arith
split_at_dot (x ∷ xs) [] r s dx dy e = ground arith
split_at_dot (x ∷ xs) (y ∷ ys) r s dx dy e = ground (arith, split_at_dot xs ys r s dx.1 dy.1)

abbrev dotted_quad : ℕ → ℕ → ℕ → ℕ → Bytes
dotted_quad a b c d = decimal a ++ b'.' ∷ (decimal b ++ b'.' ∷ (decimal c ++ b'.' ∷ decimal d))

-- The loop writes the four numbers with dots between them.
pub form_quad : (a b c d : ℕ) → form_ip_address_string (a ∷ b ∷ c ∷ d ∷ []) ≡ dotted_quad a b c d
unfolding form_ip_address_string
form_quad a b c d = simp append_assoc

quad-injective :
    (a b c d a' b' c' d' : ℕ)
    → dotted_quad a b c d ≡ dotted_quad a' b' c' d'
    → (a ≡ a') × (b ≡ b') × (c ≡ c') × (d ≡ d')
quad-injective a b c d a' b' c' d' e =
    let (p, e1) =
      split_at_dot (decimal a) (decimal a') _ _ (decimal-IsDigit a) (decimal-IsDigit a') e in
    let (q, e2) =
      split_at_dot (decimal b) (decimal b') _ _ (decimal-IsDigit b) (decimal-IsDigit b') e1 in
    let (r, s) =
      split_at_dot (decimal c) (decimal c') _ _ (decimal-IsDigit c) (decimal-IsDigit c') e2 in
    (
      decimal-injective a a' p,
      decimal-injective b b' q,
      decimal-injective c c' r,
      decimal-injective d d' s,
    )

-- An address has a text that is not empty: the empty text stands for a failed read.
pub quad-is_empty : (a b c d : ℕ) → is_empty (form_ip_address_string (a ∷ b ∷ c ∷ d ∷ [])) ≡ false
quad-is_empty a b c d = rw form_quad (rw is_empty-append (ground arith))

pub grouped-is_empty :
    (bytes : Bytes) → length bytes ≡ 16 → is_empty (form_ip_address_string bytes) ≡ false
unfolding form_ip_address_string
grouped-is_empty bytes h = rw h (simp (is_empty-append, hex_byte-is_empty))

four_bytes : (xs : Bytes) → length xs ≡ 4 → (a b c d : ℕ) × (xs ≡ a ∷ b ∷ c ∷ d ∷ [])
four_bytes (a ∷ b ∷ c ∷ d ∷ []) h = (a, b, c, d, refl)
four_bytes _ h = absurd (omega arith)

-- Two IPv4 addresses have the same text only if they are the same four bytes.
pub form_ip_address_string-injective :
    (xs ys : Bytes)
    → length xs ≡ 4
    → length ys ≡ 4
    → form_ip_address_string xs ≡ form_ip_address_string ys
    → xs ≡ ys
form_ip_address_string-injective xs ys hx hy e =
    let (a, b, c, d, p) = four_bytes xs hx in
    let (a', b', c', d', q) = four_bytes ys hy in
    let same = ap form_ip_address_string (sym p) ∙ e ∙ ap form_ip_address_string q in
    let parts =
      quad-injective a b c d a' b' c' d' (sym (form_quad a b c d) ∙ same ∙ form_quad a' b' c' d') in
    ground (arith, parts)

hex_byte_small : (b : ℕ) → b < 16 → hex_byte b ≡ hex_digit b ∷ []
unfolding hex_byte
hex_byte_small b h = ground arith

hex_byte_large : (h l : ℕ) → 0 < h → l < 16 → hex_byte (16 * h + l) ≡ hex_digit h ∷ hex_digit l ∷ []
unfolding hex_byte
hex_byte_large h l p q =
    let high : (16 * h + l) / 16 ≡ h = omega arith in
    let low : (16 * h + l) % 16 ≡ l = omega arith in
    let big : ltb (16 * h + l) 16 ≡ false = ground arith in rw (big, high, low)

-- A digit can move between the halves of a group.
hex_shift :
    (a x y : ℕ)
    → 0 < a
    → a < 16
    → 0 < x
    → x < 16
    → y < 16
    → hex_byte a ++ hex_byte (16 * x + y) ≡ hex_byte (16 * a + x) ++ hex_byte y
hex_shift a x y ha ha' hx hx' hy =
    rw (
      hex_byte_small a ha',
      hex_byte_large x y hx hy,
      hex_byte_large a x ha hx',
      hex_byte_small y hy,
    )

-- The halves of a group are written with no leading zero, so a digit can move between them: two
-- different addresses of sixteen bytes have one text.
pub ipv6_ambiguous :
    (a x y : ℕ) (rest : Bytes)
    → 0 < a
    → a < 16
    → 0 < x
    → x < 16
    → y < 16
    → length rest ≡ 14
    → (form_ip_address_string (a ∷ (16 * x + y) ∷ rest)
        ≡ form_ip_address_string ((16 * a + x) ∷ y ∷ rest))
      × (a ∷ (16 * x + y) ∷ rest ≢ (16 * a + x) ∷ y ∷ rest)
unfolding form_ip_address_string
ipv6_ambiguous a x y rest ha ha' hx hx' hy hr =
    (rw (hr, hex_shift a x y ha ha' hx hx' hy) refl, λ e. ground arith)
