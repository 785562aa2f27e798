-- ===== src/StringUtils/Reverse.antt =====
-- `formIpAddressReverseString` of src/string_utils.h.
use socks5_proxy_sum_2022_co.Prelude.{
  ℕ, zero, suc, ◌+◌, ◌-◌, ◌%◌, ◌^◌, ◌≡◌, ◌≤◌, ◌<◌, ◌==◌, refl, ◌∙◌, [], ◌∷◌, ◌++◌, none, Bytes,
  length, get_elem?, if◌then◌else◌, arith, some,
}
use socks5_proxy_sum_2022_co.StringUtils.{
  decimal, out_of_range, reversed_from, form_ip_address_reverse_string,
}

outside : (bytes : Bytes) (i : ℕ) → length bytes ≤ i → get_elem? bytes i ≡ none
outside [] i h = refl
outside (b ∷ bytes) zero h = absurd (omega arith)
outside (b ∷ bytes) (suc i) h = outside bytes i (omega arith)

inside : (bytes : Bytes) (i : ℕ) → i < length bytes → (b : ℕ) × (get_elem? bytes i ≡ some b)
inside [] i h = elim h [ ]
inside (b ∷ bytes) zero h = (b, refl)
inside (b ∷ bytes) (suc i) h = inside bytes i (omega arith)

-- One round at an index outside of the vector, and one inside.
reversed_from-outside :
    (f : ℕ) (bytes : Bytes) (i : ℕ) (text : Bytes)
    → length bytes ≤ i
    → reversed_from (suc f) bytes i text ≡ out_of_range
unfolding reversed_from
reversed_from-outside f bytes i text h = rw (reversed_from, outside bytes i h) refl

reversed_from-inside :
    (f : ℕ) (bytes : Bytes) (i : ℕ) (text : Bytes)
    → i < length bytes
    → (more : Bytes) × (reversed_from (suc f) bytes i text
        ≡ reversed_from f bytes ((i + 2 ^ 64 - 1) % 2 ^ 64) more)
unfolding reversed_from
reversed_from-inside f bytes i text h =
    let (b, at) = inside bytes i h in
    let formed_text = text ++ decimal b in
    (if i == 0 then formed_text else formed_text ++ b'.' ∷ [], rw (reversed_from, at) refl)

reversed_from_faults :
    (i f : ℕ) (bytes text : Bytes)
    → i < length bytes
    → length bytes < 2 ^ 64
    → reversed_from (i + 2 + f) bytes i text ≡ out_of_range
reversed_from_faults zero f bytes text h short =
    let (more, round) = reversed_from-inside (suc f) bytes 0 text h in
    let rounds : 0 + 2 + f ≡ suc (suc f) = omega arith in
    rw rounds (round ∙ reversed_from-outside f bytes _ more (omega arith))
reversed_from_faults (suc i) f bytes text h short =
    let (more, round) = reversed_from-inside (i + 2 + f) bytes (suc i) text h in
    let less : (suc i + 2 ^ 64 - 1) % 2 ^ 64 ≡ i = omega arith in
    let rounds : suc i + 2 + f ≡ suc (i + 2 + f) = omega arith in
    rw rounds (round ∙ rw less (reversed_from_faults i f bytes more (omega arith) short))

-- On every vector the loop goes on below the index 0, at the largest `size_t`, and reads outside of the
-- vector; this whatever the fuel is, from two rounds more than there are bytes.
pub form_ip_address_reverse_string_faults :
    (f : ℕ) (bytes : Bytes)
    → length bytes < 2 ^ 64
    → form_ip_address_reverse_string (length bytes + 2 + f) bytes ≡ out_of_range
unfolding form_ip_address_reverse_string
form_ip_address_reverse_string_faults f [] short =
    let rounds : 0 + 2 + f ≡ suc (suc f) = omega arith in
    rw rounds (reversed_from-outside (suc f) [] (2 ^ 64 - 1) [] (omega arith))
form_ip_address_reverse_string_faults f (b ∷ bytes) short =
    let last : (length (b ∷ bytes) + 2 ^ 64 - 1) % 2 ^ 64 ≡ length bytes = omega arith in
    let rounds : length (b ∷ bytes) + 2 + f ≡ length bytes + 2 + suc f = omega arith in
    rw rounds
      (rw last (reversed_from_faults (length bytes) (suc f) (b ∷ bytes) [] (omega arith) short))
