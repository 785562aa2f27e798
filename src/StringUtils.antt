-- ===== src/StringUtils.antt =====
-- src/string_utils.h: texts built from bytes. A `std::string` is the list of its bytes.
pub mod Decimal
pub mod Address
pub mod Reverse
use socks5_proxy_sum_2022_co.Prelude.{
  ℕ, zero, suc, ◌+◌, ◌/◌, ◌%◌, List, [], ◌∷◌, ◌++◌, Option, none, some, Bytes, ltb, ◌==◌, get_or,
  length, ◌-◌, ◌*◌, ◌^◌, get_elem?, if◌then◌else◌,
}

-- `ss << c` for each byte of the vector.
stream_bytes : Bytes → Bytes → Bytes
stream_bytes ss [] = ss
stream_bytes ss (c ∷ vec) = stream_bytes (ss ++ c ∷ []) vec

unfoldable pub to_string : Bytes → Bytes
unfolding stream_bytes
to_string vec = stream_bytes [] vec

-- `string((const char*) c)`: the bytes before the terminator; `none` is the null pointer.
until_nul : Bytes → Bytes
until_nul [] = []
until_nul (c ∷ cs) = if c == 0 then [] else c ∷ until_nul cs

unfoldable pub c_string : Option Bytes → Bytes
unfolding until_nul
c_string none = []
c_string (some c) = until_nul c

-- `std::to_string(n)`: the digits of `n` before those that are there; fuel above `n` is enough.
decimal_digits : ℕ → ℕ → Bytes → Bytes
decimal_digits zero n acc = acc
decimal_digits (suc f) n acc =
    let rest = decimal_digits f (n / 10) ((b'0' + n % 10) ∷ acc) in
    if ltb n 10 then (b'0' + n) ∷ acc else rest

unfoldable pub decimal : ℕ → Bytes
unfolding decimal_digits
decimal n = decimal_digits (suc n) n []

-- `ss << std::hex << (int) b` for a byte: lower case, with no leading zero.
hex_digit : ℕ → ℕ
hex_digit d = if ltb d 10 then b'0' + d else b'a' + (d - 10)

unfoldable pub hex_byte : ℕ → Bytes
unfolding hex_digit
hex_byte b = if ltb b 16 then hex_digit b ∷ [] else hex_digit (b / 16) ∷ hex_digit (b % 16) ∷ []

-- The loop of four bytes; the number is that of the bytes left.
dotted : ℕ → Bytes → Bytes → Bytes
dotted zero bytes ip_address = ip_address
dotted (suc left) bytes ip_address =
    let i = 3 - left in
    let text = ip_address ++ decimal (get_or bytes i 0) in
    dotted left bytes (if i == 3 then text else text ++ b'.' ∷ [])

-- The loop of eight groups of two bytes; `i` is odd at the test.
grouped : ℕ → Bytes → Bytes → Bytes
grouped zero bytes ip_address = ip_address
grouped (suc left) bytes ip_address =
    let i = 14 - 2 * left in
    let text = ip_address ++ (hex_byte (get_or bytes i 0) ++ hex_byte (get_or bytes (i + 1) 0)) in
    grouped left bytes (if i + 1 == 15 then text else text ++ b':' ∷ [])

-- Any size but four is read as sixteen bytes; the callers pass four or sixteen.
unfoldable pub form_ip_address_string : Bytes → Bytes
unfolding dotted grouped
form_ip_address_string bytes = if length bytes == 4 then dotted 4 bytes [] else grouped 8 bytes []

-- What `formIpAddressReverseString` comes to: a text, or an index outside of its vector, which is
-- undefined behaviour.
pub data Reversed : Type 0 where
  formed : Bytes → Reversed
  out_of_range : Reversed

-- The loop; `i >= 0` holds of every `size_t`, so nothing but the fuel ends it, with the text so far.
reversed_from : ℕ → Bytes → ℕ → Bytes → Reversed
reversed_from zero bytes i ip_address = formed ip_address
reversed_from (suc f) bytes i ip_address = elim (get_elem? bytes i) [
  | none ↦ out_of_range
  | some b ↦
      let text = ip_address ++ decimal b in
      reversed_from f bytes ((i + 2 ^ 64 - 1) % 2 ^ 64) (if i == 0 then text else text ++ b'.' ∷ [])
]

unfoldable pub form_ip_address_reverse_string : ℕ → Bytes → Reversed
unfolding reversed_from
form_ip_address_reverse_string fuel bytes =
    reversed_from fuel bytes ((length bytes + 2 ^ 64 - 1) % 2 ^ 64) []

-- `ss << s << i`, from the text of `i`.
unfoldable pub concat : Bytes → Bytes → Bytes
concat s i = ([] ++ s) ++ i
