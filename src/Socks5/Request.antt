-- ===== src/Socks5/Request.antt =====
-- The request of SOCKS5 that `readCommandRequest` of src/socks5.cpp reads, as data and on the wire.
use Prim.Native.Nat.{bit_or}
use socks5_proxy_sum_2022_co.Prelude.{
  ℕ, ◌+◌, ◌*◌, ◌%◌, ◌^◌, ◌<◌, ◌≡◌, ◌≢◌, refl, true, false, [], ◌∷◌, ◌++◌, Bytes, length, arith,
  is_empty,
}
use socks5_proxy_sum_2022_co.Prelude.Bits.{bit_or_bytes}
use socks5_proxy_sum_2022_co.StringUtils.{form_ip_address_string}
use socks5_proxy_sum_2022_co.StringUtils.Address.{to_string_lem, quad-is_empty, grouped-is_empty}
use socks5_proxy_sum_2022_co.Asio.{IsStream, success}
use socks5_proxy_sum_2022_co.World.{Env, World, socks5_ver}
use socks5_proxy_sum_2022_co.World.Triple.{Triple, Triple-pure, Triple-then}
use socks5_proxy_sum_2022_co.Session.Stream.{
  Stands, Result, read_byte-Stands, read_bytes-Stands, modify-Stands,
}
use socks5_proxy_sum_2022_co.Socks.{check_version, read_port, read_ipv4}
use socks5_proxy_sum_2022_co.Socks5.{ipv4, domain_name, ipv6, read_address, read_command_request}

pub data Address : Type 0 where
  v4 : ℕ → ℕ → ℕ → ℕ → Address
  name : Bytes → Address
  v6 : Bytes → Address

pub record Request : Type 0 where
  pub cmd : ℕ
  pub address : Address
  -- The two bytes of the port.
  pub high : ℕ
  pub low : ℕ

abbrev pub atyp_of : Address → ℕ
atyp_of (v4 a b c d) = ipv4
atyp_of (name n) = domain_name
atyp_of (v6 a) = ipv6

abbrev pub address_bytes : Address → Bytes
address_bytes (v4 a b c d) = a ∷ b ∷ c ∷ d ∷ []
address_bytes (name n) = length n ∷ n
address_bytes (v6 a) = a

-- The text that the session's `connect` is given.
abbrev pub address_text : Address → Bytes
address_text (v4 a b c d) = form_ip_address_string (a ∷ b ∷ c ∷ d ∷ [])
address_text (name n) = n
address_text (v6 a) = form_ip_address_string a

abbrev pub IsAddress : Address → Type 0
IsAddress (v4 a b c d) = Unit {0}
IsAddress (name n) = n ≢ []
IsAddress (v6 a) = length a ≡ 16

pub record IsRequest (r : Request) : Type 0 where
  pub address_ok : IsAddress r.address
  pub low_is_byte : r.low < 256
  pub high_is_byte : r.high < 256

abbrev pub encode : Request → Bytes → Bytes
encode r rest =
    5 ∷ r.cmd ∷ 0 ∷ atyp_of r.address ∷ (address_bytes r.address ++ (r.high ∷ r.low ∷ rest))

abbrev pub filled : {Net Db : Type 0} → World Net Db → Request → World Net Db
filled w r = record w {
  cmd = r.cmd;
  atyp = atyp_of r.address;
  dst_address = address_text r.address;
  dst_port = r.high * 256 + r.low;
}

-- The two reads of a port give the number in network order.
pub port_word :
    (high low : ℕ) → high < 256 → low < 256 → bit_or (high * 2 ^ 8) low % 2 ^ 16 ≡ high * 256 + low
port_word high low hh hl = omega (arith, bit_or_bytes high low hl)

address_text-is_empty : (a : Address) → IsAddress a → is_empty (address_text a) ≡ false
address_text-is_empty (v4 a b c d) h = quad-is_empty a b c d
address_text-is_empty (name []) h = absurd (h refl)
address_text-is_empty (name (c ∷ n)) h = refl
address_text-is_empty (v6 a) h = grouped-is_empty a h

module _ {Net Db : Type 0} (e : Env Net Db) (s : IsStream e.asio) where
  check_version-Stands :
      (w₀ : World Net Db) (ins outs : Bytes)
      → Triple
          (Stands s w₀ (5 ∷ ins) outs)
          (check_version e socks5_ver)
          (λ r w. (r ≡ true) × Stands s w₀ ins outs w)
  unfolding check_version
  check_version-Stands w₀ ins outs =
      Triple-then _ (success, 5) (read_byte-Stands e s w₀ 5 ins outs)
        (Triple-pure _ λ w p. (refl, p))

  pub read_port-Stands :
      (w₀ : World Net Db) (high low : ℕ) (ins outs : Bytes)
      → high < 256
      → low < 256
      → Triple
          (Stands s w₀ (high ∷ low ∷ ins) outs)
          (read_port e)
          (λ r w. (r ≡ true) × Stands s (record w₀ { dst_port = high * 256 + low }) ins outs w)
  unfolding read_port
  read_port-Stands w₀ high low ins outs hh hl =
      let w₁ = record w₀ { dst_port = high } in
      Triple-then _ (success, high) (read_byte-Stands e s w₀ high (low ∷ ins) outs)
        (Triple-then _ tt (modify-Stands e s w₀ _ (low ∷ ins) outs λ w n. refl) (
          Triple-then _ (success, low) (read_byte-Stands e s w₁ low ins outs)
            (Triple-then _ tt (modify-Stands e s w₁ _ ins outs λ w n. refl)
              (rw (port_word high low hh hl) (Triple-pure _ λ w p. (refl, p))))))

  pub read_address-Stands :
      (w₀ : World Net Db) (a : Address) (ins outs : Bytes)
      → IsAddress a
      → Triple
          (Stands s w₀ (address_bytes a ++ ins) outs)
          (read_address e (atyp_of a))
          (Result e s w₀ (address_text a) ins outs)
  unfolding read_address read_ipv4
  read_address-Stands w₀ (v4 a b c d) ins outs h =
      Triple-then _ (success, a ∷ b ∷ c ∷ d ∷ [])
        (read_bytes-Stands e s w₀ (a ∷ b ∷ c ∷ d ∷ []) ins outs) (Triple-pure _ λ w p. (refl, p))
  read_address-Stands w₀ (name n) ins outs h =
      Triple-then _ (success, length n) (read_byte-Stands e s w₀ (length n) (n ++ ins) outs)
        (Triple-then _ (success, n) (read_bytes-Stands e s w₀ n ins outs)
          (Triple-pure _ λ w p. (to_string_lem n, p)))
  read_address-Stands w₀ (v6 a) ins outs h =
      let sixteen = rw h at (read_bytes-Stands e s w₀ a ins outs) in
      Triple-then _ (success, a) sixteen (Triple-pure _ λ w p. (refl, p))

  pub request-Stands :
      (w₀ : World Net Db) (r : Request) (rest outs : Bytes)
      → IsRequest r
      → Triple
          (Stands s w₀ (encode r rest) outs)
          (read_command_request e)
          (λ ok w. (ok ≡ true) × Stands s (filled w₀ r) rest outs w)
  unfolding read_command_request
  request-Stands w₀ r rest outs h =
      let tail = r.high ∷ r.low ∷ rest in
      let body = address_bytes r.address ++ tail in
      let w₁ = record w₀ { cmd = r.cmd } in
      let w₂ = record w₁ { atyp = atyp_of r.address } in
      let w₃ = record w₂ { dst_address = address_text r.address } in
      Triple-then _ true (check_version-Stands w₀ (r.cmd ∷ 0 ∷ atyp_of r.address ∷ body) outs) (
        Triple-then _ (success, r.cmd)
          (read_byte-Stands e s w₀ r.cmd (0 ∷ atyp_of r.address ∷ body) outs)
          (Triple-then _ tt (modify-Stands e s w₀ _ (0 ∷ atyp_of r.address ∷ body) outs λ w n. refl)
            (Triple-then _ (success, 0) (read_byte-Stands e s w₁ 0 (atyp_of r.address ∷ body) outs)
              (Triple-then _ (success, atyp_of r.address)
                (read_byte-Stands e s w₁ (atyp_of r.address) body outs)
                (Triple-then _ tt (modify-Stands e s w₁ _ body outs λ w n. refl) (
                  Triple-then _ (address_text r.address)
                    (read_address-Stands w₂ r.address tail outs h.address_ok)
                    (Triple-then _ tt (modify-Stands e s w₂ _ tail outs λ w n. refl) (
                      rw (address_text-is_empty r.address h.address_ok) (
                        read_port-Stands w₃ r.high r.low rest outs h.high_is_byte
                          h.low_is_byte)))))))))

  -- A well-formed request is read back, whatever bytes follow it: the command, the kind of the
  -- address, its text and the port are stored, nothing else of the state changes, exactly the
  -- request's bytes are taken from the client, and none are sent.
  pub read_command_request-encode :
      (w : World Net Db) (r : Request) (rest : Bytes)
      → IsRequest r
      → s.incoming w.net ≡ encode r rest
      → s.is_up w.net ≡ true
      → ((read_command_request e w).0 ≡ true)
        × Stands s (filled w r) rest (s.outgoing w.net) (read_command_request e w).1
  read_command_request-encode w r rest h coming up =
      (request-Stands w r rest (s.outgoing w.net) h).at w
        (record { same = refl; coming = coming; sent = refl; up = up })
