-- ===== src/Socks5/Answers.antt =====
-- What a client is told of its command by `Socks5::connect` of src/socks5.cpp, as RFC 1928 has the
-- client read it.
use socks5_proxy_sum_2022_co.Prelude.{
  ℕ, ◌+◌, ◌*◌, ◌%◌, ◌≡◌, ◌⊎◌, not, ◌&&◌, ◌∷◌, Option, none, some, Bytes, length, take, get_or,
  replicate, ◌==◌, if◌then◌else◌,
}
use socks5_proxy_sum_2022_co.Asio.{ErrorCode, failed}
use socks5_proxy_sum_2022_co.World.{World}
use socks5_proxy_sum_2022_co.Session.Connect
use socks5_proxy_sum_2022_co.World.Triple.{Triple}
use socks5_proxy_sum_2022_co.Socks5.Request.{Request}

-- A reply: its REP, BND.ADDR and BND.PORT.
pub record Answer : Type 0 where
  pub rep : ℕ
  pub address : Bytes
  pub port : ℕ

-- The bytes behind ATYP: an address of a known size and the port, and nothing else.
abbrev read_bound : ℕ → ℕ → Bytes → Option Answer
read_bound rep size rest =
    if length rest == size + 2
    then some (record {
      rep = rep;
      address = take size rest;
      port = get_or rest size 0 * 256 + get_or rest (size + 1) 0;
    })
    else none

abbrev pub read_answer : Bytes → Option Answer
read_answer (ver ∷ rep ∷ rsv ∷ atyp ∷ rest) =
    if ver == 5 && rsv == 0
    then (if atyp == 1
        then read_bound rep 4 rest
        else if atyp == 4
        then read_bound rep 16 rest
        else none)
    else none
read_answer _ = none

-- The code of RFC 1928 for how a connection attempt has ended.
abbrev pub rep_of : ErrorCode → ℕ
rep_of ErrorCode.success = 0
rep_of ErrorCode.eof = 1
rep_of (ErrorCode.other n) = 1
rep_of ErrorCode.connection_aborted = 2
rep_of ErrorCode.network_unreachable = 3
rep_of ErrorCode.host_not_found = 4
rep_of ErrorCode.host_unreachable = 4
rep_of ErrorCode.connection_refused = 5
rep_of ErrorCode.timed_out = 6

-- The answer to an attempt that has ended with an error or without, for a request of an address type:
-- an address of zeros, and the low byte of the port for a success.
abbrev pub answer_to : ErrorCode → ℕ → ℕ → Answer
answer_to ec atyp port = record {
  rep = rep_of ec;
  address = if not (failed ec) && atyp == 4 then replicate 16 0 else replicate 4 0;
  port = if failed ec then 0 else port % 256;
}

-- The address types that a request may have.
abbrev pub IsAtyp : ℕ → Type 0
IsAtyp atyp = (atyp ≡ 1) ⊎ (atyp ≡ 3) ⊎ (atyp ≡ 4)
