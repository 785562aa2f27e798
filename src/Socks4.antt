-- ===== src/Socks4.antt =====
-- src/socks4.h, src/socks4.cpp: the handshake of SOCKS4.
pub mod Request
pub mod Answers
use socks5_proxy_sum_2022_co.Prelude.{
  ℕ, zero, suc, Bool, true, false, not, ◌&&◌, ◌||◌, [], ◌∷◌, ◌++◌, Bytes, ◌==◌, if◌then◌else◌,
  replicate, is_empty,
}
use socks5_proxy_sum_2022_co.StringUtils.{to_string, decimal}
use socks5_proxy_sum_2022_co.Asio.{ErrorCode, failed}
use socks5_proxy_sum_2022_co.World.{
  Env, Outcome, returned, thrown, out_of_fuel, M, pure, modify, get, ◌>>=◌, ◌>>◌, on_return,
}
use socks5_proxy_sum_2022_co.Session.Io.{read_byte, write_bytes}
use socks5_proxy_sum_2022_co.Session.Connect.{connect}
use socks5_proxy_sum_2022_co.Socks.{cmd_connect, read_port, read_ipv4, create_record}

-- `REPLY`.
abbrev pub granted : ℕ
granted = 90

abbrev pub rejected : ℕ
rejected = 91

-- `reply[1]`, by the error of the session's `connect`, and the vector of eight bytes.
abbrev pub reply_byte : ErrorCode → ℕ
reply_byte ec = if failed ec then rejected else granted

abbrev pub reply : ErrorCode → Bytes
reply ec = 0 ∷ reply_byte ec ∷ replicate 6 0

module _ {Net Db : Type 0} (e : Env Net Db) where
  -- The endless loop: bytes up to a zero or an error.
  unfoldable pub read_userid : ℕ → Bytes → M Net Db (Outcome (ErrorCode × Bytes))
  read_userid zero userid = pure out_of_fuel
  read_userid (suc fuel) userid = do
    (ec, c) ← read_byte e
    let rest = read_userid fuel (userid ++ c ∷ [])
    if not (c == 0) && not (failed ec) then rest else pure (returned (ec, userid))

  -- The part of `init` behind the user's name.
  unfoldable pub connect_and_reply : M Net Db (Outcome Bool)
  connect_and_reply = do
    w ← get
    connected ← connect e w.dst_address (decimal w.dst_port)
    on_return connected λ (ec, bind_port). do
      modify (λ w. record w { bind_port = bind_port })
      ec' ← write_bytes e (reply ec)
      if failed ec' || reply_byte ec == rejected
          then pure (returned false)
          else do created ← create_record e; on_return created λ _. pure (returned true)

  -- Neither the error of the first byte nor the result of `readPort` is looked at.
  unfoldable pub init : ℕ → M Net Db (Outcome Bool)
  init fuel = do
    (ec, method) ← read_byte e
    if not (method == cmd_connect) then pure (returned false) else do
      _ ← read_port e
      address ← read_ipv4 e
      modify (λ w. record w { dst_address = address })
      if is_empty address then pure (returned false) else do
        user ← read_userid fuel []
        on_return user λ (ec, userid).
            if failed ec
            then pure (returned false)
            else do modify (λ w. record w { username = to_string userid }); connect_and_reply
