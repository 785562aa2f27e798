-- ===== src/Session/Io.antt =====
-- `readByte`, `readBytes` and `writeBytes` of src/session.cpp.
use socks5_proxy_sum_2022_co.Prelude.{ℕ, Bytes, get_or}
use socks5_proxy_sum_2022_co.Asio.{ErrorCode}
use socks5_proxy_sum_2022_co.World.{Env, M}

module _ {Net Db : Type 0} (e : Env Net Db) where
  -- The vector of one byte starts as zero, and that is returned if the read fails.
  unfoldable pub read_byte : M Net Db (ErrorCode × ℕ)
  read_byte w =
      let (ec, vec, net) = e.asio.read 1 w.net in ((ec, get_or vec 0 0), record w { net = net })

  unfoldable pub read_bytes : ℕ → M Net Db (ErrorCode × Bytes)
  read_bytes size w =
      let (ec, vec, net) = e.asio.read size w.net in ((ec, vec), record w { net = net })

  unfoldable pub write_bytes : Bytes → M Net Db ErrorCode
  write_bytes bytes w = let (ec, net) = e.asio.write bytes w.net in (ec, record w { net = net })
