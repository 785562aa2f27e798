-- ===== src/Socks4/Answers.antt =====
-- What a client is told of its request by `Socks4::init` of src/socks4.cpp.
use socks5_proxy_sum_2022_co.Prelude.{[], ◌∷◌, Bytes}
use socks5_proxy_sum_2022_co.Asio.{ErrorCode, success}
use socks5_proxy_sum_2022_co.World.{World}
use socks5_proxy_sum_2022_co.World.Triple.{Triple}
use socks5_proxy_sum_2022_co.Session.Connect
use socks5_proxy_sum_2022_co.Socks4.Request.{Request}

-- The reply of the protocol: a zero, 90 for a request that is granted and 91 for one that is not, and
-- six bytes that a client ignores.
abbrev pub reply_to : ErrorCode → Bytes
reply_to ErrorCode.success = 0 ∷ 90 ∷ 0 ∷ 0 ∷ 0 ∷ 0 ∷ 0 ∷ 0 ∷ []
reply_to _ = 0 ∷ 91 ∷ 0 ∷ 0 ∷ 0 ∷ 0 ∷ 0 ∷ 0 ∷ []
