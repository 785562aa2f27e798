-- ===== src/Tests/Answers.antt =====
-- What the clients of whole handshakes are told, of src/socks5.cpp and src/socks4.cpp.
use socks5_proxy_sum_2022_co.World.{World}
use socks5_proxy_sum_2022_co.Session.Connect
use socks5_proxy_sum_2022_co.Socks4
use socks5_proxy_sum_2022_co.Socks4.Request as Request4
use socks5_proxy_sum_2022_co.Socks5
