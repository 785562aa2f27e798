-- ===== src/Tests/Endpoints.antt =====
-- Names with several endpoints, as `connect` of src/session.cpp tries them.
use socks5_proxy_sum_2022_co.Prelude.{
  ℕ, ◌≡◌, refl, true, false, [], ◌∷◌, ◌==◌, codes, if◌then◌else◌,
}
use socks5_proxy_sum_2022_co.Asio.{ErrorCode, success, connection_refused, failed}
use socks5_proxy_sum_2022_co.World.{Env, returned}
use socks5_proxy_sum_2022_co.Session.Connect.{connect}
use socks5_proxy_sum_2022_co.Session.Endpoints.{untried, tried, connect_first, connect-Refused}
use socks5_proxy_sum_2022_co.Tests.Peer.{Net, peer, env, world}

-- A name with two endpoints, of which at most the one with a given number takes connections.
abbrev picky : ℕ → Env Net ℕ
picky open_endpoint = record (env false) {
  asio = record peer {
    resolve = λ host service net. (success, 1 ∷ 2 ∷ [], net);
    connect_server = λ p net. (if p == open_endpoint then success else connection_refused, net);
  };
}

connect_first_example :
    connect (picky 2) (codes "host") (codes "80") (world []) ≡ (returned (success, 4660), world [])
connect_first_example =
    connect_first (picky 2) (codes "host") (codes "80") (world []) (1 ∷ []) [] 2 4660 (world []).net
      (world []).net (world []).net (codes "10.0.0.3", 80) refl (tried refl untried) refl refl refl

connect-Refused_example :
    (ec : ErrorCode) × (failed ec ≡ true)
    × (connect (picky 3) (codes "host") (codes "80") (world []) ≡ (returned (ec, 0), world []))
connect-Refused_example =
    connect-Refused (picky 3) (codes "host") (codes "80") (world []) (1 ∷ 2 ∷ []) (world []).net
      (world []).net refl (tried refl (tried refl untried))
