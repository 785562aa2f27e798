-- ===== src/Tests/Requests.antt =====
-- Requests, replies and the end of the handshake of src/socks5.cpp and src/socks4.cpp.
use socks5_proxy_sum_2022_co.Prelude.{
  ℕ, ◌≡◌, ◌≢◌, ◌<◌, ◌↔◌, ◌/◌, ◌%◌, refl, true, false, [], ◌∷◌, codes, arith,
}
use socks5_proxy_sum_2022_co.Asio.{success}
use socks5_proxy_sum_2022_co.World.{
  World, returned, out_of_fuel, pure, modify, get, ◌>>=◌, on_return,
}
use socks5_proxy_sum_2022_co.Session.Io.{write_bytes}
use socks5_proxy_sum_2022_co.Session.Connect
use socks5_proxy_sum_2022_co.Session.Stream.{Stands}
use socks5_proxy_sum_2022_co.StringUtils.{decimal}
use socks5_proxy_sum_2022_co.Socks.{create_record, store_session}
use socks5_proxy_sum_2022_co.Socks5
use socks5_proxy_sum_2022_co.Socks5.Request
use socks5_proxy_sum_2022_co.Socks5.Replies.{port_bytes_lossy, run_command_connected}
use socks5_proxy_sum_2022_co.Socks4
use socks5_proxy_sum_2022_co.Socks4.Request as Request4
use socks5_proxy_sum_2022_co.Tests.Peer.{Net, peer_stream, env, world}

abbrev name_request : Request.Request
name_request = record { cmd = 1; address = Request.name (codes "host"); high = 1; low = 187 }

name_request-IsRequest : Request.IsRequest name_request
name_request-IsRequest = record {
  address_ok = λ e. cc;
  low_is_byte = omega arith;
  high_is_byte = omega arith;
}

abbrev asked : World Net ℕ
asked = world (Request.encode name_request (8 ∷ []))

read_command_request-encode_example :
    ((Socks5.read_command_request (env false) asked).0 ≡ true)
    × Stands peer_stream
        (Request.filled asked name_request)
        (8 ∷ [])
        []
        (Socks5.read_command_request (env false) asked).1
read_command_request-encode_example =
    Request.read_command_request-encode (env false) peer_stream asked name_request (8 ∷ [])
      name_request-IsRequest refl refl

abbrev pub old_request : Request4.Request
old_request = record { high = 0; low = 80; a = 10; b = 0; c = 0; d = 3; userid = codes "bob" }

pub old_request-IsRequest : Request4.IsRequest old_request
old_request-IsRequest = record {
  high_is_byte = omega arith;
  low_is_byte = omega arith;
  no_zero = (refl, (refl, (refl, tt)));
}

abbrev pub old_asked : World Net ℕ
old_asked = world (Request4.encode old_request (8 ∷ []))

init-encode_request_example :
    (v : World Net ℕ) × Stands peer_stream (Request4.filled old_asked old_request) (8 ∷ []) [] v
    × ((Socks4.init (env false) 4 old_asked).0 ≡ (Socks4.connect_and_reply (env false) v).0)
    × ((Socks4.init (env false) 4 old_asked).1 ≡ (Socks4.connect_and_reply (env false) v).1)
init-encode_request_example =
    Request4.init-encode_request (env false) peer_stream old_asked 4 old_request (8 ∷ [])
      old_request-IsRequest (omega arith) refl refl

read_userid_ends_example :
    (Socks4.read_userid (env false) 3 [] (world (codes "bo"))).0 ≢ out_of_fuel
read_userid_ends_example =
    Request4.read_userid_ends (env false) peer_stream 3 [] (world (codes "bo")) (omega arith)

-- A request whose reads are done.
abbrev ready : World Net ℕ
ready = record (world []) { dst_address = codes "host"; dst_port = 80; cmd = 1; atyp = 3 }

connects :
    Connect.connect (env false) (codes "host") (decimal 80) ready
    ≡ (returned (success, 4660), ready)
unfolding Connect.connect Connect.resolve Connect.try_endpoints Connect.ask pure ◌>>=◌ on_return
connects = refl

command_returned : (Socks5.run_command (env false) ready).0 ≡ returned true
unfolding Socks5.run_command Socks5.connect Socks5.record_connected Socks5.send_command_response
    Socks5.reply_of pure modify get ◌>>=◌ on_return write_bytes create_record store_session
    Connect.connect Connect.resolve Connect.try_endpoints Connect.ask decimal Socks5.port_bytes
command_returned = refl

run_command_connected_example :
    (◌≡◌ {A = ℕ} 1 1)
    × (port : ℕ) × ((Connect.connect (env false) (codes "host") (decimal 80) ready).0
        ≡ returned (success, port))
run_command_connected_example = run_command_connected (env false) ready command_returned

port_bytes_lossy_example :
    (Socks5.port_bytes 4660 ≡ 0 ∷ (4660 % 256) ∷ [])
    × ((Socks5.port_bytes 4660 ≡ (4660 / 256) ∷ (4660 % 256) ∷ []) ↔ (4660 < 256))
port_bytes_lossy_example = port_bytes_lossy 4660
