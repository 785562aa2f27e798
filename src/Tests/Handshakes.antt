-- ===== src/Tests/Handshakes.antt =====
-- Whole handshakes of src/socks5.cpp and src/socks4.cpp.
use socks5_proxy_sum_2022_co.Prelude.{◌≡◌, ◌≢◌, refl, true, false, [], ◌∷◌, Bytes, codes, arith}
use socks5_proxy_sum_2022_co.Config.Map.{has_user, find}
use socks5_proxy_sum_2022_co.World.{returned, pure, modify, get, ◌>>=◌, on_return}
use socks5_proxy_sum_2022_co.Session.Io.{read_byte, read_bytes, write_bytes}
use socks5_proxy_sum_2022_co.Session.Connect
use socks5_proxy_sum_2022_co.Session.Stream.{Stands}
use socks5_proxy_sum_2022_co.StringUtils.{to_string, decimal, form_ip_address_string}
use socks5_proxy_sum_2022_co.Socks.{
  check_version, read_port, read_ipv4, create_record, store_session,
}
use socks5_proxy_sum_2022_co.Socks5
use socks5_proxy_sum_2022_co.Socks5.Request.{Request, v4, IsRequest, encode, filled}
use socks5_proxy_sum_2022_co.Socks5.Access.{IsKnown, init-IsKnown}
use socks5_proxy_sum_2022_co.Socks5.Handshake
use socks5_proxy_sum_2022_co.Socks5.Handshake.{
  encode_hello, hello_reply, greeted, RunsAt, encode_login, login_reply, encode_methods,
  method_reply,
}
use socks5_proxy_sum_2022_co.Session.Start.{
  start, create_proxy, version_of, make_socks, run_proxy, client_read, server_read, init_proxy,
}
use socks5_proxy_sum_2022_co.Session.Access.{IsAdmitted, start-IsAdmitted}
use socks5_proxy_sum_2022_co.Tests.Peer.{peer_stream, env, world}

abbrev pub request : Request
request = record { cmd = 1; address = v4 10 0 0 3; high = 0; low = 80 }

pub request-IsRequest : IsRequest request
request-IsRequest = record {
  address_ok = tt;
  low_is_byte = omega arith;
  high_is_byte = omega arith;
}

abbrev pub hello : Bytes
hello = encode_hello true (0 ∷ 2 ∷ []) (codes "ann") (codes "pw") (encode request (7 ∷ []))

pub ann_ne : codes "ann" ≢ []
ann_ne = λ e. cc

pub ann_known : has_user (env true).users (codes "ann") (codes "pw") ≡ true
unfolding has_user find
ann_known = refl

hello_returned : (Socks5.init (env true) (world hello)).0 ≡ returned true
unfolding Socks5.init Socks5.read_method_request Socks5.check_method Socks5.send_method_response
    Socks5.auth Socks5.read_command_request Socks5.read_address Socks5.run_command Socks5.connect
    Socks5.record_connected Socks5.send_command_response Socks5.reply_of pure modify get ◌>>=◌
    on_return read_byte read_bytes write_bytes check_version read_port read_ipv4 create_record
    store_session Connect.connect Connect.resolve Connect.try_endpoints Connect.ask has_user find
    to_string decimal form_ip_address_string Socks5.port_bytes
hello_returned = refl

init-IsKnown_example : IsKnown (env true) (Socks5.init (env true) (world hello)).1
init-IsKnown_example = init-IsKnown (env true) (world hello) refl hello_returned

init-encode_example :
    RunsAt
      (env true)
      peer_stream
      (filled (greeted true (codes "ann") (world hello)) request)
      (7 ∷ [])
      (hello_reply true)
      (Socks5.init (env true) (world hello)).0
      (Socks5.init (env true) (world hello)).1
init-encode_example =
    Handshake.init-encode (env true) peer_stream (world hello) (0 ∷ 2 ∷ []) (codes "ann")
      (codes "pw") request (7 ∷ []) refl (λ on. (ann_ne, ann_known)) request-IsRequest refl refl

abbrev login : Bytes
login = encode_login (codes "ann") (codes "no") (9 ∷ [])

auth-encode_login_example :
    ((Socks5.auth (env true) (world login)).0
      ≡ has_user (env true).users (codes "ann") (codes "no"))
    × Stands peer_stream
        (record (world login) { username = codes "ann" })
        (9 ∷ [])
        (login_reply (has_user (env true).users (codes "ann") (codes "no")))
        (Socks5.auth (env true) (world login)).1
auth-encode_login_example =
    Handshake.auth-encode_login (env true) peer_stream (world login) (codes "ann") (codes "no")
      (9 ∷ []) ann_ne refl refl

abbrev methods : Bytes
methods = encode_methods (1 ∷ []) (9 ∷ [])

read_method_request-encode_example :
    ((Socks5.read_method_request (env false) (world methods)).0 ≡ false)
    × Stands peer_stream
        (world methods)
        (9 ∷ [])
        (method_reply false false)
        (Socks5.read_method_request (env false) (world methods)).1
read_method_request-encode_example =
    Handshake.read_method_request-encode (env false) peer_stream (world methods) (1 ∷ []) (9 ∷ [])
      refl refl

abbrev greeting : Bytes
greeting = 5 ∷ hello

relay_started : (start (env true) 0 (world greeting)).0 ≡ returned true
unfolding start create_proxy version_of make_socks run_proxy client_read server_read init_proxy
    Socks5.init Socks5.read_method_request Socks5.check_method Socks5.send_method_response
    Socks5.auth Socks5.read_command_request Socks5.read_address Socks5.run_command Socks5.connect
    Socks5.record_connected Socks5.send_command_response Socks5.reply_of pure modify get ◌>>=◌
    on_return read_byte read_bytes write_bytes check_version read_port read_ipv4 create_record
    store_session Connect.connect Connect.resolve Connect.try_endpoints Connect.ask has_user find
    to_string decimal form_ip_address_string Socks5.port_bytes
relay_started = refl

start-IsAdmitted_example : IsAdmitted (env true) (start (env true) 0 (world greeting)).1
start-IsAdmitted_example = start-IsAdmitted (env true) 0 (world greeting) refl relay_started
