-- ===== src/Socks5/Frame.antt =====
-- What the request of src/socks5.cpp leaves alone: all but the request's own fields.
use socks5_proxy_sum_2022_co.Prelude.{ℕ, ◌≡◌, Bool, Bytes}
use socks5_proxy_sum_2022_co.World.{Env, World}
use socks5_proxy_sum_2022_co.World.Triple.{Keeps, keeps_rules}
use socks5_proxy_sum_2022_co.Session.Frame.{
  IsFrame, IsUnrecorded, Keeps-read_byte, Keeps-read_bytes, Keeps-write_bytes, Keeps-check_version,
  Keeps-read_port, Keeps-read_ipv4, Keeps-connect, Keeps-create_record,
}
use socks5_proxy_sum_2022_co.Socks5.{
  auth, Rep, Method, check_method, send_method_response, read_method_request, send_error_response,
  send_command_response, read_address, read_command_request, connect, record_connected, run_command,
}

ruleset call_rules = (
  keeps_rules, Keeps-read_byte, Keeps-read_bytes, Keeps-write_bytes, Keeps-check_version,
  Keeps-read_port, Keeps-read_ipv4, Keeps-connect,
)

module _ {Net Db X : Type 0} (e : Env Net Db) {f : World Net Db → X} (frame : IsFrame f) where
  pub Keeps-send_error_response : (rep : Rep) → Keeps f (send_error_response e rep)
  unfolding send_error_response
  Keeps-send_error_response rep = search call_rules

  Keeps-send_method_response : (m : Method) → Keeps f (send_method_response e m)
  unfolding send_method_response
  Keeps-send_method_response m = search call_rules

  Keeps-send_command_response : (port : ℕ) → Keeps f (send_command_response e port)
  unfolding send_command_response
  Keeps-send_command_response port = search call_rules depth 7

  Keeps-check_method : Keeps f (check_method e)
  unfolding check_method
  Keeps-check_method = search call_rules depth 9

  pub Keeps-read_method_request : Keeps f (read_method_request e)
  unfolding read_method_request
  Keeps-read_method_request =
      search (call_rules, Keeps-check_method, Keeps-send_method_response) depth 9

  Keeps-read_address : (atyp : ℕ) → Keeps f (read_address e atyp)
  unfolding read_address
  Keeps-read_address atyp = search (call_rules, Keeps-send_error_response) depth 12

  pub Keeps-read_command_request : Keeps f (read_command_request e)
  unfolding read_command_request
  Keeps-read_command_request =
      search
        (
          call_rules, Keeps-send_error_response, Keeps-read_address, frame.cmd, frame.atyp,
          frame.dst_address,
        )
        depth 20

  pub Keeps-connect_reply : Keeps f (connect e)
  unfolding connect
  Keeps-connect_reply =
      search (call_rules, Keeps-send_error_response, Keeps-send_command_response, frame.bind_port)
        depth 12

  pub Keeps-auth :
      ((w : World Net Db) (u : Bytes) → f (record w { username = u }) ≡ f w) → Keeps f (auth e)
  unfolding auth
  Keeps-auth seen = search (call_rules, seen) depth 30

module _ {Net Db X : Type 0} (e : Env Net Db) {f : World Net Db → X} (frame : IsFrame f)
    (unseen : IsUnrecorded f) where
  pub Keeps-record_connected : (connected : Bool) → Keeps f (record_connected e connected)
  unfolding record_connected
  Keeps-record_connected connected = search (call_rules, Keeps-create_record) depth 12

  pub Keeps-run_command : Keeps f (run_command e)
  unfolding run_command
  Keeps-run_command =
      search (call_rules, Keeps-send_error_response, Keeps-connect_reply, Keeps-record_connected)
        depth 20
