-- ===== src/Socks5.antt =====
-- src/socks5.h, src/socks5.cpp: the handshake of SOCKS5.
pub mod Frame
pub mod Request
pub mod Handshake
pub mod Replies
pub mod Answers
pub mod Access
use Prim.Native.Nat.{bit_and}
use socks5_proxy_sum_2022_co.Prelude.{
  ℕ, zero, suc, ◌+◌, ◌/◌, ◌%◌, ◌^◌, Bool, true, false, not, ◌&&◌, ◌||◌, List, [], ◌∷◌, ◌++◌, Bytes,
  ◌==◌, if◌then◌else◌, contains, replicate, is_empty,
}
use socks5_proxy_sum_2022_co.StringUtils.{to_string, decimal, form_ip_address_string}
use socks5_proxy_sum_2022_co.Asio.{ErrorCode, failed}
use socks5_proxy_sum_2022_co.Config.Map.{has_user}
use socks5_proxy_sum_2022_co.World.{
  Env, World, Outcome, returned, thrown, socks5_ver, M, pure, modify, get, ◌>>=◌, ◌>>◌, on_return,
}
use socks5_proxy_sum_2022_co.Session.Io.{read_byte, read_bytes, write_bytes}
use socks5_proxy_sum_2022_co.Session.Connect
use socks5_proxy_sum_2022_co.Socks.{
  rsv, ver_byte, auth_success, auth_deny, cmd_connect, cmd_bind, cmd_udp_associate, check_version,
  read_port, read_ipv4, create_record,
}

abbrev pub auth_ver : ℕ
auth_ver = 1

-- `METHOD`.
pub data Method : Type 0 where
  no_auth_req username_password no_acc_methods : Method

abbrev pub method_byte : Method → ℕ
method_byte no_auth_req = 0x0
method_byte username_password = 0x2
method_byte no_acc_methods = 0xff

-- `ATYP`.
abbrev pub ipv4 : ℕ
ipv4 = 1

abbrev pub domain_name : ℕ
domain_name = 3

abbrev pub ipv6 : ℕ
ipv6 = 4

-- `REP`.
pub data Rep : Type 0 where
  succeeded server_failure conn_not_allowed network_unreach host_unreachable : Rep
  connection_refused ttl_expired command_not_supp addr_type_not_supp : Rep

abbrev pub rep_byte : Rep → ℕ
rep_byte succeeded = 0x00
rep_byte server_failure = 0x01
rep_byte conn_not_allowed = 0x02
rep_byte network_unreach = 0x03
rep_byte host_unreachable = 0x04
rep_byte connection_refused = 0x05
rep_byte ttl_expired = 0x06
rep_byte command_not_supp = 0x07
rep_byte addr_type_not_supp = 0x08

abbrev pub get_server_method : Bool → Method
get_server_method auth_flag = if auth_flag then username_password else no_auth_req

-- What `connect` makes of an error of the session's `connect`.
unfoldable pub reply_of : ErrorCode → Rep
reply_of ErrorCode.success = succeeded
reply_of ErrorCode.host_not_found = host_unreachable
reply_of ErrorCode.host_unreachable = host_unreachable
reply_of ErrorCode.connection_aborted = conn_not_allowed
reply_of ErrorCode.connection_refused = connection_refused
reply_of ErrorCode.timed_out = ttl_expired
reply_of ErrorCode.network_unreachable = network_unreach
reply_of ErrorCode.eof = server_failure
reply_of (ErrorCode.other n) = server_failure

abbrev pub is_succeeded : Rep → Bool
is_succeeded succeeded = true
is_succeeded _ = false

-- The vector of `sendErrorResponse`: four bytes, resized to ten.
abbrev pub error_response : Rep → Bytes
error_response rep = ver_byte socks5_ver ∷ rep_byte rep ∷ rsv ∷ ipv4 ∷ replicate 6 0

abbrev pub bound_address : ℕ → Bytes
bound_address atyp =
    if atyp == ipv4 || atyp == domain_name
    then ipv4 ∷ replicate 4 0
    else if atyp == ipv6
    then ipv6 ∷ replicate 16 0
    else []

-- `(bindPort & 0xFF) >> 8` and `bindPort & 0x00FF`, each as an `unsigned char`.
unfoldable pub port_bytes : ℕ → Bytes
port_bytes bind_port =
    (bit_and bind_port 0xff / 2 ^ 8 % 2 ^ 8) ∷ (bit_and bind_port 0x00ff % 2 ^ 8) ∷ []

abbrev pub command_response : ℕ → ℕ → Bytes
command_response atyp bind_port =
    (ver_byte socks5_ver ∷ rep_byte succeeded ∷ rsv ∷ [])
    ++ (bound_address atyp ++ port_bytes bind_port)

module _ {Net Db : Type 0} (e : Env Net Db) where
  unfoldable pub auth : M Net Db Bool
  auth = do
    (ec, ver) ← read_byte e
    if failed ec || not (ver == auth_ver) then pure false else do
      (ec, ulen) ← read_byte e
      if failed ec || ulen == 0 then pure false else do
        (ec, uname) ← read_bytes e ulen
        if failed ec then pure false else do
          (ec, plen) ← read_byte e
          if failed ec then pure false else do
            (ec, passwd) ← read_bytes e plen
            if failed ec then pure false else do
              modify (λ w. record w { username = to_string uname })
              let success = has_user e.users (to_string uname) (to_string passwd)
              ec ← write_bytes e (auth_ver ∷ (if success then auth_success else auth_deny) ∷ [])
              if failed ec then pure false else pure success

  -- The error of the write is ignored.
  unfoldable pub send_error_response : Rep → M Net Db (Unit {0})
  send_error_response response_code = do _ ← write_bytes e (error_response response_code); pure tt

  unfoldable pub read_address : ℕ → M Net Db Bytes
  read_address atyp =
      if atyp == ipv4
      then read_ipv4 e
      else if atyp == domain_name
      then (do
        (ec, add_size) ← read_byte e
        if failed ec then pure [] else do
          (ec, dst_add) ← read_bytes e add_size
          if failed ec then pure [] else pure (to_string dst_add))
      else if atyp == ipv6
      then (do
        (ec, dst_add) ← read_bytes e 16
        if failed ec then pure [] else pure (form_ip_address_string dst_add))
      else (do send_error_response addr_type_not_supp; pure [])

  unfoldable pub check_method : M Net Db Bool
  check_method = do
    (ec, n_methods) ← read_byte e
    if failed ec then pure false else do
      (ec, methods) ← read_bytes e n_methods
      if failed ec
          then pure false
          else pure (contains methods (method_byte (get_server_method e.auth_flag)))

  -- True stands for an error.
  unfoldable pub send_method_response : Method → M Net Db Bool
  send_method_response method = do
    ec ← write_bytes e (ver_byte socks5_ver ∷ method_byte method ∷ [])
    pure (failed ec)

  unfoldable pub read_method_request : M Net Db Bool
  read_method_request = do
    supported ← check_method
    if not supported then (do _ ← send_method_response no_acc_methods; pure false) else do
      failed_to_send ← send_method_response (get_server_method e.auth_flag)
      pure (not failed_to_send)

  unfoldable pub read_command_request : M Net Db Bool
  read_command_request = do
    version_ok ← check_version e socks5_ver
    if not version_ok then (do send_error_response server_failure; pure false) else do
      (ec, cmd) ← read_byte e
      modify (λ w. record w { cmd = cmd })
      if failed ec then pure false else do
        (ec, _) ← read_byte e
        if failed ec then pure false else do
          (ec, atyp) ← read_byte e
          modify (λ w. record w { atyp = atyp })
          if failed ec then pure false else do
            address ← read_address atyp
            modify (λ w. record w { dst_address = address })
            if is_empty address then pure false else read_port e

  unfoldable pub send_command_response : ℕ → M Net Db Bool
  send_command_response bind_port = do
    w ← get
    ec ← write_bytes e (command_response w.atyp bind_port)
    pure (not (failed ec))

  -- `Socks5::connect`; the result of `sendCommandResponse` is ignored.
  unfoldable pub connect : M Net Db (Outcome Bool)
  connect = do
    w ← get
    connected ← Connect.connect e w.dst_address (decimal w.dst_port)
    on_return connected λ (ec, bind_port). do
      modify (λ w. record w { bind_port = bind_port })
      if is_succeeded (reply_of ec)
          then (do _ ← send_command_response bind_port; pure (returned true))
          else (do send_error_response (reply_of ec); pure (returned false))

  -- The part of `init` behind its `connect`: a failed record is logged and nothing more.
  unfoldable pub record_connected : Bool → M Net Db (Outcome Bool)
  record_connected connected =
      if not connected
      then pure (returned false)
      else do created ← create_record e; on_return created λ _. pure (returned true)

  -- The part of `init` behind the three reads.
  unfoldable pub run_command : M Net Db (Outcome Bool)
  run_command = do
    w ← get
    if w.cmd == cmd_connect
        then (do connected ← connect; on_return connected record_connected)
        else if w.cmd == cmd_bind
        then (do send_error_response command_not_supp; pure (returned false))
        else if w.cmd == cmd_udp_associate
        then (do send_error_response command_not_supp; pure (returned false))
        else (do send_error_response command_not_supp; pure (returned false))

  unfoldable pub init : M Net Db (Outcome Bool)
  init = do
    method_ok ← read_method_request
    if not method_ok then pure (returned false) else do
      auth_ok ← if e.auth_flag then auth else pure true
      if not auth_ok then pure (returned false) else do
        command_ok ← read_command_request
        if not command_ok then pure (returned false) else run_command
