-- ===== src/Socks5/Replies.antt =====
-- What src/socks5.cpp answers to a command, and the port that it reports.
use socks5_proxy_sum_2022_co.Prelude.{
  ℕ, ◌/◌, ◌%◌, ◌<◌, ◌≡◌, ◌≢◌, ◌↔◌, refl, ap, ◌∙◌, Bool, true, false, not, [], ◌∷◌, Bytes, arith,
  ◌==◌, ==_iff, Bool-cases, inl, inr, if◌then◌else◌,
}
use socks5_proxy_sum_2022_co.Prelude.Bits.{bit_and_255}
use socks5_proxy_sum_2022_co.StringUtils.{decimal}
use socks5_proxy_sum_2022_co.Asio.{ErrorCode, success, failed}
use socks5_proxy_sum_2022_co.World.{
  Env, World, Outcome, returned, thrown, out_of_fuel, pure, modify, get, ◌>>=◌, on_return,
}
use socks5_proxy_sum_2022_co.World.Triple.{on_return-eq-returned}
use socks5_proxy_sum_2022_co.Session.Io.{write_bytes}
use socks5_proxy_sum_2022_co.Session.Connect
use socks5_proxy_sum_2022_co.Socks.{cmd_connect}
use socks5_proxy_sum_2022_co.Socks5.{
  reply_of, error_response, command_response, command_not_supp, port_bytes, send_error_response,
  send_command_response, connect, record_connected, run_command,
}

-- The reply to a connection attempt: success with the port, or the code of the error.
abbrev pub connect_response : ℕ → ErrorCode → ℕ → Bytes
connect_response atyp ec port =
    if failed ec then error_response (reply_of ec) else command_response atyp port

-- The high byte of the port that a client is told is always zero: the code masks the word before
-- it shifts. So what it is told is the bound port in network order only for ports below 256.
pub port_bytes_lossy :
    (bind_port : ℕ)
    → (port_bytes bind_port ≡ 0 ∷ (bind_port % 256) ∷ [])
      × ((port_bytes bind_port ≡ (bind_port / 256) ∷ (bind_port % 256) ∷ []) ↔ (bind_port < 256))
unfolding port_bytes
port_bytes_lossy p = ground (arith, bit_and_255 p)

module _ {Net Db : Type 0} (e : Env Net Db) (w : World Net Db) where
  -- Where the session's `connect` returns, one reply is sent, success only if there was no error,
  -- and the result says the same; a failure to send the reply changes nothing of the result.
  pub connect_reply :
      (ec : ErrorCode) (port : ℕ) (v : World Net Db)
      → Connect.connect e w.dst_address (decimal w.dst_port) w ≡ (returned (ec, port), v)
      → connect e w ≡ (
        returned (not (failed ec)),
        (write_bytes e (connect_response v.atyp ec port) (record v { bind_port = port })).1,
      )
  unfolding connect send_error_response send_command_response reply_of ◌>>=◌ get modify pure
      on_return
  connect_reply success port v h = rw h refl
  connect_reply _ port v h = rw h refl

  -- Every command but CONNECT is answered by `COMMAND_NOT_SUPP`, and nothing else is done.
  pub run_command_refused :
      w.cmd ≢ cmd_connect
      → run_command e w ≡ (returned false, (write_bytes e (error_response command_not_supp) w).1)
  unfolding run_command send_error_response ◌>>=◌ get pure
  run_command_refused h = ground arith

  connect_raises :
      (o : Outcome (ErrorCode × ℕ)) (v : World Net Db)
      → Connect.connect e w.dst_address (decimal w.dst_port) w ≡ (o, v)
      → (connect e w).0 ≡ returned true
      → (port : ℕ) × (o ≡ returned (success, port))
  unfolding connect ◌>>=◌ get on_return pure
  connect_raises (returned (success, port)) v h t = (port, refl)
  connect_raises (returned (ec, port)) v h t = absurd (cc (connect_reply ec port v h))
  connect_raises thrown v h t = absurd (cc (rw h at t))
  connect_raises out_of_fuel v h t = absurd (cc (rw h at t))

  record_connected-true :
      (ok : Bool) (v : World Net Db) → (record_connected e ok v).0 ≡ returned true → ok ≡ true
  unfolding record_connected pure
  record_connected-true true v h = refl
  record_connected-true false v h = cc

  connected_command :
      w.cmd ≡ cmd_connect → (run_command e w).0 ≡ returned true → (connect e w).0 ≡ returned true
  unfolding run_command ◌>>=◌ get pure
  connected_command same h =
      let is_connect : (w.cmd == cmd_connect) ≡ true = ground arith in
      let (ok, done, recorded) =
        on_return-eq-returned (connect e w).0 _ (connect e w).1 (rw is_connect at h) in
      done ∙ ap returned (record_connected-true ok (connect e w).1 recorded)

  -- The command succeeds only if it is CONNECT and the session has connected without an error.
  pub run_command_connected :
      (run_command e w).0 ≡ returned true
      → (w.cmd ≡ cmd_connect)
        × (port : ℕ) × ((Connect.connect e w.dst_address (decimal w.dst_port) w).0
            ≡ returned (success, port))
  run_command_connected h = elim (Bool-cases (w.cmd == cmd_connect)) [
    | inl is_connect ↦
        let same = (==_iff w.cmd cmd_connect).0 is_connect in
        let (port, p) = connect_raises _ _ refl (connected_command same h) in (same, port, p)
    | inr other ↦ absurd (cc (run_command_refused λ same. ground arith))
  ]
