-- ===== src/Socks5/Access.antt =====
-- Who gets through the handshake of src/socks5.cpp, whatever the network answers.
use socks5_proxy_sum_2022_co.Prelude.{
  ◌≡◌, refl, ◌∙◌, Bool, true, false, not, ◌||◌, if◌then◌else◌, arith, Bytes, ◌==◌,
}
use socks5_proxy_sum_2022_co.StringUtils.{to_string}
use socks5_proxy_sum_2022_co.Asio.{failed}
use socks5_proxy_sum_2022_co.Config.Map.{has_user}
use socks5_proxy_sum_2022_co.World.{Env, World, M, Outcome, returned, pure, ◌>>=◌}
use socks5_proxy_sum_2022_co.World.Triple.{
  Pred, Keeps, Triple, Triple-bind, Triple-pure, Triple-modify, Triple-if, Triple-weaken,
  Triple-any,
}
use socks5_proxy_sum_2022_co.Session.Io.{read_byte, read_bytes, write_bytes}
use socks5_proxy_sum_2022_co.Session.Frame.{IsFrame, IsUnrecorded, Keeps-write_bytes}
use socks5_proxy_sum_2022_co.Socks5.{auth_ver, auth, read_method_request, init}
use socks5_proxy_sum_2022_co.Socks5.Frame.{Keeps-read_command_request, Keeps-run_command}

pub username-IsFrame : {Net Db : Type 0} → IsFrame {Net = Net} {Db = Db} (λ w. w.username)
username-IsFrame = record {
  net = λ w n. refl;
  dst_address = λ w a. refl;
  dst_port = λ w p. refl;
  bind_port = λ w p. refl;
  atyp = λ w p. refl;
  cmd = λ w p. refl;
}

pub username-IsUnrecorded : {Net Db : Type 0} → IsUnrecorded {Net = Net} {Db = Db} (λ w. w.username)
username-IsUnrecorded = record { db = λ w d. refl; record_id = λ w d i. refl }

module _ {Net Db : Type 0} (e : Env Net Db) where
  -- The configuration has the session's user, with some password.
  abbrev pub IsKnown : Pred Net Db
  IsKnown w = (passwd : Bytes) × (has_user e.users w.username passwd ≡ true)

  abbrev Admits : Bool → Pred Net Db
  Admits ok w = ok ≡ true → IsKnown w

  abbrev pub Always : Pred Net Db
  Always w = Unit {0}

  refuse : {b c : Bool} {P : Pred Net Db} → b ≡ c → Triple P (pure false) Admits
  refuse h = Triple-pure false λ w p q. cc

  -- The end of `auth`, behind the two texts that the client sent.
  answer-Admits :
      (user passwd : Bytes) (response : Bytes)
      → Triple
          (λ w. w.username ≡ user)
          (do
            ec ← write_bytes e response
            if failed ec then pure false else pure (has_user e.users user passwd))
          Admits
  answer-Admits user passwd response =
      Triple-bind {R = λ _ w. w.username ≡ user}
        (record { at = λ w h. (Keeps-write_bytes e username-IsFrame response).at w ∙ h })
        λ ec. Triple-if (failed ec) refuse λ _. Triple-pure _ λ w h known. (passwd, rw h known)

  auth-Admits : Triple Always (auth e) Admits
  unfolding auth
  auth-Admits = Triple-bind (Triple-any (read_byte e)) λ (ec, ver).
      Triple-if (failed ec || not (ver == auth_ver)) refuse λ _.
        Triple-bind (Triple-any (read_byte e)) λ (ec, ulen).
          Triple-if (failed ec || ulen == 0) refuse λ _.
            Triple-bind (Triple-any (read_bytes e ulen)) λ (ec, uname).
              Triple-if (failed ec) refuse λ _. Triple-bind (Triple-any (read_byte e)) λ (ec, plen).
                Triple-if (failed ec) refuse λ _.
                  Triple-bind (Triple-any (read_bytes e plen)) λ (ec, passwd).
                    Triple-if (failed ec) refuse λ _.
                      Triple-bind {R = λ _ w. w.username ≡ to_string uname}
                        (Triple-modify (λ w. record w { username = to_string uname }) λ w p. refl)
                        λ _. answer-Admits (to_string uname) (to_string passwd) _

  -- A call that leaves the user alone.
  pub IsKnown-of_Keeps :
      {A : Type 0} {m : M Net Db A}
      → Keeps (λ (w : World Net Db). w.username) m
      → Triple IsKnown m (λ _. IsKnown)
  IsKnown-of_Keeps k = record { at = λ w (passwd, known). (passwd, rw k.at known) }

  abbrev pub Ends : Outcome Bool → Pred Net Db
  Ends o w = o ≡ returned true → IsKnown w

  pub reject : {b c : Bool} {P : Pred Net Db} → b ≡ c → Triple P (pure (returned false)) Ends
  reject h = Triple-pure _ λ w p q. cc

  auth_step-Admits :
      e.auth_flag ≡ true → Triple Always (if e.auth_flag then auth e else pure true) Admits
  auth_step-Admits on = Triple-if e.auth_flag (λ _. auth-Admits) λ off. cc

  pub init-Ends : e.auth_flag ≡ true → Triple Always (init e) Ends
  unfolding init
  init-Ends on = Triple-bind (Triple-any (read_method_request e)) λ ok.
      Triple-if (not ok) reject λ _. Triple-bind (auth_step-Admits on) λ auth_ok.
        Triple-if (not auth_ok) reject λ passed.
          Triple-bind {R = λ _. IsKnown}
            (Triple-weaken (IsKnown-of_Keeps (Keeps-read_command_request e username-IsFrame))
              (λ w k. k (ground arith)) λ _ w k. k)
            λ command_ok. Triple-if (not command_ok) reject λ _.
              Triple-weaken
                (IsKnown-of_Keeps (Keeps-run_command e username-IsFrame username-IsUnrecorded))
                (λ w k. k) λ _ w k _. k

  -- With authentication on, `init` returns true only where the session's user is one that the
  -- configuration has, with some password, whatever the client and the network do.
  pub init-IsKnown :
      (w : World Net Db) → e.auth_flag ≡ true → (init e w).0 ≡ returned true → IsKnown (init e w).1
  init-IsKnown w on = (init-Ends on).at w tt
