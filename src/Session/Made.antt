-- ===== src/Session/Made.antt =====
-- What `start` of src/session.cpp leaves alone, and what it has made when it has started a relay.
use socks5_proxy_sum_2022_co.Prelude.{ℕ, ◌≡◌, refl, ◌∙◌, Bool, true, not, Option, none, some, Bytes}
use socks5_proxy_sum_2022_co.World.{Env, World, Version, socks4_ver, socks5_ver, Outcome, returned}
use socks5_proxy_sum_2022_co.World.Triple.{
  Pred, Keeps, Keeps-bind, Keeps-if, Keeps-pure, Keeps-on_return, keeps_rules, Triple, Triple-bind,
  Triple-pure, Triple-on_return, Triple-any,
}
use socks5_proxy_sum_2022_co.Session.Connect.{ask}
use socks5_proxy_sum_2022_co.Session.Frame.{IsFrame, IsUnrecorded, Keeps-read_byte, Keeps-ask}
use socks5_proxy_sum_2022_co.Session.Start.{make_socks, create_proxy, init_proxy, run_proxy, start}
use socks5_proxy_sum_2022_co.Session.Access.{
  Keeps-relay, Keeps-socks4, IsMade, create_proxy-IsMade, caught-true, socks-IsFrame,
  socks-IsUnrecorded,
}
use socks5_proxy_sum_2022_co.Socks5
use socks5_proxy_sum_2022_co.Socks5.Access.{Always}
use socks5_proxy_sum_2022_co.Socks5.Frame.{
  Keeps-auth, Keeps-read_method_request, Keeps-read_command_request, Keeps-run_command,
}

-- A view that does not see what a handshake sets besides the request and the record.
pub record IsOutside {Net Db X : Type 0} (f : World Net Db → X) : Type 0 where
  pub username : (w : World Net Db) (u : Bytes) → f (record w { username = u }) ≡ f w
  pub session_id : (w : World Net Db) → f (record w { session_id = w.id }) ≡ f w

module _ {Net Db X : Type 0} (e : Env Net Db) {f : World Net Db → X} (frame : IsFrame f)
    (unseen : IsUnrecorded f) (outside : IsOutside f) where
  Keeps-socks5 : Keeps f (Socks5.init e)
  unfolding Socks5.init
  Keeps-socks5 = Keeps-bind (Keeps-read_method_request e frame) λ ok.
      Keeps-if (not ok) (Keeps-pure _) (
        Keeps-bind (Keeps-if e.auth_flag (Keeps-auth e frame outside.username) (Keeps-pure true))
          λ auth_ok. Keeps-if (not auth_ok) (Keeps-pure _) (
            Keeps-bind (Keeps-read_command_request e frame) λ command_ok.
              Keeps-if (not command_ok) (Keeps-pure _) (Keeps-run_command e frame unseen)))

  Keeps-init_proxy : (fuel : ℕ) (v : Version) → Keeps f (init_proxy e fuel v)
  unfolding init_proxy
  Keeps-init_proxy fuel socks5_ver = Keeps-socks5
  Keeps-init_proxy fuel socks4_ver = Keeps-socks4 e frame unseen outside.username fuel

  pub Keeps-run_proxy : (fuel : ℕ) (o : Option Version) → Keeps f (run_proxy e fuel o)
  unfolding run_proxy
  Keeps-run_proxy fuel none = Keeps-pure _
  Keeps-run_proxy fuel (some v) = Keeps-bind (Keeps-init_proxy fuel v) λ ready.
      Keeps-on_return ready
        λ ok. Keeps-if (not ok) (Keeps-pure _) (Keeps-relay e frame outside.session_id)

module _ {Net Db X : Type 0} (e : Env Net Db) {f : World Net Db → X} (frame : IsFrame f)
    (seen : (w : World Net Db) (v : Version) → f (record w { socks = some v }) ≡ f w) where
  Keeps-make_socks : (o : Option Version) → Keeps f (make_socks e o)
  unfolding make_socks
  Keeps-make_socks none = Keeps-pure none
  Keeps-make_socks (some v) = search (keeps_rules, seen)

  pub Keeps-create_proxy : Keeps f (create_proxy e)
  unfolding create_proxy
  Keeps-create_proxy = search (keeps_rules, Keeps-read_byte, Keeps-make_socks) depth 9

module _ {Net Db X : Type 0} (e : Env Net Db) {f : World Net Db → X} (frame : IsFrame f)
    (unseen : IsUnrecorded f) (outside : IsOutside f)
    (seen : (w : World Net Db) (v : Version) → f (record w { socks = some v }) ≡ f w) where
  pub Keeps-start : (fuel : ℕ) → Keeps f (start e fuel)
  unfolding start
  Keeps-start fuel = Keeps-bind (Keeps-ask e frame e.asio.client_endpoint) λ client.
      Keeps-bind
        (Keeps-on_return client λ _.
          Keeps-bind (Keeps-create_proxy e frame seen)
            λ o. Keeps-run_proxy e frame unseen outside fuel o)
        λ result. Keeps-pure _

is_closed-IsFrame : {Net Db : Type 0} → IsFrame {Net = Net} {Db = Db} (λ w. w.is_closed)
is_closed-IsFrame = record {
  net = λ w n. refl;
  dst_address = λ w a. refl;
  dst_port = λ w p. refl;
  bind_port = λ w p. refl;
  atyp = λ w p. refl;
  cmd = λ w p. refl;
}

module _ {Net Db : Type 0} (e : Env Net Db) where
  pub start-is_closed : (fuel : ℕ) (w : World Net Db) → (start e fuel w).1.is_closed ≡ w.is_closed
  start-is_closed fuel =
      (Keeps-start e is_closed-IsFrame (record { db = λ w d. refl; record_id = λ w d i. refl })
        (record { username = λ w u. refl; session_id = λ w. refl }) (λ w v. refl) fuel).at

  abbrev Makes : Outcome Bool → Pred Net Db
  Makes o w = o ≡ returned true → (v : Version) × (w.socks ≡ some v)

  run_proxy-Makes : (fuel : ℕ) (o : Option Version) → Triple (IsMade e o) (run_proxy e fuel o) Makes
  unfolding run_proxy
  run_proxy-Makes fuel none = Triple-pure _ λ w p q. cc
  run_proxy-Makes fuel (some v) = record {
    at = λ w made _. (
      v,
      (Keeps-run_proxy e socks-IsFrame socks-IsUnrecorded
              (record { username = λ w u. refl; session_id = λ w. refl }) fuel (some v)).at
            w
          ∙ made,
    );
  }

  start-Makes : (fuel : ℕ) → Triple (Always e) (start e fuel) Makes
  unfolding start
  start-Makes fuel = Triple-bind (Triple-any (ask e e.asio.client_endpoint)) λ client.
      Triple-bind {R = Makes}
        (Triple-on_return (λ _ _. Unit {0}) client
          (λ _. Triple-bind (create_proxy-IsMade e) λ o. run_proxy-Makes fuel o) (λ w p q. cc)
          (λ w p q. cc))
        λ result. Triple-pure _ λ w h t. h (caught-true e result t)

  -- A relay that was started has its Socks object.
  pub start_made :
      (fuel : ℕ) (w : World Net Db)
      → (start e fuel w).0 ≡ returned true
      → (v : Version) × ((start e fuel w).1.socks ≡ some v)
  start_made fuel w = (start-Makes fuel).at w tt
