-- ===== src/Session/Access.antt =====
-- For whom `start` of src/session.cpp starts a relay, whatever the network answers.
use socks5_proxy_sum_2022_co.Prelude.{
  ℕ, zero, suc, ◌≡◌, ◌⊎◌, inl, inr, refl, ◌∙◌, Bool, true, false, not, Option, none, some, Bytes,
  Bool-cases, arith, ◌∷◌, [], ◌++◌,
}
use socks5_proxy_sum_2022_co.Asio.{failed}
use socks5_proxy_sum_2022_co.World.{
  Env, World, Version, socks4_ver, socks5_ver, Outcome, returned, thrown, out_of_fuel, M, pure,
  modify, ◌>>=◌, ◌>>◌, on_return,
}
use socks5_proxy_sum_2022_co.World.Triple.{
  Pred, Keeps, Keeps-bind, Keeps-if, Keeps-pure, keeps_rules, Triple, Triple-bind, Triple-pure,
  Triple-modify, Triple-if, Triple-on_return, Triple-weaken, Triple-any,
}
use socks5_proxy_sum_2022_co.Session.Io.{read_byte}
use socks5_proxy_sum_2022_co.Session.Connect.{ask}
use socks5_proxy_sum_2022_co.Session.Frame.{
  IsFrame, IsUnrecorded, Keeps-read_byte, Keeps-write_bytes, Keeps-ask, Keeps-read_port,
  Keeps-read_ipv4, Keeps-connect, Keeps-create_record,
}
use socks5_proxy_sum_2022_co.Session.Start.{
  version_of, make_socks, create_proxy, init_proxy, client_read, server_read, run_proxy, caught,
  start,
}
use socks5_proxy_sum_2022_co.Socks4
use socks5_proxy_sum_2022_co.Socks5.Access.{
  IsKnown, Always, init-Ends, IsKnown-of_Keeps, username-IsFrame,
}

pub socks-IsFrame : {Net Db : Type 0} → IsFrame {Net = Net} {Db = Db} (λ w. w.socks)
socks-IsFrame = record {
  net = λ w n. refl;
  dst_address = λ w a. refl;
  dst_port = λ w p. refl;
  bind_port = λ w p. refl;
  atyp = λ w p. refl;
  cmd = λ w p. refl;
}

pub socks-IsUnrecorded : {Net Db : Type 0} → IsUnrecorded {Net = Net} {Db = Db} (λ w. w.socks)
socks-IsUnrecorded = record { db = λ w d. refl; record_id = λ w d i. refl }

module _ {Net Db X : Type 0} (e : Env Net Db) {f : World Net Db → X} (frame : IsFrame f) where
  Keeps-client_read : Keeps f (client_read e)
  unfolding client_read
  Keeps-client_read = record {
    at = λ w. elim (Bool-cases (e.asio.client_is_open w.net)) [
      | inl h ↦ rw (h, client_read) (frame.net w _)
      | inr h ↦ rw (h, client_read) refl
    ];
  }

  Keeps-server_read : Keeps f (server_read e)
  unfolding server_read
  Keeps-server_read = record {
    at = λ w. elim (Bool-cases (e.asio.server_is_open w.net)) [
      | inl h ↦ rw (h, server_read) (frame.net w _)
      | inr h ↦ rw (h, server_read) refl
    ];
  }

  pub Keeps-read_userid : (fuel : ℕ) (userid : Bytes) → Keeps f (Socks4.read_userid e fuel userid)
  unfolding Socks4.read_userid
  Keeps-read_userid zero userid = search keeps_rules
  Keeps-read_userid (suc fuel) userid =
      Keeps-bind (Keeps-read_byte e frame)
        λ (ec, c). Keeps-if _ (Keeps-read_userid fuel (userid ++ c ∷ [])) (Keeps-pure _)

  -- The part of `run_proxy` behind a handshake that ended well.
  pub Keeps-relay :
      ((w : World Net Db) → f (record w { session_id = w.id }) ≡ f w)
      → Keeps f (do
        modify (λ w. record w { session_id = w.id })
        client ← ask e e.asio.client_endpoint
        on_return client λ _. do
          server ← ask e e.asio.server_endpoint
          on_return server λ _. do client_read e; server_read e; pure (returned true))
  Keeps-relay seen =
      search (keeps_rules, Keeps-ask, Keeps-client_read, Keeps-server_read, seen) depth 15

module _ {Net Db X : Type 0} (e : Env Net Db) {f : World Net Db → X} (frame : IsFrame f)
    (unseen : IsUnrecorded f) where
  pub Keeps-connect_and_reply : Keeps f (Socks4.connect_and_reply e)
  unfolding Socks4.connect_and_reply
  Keeps-connect_and_reply =
      search (keeps_rules, Keeps-connect, Keeps-write_bytes, Keeps-create_record, frame.bind_port)
        depth 12

  pub Keeps-socks4 :
      ((w : World Net Db) (u : Bytes) → f (record w { username = u }) ≡ f w)
      → (fuel : ℕ) → Keeps f (Socks4.init e fuel)
  unfolding Socks4.init
  Keeps-socks4 seen fuel =
      search
        (
          keeps_rules, Keeps-read_byte, Keeps-read_port, Keeps-read_ipv4, Keeps-read_userid,
          Keeps-connect_and_reply, frame.dst_address, seen,
        )
        depth 20

module _ {Net Db : Type 0} (e : Env Net Db) where
  -- The session is one of SOCKS4, or its user is known.
  abbrev pub IsAdmitted : Pred Net Db
  IsAdmitted w = (w.socks ≡ some socks4_ver) ⊎ IsKnown e w

  abbrev Served : Outcome Bool → Pred Net Db
  Served o w = o ≡ returned true → IsAdmitted w

  refused : {P : Pred Net Db} → Triple P (pure (returned false)) Served
  refused = Triple-pure _ λ w p q. cc

  init_proxy-Served :
      (fuel : ℕ) (v : Version)
      → e.auth_flag ≡ true
      → Triple (λ w. w.socks ≡ some v) (init_proxy e fuel v) Served
  unfolding init_proxy
  init_proxy-Served fuel socks5_ver on = record { at = λ w h t. inr ((init-Ends e on).at w tt t) }
  init_proxy-Served fuel socks4_ver on = record {
    at = λ w h t.
        inl ((Keeps-socks4 e socks-IsFrame socks-IsUnrecorded (λ w u. refl) fuel).at w ∙ h);
  }

  relay-Served :
      {m : M Net Db (Outcome Bool)}
      → Keeps (λ (w : World Net Db). w.socks) m
      → Keeps (λ (w : World Net Db). w.username) m
      → Triple IsAdmitted m Served
  relay-Served k l = record {
    at = λ w h t. elim h [
      | inl old ↦ inl (k.at w ∙ old)
      | inr known ↦ inr ((IsKnown-of_Keeps e l).at w known)
    ];
  }

  run_proxy-Served :
      (fuel : ℕ) (v : Version)
      → e.auth_flag ≡ true
      → Triple (λ w. w.socks ≡ some v) (run_proxy e fuel (some v)) Served
  unfolding run_proxy
  run_proxy-Served fuel v on = Triple-bind (init_proxy-Served fuel v on) λ ready.
      Triple-on_return Served ready
        (λ ok.
          Triple-if (not ok) (λ _. refused)
            λ passed.
              Triple-weaken
                (relay-Served (Keeps-relay e socks-IsFrame λ w. refl)
                  (Keeps-relay e username-IsFrame λ w. refl))
                (λ w k. k (ground arith)) λ _ w k. k)
        (λ w k. k) (λ w k. k)

  -- The object that was made is the one that is there.
  abbrev pub IsMade : Option Version → Pred Net Db
  IsMade none w = Unit {0}
  IsMade (some v) w = w.socks ≡ some v

  make_socks-IsMade : (o : Option Version) → Triple (Always e) (make_socks e o) IsMade
  unfolding make_socks
  make_socks-IsMade none = Triple-pure none λ w p. tt
  make_socks-IsMade (some v) =
      Triple-bind {R = λ _ w. w.socks ≡ some v} (Triple-modify _ λ w p. refl)
        λ _. Triple-pure (some v) λ w h. h

  pub create_proxy-IsMade : Triple (Always e) (create_proxy e) IsMade
  unfolding create_proxy
  create_proxy-IsMade = Triple-bind (Triple-any (read_byte e)) λ (ec, ver).
      Triple-if (failed ec) (λ _. Triple-pure none λ w p. tt)
        λ _. make_socks-IsMade (version_of e ver)

  IsMade-Served :
      (fuel : ℕ) (o : Option Version)
      → e.auth_flag ≡ true
      → Triple (IsMade o) (run_proxy e fuel o) Served
  unfolding run_proxy
  IsMade-Served fuel none on = refused
  IsMade-Served fuel (some v) on = run_proxy-Served fuel v on

  pub caught-true : (o : Outcome Bool) → caught e o ≡ returned true → o ≡ returned true
  caught-true (returned b) h = h
  caught-true thrown h = cc
  caught-true out_of_fuel h = cc

  start-Served : (fuel : ℕ) → e.auth_flag ≡ true → Triple (Always e) (start e fuel) Served
  unfolding start
  start-Served fuel on = Triple-bind (Triple-any (ask e e.asio.client_endpoint)) λ client.
      Triple-bind {R = Served}
        (Triple-on_return (λ _ _. Unit {0}) client
          (λ _. Triple-bind create_proxy-IsMade λ o. IsMade-Served fuel o on) (λ w p q. cc)
          (λ w p q. cc))
        λ result. Triple-pure _ λ w h t. h (caught-true result t)

  -- With authentication on, a relay is started only for a user that the configuration has, with some
  -- password, or for a client of SOCKS4, who is asked for none.
  pub start-IsAdmitted :
      (fuel : ℕ) (w : World Net Db)
      → e.auth_flag ≡ true
      → (start e fuel w).0 ≡ returned true
      → IsAdmitted (start e fuel w).1
  start-IsAdmitted fuel w on = (start-Served fuel on).at w tt
