-- ===== src/Statistics/Started.antt =====
-- The record that `start` of src/session.cpp makes, on the database of src/stat_db_service.cpp.
use mathlib.Core.Path.{subst}
use socks5_proxy_sum_2022_co.Prelude.{
  arith, ℕ, ◌≡◌, ◌<◌, ◌⊎◌, ◌==◌, inl, inr, refl, sym, Bool, true, false, not, List, Option, none,
  some, is_empty, [], ◌||◌,
}
use socks5_proxy_sum_2022_co.Asio.{failed}
use socks5_proxy_sum_2022_co.StringUtils.{decimal}
use socks5_proxy_sum_2022_co.World.{
  Env, World, Version, socks4_ver, socks5_ver, Outcome, returned, thrown, out_of_fuel, M, pure,
  on_return, ◌>>◌, NewSession,
}
use socks5_proxy_sum_2022_co.World.Triple.{
  Triple-weaken, Pred, Keeps, Keeps-if, Keeps-pure, Keeps-modify, Triple, Triple-bind, Triple-pure,
  Triple-if, Triple-on_return, Triple-get,
}
use socks5_proxy_sum_2022_co.Session.Frame.{
  IsFrame, Keeps-read_byte, Keeps-ask, Keeps-connect, Keeps-read_port, Keeps-read_ipv4,
  Keeps-write_bytes,
}
use socks5_proxy_sum_2022_co.Session.Start.{init_proxy, run_proxy, start}
use socks5_proxy_sum_2022_co.Session.Access.{Keeps-relay, Keeps-read_userid, caught-true}
use socks5_proxy_sum_2022_co.Session.Made.{Keeps-create_proxy}
use socks5_proxy_sum_2022_co.Socks.{
  cmd_connect, cmd_bind, cmd_udp_associate, store_session, create_record, new_session,
}
use socks5_proxy_sum_2022_co.Socks4
use socks5_proxy_sum_2022_co.Socks5
use socks5_proxy_sum_2022_co.Socks5.Frame.{
  Keeps-auth, Keeps-read_method_request, Keeps-read_command_request, Keeps-connect_reply,
  Keeps-send_error_response,
}
use socks5_proxy_sum_2022_co.Statistics.Sqlite.{Sqlite, Row}
use socks5_proxy_sum_2022_co.Statistics.Service.{create}
use socks5_proxy_sum_2022_co.Statistics.Laws.{IsSqlite}
use socks5_proxy_sum_2022_co.Statistics.Available.{IsAvailable, create_returns}
use socks5_proxy_sum_2022_co.Statistics.Calls.{Does, create-Does, Adds}
use socks5_proxy_sum_2022_co.Statistics.Refine.{Begins, Adds-Begins}
use socks5_proxy_sum_2022_co.Statistics.Sessions.{served}

-- What the calls of the network do not see: the number of the record, and the database.
abbrev pub held : {Net Db : Type 0} → World Net Db → ℕ × Db
held w = (w.id, w.db)

held-IsFrame : {Net Db : Type 0} → IsFrame {Net = Net} {Db = Db} held
held-IsFrame = record {
  net = λ w n. refl;
  dst_address = λ w a. refl;
  dst_port = λ w p. refl;
  bind_port = λ w p. refl;
  atyp = λ w p. refl;
  cmd = λ w p. refl;
}

module _ {Net Db Stmt : Type 0} (e : Env Net Db) (a : Sqlite Db Stmt) (s : IsSqlite a)
    (v : IsAvailable a s) (rs : List Row) where
  abbrev IsFresh : ℕ × Db → Type 0
  IsFresh (id, db) = (id ≡ 0) × (s.rows db ≡ rs)

  -- The session has a record that it has begun.
  abbrev pub HasBegun : ℕ × Db → Type 0
  HasBegun (id, db) = (0 < id) × Begins a s rs id (s.rows db)

  abbrev Fresh : Pred Net Db
  Fresh w = IsFresh (held w)

  abbrev Begun : Pred Net Db
  Begun w = HasBegun (held w)

  -- After `createRecord`, and after a handshake.
  abbrev Stored : {A : Type 0} → Outcome A → Pred Net Db
  Stored (returned x) w = Begun w
  Stored thrown w = Unit {0}
  Stored out_of_fuel w = Unit {0}

  abbrev Served : Outcome Bool → Pred Net Db
  Served o w = o ≡ returned true → Begun w

  fresh : {A : Type 0} {m : M Net Db A} → Keeps held m → Triple Fresh m (λ _. Fresh)
  fresh k = record { at = λ w h. subst IsFresh (sym (k.at w)) h }

  lasts : {A : Type 0} {m : M Net Db A} → Keeps held m → Triple Begun m (λ _. Begun)
  lasts k = record { at = λ w h. subst HasBegun (sym (k.at w)) h }

  fails : {P : Pred Net Db} → Triple P (pure (returned false)) Served
  fails = Triple-pure _ λ w p q. cc

  Does-cases :
      {A : Type 0} (before : List Row) (Q : A → List Row → Type 0) (x : Option A × Db)
      → Does a s before Q x
      → ((x.0 ≡ none) × (s.rows x.1 ≡ before)) ⊎ ((r : A) × (x.0 ≡ some r) × Q r (s.rows x.1))
  Does-cases before Q (none, db) h = inl (refl, h)
  Does-cases before Q (some r, db) h = inr (r, refl, h)

  store_session-Begun :
      (new : NewSession) → Triple Fresh (store_session (served a e) new) (λ _. Begun)
  unfolding store_session
  store_session-Begun new = record {
    at = λ w h.
        let (number, returns) = create_returns a s v new w.db in
        elim (Does-cases (s.rows w.db) (λ id left. Adds a s new (s.rows w.db) id left)
          (create a new w.db) (create-Does a s new w.db v.binds)) [
            | inl (refused, left) ↦ absurd (cc (refused, returns))
            | inr (id, gives, adds) ↦
                let begins = Adds-Begins a s new id (s.rows w.db) _ adds in
                rw (store_session, gives) (adds.1, rw h.1 at begins)
          ];
  }

  create_record-Stored : Triple Fresh (create_record (served a e)) Stored
  unfolding create_record
  create_record-Stored = Triple-bind (fresh (Keeps-ask (served a e) held-IsFrame _)) λ address.
      Triple-on_return (λ _. Fresh) address
        (λ endpoint. Triple-bind Triple-get λ w.
          Triple-bind (store_session-Begun (new_session (served a e) w endpoint))
            λ created. Triple-pure (returned created) λ w h. h)
        (λ w h. tt) (λ w h. tt)

  -- The end of both handshakes.
  record_session-Served :
      {A : Type 0} (created : Outcome A)
      → Triple (Stored created) (on_return created λ _. pure (returned true)) Served
  record_session-Served created =
      Triple-on_return Stored created (λ _. Triple-pure _ λ w h q. h) (λ w h q. cc) (λ w h q. cc)

  refuse :
      (rep : Socks5.Rep)
      → Triple Fresh (do Socks5.send_error_response (served a e) rep; pure (returned false)) Served
  refuse rep =
      Triple-bind (fresh (Keeps-send_error_response (served a e) held-IsFrame rep)) λ _. fails

  record_connected-Served :
      (connected : Bool) → Triple Fresh (Socks5.record_connected (served a e) connected) Served
  unfolding Socks5.record_connected
  record_connected-Served connected =
      Triple-if (not connected) (λ _. fails)
        λ _. Triple-bind create_record-Stored λ created. record_session-Served created

  run_command-Served : Triple Fresh (Socks5.run_command (served a e)) Served
  unfolding Socks5.run_command
  run_command-Served = Triple-bind Triple-get λ w.
      Triple-if (w.cmd == cmd_connect)
        (λ _. Triple-bind (fresh (Keeps-connect_reply (served a e) held-IsFrame)) λ connected.
          Triple-on_return (λ _. Fresh) connected record_connected-Served (λ w h q. cc)
            (λ w h q. cc))
        λ _.
          Triple-if (w.cmd == cmd_bind) (λ _. refuse _)
            λ _. Triple-if (w.cmd == cmd_udp_associate) (λ _. refuse _) λ _. refuse _

  socks5-Served : Triple Fresh (Socks5.init (served a e)) Served
  unfolding Socks5.init
  socks5-Served = Triple-bind (fresh (Keeps-read_method_request (served a e) held-IsFrame)) λ ok.
      Triple-if (not ok) (λ _. fails)
        λ _.
          Triple-bind
            (fresh (
              Keeps-if e.auth_flag (Keeps-auth (served a e) held-IsFrame λ w u. refl)
                (Keeps-pure true)))
            λ auth_ok.
              Triple-if (not auth_ok) (λ _. fails)
                λ _.
                  Triple-bind (fresh (Keeps-read_command_request (served a e) held-IsFrame))
                    λ command_ok. Triple-if (not command_ok) (λ _. fails) λ _. run_command-Served

  connect_and_reply-Served : Triple Fresh (Socks4.connect_and_reply (served a e)) Served
  unfolding Socks4.connect_and_reply
  connect_and_reply-Served = Triple-bind Triple-get λ w.
      Triple-bind
        (fresh (Keeps-connect (served a e) held-IsFrame w.dst_address (decimal w.dst_port)))
        λ connected.
          Triple-on_return (λ _. Fresh) connected
            (λ (ec, bind_port). Triple-bind (fresh (Keeps-modify _ λ w. refl)) λ _.
              Triple-bind (fresh (Keeps-write_bytes (served a e) held-IsFrame (Socks4.reply ec)))
                λ ec'.
                  Triple-if (failed ec' || Socks4.reply_byte ec == Socks4.rejected) (λ _. fails)
                    λ _. Triple-bind create_record-Stored λ created. record_session-Served created)
            (λ w h q. cc) (λ w h q. cc)

  socks4-Served : (fuel : ℕ) → Triple Fresh (Socks4.init (served a e) fuel) Served
  unfolding Socks4.init
  socks4-Served fuel =
      Triple-bind (fresh (Keeps-read_byte (served a e) held-IsFrame)) λ (ec, method).
        Triple-if (not (method == cmd_connect)) (λ _. fails)
          λ _. Triple-bind (fresh (Keeps-read_port (served a e) held-IsFrame)) λ _.
            Triple-bind (fresh (Keeps-read_ipv4 (served a e) held-IsFrame)) λ address.
              Triple-bind (fresh (Keeps-modify _ λ w. refl)) λ _.
                Triple-if (is_empty address) (λ _. fails)
                  λ _.
                    Triple-bind (fresh (Keeps-read_userid (served a e) held-IsFrame fuel []))
                      λ user.
                        Triple-on_return (λ _. Fresh) user
                          (λ (ec, userid).
                            Triple-if (failed ec) (λ _. fails)
                              λ _.
                                Triple-bind (fresh (Keeps-modify _ λ w. refl))
                                  λ _. connect_and_reply-Served)
                          (λ w h q. cc) (λ w h q. cc)

  init_proxy-Served :
      (fuel : ℕ) (v : Version) → Triple Fresh (init_proxy (served a e) fuel v) Served
  unfolding init_proxy
  init_proxy-Served fuel socks5_ver = socks5-Served
  init_proxy-Served fuel socks4_ver = socks4-Served fuel

  run_proxy-Served :
      (fuel : ℕ) (o : Option Version) → Triple Fresh (run_proxy (served a e) fuel o) Served
  unfolding run_proxy
  run_proxy-Served fuel none = fails
  run_proxy-Served fuel (some ver) = Triple-bind (init_proxy-Served fuel ver) λ ready.
      Triple-on_return Served ready
        (λ ok.
          Triple-if (not ok) (λ _. fails)
            λ passed.
              Triple-weaken (lasts (Keeps-relay (served a e) held-IsFrame λ w. refl))
                (λ w h. h (ground arith)) λ _ w h q. h)
        (λ w h. h) (λ w h. h)

  start-Served : (fuel : ℕ) → Triple Fresh (start (served a e) fuel) Served
  unfolding start
  start-Served fuel = Triple-bind (fresh (Keeps-ask (served a e) held-IsFrame _)) λ client.
      Triple-bind {R = Served}
        (Triple-on_return (λ _. Fresh) client
          (λ _.
            Triple-bind (fresh (Keeps-create_proxy (served a e) held-IsFrame λ w v. refl))
              λ o. run_proxy-Served fuel o)
          (λ w h q. cc) (λ w h q. cc))
        λ result. Triple-pure _ λ w h t. h (caught-true (served a e) result t)

  -- When no call of sqlite fails, a `start` that has started a relay has begun a record.
  pub start_begins :
      (fuel : ℕ) (w : World Net Db)
      → w.id ≡ 0
      → s.rows w.db ≡ rs
      → (start (served a e) fuel w).0 ≡ returned true
      → HasBegun (held (start (served a e) fuel w).1)
  start_begins fuel w no_record same = (start-Served fuel).at w (no_record, same)
