-- ===== src/Session/Closing.antt =====
-- `close` of src/session.cpp over the life of a session.
use socks5_proxy_sum_2022_co.Prelude.{
  ℕ, ◌≡◌, refl, ap, Bool, true, false, List, [], ◌∷◌, ◌++◌, Option, none, some, Bytes, arith,
  if◌then◌else◌,
}
use socks5_proxy_sum_2022_co.Asio.{ErrorCode}
use socks5_proxy_sum_2022_co.World.{Env, World, Version, pred_ℤ, pure, get, modify, ◌>>=◌}
use socks5_proxy_sum_2022_co.World.Triple.{Triple}
use socks5_proxy_sum_2022_co.Socks
use socks5_proxy_sum_2022_co.Session.Start.{client_read, server_read}
use socks5_proxy_sum_2022_co.Session.Relay.{close_socks, close_open, close, write_to_socket}
use socks5_proxy_sum_2022_co.Session.Events.{Event, destroyed, handle, handle_all}
use socks5_proxy_sum_2022_co.Session.Kept.{Kept, handle_all-Kept}

module _ {Net Db : Type 0} (e : Env Net Db) where
  close_socks-sessions :
      (o : Option Version) (v : World Net Db)
      → ((close_socks e o v).1.sessions ≡ v.sessions)
        × ((close_socks e o v).1.is_closed ≡ v.is_closed)
  unfolding close_socks Socks.close pure
  close_socks-sessions none v = (refl, refl)
  close_socks-sessions (some x) v = ground arith

  close_open-sessions :
      (v : World Net Db)
      → ((close_open e v).1.sessions ≡ pred_ℤ v.sessions) × ((close_open e v).1.is_closed ≡ true)
  unfolding close_open ◌>>=◌ get modify
  close_open-sessions v =
      let closed : World Net Db = record v {
        is_closed = true;
        net = e.asio.close_server (e.asio.close_client v.net);
      } in
      let kept = close_socks-sessions v.socks closed in (ap pred_ℤ kept.0, kept.1)

  -- How the counter of the server stands to the closed flag since a state.
  abbrev pub Counted : World Net Db → World Net Db → Type 0
  Counted w v = v.sessions ≡ (if v.is_closed then pred_ℤ w.sessions else w.sessions)

  close-is_closed : (v : World Net Db) → (close e v).1.is_closed ≡ true
  unfolding close ◌>>=◌ get pure
  close-is_closed v = ground (arith, close_open-sessions v)

  close_if :
      (b : Bool) (v : World Net Db) → b ≡ true → ((if b then pure tt else close_open e) v).1 ≡ v
  unfolding pure
  close_if true v h = refl
  close_if false v h = cc

  -- A second `close` does nothing, whoever calls it.
  pub close_twice : (w : World Net Db) → (close e (close e w).1).1 ≡ (close e w).1
  unfolding close ◌>>=◌ get
  close_twice w = close_if (close e w).1.is_closed (close e w).1 (close-is_closed w)

  close-Counted : (w : World Net Db) → Triple (Counted w) (close e) (λ _. Counted w)
  unfolding close ◌>>=◌ get pure
  close-Counted w = record { at = λ v h. ground (arith, close_open-sessions v) }

  write_to_socket-sessions :
      (v : World Net Db) (socket : Bytes → Net → ErrorCode × Net) (buffer : Bytes) (n : ℕ)
      (b : Bool)
      → ((write_to_socket e socket buffer n b v).1.sessions ≡ v.sessions)
        × ((write_to_socket e socket buffer n b v).1.is_closed ≡ v.is_closed)
  unfolding write_to_socket Socks.write_stat
  write_to_socket-sessions v socket buffer n b = ground arith

  write_to_socket-Counted :
      (w : World Net Db) (socket : Bytes → Net → ErrorCode × Net) (buffer : Bytes) (n : ℕ)
      (b : Bool)
      → Triple (Counted w) (write_to_socket e socket buffer n b) (λ _. Counted w)
  write_to_socket-Counted w socket buffer n b = record {
    at = λ v h. ground (arith, write_to_socket-sessions v socket buffer n b);
  }

  reads-Counted :
      (w : World Net Db)
      → Triple (Counted w) (client_read e) (λ _. Counted w)
        × Triple (Counted w) (server_read e) (λ _. Counted w)
  unfolding client_read server_read
  reads-Counted w = (record { at = λ v h. ground arith }, record { at = λ v h. ground arith })

  -- What `Counted` asks of the methods, whatever bytes are read.
  Counted-Kept : (w : World Net Db) → Kept e (λ _. Counted w)
  Counted-Kept w = record {
    less = λ rest n v h. h;
    refill = λ rest v cs ss h. h;
    close = λ rest. close-Counted w;
    write_server = λ rest n buffer long. write_to_socket-Counted w _ buffer n true;
    write_client = λ rest n buffer long. write_to_socket-Counted w _ buffer n false;
    client_read = λ rest. (reads-Counted w).0;
    server_read = λ rest. (reads-Counted w).1;
  }

  handle_all-append :
      (evs : List Event) (ev : Event) (w : World Net Db)
      → handle_all e (evs ++ ev ∷ []) w ≡ handle e ev (handle_all e evs w)
  unfolding handle_all
  handle_all-append [] ev w = refl
  handle_all-append (x ∷ evs) ev w = handle_all-append evs ev (handle e x w)

  -- From the start of the relay to the end of the object, whenever the first reads are asked for and
  -- whatever reads complete in whatever order and with whatever errors, the session lowers the server's
  -- counter exactly once.
  pub counted_once :
      (w : World Net Db) (evs : List Event)
      → w.is_closed ≡ false
      → (handle_all e (evs ++ destroyed ∷ []) w).sessions ≡ pred_ℤ w.sessions
  unfolding handle
  counted_once w evs open_ =
      let start : Counted w w = rw open_ refl in
      let before = handle_all-Kept e (λ _. Counted w) (Counted-Kept w) evs w start in
      let last = (close-Counted w).at (handle_all e evs w) before in
      rw handle_all-append (rw (close-is_closed (handle_all e evs w)) at last)
