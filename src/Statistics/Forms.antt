-- ===== src/Statistics/Forms.antt =====
-- What the calls of the relay leave of a session: the methods of src/socks.cpp and src/session.cpp that
-- end it and that write.
use socks5_proxy_sum_2022_co.Prelude.{
  ℕ, ◌≡◌, ◌≤◌, ◌==◌, refl, Bool, true, false, some, Bytes, length, take, length-take, arith,
}
use socks5_proxy_sum_2022_co.Asio.{ErrorCode, failed}
use socks5_proxy_sum_2022_co.World.{ℤ, Env, World, Version, pred_ℤ, pure, get, modify, ◌>>=◌}
use socks5_proxy_sum_2022_co.Socks
use socks5_proxy_sum_2022_co.Session.Relay.{close, close_open, close_socks, write_to_socket}
use socks5_proxy_sum_2022_co.Statistics.Sessions.{dest_of}

pub length-taken : (n : ℕ) (buffer : Bytes) → n ≤ length buffer → length (take n buffer) ≡ n
length-taken n buffer long = omega (arith, length-take n buffer)

module _ {Net Db : Type 0} (e : Env Net Db) where
  -- `Socks::close` of a session that has its number.
  pub close_form :
      (w : World Net Db)
      → (w.id == 0) ≡ false
      → (db : Db) × ((Socks.close e w).1 ≡ record w { db = db; id = 0 })
  unfolding Socks.close
  close_form w numbered = ((e.database.close w.id w.db).1, rw (Socks.close, numbered) refl)

  pub close_over : (w : World Net Db) → w.is_closed ≡ true → (close e w).1 ≡ w
  unfolding close ◌>>=◌ get pure
  close_over w is_over = rw is_over refl

  -- `close` of a session that is open.
  pub close_open_form :
      (w : World Net Db) (ver : Version)
      → w.is_closed ≡ false
      → w.socks ≡ some ver
      → (sessions : ℤ) × ((close e w).1
          ≡ record (Socks.close e (record w {
            is_closed = true;
            net = e.asio.close_server (e.asio.close_client w.net);
          })).1 { sessions = sessions })
  unfolding close close_open close_socks ◌>>=◌ get modify
  close_open_form w ver is_open there =
      let closing : World Net Db = record w {
        is_closed = true;
        net = e.asio.close_server (e.asio.close_client w.net);
      } in
      (pred_ℤ (Socks.close e closing).1.sessions, rw (close, is_open, close_open, there) refl)

  -- What a write leaves, with and without an error.
  pub write_form :
      (socket : Bytes → Net → ErrorCode × Net) (buffer : Bytes) (n : ℕ) (is_server : Bool)
      (w : World Net Db)
      → (w.id == 0) ≡ false
      → failed (socket (take n buffer) w.net).0 ≡ false
      → (db : Db) × ((write_to_socket e socket buffer n is_server w).1
          ≡ record w { net = (socket (take n buffer) w.net).1; db = db })
  unfolding write_to_socket Socks.write_stat
  write_form socket buffer n is_server w numbered sent = (
    (e.database.update w.id n (dest_of is_server) w.db).1,
    rw (write_to_socket, sent, Socks.write_stat, numbered) refl,
  )

  pub write_failed :
      (socket : Bytes → Net → ErrorCode × Net) (buffer : Bytes) (n : ℕ) (is_server : Bool)
      (w : World Net Db)
      → failed (socket (take n buffer) w.net).0 ≡ true
      → (write_to_socket e socket buffer n is_server w).1
        ≡ record w { net = (socket (take n buffer) w.net).1 }
  unfolding write_to_socket
  write_failed socket buffer n is_server w bad = rw (write_to_socket, bad) refl
