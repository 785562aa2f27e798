-- ===== src/Session/Forwards/Calls.antt =====
-- What each of the relay's methods of src/session.cpp does to a pair of sockets.
use mathlib.Core.Path.{subst}
use socks5_proxy_sum_2022_co.Prelude.{
  ℕ, ◌+◌, ◌≡◌, refl, sym, ap, ◌∙◌, Bool, true, false, [], ◌∷◌, Option, none, some, Bytes, length,
  take, ltb, arith, if◌then◌else◌,
}
use socks5_proxy_sum_2022_co.Asio.{ErrorCode, failed}
use socks5_proxy_sum_2022_co.World.{Env, World, Version, pure, get, modify, ◌>>=◌}
use socks5_proxy_sum_2022_co.Socks
use socks5_proxy_sum_2022_co.Session.Start.{client_read, server_read}
use socks5_proxy_sum_2022_co.Session.Relay.{
  close_socks, close_open, close, write_to_socket, client_handle, server_handle,
}
use socks5_proxy_sum_2022_co.Session.Events.{Event}
use socks5_proxy_sum_2022_co.Session.Forwards.{Sockets, IsPair, Brought, bring, is_last, Relayed}
use socks5_proxy_sum_2022_co.Session.Forwards.Sides.{after_close}

module _ {Net Db : Type 0} (e : Env Net Db) (pair : IsPair e.asio) where
  abbrev pub view : World Net Db → Sockets
  view w = pair.view w.net

  close_socks-net :
      (o : Option Version) (v : World Net Db)
      → ((close_socks e o v).1.net ≡ v.net) × ((close_socks e o v).1.is_closed ≡ v.is_closed)
  unfolding close_socks Socks.close pure
  close_socks-net none v = (refl, refl)
  close_socks-net (some x) v = ground arith

  pub write_stat-net :
      (n : ℕ) (b : Bool) (v : World Net Db)
      → ((Socks.write_stat e n b v).1.net ≡ v.net)
        × ((Socks.write_stat e n b v).1.is_closed ≡ v.is_closed)
  unfolding Socks.write_stat
  write_stat-net n b v = ground arith

  -- A session whose flag says whether its sockets are closed.
  abbrev pub Agrees : World Net Db → Type 0
  Agrees w = w.is_closed ≡ (view w).is_shut

  abbrev Closes : Sockets → World Net Db → Type 0
  Closes now w = (w.is_closed ≡ true) × (view w ≡ record now { is_shut = true })

  close_open-Closes : (w : World Net Db) → Closes (view w) (close_open e w).1
  unfolding close_open ◌>>=◌ get modify
  close_open-Closes w =
      let closed : World Net Db = record w {
        is_closed = true;
        net = e.asio.close_server (e.asio.close_client w.net);
      } in
      let (net, flag) = close_socks-net w.socks closed in
      (flag, ap pair.view net ∙ pair.closes w.net)

  close_if-Closes :
      (b : Bool) (w : World Net Db)
      → Agrees w
      → w.is_closed ≡ b
      → Closes (view w) ((if b then pure tt else close_open e) w).1
  unfolding pure
  close_if-Closes true w same closed =
      (closed, ap (λ (x : Bool). record (view w) { is_shut = x }) (sym same ∙ closed))
  close_if-Closes false w same opened = close_open-Closes w

  close-Closes : (w : World Net Db) → Agrees w → Closes (view w) (close e w).1
  unfolding close ◌>>=◌ get
  close-Closes w same = close_if-Closes w.is_closed w same refl

  pub client_read-view :
      (w : World Net Db)
      → (view w).is_shut ≡ false
      → ((client_read e w).1.is_closed ≡ w.is_closed)
        × (view (client_read e w).1 ≡ record (view w) { asked_client = (view w).asked_client + 1 })
  unfolding client_read
  client_read-view w opened = rw (pair.client_is_open w.net opened) (refl, pair.reads_client w.net)

  pub server_read-view :
      (w : World Net Db)
      → (view w).is_shut ≡ false
      → ((server_read e w).1.is_closed ≡ w.is_closed)
        × (view (server_read e w).1 ≡ record (view w) { asked_server = (view w).asked_server + 1 })
  unfolding server_read
  server_read-view w opened = rw (pair.server_is_open w.net opened) (refl, pair.reads_server w.net)

  pub write_fails :
      (socket : Bytes → Net → ErrorCode × Net) (buffer chunk : Bytes) (n : ℕ) (b : Bool)
      (w : World Net Db)
      → take n buffer ≡ chunk
      → failed (socket chunk w.net).0 ≡ true
      → write_to_socket e socket buffer n b w ≡ (false, record w { net = (socket chunk w.net).1 })
  unfolding write_to_socket
  write_fails socket buffer chunk n b w same bad = rw same (rw bad refl)

  pub write_succeeds :
      (socket : Bytes → Net → ErrorCode × Net) (buffer chunk : Bytes) (n : ℕ) (b : Bool)
      (w : World Net Db)
      → take n buffer ≡ chunk
      → failed (socket chunk w.net).0 ≡ false
      → write_to_socket e socket buffer n b w
        ≡ (true, (Socks.write_stat e n b (record w { net = (socket chunk w.net).1 })).1)
  unfolding write_to_socket
  write_succeeds socket buffer chunk n b w same good = rw same (rw good refl)

  pub client_handle-close :
      (ec : ErrorCode) (chunk : Bytes) (w : World Net Db)
      → is_last ec chunk ≡ true
      → client_handle e ec (length chunk) w ≡ close e w
  unfolding client_handle ◌>>=◌ get pure
  client_handle-close ErrorCode.success [] w last = refl
  client_handle-close ErrorCode.success (c ∷ cs) w last = cc
  client_handle-close ec chunk w last = refl

  pub server_handle-close :
      (ec : ErrorCode) (chunk : Bytes) (w : World Net Db)
      → is_last ec chunk ≡ true
      → server_handle e ec (length chunk) w ≡ close e w
  unfolding server_handle ◌>>=◌ get pure
  server_handle-close ErrorCode.success [] w last = refl
  server_handle-close ErrorCode.success (c ∷ cs) w last = cc
  server_handle-close ec chunk w last = refl

  pub client_handle-write :
      (ec : ErrorCode) (chunk : Bytes) (w v : World Net Db) (sent : Bool)
      → is_last ec chunk ≡ false
      → write_to_socket e e.asio.write_server w.client_buf (length chunk) true w ≡ (sent, v)
      → client_handle e ec (length chunk) w ≡ (if sent then client_read e else close e) v
  unfolding client_handle ◌>>=◌ get
  client_handle-write ErrorCode.success (c ∷ cs) w v sent goes ran =
      let some_bytes : ltb 0 (length (c ∷ cs)) ≡ true = ground arith in rw some_bytes (rw ran refl)
  client_handle-write ErrorCode.success [] w v sent goes ran = cc
  client_handle-write ec chunk w v sent goes ran = cc

  pub server_handle-write :
      (ec : ErrorCode) (chunk : Bytes) (w v : World Net Db) (sent : Bool)
      → is_last ec chunk ≡ false
      → write_to_socket e e.asio.write w.server_buf (length chunk) false w ≡ (sent, v)
      → server_handle e ec (length chunk) w ≡ (if sent then server_read e else close e) v
  unfolding server_handle ◌>>=◌ get
  server_handle-write ErrorCode.success (c ∷ cs) w v sent goes ran =
      let some_bytes : ltb 0 (length (c ∷ cs)) ≡ true = ground arith in rw some_bytes (rw ran refl)
  server_handle-write ErrorCode.success [] w v sent goes ran = cc
  server_handle-write ec chunk w v sent goes ran = cc

  -- The sockets of a session stand as events since `start` have left them, and its flag says so.
  abbrev pub At : Sockets → Brought → World Net Db → Type 0
  At start b w = Relayed start b (view w) × Agrees w

  pub shut_close-At :
      {start : Sockets} (b : Brought) (ev : Event) (w v : World Net Db)
      → At start b w
      → (view w).is_shut ≡ true
      → view v ≡ view w
      → v.is_closed ≡ w.is_closed
      → At start (bring ev b) (close e v).1
  shut_close-At {start} b ev w v (h, same) shut kept flag =
      let agrees : Agrees v = flag ∙ same ∙ ap (λ (x : Sockets). x.is_shut) (sym kept) in
      let (closed, now) = close-Closes v agrees in
      let still : view (close e v).1 ≡ view w =
        now
        ∙ ap (λ (x : Sockets). record x { is_shut = true }) kept
        ∙ ap (λ (x : Bool). record (view w) { is_shut = x }) (sym shut) in
      (
        subst (Relayed start (bring ev b)) (sym still)
            (after_close h ev (view w).asked_client (view w).asked_server shut),
        closed ∙ sym (ap (λ (x : Sockets). x.is_shut) now),
      )

  pub open_close-At :
      {start : Sockets} (b : Brought) (now : Sockets) (v : World Net Db)
      → Relayed start b (record now { is_shut = true })
      → Agrees v
      → view v ≡ now
      → At start b (close e v).1
  open_close-At {start} b now v h agrees is_now =
      let (closed, after) = close-Closes v agrees in
      (
        subst (Relayed start b)
            (sym (after ∙ ap (λ (x : Sockets). record x { is_shut = true }) is_now)) h,
        closed ∙ sym (ap (λ (x : Sockets). x.is_shut) after),
      )
