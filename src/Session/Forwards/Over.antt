-- ===== src/Session/Forwards/Over.antt =====
-- The relay of src/session.cpp on a pair of sockets, over any events.
use mathlib.Core.Path.{subst}
use socks5_proxy_sum_2022_co.Prelude.{
  ℕ, ◌≡◌, inl, inr, refl, sym, ap, ◌∙◌, false, List, [], ◌∷◌, take_append_length, arith, Bool-cases,
}
use socks5_proxy_sum_2022_co.World.{Env, World}
use socks5_proxy_sum_2022_co.Session.Start.{client_read, server_read}
use socks5_proxy_sum_2022_co.Session.Events.{
  Event, client_done, server_done, destroyed, client_reads, server_reads, fill, handle, handle_all,
}
use socks5_proxy_sum_2022_co.Session.Forwards.{
  Sockets, IsPair, Brought, bring, bring_all, nothing, Relayed,
}
use socks5_proxy_sum_2022_co.Session.Forwards.Sides.{
  after_close, ends_open, asks_client, asks_server,
}
use socks5_proxy_sum_2022_co.Session.Forwards.Calls.{
  view, At, client_read-view, server_read-view, shut_close-At, open_close-At,
}
use socks5_proxy_sum_2022_co.Session.Forwards.Handlers.{client_handle-At, server_handle-At}

module _ {Net Db : Type 0} (e : Env Net Db) (pair : IsPair e.asio) where
  client_read-asked :
      (w : World Net Db)
      → (a : ℕ) × (view e pair (client_read e w).1 ≡ record (view e pair w) { asked_client = a })
        × ((client_read e w).1.is_closed ≡ w.is_closed)
  unfolding client_read
  client_read-asked w = elim (Bool-cases (e.asio.client_is_open w.net)) [
    | inl opened ↦ rw opened (_, pair.reads_client w.net, refl)
    | inr closed ↦ rw closed ((view e pair w).asked_client, refl, refl)
  ]

  client_reads-At :
      {start : Sockets} (b : Brought) (w : World Net Db)
      → At e pair start b w
      → At e pair start (bring client_reads b) (client_read e w).1
  client_reads-At {start} b w (h, same) = elim (Bool-cases (view e pair w).is_shut) [
    | inl shut ↦
        let (a, now, kept) = client_read-asked w in
        (
          subst (Relayed start (bring client_reads b)) (sym now)
              (after_close h client_reads a (view e pair w).asked_server shut),
          kept ∙ same ∙ sym (ap (λ (x : Sockets). x.is_shut) now),
        )
    | inr opened ↦
        let (kept, now) = client_read-view e pair w opened in
        (
          subst (Relayed start (bring client_reads b)) (sym now) (asks_client h opened),
          kept ∙ same ∙ sym (ap (λ (x : Sockets). x.is_shut) now),
        )
  ]

  server_read-asked :
      (w : World Net Db)
      → (a : ℕ) × (view e pair (server_read e w).1 ≡ record (view e pair w) { asked_server = a })
        × ((server_read e w).1.is_closed ≡ w.is_closed)
  unfolding server_read
  server_read-asked w = elim (Bool-cases (e.asio.server_is_open w.net)) [
    | inl opened ↦ rw opened (_, pair.reads_server w.net, refl)
    | inr closed ↦ rw closed ((view e pair w).asked_server, refl, refl)
  ]

  server_reads-At :
      {start : Sockets} (b : Brought) (w : World Net Db)
      → At e pair start b w
      → At e pair start (bring server_reads b) (server_read e w).1
  server_reads-At {start} b w (h, same) = elim (Bool-cases (view e pair w).is_shut) [
    | inl shut ↦
        let (a, now, kept) = server_read-asked w in
        (
          subst (Relayed start (bring server_reads b)) (sym now)
              (after_close h server_reads (view e pair w).asked_client a shut),
          kept ∙ same ∙ sym (ap (λ (x : Sockets). x.is_shut) now),
        )
    | inr opened ↦
        let (kept, now) = server_read-view e pair w opened in
        (
          subst (Relayed start (bring server_reads b)) (sym now) (asks_server h opened),
          kept ∙ same ∙ sym (ap (λ (x : Sockets). x.is_shut) now),
        )
  ]

  handle-At :
      {start : Sockets} (b : Brought) (ev : Event) (w : World Net Db)
      → At e pair start b w
      → At e pair start (bring ev b) (handle e ev w)
  unfolding handle
  handle-At b (client_done ec chunk) w (h, same) =
      client_handle-At e pair b ec chunk (record w { client_buf = fill chunk w.client_buf })
        (h, same) (take_append_length chunk _)
  handle-At b (server_done ec chunk) w (h, same) =
      server_handle-At e pair b ec chunk (record w { server_buf = fill chunk w.server_buf })
        (h, same) (take_append_length chunk _)
  handle-At b destroyed w (h, same) = elim (Bool-cases (view e pair w).is_shut) [
    | inl shut ↦ shut_close-At e pair b destroyed w w (h, same) shut refl refl
    | inr opened ↦ open_close-At e pair _ _ w (ends_open h opened) same refl
  ]
  handle-At b client_reads w at = client_reads-At b w at
  handle-At b server_reads w at = server_reads-At b w at

  handle_all-At :
      {start : Sockets} (evs : List Event) (b : Brought) (w : World Net Db)
      → At e pair start b w
      → At e pair start (bring_all evs b) (handle_all e evs w)
  unfolding handle_all
  handle_all-At [] b w at = at
  handle_all-At (ev ∷ evs) b w at =
      handle_all-At evs (bring ev b) (handle e ev w) (handle-At b ev w at)

  -- From an open session on, whenever the first reads are asked for, whatever reads complete in
  -- whatever order and with whatever errors, and whichever writes fail: each side has been given the
  -- other side's bytes in their order, up to some last ones. While the session is open none is left
  -- out, every completed read has been followed by the next, and no read had an error or no bytes; and
  -- the session is closed only for such a read, for its destruction, or for a write that failed.
  pub relay_forwards :
      (w : World Net Db) (evs : List Event)
      → w.is_closed ≡ false
      → (pair.view w.net).is_shut ≡ false
      → Relayed (pair.view w.net) (bring_all evs nothing) (pair.view (handle_all e evs w).net)
        × ((handle_all e evs w).is_closed ≡ (pair.view (handle_all e evs w).net).is_shut)
  relay_forwards w evs opened up = handle_all-At evs nothing w (
    record {
      left_client = [];
      left_server = [];
      client_bytes = refl;
      server_bytes = refl;
      state = inl (up, refl, refl, omega arith, omega arith, refl);
    },
    opened ∙ sym up,
  )
