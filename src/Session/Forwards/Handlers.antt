-- ===== src/Session/Forwards/Handlers.antt =====
-- The two handlers of src/session.cpp on a pair of sockets.
use mathlib.Core.Path.{subst}
use mathlib.Core.List.{append-nil}
use socks5_proxy_sum_2022_co.Prelude.{
  ◌+◌, ◌≡◌, inl, inr, refl, sym, ap, ◌∙◌, true, false, [], ◌++◌, Bytes, length, take, Bool-cases,
}
use socks5_proxy_sum_2022_co.Asio.{ErrorCode}
use socks5_proxy_sum_2022_co.World.{Env, World}
use socks5_proxy_sum_2022_co.Session.Start.{client_read, server_read}
use socks5_proxy_sum_2022_co.Session.Relay.{close, client_handle, server_handle}
use socks5_proxy_sum_2022_co.Session.Events.{client_done, server_done}
use socks5_proxy_sum_2022_co.Session.Forwards.{Sockets, IsPair, Brought, bring, is_last, Relayed}
use socks5_proxy_sum_2022_co.Session.Forwards.Sides.{
  forwards_client, stops_client, forwards_server, stops_server,
}
use socks5_proxy_sum_2022_co.Session.Forwards.Calls.{
  view, At, write_stat-net, client_read-view, server_read-view, write_fails, write_succeeds,
  client_handle-close, server_handle-close, client_handle-write, server_handle-write, shut_close-At,
  open_close-At,
}

module _ {Net Db : Type 0} (e : Env Net Db) (pair : IsPair e.asio) where
  client_ends-At :
      {start : Sockets} (b : Brought) (ec : ErrorCode) (chunk : Bytes) (w : World Net Db)
      → At e pair start b w
      → is_last ec chunk ≡ true
      → At e pair start (bring (client_done ec chunk) b) (close e w).1
  client_ends-At b ec chunk w (h, same) last = elim (Bool-cases (view e pair w).is_shut) [
    | inl shut ↦ shut_close-At e pair b (client_done ec chunk) w w (h, same) shut refl refl
    | inr opened ↦
        let none_given : view e pair w
            ≡ record (view e pair w) { to_server = (view e pair w).to_server ++ [] } =
          ap (λ (x : Bytes). record (view e pair w) { to_server = x })
            (sym (append-nil (view e pair w).to_server)) in
        open_close-At e pair _ _ w
          (stops_client h opened ec chunk 0 (view e pair w).is_broken (inr last)) same none_given
  ]

  client_written-At :
      {start : Sockets} (b : Brought) (ec : ErrorCode) (chunk : Bytes) (w v : World Net Db)
      → At e pair start b w
      → is_last ec chunk ≡ false
      → (view e pair w).is_shut ≡ false
      → v.is_closed ≡ w.is_closed
      → view e pair v ≡ record (view e pair w) { to_server = (view e pair w).to_server ++ chunk }
      → At e pair start (bring (client_done ec chunk) b) (client_read e v).1
  client_written-At {start} b ec chunk w v (h, same) goes opened flag given =
      let still : (view e pair v).is_shut ≡ false =
        ap (λ (x : Sockets). x.is_shut) given ∙ opened in
      let (kept, read) = client_read-view e pair v still in
      let now = read ∙ ap (λ (x : Sockets). record x { asked_client = x.asked_client + 1 }) given in
      (
        subst (Relayed start _) (sym now) (forwards_client h opened ec chunk goes),
        kept ∙ flag ∙ same ∙ sym (ap (λ (x : Sockets). x.is_shut) now),
      )

  pub client_handle-At :
      {start : Sockets} (b : Brought) (ec : ErrorCode) (chunk : Bytes) (w : World Net Db)
      → At e pair start b w
      → take (length chunk) w.client_buf ≡ chunk
      → At e pair start (bring (client_done ec chunk) b) (client_handle e ec (length chunk) w).1
  client_handle-At b ec chunk w (h, same) held = elim (Bool-cases (is_last ec chunk)) [
    | inl last ↦
        rw (client_handle-close e pair ec chunk w last) (client_ends-At b ec chunk w (h, same) last)
    | inr goes ↦
        let m = (e.asio.write_server chunk w.net).1 in
        let n = length chunk in
        let left : World Net Db = record w { net = m } in
        elim (pair.write_server chunk w.net) [
          | inl (good, opened, given) ↦
              let (net, flag) = write_stat-net e pair n true left in
              rw
                (client_handle-write e pair ec chunk w _ true goes
                  (write_succeeds e pair e.asio.write_server w.client_buf chunk n true w held good))
                (client_written-At b ec chunk w _ (h, same) goes opened flag
                  (ap pair.view net ∙ given))
          | inr (bad, inl (opened, k, given)) ↦
              rw
                (client_handle-write e pair ec chunk w _ false goes
                  (write_fails e pair e.asio.write_server w.client_buf chunk n true w held bad))
                (open_close-At e pair _ _ left (stops_client h opened ec chunk k true (inl refl))
                  (same ∙ sym (ap (λ (x : Sockets). x.is_shut) given)) given)
          | inr (bad, inr (shut, given)) ↦
              rw
                (client_handle-write e pair ec chunk w _ false goes
                  (write_fails e pair e.asio.write_server w.client_buf chunk n true w held bad))
                (shut_close-At e pair b (client_done ec chunk) w left (h, same) shut given refl)
        ]
  ]

  server_ends-At :
      {start : Sockets} (b : Brought) (ec : ErrorCode) (chunk : Bytes) (w : World Net Db)
      → At e pair start b w
      → is_last ec chunk ≡ true
      → At e pair start (bring (server_done ec chunk) b) (close e w).1
  server_ends-At b ec chunk w (h, same) last = elim (Bool-cases (view e pair w).is_shut) [
    | inl shut ↦ shut_close-At e pair b (server_done ec chunk) w w (h, same) shut refl refl
    | inr opened ↦
        let none_given : view e pair w
            ≡ record (view e pair w) { to_client = (view e pair w).to_client ++ [] } =
          ap (λ (x : Bytes). record (view e pair w) { to_client = x })
            (sym (append-nil (view e pair w).to_client)) in
        open_close-At e pair _ _ w
          (stops_server h opened ec chunk 0 (view e pair w).is_broken (inr last)) same none_given
  ]

  server_written-At :
      {start : Sockets} (b : Brought) (ec : ErrorCode) (chunk : Bytes) (w v : World Net Db)
      → At e pair start b w
      → is_last ec chunk ≡ false
      → (view e pair w).is_shut ≡ false
      → v.is_closed ≡ w.is_closed
      → view e pair v ≡ record (view e pair w) { to_client = (view e pair w).to_client ++ chunk }
      → At e pair start (bring (server_done ec chunk) b) (server_read e v).1
  server_written-At {start} b ec chunk w v (h, same) goes opened flag given =
      let still : (view e pair v).is_shut ≡ false =
        ap (λ (x : Sockets). x.is_shut) given ∙ opened in
      let (kept, read) = server_read-view e pair v still in
      let now = read ∙ ap (λ (x : Sockets). record x { asked_server = x.asked_server + 1 }) given in
      (
        subst (Relayed start _) (sym now) (forwards_server h opened ec chunk goes),
        kept ∙ flag ∙ same ∙ sym (ap (λ (x : Sockets). x.is_shut) now),
      )

  pub server_handle-At :
      {start : Sockets} (b : Brought) (ec : ErrorCode) (chunk : Bytes) (w : World Net Db)
      → At e pair start b w
      → take (length chunk) w.server_buf ≡ chunk
      → At e pair start (bring (server_done ec chunk) b) (server_handle e ec (length chunk) w).1
  server_handle-At b ec chunk w (h, same) held = elim (Bool-cases (is_last ec chunk)) [
    | inl last ↦
        rw (server_handle-close e pair ec chunk w last) (server_ends-At b ec chunk w (h, same) last)
    | inr goes ↦
        let m = (e.asio.write chunk w.net).1 in
        let n = length chunk in
        let left : World Net Db = record w { net = m } in
        elim (pair.write chunk w.net) [
          | inl (good, opened, given) ↦
              let (net, flag) = write_stat-net e pair n false left in
              rw
                (server_handle-write e pair ec chunk w _ true goes
                  (write_succeeds e pair e.asio.write w.server_buf chunk n false w held good))
                (server_written-At b ec chunk w _ (h, same) goes opened flag
                  (ap pair.view net ∙ given))
          | inr (bad, inl (opened, k, given)) ↦
              rw
                (server_handle-write e pair ec chunk w _ false goes
                  (write_fails e pair e.asio.write w.server_buf chunk n false w held bad))
                (open_close-At e pair _ _ left (stops_server h opened ec chunk k true (inl refl))
                  (same ∙ sym (ap (λ (x : Sockets). x.is_shut) given)) given)
          | inr (bad, inr (shut, given)) ↦
              rw
                (server_handle-write e pair ec chunk w _ false goes
                  (write_fails e pair e.asio.write w.server_buf chunk n false w held bad))
                (shut_close-At e pair b (server_done ec chunk) w left (h, same) shut given refl)
        ]
  ]
