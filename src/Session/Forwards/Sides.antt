-- ===== src/Session/Forwards/Sides.antt =====
-- What one call of the relay does to its two sockets.
use mathlib.Core.List.{append_assoc, append-nil}
use socks5_proxy_sum_2022_co.Prelude.{
  ℕ, ◌+◌, ◌≡◌, ◌⊎◌, inl, inr, refl, sym, ap, ◌∙◌, Bool, true, false, ◌||◌, [], ◌++◌, Bytes, take,
  drop, take-append-drop, arith,
}
use socks5_proxy_sum_2022_co.Asio.{ErrorCode}
use socks5_proxy_sum_2022_co.Session.Events.{
  Event, client_done, server_done, destroyed, client_reads, server_reads,
}
use socks5_proxy_sum_2022_co.Session.Forwards.{Sockets, Brought, bring, is_last, Relayed}

or_left : (a b : Bool) → a ≡ true → (a || b) ≡ true
or_left a b h = ground arith

module _ {start : Sockets} {b : Brought} {now : Sockets} (h : Relayed start b now) where
  while_open :
      now.is_shut ≡ false
      → (h.left_client ≡ [])
        × (h.left_server ≡ [])
        × (now.asked_client ≡ start.asked_client + b.client_wants)
        × (now.asked_server ≡ start.asked_server + b.server_wants)
        × (b.is_over ≡ false)
  while_open opened = elim h.state [
    | inl (_, left, right, asked, other, on) ↦ (left, right, asked, other, on)
    | inr (shut, _) ↦ absurd (cc (opened, shut))
  ]

  once_shut : now.is_shut ≡ true → (now.is_broken ≡ true) ⊎ (b.is_over ≡ true)
  once_shut shut = elim h.state [
    | inl (opened, _, _, _, _, _) ↦ absurd (cc (opened, shut))
    | inr (_, why) ↦ why
  ]

  -- Once the sockets are closed nothing reaches them, whatever reads complete or are asked for.
  pub after_close :
      (ev : Event) (asked_client asked_server : ℕ)
      → now.is_shut ≡ true
      → Relayed start
          (bring ev b)
          (record now { asked_client = asked_client; asked_server = asked_server })
  after_close (client_done ec chunk) x y shut = record {
    left_client = h.left_client ++ chunk;
    left_server = h.left_server;
    client_bytes =
        sym (append_assoc start.to_server b.from_client chunk)
        ∙ ap (λ (z : Bytes). z ++ chunk) h.client_bytes
        ∙ append_assoc now.to_server h.left_client chunk;
    server_bytes = h.server_bytes;
    state = inr (
      shut,
      elim (once_shut shut) [
        | inl broke ↦ inl broke
        | inr over ↦ inr (or_left b.is_over (is_last ec chunk) over)
      ],
    );
  }
  after_close (server_done ec chunk) x y shut = record {
    left_client = h.left_client;
    left_server = h.left_server ++ chunk;
    client_bytes = h.client_bytes;
    server_bytes =
        sym (append_assoc start.to_client b.from_server chunk)
        ∙ ap (λ (z : Bytes). z ++ chunk) h.server_bytes
        ∙ append_assoc now.to_client h.left_server chunk;
    state = inr (
      shut,
      elim (once_shut shut) [
        | inl broke ↦ inl broke
        | inr over ↦ inr (or_left b.is_over (is_last ec chunk) over)
      ],
    );
  }
  after_close destroyed x y shut = record {
    left_client = h.left_client;
    left_server = h.left_server;
    client_bytes = h.client_bytes;
    server_bytes = h.server_bytes;
    state = inr (shut, inr refl);
  }
  after_close ev x y shut = record {
    left_client = h.left_client;
    left_server = h.left_server;
    client_bytes = h.client_bytes;
    server_bytes = h.server_bytes;
    state = inr (shut, once_shut shut);
  }

  -- One of the events of a relay whose sockets are open.
  module _ (opened : now.is_shut ≡ false) where
    pub forwards_client :
        (ec : ErrorCode) (chunk : Bytes)
        → is_last ec chunk ≡ false
        → Relayed start
            (bring (client_done ec chunk) b)
            (record now { to_server = now.to_server ++ chunk; asked_client = now.asked_client + 1 })
    forwards_client ec chunk goes =
        let (none_left, none_right, asked, other, on) = while_open opened in
        record {
          left_client = [];
          left_server = h.left_server;
          client_bytes =
              sym (append_assoc start.to_server b.from_client chunk)
              ∙ ap (λ (z : Bytes). z ++ chunk) (h.client_bytes ∙ rw (none_left, append-nil) refl)
              ∙ sym (append-nil (now.to_server ++ chunk));
          server_bytes = h.server_bytes;
          state = inl (opened, refl, none_right, omega (arith, asked), other, rw (on, goes) refl);
        }

    pub stops_client :
        (ec : ErrorCode) (chunk : Bytes) (k : ℕ) (broken : Bool)
        → (broken ≡ true) ⊎ (is_last ec chunk ≡ true)
        → Relayed start (bring (client_done ec chunk) b) (record now {
          to_server = now.to_server ++ take k chunk;
          is_shut = true;
          is_broken = broken;
        })
    stops_client ec chunk k broken why =
        let (none_left, none_right, asked, other, on) = while_open opened in
        record {
          left_client = drop k chunk;
          left_server = h.left_server;
          client_bytes =
              sym (append_assoc start.to_server b.from_client chunk)
              ∙ ap (λ (z : Bytes). z ++ chunk) (h.client_bytes ∙ rw (none_left, append-nil) refl)
              ∙ ap (λ (z : Bytes). now.to_server ++ z) (sym (take-append-drop k chunk))
              ∙ sym (append_assoc now.to_server (take k chunk) (drop k chunk));
          server_bytes = h.server_bytes;
          state =
              inr (refl, elim why [ inl broke ↦ inl broke | inr last ↦ inr (rw (on, last) refl) ]);
        }

    pub forwards_server :
        (ec : ErrorCode) (chunk : Bytes)
        → is_last ec chunk ≡ false
        → Relayed start
            (bring (server_done ec chunk) b)
            (record now { to_client = now.to_client ++ chunk; asked_server = now.asked_server + 1 })
    forwards_server ec chunk goes =
        let (none_left, none_right, asked, other, on) = while_open opened in
        record {
          left_client = h.left_client;
          left_server = [];
          client_bytes = h.client_bytes;
          server_bytes =
              sym (append_assoc start.to_client b.from_server chunk)
              ∙ ap (λ (z : Bytes). z ++ chunk) (h.server_bytes ∙ rw (none_right, append-nil) refl)
              ∙ sym (append-nil (now.to_client ++ chunk));
          state = inl (opened, none_left, refl, asked, omega (arith, other), rw (on, goes) refl);
        }

    pub stops_server :
        (ec : ErrorCode) (chunk : Bytes) (k : ℕ) (broken : Bool)
        → (broken ≡ true) ⊎ (is_last ec chunk ≡ true)
        → Relayed start (bring (server_done ec chunk) b) (record now {
          to_client = now.to_client ++ take k chunk;
          is_shut = true;
          is_broken = broken;
        })
    stops_server ec chunk k broken why =
        let (none_left, none_right, asked, other, on) = while_open opened in
        record {
          left_client = h.left_client;
          left_server = drop k chunk;
          client_bytes = h.client_bytes;
          server_bytes =
              sym (append_assoc start.to_client b.from_server chunk)
              ∙ ap (λ (z : Bytes). z ++ chunk) (h.server_bytes ∙ rw (none_right, append-nil) refl)
              ∙ ap (λ (z : Bytes). now.to_client ++ z) (sym (take-append-drop k chunk))
              ∙ sym (append_assoc now.to_client (take k chunk) (drop k chunk));
          state =
              inr (refl, elim why [ inl broke ↦ inl broke | inr last ↦ inr (rw (on, last) refl) ]);
        }

    pub ends_open : Relayed start (bring destroyed b) (record now { is_shut = true })
    ends_open = record {
      left_client = h.left_client;
      left_server = h.left_server;
      client_bytes = h.client_bytes;
      server_bytes = h.server_bytes;
      state = inr (refl, inr refl);
    }

    pub asks_client :
        Relayed start (bring client_reads b) (record now { asked_client = now.asked_client + 1 })
    asks_client =
        let (none_left, none_right, asked, other, on) = while_open opened in
        record {
          left_client = h.left_client;
          left_server = h.left_server;
          client_bytes = h.client_bytes;
          server_bytes = h.server_bytes;
          state = inl (opened, none_left, none_right, omega (arith, asked), other, on);
        }

    pub asks_server :
        Relayed start (bring server_reads b) (record now { asked_server = now.asked_server + 1 })
    asks_server =
        let (none_left, none_right, asked, other, on) = while_open opened in
        record {
          left_client = h.left_client;
          left_server = h.left_server;
          client_bytes = h.client_bytes;
          server_bytes = h.server_bytes;
          state = inl (opened, none_left, none_right, asked, omega (arith, other), on);
        }
