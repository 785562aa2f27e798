-- ===== src/Session/Stream.antt =====
-- The reads and writes of src/session.cpp on a connection that delivers bytes in order.
use socks5_proxy_sum_2022_co.Prelude.{
  ℕ, ◌≡◌, refl, sym, ap, ◌∙◌, true, [], ◌∷◌, ◌++◌, Bytes, length,
}
use socks5_proxy_sum_2022_co.Asio.{Asio, IsStream, success}
use socks5_proxy_sum_2022_co.World.{Env, World, modify}
use socks5_proxy_sum_2022_co.World.Triple.{Pred, Triple}
use socks5_proxy_sum_2022_co.Session.Io.{read_byte, read_bytes, write_bytes}

-- The state is `w₀` but for the network, on which `ins` is still to come from the client, which has
-- been sent `outs` and takes more.
pub record Stands {Net Db : Type 0} {a : Asio Net} (s : IsStream a) (w₀ : World Net Db)
    (ins outs : Bytes) (w : World Net Db) : Type 0 where
  pub same : w ≡ record w₀ { net = w.net }
  pub coming : s.incoming w.net ≡ ins
  pub sent : s.outgoing w.net ≡ outs
  pub up : s.is_up w.net ≡ true

module _ {Net Db : Type 0} (e : Env Net Db) (s : IsStream e.asio) (w₀ : World Net Db) where
  abbrev pub Result : {A : Type 0} → A → Bytes → Bytes → A → Pred Net Db
  Result a ins outs r w = (r ≡ a) × Stands s w₀ ins outs w

  pub read_bytes-Stands :
      (xs ins outs : Bytes)
      → Triple
          (Stands s w₀ (xs ++ ins) outs)
          (read_bytes e (length xs))
          (Result (success, xs) ins outs)
  unfolding read_bytes
  read_bytes-Stands xs ins outs = record {
    at = λ w h.
        let (m, ok, coming, sent, up) = s.read_ok w.net xs ins h.coming in
        rw ok (
          refl,
          record {
            same = ap (λ (v : World Net Db). record v { net = m }) h.same;
            coming = coming;
            sent = sent ∙ h.sent;
            up = up ∙ h.up;
          },
        );
  }

  pub read_byte-Stands :
      (b : ℕ) (ins outs : Bytes)
      → Triple (Stands s w₀ (b ∷ ins) outs) (read_byte e) (Result (success, b) ins outs)
  unfolding read_byte
  read_byte-Stands b ins outs = record {
    at = λ w h.
        let (m, ok, coming, sent, up) = s.read_ok w.net (b ∷ []) ins h.coming in
        rw ok (
          refl,
          record {
            same = ap (λ (v : World Net Db). record v { net = m }) h.same;
            coming = coming;
            sent = sent ∙ h.sent;
            up = up ∙ h.up;
          },
        );
  }

  pub write_bytes-Stands :
      (bs ins outs : Bytes)
      → Triple (Stands s w₀ ins outs) (write_bytes e bs) (Result success ins (outs ++ bs))
  unfolding write_bytes
  write_bytes-Stands bs ins outs = record {
    at = λ w h.
        let (m, ok, coming, sent, up) = s.write_ok w.net bs h.up in
        rw ok (
          refl,
          record {
            same = ap (λ (v : World Net Db). record v { net = m }) h.same;
            coming = coming ∙ h.coming;
            sent = sent ∙ ap (λ (x : Bytes). x ++ bs) h.sent;
            up = up;
          },
        );
  }

  pub modify-Stands :
      (g : World Net Db → World Net Db) (ins outs : Bytes)
      → ((w : World Net Db) (n : Net) → g (record w { net = n }) ≡ record (g w) { net = n })
      → Triple (Stands s w₀ ins outs) (modify g) (λ r w. (r ≡ tt) × Stands s (g w₀) ins outs w)
  unfolding modify
  modify-Stands g ins outs apart = record {
    at = λ w h.
        let same_net : (g w).net ≡ w.net = ap (λ (v : World Net Db). v.net) (apart w w.net) in
        (
          refl,
          record {
            same =
                ap g h.same
                ∙ apart w₀ w.net
                ∙ ap (λ (n : Net). record (g w₀) { net = n }) (sym same_net);
            coming = ap s.incoming same_net ∙ h.coming;
            sent = ap s.outgoing same_net ∙ h.sent;
            up = ap s.is_up same_net ∙ h.up;
          },
        );
  }
