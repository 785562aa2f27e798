-- ===== src/Statistics/Ends.antt =====
-- What `close` of src/session.cpp leaves of the account of the session's record.
use socks5_proxy_sum_2022_co.Prelude.{
  ℕ, ◌≡◌, ◌<◌, ◌^◌, ◌==◌, refl, ◌∙◌, inl, inr, true, false, not, some, arith, ==_refl,
}
use socks5_proxy_sum_2022_co.World.{pos, Env, World}
use socks5_proxy_sum_2022_co.World.Triple.{Triple, Pred}
use socks5_proxy_sum_2022_co.Socks
use socks5_proxy_sum_2022_co.Session.Relay.{close}
use socks5_proxy_sum_2022_co.Statistics.Account.{
  own_record, other_records, all_records, IsMetered, Account,
}
use socks5_proxy_sum_2022_co.Statistics.Forms.{close_form, close_over, close_open_form}
use socks5_proxy_sum_2022_co.Statistics.Sqlite.{Sqlite}
use socks5_proxy_sum_2022_co.Statistics.Laws.{IsSqlite}
use socks5_proxy_sum_2022_co.Statistics.Available.{IsAvailable}
use socks5_proxy_sum_2022_co.Statistics.Sessions.{served, usages, close_ends}
use socks5_proxy_sum_2022_co.Statistics.Reads.{At-same}

module _ {Net Db Stmt : Type 0} (e : Env Net Db) (meter : IsMetered e.asio) (a : Sqlite Db Stmt)
    (s : IsSqlite a) (v : IsAvailable a s) where
  module _ (id sent₀ recv₀ : ℕ) (start : World Net Db) (positive : 0 < id)
      (small : id < 2 ^ 31) where
    abbrev At : ℕ → Pred Net Db
    At rest = Account meter a s id sent₀ recv₀ start rest

    socks_close-At :
        (rest : ℕ) (w : World Net Db) (net : Net)
        → At rest w
        → w.id ≡ id
        → meter.sent_bytes net ≡ meter.sent_bytes w.net
        → meter.recv_bytes net ≡ meter.recv_bytes w.net
        → meter.is_shut net ≡ true
        → At rest (Socks.close (served a e) (record w { is_closed = true; net = net })).1
    socks_close-At rest w net h number sent recv shut =
        let closing : World Net Db = record w { is_closed = true; net = net } in
        let numbered : (w.id == 0) ≡ false = ground arith in
        let (db, form) = close_form (served a e) closing numbered in
        let old : usages a s closing closing.id
            ≡ some (record { sent = pos h.sent; recv = pos h.recv; is_open = not w.is_closed }) =
          rw number (own_record meter a s h) in
        let (gone, ends) =
          close_ends e a s v closing _ old (omega (arith, number)) (omega (arith, number)) in
        let ends' = rw form at ends in
        rw form (record {
          sent = h.sent;
          recv = h.recv;
          records =
              all_records _ _ id _
                (ends' id ∙ rw (number, ==_refl id, (own_record meter a s h)) refl)
                (λ k other. ends' k ∙ rw (number, other) (other_records meter a s h k other));
          sent_is = rw sent h.sent_is;
          recv_is = rw recv h.recv_is;
          sent_fits = h.sent_fits;
          recv_fits = h.recv_fits;
          phase = inr (refl, refl, shut);
        })

    pub close-At : (rest : ℕ) → Triple (At rest) (close (served a e)) (λ _. At rest)
    close-At rest = record {
      at = λ w h. elim h.phase [
        | inl (is_open, number, (ver, there)) ↦
            let (sessions, form) = close_open_form (served a e) w ver is_open there in
            let net = e.asio.close_server (e.asio.close_client w.net) in
            let closed =
              socks_close-At rest w net h number ((meter.keeps_sent w.net).2)
                ((meter.keeps_recv w.net).2) (meter.shuts w.net) in
            rw form (
              At-same e meter a s v id sent₀ recv₀ start positive small rest _ _ closed refl refl
                refl refl refl)
        | inr (is_over, no_id, shut) ↦ rw (close_over (served a e) w is_over) h
      ];
    }
