-- ===== src/Statistics/Reads.antt =====
-- What the account of a session's record does not look at, and what the reads leave of it
-- (src/session.cpp).
use socks5_proxy_sum_2022_co.Prelude.{ℕ, ◌+◌, ◌≡◌, ◌<◌, ◌^◌, ◌∙◌, inl, inr, true, Bool-cases, arith}
use socks5_proxy_sum_2022_co.World.{Env, World}
use socks5_proxy_sum_2022_co.World.Triple.{Triple, Pred}
use socks5_proxy_sum_2022_co.Session.Start.{client_read, server_read}
use socks5_proxy_sum_2022_co.Statistics.Account.{IsMetered, Account}
use socks5_proxy_sum_2022_co.Statistics.Sqlite.{Sqlite}
use socks5_proxy_sum_2022_co.Statistics.Laws.{IsSqlite}
use socks5_proxy_sum_2022_co.Statistics.Available.{IsAvailable}
use socks5_proxy_sum_2022_co.Statistics.Sessions.{served}

module _ {Net Db Stmt : Type 0} (e : Env Net Db) (meter : IsMetered e.asio) (a : Sqlite Db Stmt)
    (s : IsSqlite a) (v : IsAvailable a s) where
  module _ (id sent₀ recv₀ : ℕ) (start : World Net Db) (positive : 0 < id)
      (small : id < 2 ^ 31) where
    abbrev pub At : ℕ → Pred Net Db
    At rest = Account meter a s id sent₀ recv₀ start rest

    -- A change of what is not looked at.
    pub At-same :
        (rest : ℕ) (w w' : World Net Db)
        → At rest w
        → w'.db ≡ w.db
        → w'.net ≡ w.net
        → w'.is_closed ≡ w.is_closed
        → w'.id ≡ w.id
        → w'.socks ≡ w.socks
        → At rest w'
    At-same rest w w' h db net closed number socks = record {
      sent = h.sent;
      recv = h.recv;
      records = λ k. rw (db, closed) (h.records k);
      sent_is = rw net h.sent_is;
      recv_is = rw net h.recv_is;
      sent_fits = h.sent_fits;
      recv_fits = h.recv_fits;
      phase = elim h.phase [
        | inl (is_open, is_id, (ver, there)) ↦
            inl (closed ∙ is_open, number ∙ is_id, (ver, socks ∙ there))
        | inr (is_over, no_id, shut) ↦ inr (closed ∙ is_over, number ∙ no_id, rw net shut)
      ];
    }

    -- A change of the network that adds to no meter.
    pub At-net :
        (rest : ℕ) (w : World Net Db) (net : Net)
        → meter.sent_bytes net ≡ meter.sent_bytes w.net
        → meter.recv_bytes net ≡ meter.recv_bytes w.net
        → (meter.is_shut w.net ≡ true → meter.is_shut net ≡ true)
        → At rest w
        → At rest (record w { net = net })
    At-net rest w net sent recv shuts h = record {
      sent = h.sent;
      recv = h.recv;
      records = h.records;
      sent_is = rw sent h.sent_is;
      recv_is = rw recv h.recv_is;
      sent_fits = h.sent_fits;
      recv_fits = h.recv_fits;
      phase = elim h.phase [
        | inl going ↦ inl going
        | inr (is_over, no_id, shut) ↦ inr (is_over, no_id, shuts shut)
      ];
    }

    pub At-less : (rest n : ℕ) (w : World Net Db) → At (n + rest) w → At rest w
    At-less rest n w h = record {
      sent = h.sent;
      recv = h.recv;
      records = h.records;
      sent_is = h.sent_is;
      recv_is = h.recv_is;
      sent_fits = omega (arith, h.sent_fits);
      recv_fits = omega (arith, h.recv_fits);
      phase = h.phase;
    }

    pub client_read-At : (rest : ℕ) → Triple (At rest) (client_read (served a e)) (λ _. At rest)
    unfolding client_read
    client_read-At rest = record {
      at = λ w h. elim (Bool-cases (e.asio.client_is_open w.net)) [
        | inl up ↦
            rw (client_read, up)
              (At-net rest w _ (meter.keeps_sent w.net).0 (meter.keeps_recv w.net).0
                (meter.shut_client w.net) h)
        | inr down ↦ rw (client_read, down) h
      ];
    }

    pub server_read-At : (rest : ℕ) → Triple (At rest) (server_read (served a e)) (λ _. At rest)
    unfolding server_read
    server_read-At rest = record {
      at = λ w h. elim (Bool-cases (e.asio.server_is_open w.net)) [
        | inl up ↦
            rw (server_read, up)
              (At-net rest w _ (meter.keeps_sent w.net).1 (meter.keeps_recv w.net).1
                (meter.shut_server w.net) h)
        | inr down ↦ rw (server_read, down) h
      ];
    }
