-- ===== src/Statistics/Relay.antt =====
-- A session's record over the whole relay: the handlers of src/session.cpp on the database of
-- src/stat_db_service.cpp.
use socks5_proxy_sum_2022_co.Prelude.{ℕ, ◌+◌, ◌≡◌, ◌<◌, ◌^◌, refl, inl, true, false, List, some}
use socks5_proxy_sum_2022_co.World.{pos, Env, World, Version}
use socks5_proxy_sum_2022_co.World.Triple.{Pred}
use socks5_proxy_sum_2022_co.Session.Events.{Event, handle_all, total_bytes}
use socks5_proxy_sum_2022_co.Session.Kept.{Kept, handle_all-Kept}
use socks5_proxy_sum_2022_co.Statistics.Account.{all_records, IsMetered, Account}
use socks5_proxy_sum_2022_co.Statistics.Sqlite.{Sqlite}
use socks5_proxy_sum_2022_co.Statistics.Laws.{IsSqlite}
use socks5_proxy_sum_2022_co.Statistics.Available.{IsAvailable}
use socks5_proxy_sum_2022_co.Statistics.Sessions.{served, usages}
use socks5_proxy_sum_2022_co.Statistics.Reads.{At-same, At-less, client_read-At, server_read-At}
use socks5_proxy_sum_2022_co.Statistics.Ends.{close-At}
use socks5_proxy_sum_2022_co.Statistics.Credits.{write_server-At, write_client-At}

module _ {Net Db Stmt : Type 0} (e : Env Net Db) (meter : IsMetered e.asio) (a : Sqlite Db Stmt)
    (s : IsSqlite a) (v : IsAvailable a s) where
  module _ (id sent₀ recv₀ : ℕ) (start : World Net Db) (positive : 0 < id)
      (small : id < 2 ^ 31) where
    abbrev At : ℕ → Pred Net Db
    At rest = Account meter a s id sent₀ recv₀ start rest

    Account-Kept : Kept (served a e) At
    Account-Kept = record {
      less = At-less e meter a s v id sent₀ recv₀ start positive small;
      refill = λ rest w cs ss h.
          At-same e meter a s v id sent₀ recv₀ start positive small rest w _ h refl refl refl refl
            refl;
      close = close-At e meter a s v id sent₀ recv₀ start positive small;
      write_server = write_server-At e meter a s v id sent₀ recv₀ start positive small;
      write_client = write_client-At e meter a s v id sent₀ recv₀ start positive small;
      client_read = client_read-At e meter a s v id sent₀ recv₀ start positive small;
      server_read = server_read-At e meter a s v id sent₀ recv₀ start positive small;
    }

  -- Once a session has its record, whenever the first reads are asked for, whatever reads complete in
  -- whatever order and with whatever errors, and whichever writes fail: the session's record has grown by just the bytes that were
  -- written without an error, to each side, it is open as long as the session is, and no other record
  -- has changed. This when no call of sqlite fails and no write to a shut socket succeeds, and if the
  -- session's number and its counters with all bytes that are read fit an `int`.
  pub relay_accounts :
      (w : World Net Db) (evs : List Event) (ver : Version) (sent₀ recv₀ : ℕ)
      → w.is_closed ≡ false
      → w.socks ≡ some ver
      → 0 < w.id
      → w.id < 2 ^ 31
      → usages a s w w.id ≡ some (record { sent = pos sent₀; recv = pos recv₀; is_open = true })
      → sent₀ + total_bytes evs < 2 ^ 31
      → recv₀ + total_bytes evs < 2 ^ 31
      → Account meter a s w.id sent₀ recv₀ w 0 (handle_all (served a e) evs w)
  relay_accounts w evs ver sent₀ recv₀ is_open there positive small old sent_fits recv_fits =
      handle_all-Kept (served a e) _ (Account-Kept w.id sent₀ recv₀ w positive small) evs w
        (record {
          sent = sent₀;
          recv = recv₀;
          records = all_records _ _ w.id _ (rw is_open old) (λ k other. refl);
          sent_is = refl;
          recv_is = refl;
          sent_fits = sent_fits;
          recv_fits = recv_fits;
          phase = inl (is_open, refl, (ver, there));
        })
