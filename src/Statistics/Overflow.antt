-- ===== src/Statistics/Overflow.antt =====
-- Counters past the range of an `int`: `readRow` of src/stat_db_service.cpp reads 64-bit columns as
-- 32-bit ones.
use socks5_proxy_sum_2022_co.Prelude.{
  ℕ, ◌+◌, ◌^◌, ◌≡◌, ◌≢◌, ◌<◌, ◌≤◌, refl, sym, ap, ◌∙◌, List, Option, none, some, arith, ==_refl,
}
use mathlib.Core.Option.{some-injective}
use socks5_proxy_sum_2022_co.World.{ℤ, pos, to_server}
use socks5_proxy_sum_2022_co.Statistics.Sqlite.{Sqlite, Row, to_int}
use socks5_proxy_sum_2022_co.Statistics.Service.{update, add_bytes}
use socks5_proxy_sum_2022_co.Statistics.Laws.{IsSqlite}
use socks5_proxy_sum_2022_co.Statistics.Calls.{Does, Does-weaken, Runs, update_query, update-Does}
use socks5_proxy_sum_2022_co.Statistics.Refine.{Usage, usage, usage-update_rows}

add_bytes-cut :
    (n bytes : ℕ)
    → 2 ^ 31 ≤ n
    → n < 2 ^ 63
    → n + bytes < 2 ^ 63
    → add_bytes (to_int (pos n)) bytes ≢ pos (n + bytes)
add_bytes-cut n bytes big small sum h = ground arith

-- What `update` makes of a record whose counter it has read.
abbrev cut_sum : ℕ → Usage → Usage
cut_sum bytes u = record u { sent = add_bytes (to_int u.sent) bytes }

abbrev pub sent_of : Option Usage → Option ℤ
sent_of none = none
sent_of (some u) = some u.sent

module _ {Db Stmt : Type 0} (a : Sqlite Db Stmt) (s : IsSqlite a) where
  -- The counter of sent bytes is not that number.
  abbrev pub Loses : ℕ → ℕ → List Row → Type 0
  Loses id total left = sent_of (usage id left) ≢ some (pos total)

  update_query-Loses :
      (id bytes n : ℕ) (u : Usage) (rs left : List Row)
      → usage id rs ≡ some u
      → u.sent ≡ pos n
      → 2 ^ 31 ≤ n
      → n + bytes < 2 ^ 63
      → Runs a s id (λ r. update_query a s r id bytes to_server) rs left
      → Loses id (n + bytes) left
  update_query-Loses id bytes n u rs left there counter big sum (r, found, now, ran) wrong =
      let changed =
        usage-update_rows id id
          (λ x. record x { update_date = now; bytes_sent = add_bytes (to_int r.bytes_sent) bytes })
          (cut_sum bytes) rs r found (λ x. refl) refl in
      let stored : usage id left ≡ some (cut_sum bytes u) =
        rw (ran, changed, ==_refl id, there) refl in
      let cut : add_bytes (to_int u.sent) bytes ≡ pos (n + bytes) =
        some-injective _ _ (sym (ap sent_of stored) ∙ wrong) in
      add_bytes-cut n bytes big (omega arith) sum
        (sym (ap (λ c. add_bytes (to_int c) bytes) counter) ∙ cut)

  -- Once a counter of sent bytes is 2^31 or more, an `update` that returns does not leave it at the
  -- sum, though that fits its 64 bits; one that throws changes no row.
  pub update_cuts_counter :
      (id bytes n : ℕ) (u : Usage) (db : Db)
      → usage id (s.rows db) ≡ some u
      → u.sent ≡ pos n
      → 2 ^ 31 ≤ n
      → n + bytes < 2 ^ 63
      → Does a s (s.rows db) (λ _. Loses id (n + bytes)) (update a id bytes to_server db)
  update_cuts_counter id bytes n u db there counter big sum =
      Does-weaken a s (s.rows db) _ (λ _. Loses id (n + bytes)) (update a id bytes to_server db)
        (update-Does a s id bytes to_server db)
        λ _ left. update_query-Loses id bytes n u (s.rows db) left there counter big sum
