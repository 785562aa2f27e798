-- ===== src/Statistics/Refine.antt =====
-- The promise of src/stat_db_service.h: for each session, how many bytes it has sent and received, and
-- whether it is open. `DatabaseService` keeps it as long as no number outgrows an `int`.
use socks5_proxy_sum_2022_co.Prelude.{
  ℕ, suc, ◌+◌, ◌^◌, ◌≡◌, ◌<◌, inl, inr, refl, sym, ap, ◌∙◌, Bool, true, false, List, [], ◌∷◌, ◌++◌,
  Option, none, some, Bytes, Bool-cases, arith, if◌then◌else◌, ◌==◌, ==_iff,
}
use socks5_proxy_sum_2022_co.World.{ℤ, pos, negsuc, sub_ℕ, NewSession, Dest, to_server, to_client}
use socks5_proxy_sum_2022_co.Statistics.Sqlite.{
  Sqlite, Row, to_int, deactivates, find_row, update_rows, new_row,
}
use socks5_proxy_sum_2022_co.Statistics.Service.{create, update, close, add_bytes}
use socks5_proxy_sum_2022_co.Statistics.Laws.{IsSqlite, BindsTexts}
use socks5_proxy_sum_2022_co.Statistics.Calls.{
  Does, Does-weaken, Runs, update_query, Adds, create-Does, update-Does, close-Does,
}

pub record Usage : Type 0 where
  pub sent : ℤ
  pub recv : ℤ
  pub is_open : Bool

abbrev pub usage_of : Option Row → Option Usage
usage_of none = none
usage_of (some r) =
    some (record { sent = r.bytes_sent; recv = r.bytes_recv; is_open = r.is_active })

-- The abstract view: a partial map from the numbers of sessions.
abbrev pub usage : ℕ → List Row → Option Usage
usage id rs = usage_of (find_row (pos id) rs)

abbrev pub on_usage : (Usage → Usage) → Option Usage → Option Usage
on_usage f none = none
on_usage f (some u) = some (f u)

find_row-update_rows :
    (k id : ℕ) (f : Row → Row) (rs : List Row)
    → ((r : Row) → (f r).id ≡ r.id)
    → find_row (pos k) (update_rows (pos id) f rs) ≡ (
        if k == id
        then elim (find_row (pos k) rs) [ none ↦ none | some r ↦ some (f r) ]
        else find_row (pos k) rs)
find_row-update_rows k id f [] keeps = ground arith
find_row-update_rows k id f (r ∷ rs) keeps =
    ground (arith, keeps r, find_row-update_rows k id f rs keeps)

pub find_row-id : (id : ℕ) (rs : List Row) (r : Row) → find_row (pos id) rs ≡ some r → r.id ≡ id
find_row-id id [] r h = cc
find_row-id id (x ∷ rs) r h = ground (arith, find_row-id id rs r)

find_row-append :
    (k : ℕ) (rs : List Row) (r : Row)
    → find_row (pos r.id) rs ≡ none
    → find_row (pos k) (rs ++ r ∷ []) ≡ (if k == r.id then some r else find_row (pos k) rs)
find_row-append k [] r h = ground arith
find_row-append k (x ∷ rs) r h = ground (arith, find_row-append k rs r)

-- The abstract operations.
abbrev pub Statistics : Type 0
Statistics = ℕ → Option Usage

abbrev pub plus : ℤ → ℕ → ℤ
plus (pos n) bytes = pos (n + bytes)
plus (negsuc n) bytes = sub_ℕ bytes (suc n)

abbrev pub credit : Dest → ℕ → Usage → Usage
credit to_server bytes u = record u { sent = plus u.sent bytes }
credit to_client bytes u = record u { recv = plus u.recv bytes }

abbrev pub credited : ℕ → ℕ → Dest → Statistics → Statistics
credited id bytes dest m k = if k == id then on_usage (credit dest bytes) (m k) else m k

abbrev pub ended : ℕ → Statistics → Statistics
ended id m k = if k == id then on_usage (λ u. record u { is_open = false }) (m k) else m k

abbrev pub begun : ℕ → Statistics → Statistics
begun id m k = if k == id then some (record { sent = pos 0; recv = pos 0; is_open = true }) else m k

-- The counter that is credited stays in the range of an `int`.
abbrev pub Fits : Dest → ℕ → Usage → Type 0
Fits to_server bytes u = (n : ℕ) × (u.sent ≡ pos n) × (n + bytes < 2 ^ 31)
Fits to_client bytes u = (n : ℕ) × (u.recv ≡ pos n) × (n + bytes < 2 ^ 31)

add_bytes-to_int :
    (n bytes : ℕ) → n + bytes < 2 ^ 31 → add_bytes (to_int (pos n)) bytes ≡ pos (n + bytes)
add_bytes-to_int n bytes h = ground arith

pub usage-found :
    (id : ℕ) (rs : List Row) (u : Usage) (r : Row)
    → usage id rs ≡ some u
    → find_row (pos id) rs ≡ some r
    → u ≡ record { sent = r.bytes_sent; recv = r.bytes_recv; is_open = r.is_active }
usage-found id rs u r h found = ground (arith, rw found at h)

-- An update of the row changes the usage of its session alone.
pub usage-update_rows :
    (k id : ℕ) (f : Row → Row) (g : Usage → Usage) (rs : List Row) (r : Row)
    → find_row (pos id) rs ≡ some r
    → ((x : Row) → (f x).id ≡ x.id)
    → usage_of (some (f r)) ≡ on_usage g (usage_of (some r))
    → usage k (update_rows (pos id) f rs)
      ≡ (if k == id then on_usage g (usage k rs) else usage k rs)
usage-update_rows k id f g rs r found keeps same = elim (Bool-cases (k == id)) [
  | inl e ↦
      let found' : find_row (pos k) rs ≡ some r = rw ((==_iff k id).0 e) found in
      rw (find_row-update_rows k id f rs keeps, e, found') same
  | inr e ↦ rw (find_row-update_rows k id f rs keeps, e) refl
]

-- The row that `update` writes holds the sum.
sent_row :
    (r : Row) (now : Bytes) (n bytes : ℕ)
    → r.bytes_sent ≡ pos n
    → n + bytes < 2 ^ 31
    → usage_of
        (some (record r { update_date = now; bytes_sent = add_bytes (to_int r.bytes_sent) bytes }))
      ≡ on_usage (credit to_server bytes) (usage_of (some r))
sent_row r now n bytes h small = rw h (rw (add_bytes-to_int n bytes small) refl)

recv_row :
    (r : Row) (now : Bytes) (n bytes : ℕ)
    → r.bytes_recv ≡ pos n
    → n + bytes < 2 ^ 31
    → usage_of
        (some (record r { update_date = now; bytes_recv = add_bytes (to_int r.bytes_recv) bytes }))
      ≡ on_usage (credit to_client bytes) (usage_of (some r))
recv_row r now n bytes h small = rw h (rw (add_bytes-to_int n bytes small) refl)

module _ {Db Stmt : Type 0} (a : Sqlite Db Stmt) (s : IsSqlite a) where
  -- The usage of all sessions is that of `m` after the call, or the call throws and no row changes.
  abbrev pub Becomes : Statistics → Db → Option (Unit {0}) × Db → Type 0
  Becomes m db = Does a s (s.rows db) (λ _ left. (k : ℕ) → usage k left ≡ m k)

  -- The rows have that usage.
  abbrev Holds : Statistics → Unit {0} → List Row → Type 0
  Holds m _ left = (k : ℕ) → usage k left ≡ m k

  update_query-Holds :
      (id bytes : ℕ) (dest : Dest) (u : Usage) (rs left : List Row)
      → usage id rs ≡ some u
      → Fits dest bytes u
      → Runs a s id (λ r. update_query a s r id bytes dest) rs left
      → Holds (credited id bytes dest (λ k. usage k rs)) tt left
  update_query-Holds id bytes to_server u rs left there (n, sent, small) (r, found, now, ran) k =
      let counter = sym (ap (λ (v : Usage). v.sent) (usage-found id rs u r there found)) ∙ sent in
      rw ran (
        usage-update_rows k id _ (credit to_server bytes) rs r found (λ x. refl)
          (sent_row r now n bytes counter small))
  update_query-Holds id bytes to_client u rs left there (n, recv, small) (r, found, now, ran) k =
      let counter = sym (ap (λ (v : Usage). v.recv) (usage-found id rs u r there found)) ∙ recv in
      rw ran (
        usage-update_rows k id _ (credit to_client bytes) rs r found (λ x. refl)
          (recv_row r now n bytes counter small))

  -- Where the session has a record and its counter with the bytes fits an `int`, `update` adds the bytes
  -- to the counter of that side and leaves all else, or it throws and changes no row, whichever call of
  -- sqlite fails.
  pub update_refines :
      (id bytes : ℕ) (dest : Dest) (u : Usage) (db : Db)
      → usage id (s.rows db) ≡ some u
      → Fits dest bytes u
      → Becomes (credited id bytes dest (λ k. usage k (s.rows db))) db (update a id bytes dest db)
  update_refines id bytes dest u db there fits =
      let rs = s.rows db in
      Does-weaken a s rs _ (Holds (credited id bytes dest (λ k. usage k rs)))
        (update a id bytes dest db) (update-Does a s id bytes dest db)
        λ _ left. update_query-Holds id bytes dest u rs left there fits

  deactivates-Holds :
      (id : ℕ) (rs left : List Row)
      → id < 2 ^ 31
      → Runs a s id (λ r. deactivates (to_int (pos r.id))) rs left
      → Holds (ended id (λ k. usage k rs)) tt left
  deactivates-Holds id rs left small (r, found, now, ran) k =
      let number : to_int (pos r.id) ≡ pos id = ground (arith, find_row-id id rs r found) in
      rw (ran, number)
        (usage-update_rows k id (λ x. record x { update_date = now; is_active = false })
          (λ u. record u { is_open = false }) rs r found (λ x. refl) refl)

  -- `close` ends the session and leaves all else, as long as its number fits an `int`; or it throws
  -- and changes no row.
  pub close_refines :
      (id : ℕ) (db : Db)
      → id < 2 ^ 31
      → Becomes (ended id (λ k. usage k (s.rows db))) db (close a id db)
  close_refines id db small =
      let rs = s.rows db in
      Does-weaken a s rs _ (Holds (ended id (λ k. usage k rs))) (close a id db)
        (close-Does a s id db) λ _ left. deactivates-Holds id rs left small

  abbrev pub Begins : List Row → ℕ → List Row → Type 0
  Begins rs id left = (usage id rs ≡ none) × ((k : ℕ) → usage k left ≡ begun id (λ j. usage j rs) k)

  pub Adds-Begins :
      (new : NewSession) (id : ℕ) (rs left : List Row) → Adds a s new rs id left → Begins rs id left
  Adds-Begins new id rs left (now, positive, fresh, added) = (
    rw fresh refl,
    λ k. elim (Bool-cases (k == id)) [
      | inl e ↦ rw (added, find_row-append k rs (new_row id now new) fresh, e) refl
      | inr e ↦ rw (added, find_row-append k rs (new_row id now new) fresh, e) refl
    ],
  )

  -- Where no binding of a text fails, `create` begins a session with no bytes under a new number and
  -- leaves all else, or it throws and changes no row.
  pub create_refines :
      (new : NewSession) (db : Db)
      → BindsTexts a
      → Does a s
          (s.rows db)
          (λ id left.
            (usage id (s.rows db) ≡ none)
            × ((k : ℕ) → usage k left ≡ begun id (λ j. usage j (s.rows db)) k))
          (create a new db)
  create_refines new db binds =
      let rs = s.rows db in
      Does-weaken a s rs _ (Begins rs) (create a new db) (create-Does a s new db binds)
        λ id left. Adds-Begins new id rs left
