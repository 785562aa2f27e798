-- ===== src/Statistics/Account.antt =====
-- What is asked of the relay's sockets, and the account of one session's record.
use socks5_proxy_sum_2022_co.Prelude.{
  ◌∙◌, refl, inl, inr, Bool-cases, Option, arith, ==_refl, if◌then◌else◌, ℕ, ◌+◌, ◌≡◌, ◌<◌, ◌^◌,
  ◌==◌, ◌⊎◌, Bool, true, false, not, some, Bytes, length,
}
use socks5_proxy_sum_2022_co.Asio.{Asio, ErrorCode, failed}
use socks5_proxy_sum_2022_co.World.{pos, World, Version}
use socks5_proxy_sum_2022_co.Statistics.Sqlite.{Sqlite}
use socks5_proxy_sum_2022_co.Statistics.Laws.{IsSqlite}
use socks5_proxy_sum_2022_co.Statistics.Refine.{Usage}
use socks5_proxy_sum_2022_co.Statistics.Sessions.{usages}

-- A write adds its bytes to a meter if it returns without an error; on a shut socket it does not.
abbrev pub Meters :
    {Net : Type 0} → (Net → ℕ) → (Net → ℕ) → (Net → Bool) → (Bytes → Net → ErrorCode × Net) → Type 0
Meters {Net} own other is_shut socket =
    (bytes : Bytes) (net : Net)
    → (other (socket bytes net).1 ≡ other net)
      × (is_shut net ≡ true → is_shut (socket bytes net).1 ≡ true)
      × (((failed (socket bytes net).0 ≡ false)
            × (own (socket bytes net).1 ≡ own net + length bytes)
            × (is_shut net ≡ false))
          ⊎ ((failed (socket bytes net).0 ≡ true) × (own (socket bytes net).1 ≡ own net)))

-- How many bytes were written to each socket by writes without an error, and whether both sockets
-- are shut; then no write succeeds.
pub record IsMetered {Net : Type 0} (a : Asio Net) : Type 0 where
  pub sent_bytes : Net → ℕ
  pub recv_bytes : Net → ℕ
  pub is_shut : Net → Bool
  pub write_server : Meters sent_bytes recv_bytes is_shut a.write_server
  pub write : Meters recv_bytes sent_bytes is_shut a.write
  pub keeps_sent :
      (net : Net)
      → (sent_bytes (a.async_read_client net) ≡ sent_bytes net)
        × (sent_bytes (a.async_read_server net) ≡ sent_bytes net)
        × (sent_bytes (a.close_server (a.close_client net)) ≡ sent_bytes net)
  pub keeps_recv :
      (net : Net)
      → (recv_bytes (a.async_read_client net) ≡ recv_bytes net)
        × (recv_bytes (a.async_read_server net) ≡ recv_bytes net)
        × (recv_bytes (a.close_server (a.close_client net)) ≡ recv_bytes net)
  pub shut_client : (net : Net) → is_shut net ≡ true → is_shut (a.async_read_client net) ≡ true
  pub shut_server : (net : Net) → is_shut net ≡ true → is_shut (a.async_read_server net) ≡ true
  pub shuts : (net : Net) → is_shut (a.close_server (a.close_client net)) ≡ true

module _ {Net Db Stmt : Type 0} {asio : Asio Net} (meter : IsMetered asio) (a : Sqlite Db Stmt)
    (s : IsSqlite a) where
  -- Where a session stands: it is open and has its number, or it is closed, has none, and its sockets
  -- are shut.
  abbrev pub Phase : ℕ → World Net Db → Type 0
  Phase id w =
      ((w.is_closed ≡ false) × (w.id ≡ id) × ((ver : Version) × (w.socks ≡ some ver)))
      ⊎ ((w.is_closed ≡ true) × (w.id ≡ 0) × (meter.is_shut w.net ≡ true))

  -- The record of the session `id` at `w`: since the state `start`, where its counters were `sent₀`
  -- and `recv₀`, it has grown by just the bytes that were written without an error; it is open as long
  -- as the session is; no other record has changed; and there is room for `rest` bytes more.
  pub record Account (id sent₀ recv₀ : ℕ) (start : World Net Db) (rest : ℕ) (w : World Net Db)
      : Type 0 where
    pub sent : ℕ
    pub recv : ℕ
    pub records :
        (k : ℕ)
        → usages a s w k ≡ (
            if k == id
            then some (record { sent = pos sent; recv = pos recv; is_open = not w.is_closed })
            else usages a s start k)
    pub sent_is : sent + meter.sent_bytes start.net ≡ sent₀ + meter.sent_bytes w.net
    pub recv_is : recv + meter.recv_bytes start.net ≡ recv₀ + meter.recv_bytes w.net
    pub sent_fits : sent + rest < 2 ^ 31
    pub recv_fits : recv + rest < 2 ^ 31
    pub phase : Phase id w

  module _ {id sent₀ recv₀ rest : ℕ} {start w : World Net Db}
      (h : Account id sent₀ recv₀ start rest w) where
    pub own_record :
        usages a s w id
        ≡ some (record { sent = pos h.sent; recv = pos h.recv; is_open = not w.is_closed })
    own_record = h.records id ∙ rw (==_refl id) refl

    pub other_records : (k : ℕ) → (k == id) ≡ false → usages a s w k ≡ usages a s start k
    other_records k other = h.records k ∙ rw other refl

-- One record and the others, put together.
pub all_records :
    (now before : ℕ → Option Usage) (id : ℕ) (u : Usage)
    → now id ≡ some u
    → ((k : ℕ) → (k == id) ≡ false → now k ≡ before k)
    → (k : ℕ) → now k ≡ (if k == id then some u else before k)
all_records now before id u own others k = elim (Bool-cases (k == id)) [
  | inl same ↦ let here : k ≡ id = ground arith in rw here (own ∙ rw (==_refl id) refl)
  | inr other ↦ rw other (others k other)
]
