-- ===== src/Server/Run.antt =====
-- The runs of the server of src/server.cpp.
use socks5_proxy_sum_2022_co.Prelude.{ℕ, ◌+◌, true, false}
use socks5_proxy_sum_2022_co.Server.{Server, init, Step}

-- Whether a step is an accept that fails.
abbrev pub is_error : {s t : Server} → Step s t → ℕ
is_error (Step.accepts true h) = 1
is_error (Step.accepts false h) = 0
is_error (Step.spins failed h) = 0
is_error (Step.starts n h) = 0
is_error (Step.fails_to_start n h) = 0
is_error (Step.ends n h w) = 0

-- The states of a server with that limit after some failed accepts.
pub data Reachable (limit : ℕ) : ℕ → Server → Type 0 where
  begins : Reachable limit 0 (init limit)
  next :
      {errors : ℕ} {s t : Server} (step : Step s t)
      → Reachable limit errors s
      → Reachable limit (is_error step + errors) t

-- The sessions that are accepted and not closed.
abbrev pub live : Server → ℕ
live s = s.starting + s.relaying
