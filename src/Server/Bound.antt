-- ===== src/Server/Bound.antt =====
-- The counter of src/server.cpp against the number of sessions there are.
use socks5_proxy_sum_2022_co.Prelude.{
  ℕ, zero, suc, ◌+◌, ◌<◌, ◌≤◌, ◌≡◌, ◌⊎◌, inl, inr, refl, ap, Bool, true, false, arith,
}
use socks5_proxy_sum_2022_co.World.{
  ℤ, ℤ, sub_ℕ, pos, negsuc, pos_part, neg_part, suc_ℤ, pred_ℤ, suc_ℤ_parts, pred_ℤ_parts,
}
use socks5_proxy_sum_2022_co.Server.{
  Server, IoThread, waiting, spinning, to_size, Step, is_full, drop_session, start_accept,
  handle_accept,
}
use socks5_proxy_sum_2022_co.Server.Run.{Reachable, is_error, live}

-- A failed accept whose session is not yet destroyed.
abbrev pending : IoThread → ℕ
pending waiting = 0
pending (spinning true) = 1
pending (spinning false) = 0

-- The thread waits for a client: there is room for one more.
abbrev room : IoThread → ℕ
room waiting = 1
room (spinning failed) = 0

record IsCounted (limit errors : ℕ) (s : Server) : Type 0 where
  same_limit : s.max_sessions ≡ limit
  counts : pos_part s.sessions + errors ≡ live s + pending s.io + neg_part s.sessions
  pending_errors : pending s.io ≤ errors
  bound : 0 < limit → pos_part s.sessions + room s.io ≤ limit

one_sign : (z : ℤ) → (pos_part z ≡ 0) ⊎ (neg_part z ≡ 0)
one_sign (pos n) = inr refl
one_sign (negsuc n) = inl refl

pos_part-suc_ℤ : (z : ℤ) → pos_part (suc_ℤ z) ≤ suc (pos_part z)
pos_part-suc_ℤ (pos n) = omega arith
pos_part-suc_ℤ (negsuc zero) = omega arith
pos_part-suc_ℤ (negsuc (suc n)) = omega arith

pos_part-pred_ℤ : (z : ℤ) → pos_part (pred_ℤ z) ≤ pos_part z
pos_part-pred_ℤ (pos zero) = omega arith
pos_part-pred_ℤ (pos (suc n)) = omega arith
pos_part-pred_ℤ (negsuc n) = omega arith

below_full : (z : ℤ) (n : ℕ) → 0 < n → pos_part z ≤ n → (to_size z ≡ n → ⊥) → pos_part z + 1 ≤ n
below_full (pos k) n h le ne = ground arith
below_full (negsuc k) n h le ne = omega arith

accept-IsCounted :
    {limit errors : ℕ} (s : Server) (error : Bool) (h : s.io ≡ waiting)
    → IsCounted limit errors s
    → IsCounted limit (is_error (Step.accepts {s = s} error h) + errors) (handle_accept error s)
unfolding handle_accept
accept-IsCounted s true h c = record {
  same_limit = c.same_limit;
  counts = ground (arith, c.counts, h);
  pending_errors = ground (arith, c.pending_errors);
  bound = λ p. ground (arith, c.bound p, h);
}
accept-IsCounted s false h c = record {
  same_limit = c.same_limit;
  counts = ground (arith, c.counts, h, suc_ℤ_parts s.sessions);
  pending_errors = ground (arith, c.pending_errors);
  bound = λ p. ground (arith, c.bound p, h, pos_part-suc_ℤ s.sessions);
}

spin-IsCounted :
    {limit errors : ℕ} (s : Server) (failed : Bool) (h : s.io ≡ spinning failed)
    → IsCounted limit errors s
    → IsCounted limit (0 + errors) (start_accept failed s)
unfolding start_accept is_full drop_session
spin-IsCounted s failed h c = record {
  same_limit = ground (arith, c.same_limit);
  counts = ground (arith, c.counts, h, pred_ℤ_parts s.sessions);
  pending_errors = ground (arith, c.pending_errors);
  bound = λ p. ground (
    arith,
    c.bound p,
    h,
    c.same_limit,
    pos_part-pred_ℤ s.sessions,
    below_full s.sessions s.max_sessions,
  );
}

Step-IsCounted :
    {limit errors : ℕ} {s t : Server} (step : Step s t)
    → IsCounted limit errors s
    → IsCounted limit (is_error step + errors) t
unfolding drop_session
Step-IsCounted (Step.accepts error h) c = accept-IsCounted _ error h c
Step-IsCounted (Step.spins failed h) c = spin-IsCounted _ failed h c
Step-IsCounted (Step.starts {s} n h) c = record {
  same_limit = c.same_limit;
  counts = ground (arith, c.counts);
  pending_errors = ground (arith, c.pending_errors);
  bound = c.bound;
}
Step-IsCounted (Step.fails_to_start {s} n h) c = record {
  same_limit = c.same_limit;
  counts = ground (arith, c.counts, pred_ℤ_parts s.sessions);
  pending_errors = ground (arith, c.pending_errors);
  bound = λ p. ground (arith, c.bound p, pos_part-pred_ℤ s.sessions);
}
Step-IsCounted (Step.ends {s} n w h) c = record {
  same_limit = c.same_limit;
  counts = ground (arith, c.counts, pred_ℤ_parts s.sessions);
  pending_errors = ground (arith, c.pending_errors);
  bound = λ p. ground (arith, c.bound p, pos_part-pred_ℤ s.sessions);
}

Reachable-IsCounted :
    {limit errors : ℕ} {s : Server} → Reachable limit errors s → IsCounted limit errors s
Reachable-IsCounted Reachable.begins = record {
  same_limit = refl;
  counts = refl;
  pending_errors = ground arith;
  bound = λ p. ground arith;
}
Reachable-IsCounted (Reachable.next step r) = Step-IsCounted step (Reachable-IsCounted r)

parts-pos : (z : ℤ) (n : ℕ) → pos_part z ≡ n + neg_part z → z ≡ pos n
parts-pos (pos k) n h = ap pos (omega arith)
parts-pos (negsuc k) n h = ground arith

parts-sub_ℕ : (z : ℤ) (n errors : ℕ) → pos_part z + errors ≡ n + neg_part z → z ≡ sub_ℕ n errors
parts-sub_ℕ (pos k) n errors h = ground arith
parts-sub_ℕ (negsuc k) n errors h = ground arith

-- While no accept has failed, the counter is the number of sessions that are not closed.
counter_exact : {limit : ℕ} {s : Server} → Reachable limit 0 s → s.sessions ≡ pos (live s)
counter_exact {s} r =
    let c = Reachable-IsCounted r in
    parts-pos s.sessions (live s) (ground (arith, c.counts, c.pending_errors))

-- When the server waits for a client, each failed accept has left the counter one too low for good;
-- it can be negative.
counter_drift :
    {limit errors : ℕ} {s : Server}
    → Reachable limit errors s
    → s.io ≡ waiting
    → s.sessions ≡ sub_ℕ (live s) errors
counter_drift {errors} {s} r h =
    parts-sub_ℕ s.sessions (live s) errors (ground (arith, h, (Reachable-IsCounted r).counts))

-- With a limit there are never more sessions than the limit and one for each failed accept.
pub live_bound :
    {limit errors : ℕ} {s : Server} → 0 < limit → Reachable limit errors s → live s ≤ limit + errors
live_bound {s} h r =
    let c = Reachable-IsCounted r in ground (arith, c.counts, c.bound h, one_sign s.sessions)
