-- ===== src/Server/Stuck.antt =====
-- The loop of `start_accept` of src/server.cpp at the limit of sessions.
use mathlib.Core.Path.{subst}
use socks5_proxy_sum_2022_co.Prelude.{
  ℕ, zero, suc, ◌+◌, ◌<◌, ◌≤◌, ◌≡◌, refl, Bool, true, false, arith,
}
use socks5_proxy_sum_2022_co.World.{pos, suc_ℤ, sub_ℕ}
use socks5_proxy_sum_2022_co.Server.{
  Server, init, waiting, spinning, Step, is_full, start_accept, drop_session, handle_accept,
}
use socks5_proxy_sum_2022_co.Server.Run.{Reachable, live}

full-spins : (s : Server) (failed : Bool) → is_full s ≡ true → start_accept failed s ≡ s
unfolding start_accept
full-spins s failed full = rw full refl

-- At the limit, with nothing left to start, every step leads back to the same state.
full_is_stuck :
    {s t : Server} → is_full s ≡ true → s.io ≡ spinning false → s.starting ≡ 0 → Step s t → t ≡ s
full_is_stuck full io none_starts (Step.accepts error h) = cc
full_is_stuck full io none_starts (Step.spins failed h) = full-spins _ failed full
full_is_stuck full io none_starts (Step.starts n h) = cc
full_is_stuck full io none_starts (Step.fails_to_start n h) = cc
full_is_stuck full io none_starts (Step.ends n h w) = cc

-- `n` sessions relay and nothing else happens.
abbrev relaying_state : ℕ → ℕ → Server
relaying_state limit n = record (init limit) { sessions = pos n; relaying = n }

relaying-Reachable : (limit n : ℕ) → n ≤ limit → Reachable limit 0 (relaying_state limit n)
unfolding start_accept is_full handle_accept
relaying-Reachable limit zero h = Reachable.begins
relaying-Reachable limit (suc n) h =
    let before = relaying-Reachable limit n (ground arith) in
    let spun : start_accept false (relaying_state limit n)
        ≡ record (relaying_state limit n) { io = waiting } =
      ground arith in
    let waits = subst (Reachable limit 0) spun (Reachable.next (Step.spins false refl) before) in
    Reachable.next (Step.starts 0 refl) (Reachable.next (Step.accepts false refl) waits)

-- Without any error the server can get to where it stays for ever: as many sessions relay as the
-- limit allows, the one thread spins in `start_accept`, and every step leads back to that state, since
-- what would end a session wants that thread.
pub limit_reaches_stuck :
    (limit : ℕ)
    → 0 < limit
    → (s : Server) × (Reachable limit 0 s)
      × (s.relaying ≡ limit)
      × ((t : Server) → Step s t → t ≡ s)
unfolding is_full
limit_reaches_stuck limit h =
    let full : is_full (relaying_state limit limit) ≡ true = ground arith in
    (
      relaying_state limit limit,
      relaying-Reachable limit limit (omega arith),
      refl,
      λ t step. full_is_stuck full refl refl step,
    )

-- `n` sessions relay after one failed accept, and the server waits.
abbrev leaked_state : ℕ → ℕ → Server
leaked_state limit n = record (init limit) { sessions = sub_ℕ n 1; io = waiting; relaying = n }

leaked-Reachable : (limit n : ℕ) → n ≤ limit → Reachable limit 1 (leaked_state limit n)
unfolding start_accept is_full handle_accept drop_session
leaked-Reachable limit zero h =
    let waits : start_accept false (init limit) ≡ record (init limit) { io = waiting } =
      ground arith in
    let dropped : start_accept true (record (init limit) { io = spinning true })
        ≡ leaked_state limit 0 =
      ground arith in
    let ready =
      subst (Reachable limit 0) waits (Reachable.next (Step.spins false refl) Reachable.begins) in
    let failed = Reachable.next (Step.accepts true refl) ready in
    subst (Reachable limit 1) dropped (Reachable.next (Step.spins true refl) failed)
leaked-Reachable limit (suc n) h =
    let before = leaked-Reachable limit n (ground arith) in
    let accepted =
      Reachable.next (Step.starts 0 refl) (Reachable.next (Step.accepts false refl) before) in
    let spun : start_accept false (record (leaked_state limit n) {
      sessions = suc_ℤ (sub_ℕ n 1);
      relaying = suc n;
      io = spinning false;
    })
        ≡ leaked_state limit (suc n) =
      ground arith in
    subst (Reachable limit 1) spun (Reachable.next (Step.spins false refl) accepted)

-- One failed accept is enough for one session more than the limit.
pub limit_exceeded : (limit : ℕ) → (s : Server) × (Reachable limit 1 s) × (live s ≡ limit + 1)
unfolding handle_accept
limit_exceeded limit = (
  handle_accept false (leaked_state limit limit),
  Reachable.next (Step.accepts false refl) (leaked-Reachable limit limit (omega arith)),
  omega arith,
)
