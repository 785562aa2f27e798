-- ===== src/Logger/Streams.antt =====
-- What the messages of the log of src/Logger.cpp say, as lists.
use socks5_proxy_sum_2022_co.Prelude.{
  ◌-◌, ◌≡◌, ◌≤◌, ◌⊎◌, inl, inr, refl, Bool, true, false, not, ◌&&◌, List, [], ◌∷◌, ◌++◌, none, some,
  Bytes, leb, ◌==◌, if◌then◌else◌, Bool-cases, arith, get_elem?,
}
use mathlib.Core.List.{append_assoc}
use socks5_proxy_sum_2022_co.Logger.{
  Line, LogLevel, LogType, log_level_prefix, off_log, trace_log, console_log, file_log, enable_log,
}

-- What a line says but its time.
abbrev pub said : List Line → List (Bytes × Bytes)
said [] = []
said (l ∷ ls) = (l.prefix, l.data_text) ∷ said ls

unfoldable pub prefix_of : LogLevel → Bytes
prefix_of level = elim (get_elem? log_level_prefix (level - 1)) [ none ↦ [] | some p ↦ p ]

abbrev pub is_let_through : LogLevel → LogLevel → Bool
is_let_through limit level = leb level limit && not (level == off_log)

pub prefix_of-there :
    (level : LogLevel) (p : Bytes)
    → get_elem? log_level_prefix (level - 1) ≡ some p
    → prefix_of level ≡ p
unfolding prefix_of
prefix_of-there level p h = rw (prefix_of, h) refl

-- The messages that a level lets through, each with its prefix.
abbrev pub passing : LogLevel → List (Bytes × LogLevel) → List (Bytes × Bytes)
passing limit [] = []
passing limit ((text, level) ∷ tasks) =
    let rest = passing limit tasks in
    if is_let_through limit level then (prefix_of level, text) ∷ rest else rest

-- Where a stream is written to.
abbrev pub when : {A : Type 0} → Bool → List A → List A
when b xs = if b then xs else []

-- A level that a message is given.
abbrev pub IsLevel : Bytes × LogLevel → Type 0
IsLevel m = m.1 ≤ trace_log

pub said-append : (xs ys : List Line) → said (xs ++ ys) ≡ said xs ++ said ys
said-append [] ys = refl
said-append (x ∷ xs) ys = rw (said-append xs ys)

pub when-nil : {A : Type 0} (b : Bool) → when {A = A} b [] ≡ []
when-nil true = refl
when-nil false = refl

pub append_nil : {A : Type 0} (xs : List A) → xs ++ [] ≡ xs
append_nil [] = refl
append_nil (x ∷ xs) = rw (append_nil xs)

-- Two runs of messages on one stream.
pub follow :
    {A : Type 0} (b : Bool) (s₀ s₁ s₂ xs ys : List A)
    → s₁ ≡ s₀ ++ when b xs
    → s₂ ≡ s₁ ++ when b ys
    → s₂ ≡ s₀ ++ when b (xs ++ ys)
follow true s₀ s₁ s₂ xs ys h h' = rw (h', h) (append_assoc s₀ xs ys)
follow false s₀ s₁ s₂ xs ys h h' = rw (h', h) (append_assoc s₀ [] [])

pub passing-cons :
    (limit : LogLevel) (m : Bytes × LogLevel) (ms : List (Bytes × LogLevel))
    → passing limit (m ∷ ms) ≡ passing limit (m ∷ []) ++ passing limit ms
passing-cons limit (text, level) ms = elim (Bool-cases (is_let_through limit level)) [
  | inl passes ↦ rw passes refl
  | inr blocked ↦ rw blocked refl
]

pub type-cases :
    (t : LogType)
    → (t ≡ console_log)
      ⊎ ((t ≡ file_log)
          ⊎ ((t ≡ enable_log)
              ⊎ (((t == console_log) ≡ false)
                  × ((t == file_log) ≡ false)
                  × ((t == enable_log) ≡ false))))
type-cases t = ground arith
