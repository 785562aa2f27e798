-- ===== src/Config/Reduce.antt =====
-- `reduce` of src/ConfigReader.cpp, which rewrites its text in place, and one pass over the text.
use mathlib.Core.Option.{some-injective}
use mathlib.Core.List.{append_assoc}
use socks5_proxy_sum_2022_co.Prelude.{
  ℕ, zero, suc, ◌+◌, ◌-◌, ◌≡◌, ◌≢◌, ◌<◌, ◌≤◌, ◌⊎◌, refl, sym, ap, ◌∙◌, inl, inr, Bool, true, false,
  not, [], ◌∷◌, ◌++◌, none, some, Bytes, length, take, drop, take_append_length, drop_append_length,
  length-append, length-drop, Bool-cases, Option-cases, if◌then◌else◌, arith,
}
use socks5_proxy_sum_2022_co.Config.Text.{position, is_whitespace, npos, reduce_from, reduce, trim}

-- One pass: each run of white space gives one space. The flag says whether a run has begun.
abbrev pub squeeze : Bool → Bytes → Bytes
squeeze in_run [] = []
squeeze in_run (c ∷ cs) =
    let rest = squeeze (is_whitespace c) cs in
    if is_whitespace c then (if in_run then rest else b' ' ∷ rest) else c ∷ rest

abbrev is_visible : ℕ → Bool
is_visible c = not (is_whitespace c)

-- The text around the first byte of white space.
record Found (xs : Bytes) (i : ℕ) : Type 0 where
  before : Bytes
  byte : ℕ
  after : Bytes
  parts : xs ≡ before ++ byte ∷ after
  place : length before ≡ i
  white : is_whitespace byte ≡ true
  kept : (ys : Bytes) → squeeze false (before ++ ys) ≡ before ++ squeeze false ys

some-none : {A : Type 0} (a : A) → some a ≢ none
some-none a h = cc

-- Where the search goes after a byte that does not pass.
position-later :
    (p : ℕ → Bool) (c : ℕ) (cs : Bytes)
    → p c ≡ false
    → ((position p cs ≡ none) × (position p (c ∷ cs) ≡ none))
      ⊎ ((i : ℕ) × (position p cs ≡ some i) × (position p (c ∷ cs) ≡ some (suc i)))
position-later p c cs h = elim (Option-cases (position p cs)) [
  | inl e ↦ inl (e, rw (position, h, e) refl)
  | inr (i, e) ↦ inr (i, e, rw (position, h, e) refl)
]

position-here : (p : ℕ → Bool) (c : ℕ) (cs : Bytes) → p c ≡ true → position p (c ∷ cs) ≡ some 0
position-here p c cs h = rw (position, h) refl

squeeze-none : (xs : Bytes) → position is_whitespace xs ≡ none → squeeze false xs ≡ xs
squeeze-none [] h = refl
squeeze-none (c ∷ cs) h = elim (Bool-cases (is_whitespace c)) [
  | inl white ↦ absurd (some-none 0 (sym (position-here is_whitespace c cs white) ∙ h))
  | inr black ↦ elim (position-later is_whitespace c cs black) [
    | inl (e, _) ↦ rw black (ap (λ x. c ∷ x) (squeeze-none cs e))
    | inr (i, _, e) ↦ absurd (some-none (suc i) (sym e ∙ h))
  ]
]

found : (xs : Bytes) (i : ℕ) → position is_whitespace xs ≡ some i → Found xs i
found [] i h = cc
found (c ∷ cs) i h = elim (Bool-cases (is_whitespace c)) [
  | inl white ↦ record {
    before = [];
    byte = c;
    after = cs;
    parts = refl;
    place = some-injective 0 i (sym (position-here is_whitespace c cs white) ∙ h);
    white = white;
    kept = λ ys. refl;
  }
  | inr black ↦ elim (position-later is_whitespace c cs black) [
    | inl (_, e) ↦ absurd (some-none i (sym h ∙ e))
    | inr (j, there, e) ↦
        let f = found cs j there in
        let next : suc j ≡ i = some-injective (suc j) i (sym e ∙ h) in
        record {
          before = c ∷ f.before;
          byte = f.byte;
          after = f.after;
          parts = ap (λ x. c ∷ x) f.parts;
          place = ap suc f.place ∙ next;
          white = f.white;
          kept = λ ys. rw black (ap (λ x. c ∷ x) (f.kept ys));
        }
  ]
]

squeeze-run_none : (xs : Bytes) → position is_visible xs ≡ none → squeeze true xs ≡ []
squeeze-run_none [] h = refl
squeeze-run_none (c ∷ cs) h = elim (Bool-cases (is_whitespace c)) [
  | inr black ↦ absurd (some-none 0 (sym (position-here is_visible c cs (ap not black)) ∙ h))
  | inl white ↦ elim (position-later is_visible c cs (ap not white)) [
    | inl (e, _) ↦ rw white (squeeze-run_none cs e)
    | inr (i, _, e) ↦ absurd (some-none (suc i) (sym e ∙ h))
  ]
]

squeeze-run_some :
    (xs : Bytes) (k : ℕ)
    → position is_visible xs ≡ some k
    → squeeze true xs ≡ squeeze false (drop k xs)
squeeze-run_some [] k h = cc
squeeze-run_some (c ∷ cs) k h = elim (Bool-cases (is_whitespace c)) [
  | inr black ↦
      let at_start : 0 ≡ k =
        some-injective 0 k (sym (position-here is_visible c cs (ap not black)) ∙ h) in
      rw (sym at_start) (rw black refl)
  | inl white ↦ elim (position-later is_visible c cs (ap not white)) [
    | inl (_, e) ↦ absurd (some-none k (sym h ∙ e))
    | inr (j, there, e) ↦
        let next : suc j ≡ k = some-injective (suc j) k (sym e ∙ h) in
        rw (sym next) (rw white (squeeze-run_some cs j there))
  ]
]

drop-add : (p q : Bytes) (k : ℕ) → drop (length p + k) (p ++ q) ≡ drop k q
drop-add [] q k = let same : 0 + k ≡ k = omega arith in rw same refl
drop-add (x ∷ p) q k =
    let same : suc (length p) + k ≡ suc (length p + k) = omega arith in rw same (drop-add p q k)

take-add : (p q : Bytes) (k : ℕ) → take (length p + k) (p ++ q) ≡ p ++ take k q
take-add [] q k = let same : 0 + k ≡ k = omega arith in rw same refl
take-add (x ∷ p) q k =
    let same : suc (length p) + k ≡ suc (length p + k) = omega arith in
    rw same (ap (λ ys. x ∷ ys) (take-add p q k))

drop-all : (xs : Bytes) (n : ℕ) → length xs ≤ n → drop n xs ≡ []
drop-all [] zero h = refl
drop-all [] (suc n) h = refl
drop-all (x ∷ xs) zero h = absurd (omega arith)
drop-all (x ∷ xs) (suc n) h = drop-all xs n (omega arith)

-- The text up to a run, and the space that the run becomes.
abbrev upto : Bytes → Bytes → Bytes
upto pre before = (pre ++ before) ++ b' ' ∷ []

-- The text after one round, and where the next one begins.
round_text : (pre before rest : Bytes) → (pre ++ before) ++ b' ' ∷ rest ≡ upto pre before ++ rest
round_text pre before rest = sym (append_assoc (pre ++ before) (b' ' ∷ []) rest)

length-upto : (pre before : Bytes) → length pre + length before + 1 ≡ length (upto pre before)
length-upto pre before =
    omega (arith, length-append (pre ++ before) (b' ' ∷ []), length-append pre before)

upto-squeeze :
    (pre before after rest : Bytes) (byte : ℕ)
    → is_whitespace byte ≡ true
    → squeeze true after ≡ squeeze false rest
    → upto pre before ++ squeeze false rest ≡ pre ++ (before ++ squeeze false (byte ∷ after))
upto-squeeze pre before after rest byte white same =
    rw (white, same)
      (append_assoc (pre ++ before) (b' ' ∷ []) (squeeze false rest)
        ∙ append_assoc pre before (b' ' ∷ squeeze false rest))

-- What a round leaves to the next.
after_round :
    (fuel : ℕ) (pre xs rest : Bytes) (i at : ℕ) (f : Found xs i)
    → drop at (pre ++ xs) ≡ rest
    → squeeze true f.after ≡ squeeze false rest
    → reduce_from fuel (upto pre f.before ++ rest) (length (upto pre f.before))
      ≡ upto pre f.before ++ squeeze false rest
    → reduce_from fuel
        (take (length pre + i) (pre ++ xs) ++ b' ' ∷ drop at (pre ++ xs))
        (length pre + i + 1)
      ≡ pre ++ squeeze false xs
after_round fuel pre xs rest i at f dropped same ih =
    let tail = f.byte ∷ f.after in
    let head_at : take i xs ≡ f.before =
      ap (λ n. take n xs) (sym f.place)
      ∙ (ap (take (length f.before)) f.parts ∙ take_append_length f.before tail) in
    let taken : take (length pre + i) (pre ++ xs) ≡ pre ++ f.before =
      take-add pre xs i ∙ ap (λ ys. pre ++ ys) head_at in
    let place : length pre + i + 1 ≡ length (upto pre f.before) =
      omega (arith, length-upto pre f.before, f.place) in
    let squeezed : squeeze false xs ≡ f.before ++ squeeze false tail =
      ap (squeeze false) f.parts ∙ f.kept tail in
    rw (taken, dropped, place, round_text pre f.before rest)
      (ih
        ∙ (upto-squeeze pre f.before f.after rest f.byte f.white same
            ∙ ap (λ ys. pre ++ ys) (sym squeezed)))

reduce_from-squeeze :
    (fuel : ℕ) (pre xs : Bytes)
    → length xs < fuel
    → length (pre ++ xs) < npos
    → reduce_from fuel (pre ++ xs) (length pre) ≡ pre ++ squeeze false xs
unfolding reduce_from
reduce_from-squeeze zero pre xs enough small = absurd (omega arith)
reduce_from-squeeze (suc fuel) pre xs enough small =
    elim (Option-cases (position is_whitespace xs)) [
      | inl none_left ↦
          rw (reduce_from, drop_append_length pre xs, none_left)
            (ap (λ ys. pre ++ ys) (sym (squeeze-none xs none_left)))
      | inr (i, there) ↦
          let f = found xs i there in
          let tail = f.byte ∷ f.after in
          let tail_at : drop i xs ≡ tail =
            ap (λ n. drop n xs) (sym f.place)
            ∙ (ap (drop (length f.before)) f.parts ∙ drop_append_length f.before tail) in
          let at_run : drop (length pre + i) (pre ++ xs) ≡ tail = drop-add pre xs i ∙ tail_at in
          let size : length xs ≡ i + suc (length f.after) =
            ap length f.parts
            ∙ (length-append f.before tail ∙ ap (λ n. n + suc (length f.after)) f.place) in
          let run_is : squeeze true tail ≡ squeeze true f.after = rw f.white refl in
          elim (position-later is_visible f.byte f.after (ap not f.white)) [
            | inl (_, all_white) ↦
                let past : length (pre ++ xs) ≤ length pre + i + (npos - (length pre + i)) =
                  omega (arith, length-append pre xs) in
                let none_left = drop-all (pre ++ xs) _ past in
                rw (reduce_from, drop_append_length pre xs, there, at_run, all_white)
                  (after_round fuel pre xs [] i _ f none_left
                    (sym run_is ∙ squeeze-run_none tail all_white)
                    (reduce_from-squeeze fuel (upto pre f.before) [] (omega (arith, size)) (
                      omega (
                        arith,
                        length-append (upto pre f.before) [],
                        length-upto pre f.before,
                        f.place,
                        size,
                        length-append pre xs,
                      ))))
            | inr (j, _, run) ↦
                let sum : length pre + i + suc j ≡ length pre + (i + suc j) = omega arith in
                let skipped : drop (i + suc j) xs ≡ drop j f.after =
                  ap (λ n. drop (n + suc j) xs) (sym f.place)
                  ∙ (ap (drop (length f.before + suc j)) f.parts
                      ∙ drop-add f.before tail (suc j)) in
                let further : drop (length pre + i + suc j) (pre ++ xs) ≡ drop j f.after =
                  ap (λ n. drop n (pre ++ xs)) sum ∙ (drop-add pre xs (i + suc j) ∙ skipped) in
                rw (reduce_from, drop_append_length pre xs, there, at_run, run)
                  (after_round fuel pre xs (drop j f.after) i (length pre + i + suc j) f further
                    (sym run_is ∙ squeeze-run_some tail (suc j) run)
                    (reduce_from-squeeze fuel (upto pre f.before) (drop j f.after)
                      (omega (arith, size, length-drop j f.after))
                      (omega (
                        arith,
                        length-append (upto pre f.before) (drop j f.after),
                        length-upto pre f.before,
                        f.place,
                        size,
                        length-append pre xs,
                        length-drop j f.after,
                      ))))
          ]
    ]

-- `reduce` of a text of fewer than 2^64 - 1 bytes is one pass over the trimmed text, in which each run
-- of white space gives one space: its fuel never runs out.
pub reduce-squeeze :
    (str : Bytes) → length (trim str) < npos → reduce str ≡ squeeze false (trim str)
unfolding reduce
reduce-squeeze str small =
    reduce_from-squeeze (suc (length (trim str))) [] (trim str) (omega arith) small
