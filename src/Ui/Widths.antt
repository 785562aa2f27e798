-- ===== src/Ui/Widths.antt =====
-- The cache of widths of ui/sessionmodel.cpp: what it gives is always the width measured afresh.
use socks5_proxy_sum_2022_co.Prelude.{
  ℕ, zero, suc, ◌+◌, ◌≡◌, ◌≢◌, ◌<◌, ◌⊎◌, ◌↔◌, inl, inr, refl, sym, ap, ◌∙◌, true, false, List, [],
  ◌∷◌, Option, none, some, Bytes, length, ltb, ◌==◌, Bool-cases, arith, get_elem?, get_elem?-below,
}
use socks5_proxy_sum_2022_co.World.{ℤ, pos, negsuc}
use socks5_proxy_sum_2022_co.Ui.Table.{
  Qt, SessionModel, set_at, max, text, empty, dao_update, model_update, header, zeros, header_data,
  widest, measure, column_width, sum_widths, table_width,
}

-- The widths of a column that was measured, at the header and cells of now.
abbrev pub IsFresh : {Date : Type 0} → Qt Date → SessionModel → Type 0
IsFresh qt m =
    (c w : ℕ) → get_elem? m.column_widths c ≡ some w → (w ≡ 0) ⊎ (measure qt m c ≡ some w)

abbrev pub IsWide : List (List Bytes) → Type 0
IsWide [] = Unit {0}
IsWide (cells ∷ rows) = (length cells ≡ 8) × IsWide rows

-- Eight columns, and a cache that agrees with them.
pub record IsTable {Date : Type 0} (qt : Qt Date) (m : SessionModel) : Type 0 where
  pub eight : length m.column_widths ≡ 8
  pub wide : IsWide m.sessions
  pub fresh : IsFresh qt m

get_elem?-above :
    {A : Type 0} (xs : List A) (i : ℕ) (x : A) → get_elem? xs i ≡ some x → i < length xs
get_elem?-above [] i x h = cc
get_elem?-above (y ∷ xs) zero x h = omega arith
get_elem?-above (y ∷ xs) (suc i) x h = let below = get_elem?-above xs i x h in omega arith

length-set_at : {A : Type 0} (xs : List A) (i : ℕ) (a : A) → length (set_at xs i a) ≡ length xs
length-set_at [] i a = refl
length-set_at (x ∷ xs) zero a = refl
length-set_at (x ∷ xs) (suc i) a = rw (length-set_at xs i a)

get_elem?-set_at :
    (xs : List ℕ) (i j : ℕ) (a w : ℕ)
    → get_elem? (set_at xs i a) j ≡ some w
    → ((i ≡ j) × (w ≡ a)) ⊎ (get_elem? xs j ≡ some w)
get_elem?-set_at [] i j a w h = inr h
get_elem?-set_at (x ∷ xs) zero zero a w h = inl (refl, cc)
get_elem?-set_at (x ∷ xs) zero (suc j) a w h = inr h
get_elem?-set_at (x ∷ xs) (suc i) zero a w h = inr h
get_elem?-set_at (x ∷ xs) (suc i) (suc j) a w h = elim (get_elem?-set_at xs i j a w h) [
  | inl (same, e) ↦ inl ((rw same refl), e)
  | inr old ↦ inr old
]

get_elem?-zeros : (n c w : ℕ) → get_elem? (zeros n) c ≡ some w → w ≡ 0
get_elem?-zeros zero c w h = cc
get_elem?-zeros (suc n) zero w h = cc
get_elem?-zeros (suc n) (suc c) w h = get_elem?-zeros n c w h

ℕ-cases : (n : ℕ) → (n < 8) ⊎ ((n ≡ 8) ⊎ (8 < n))
ℕ-cases n = ground arith

pos-injective : (m n : ℕ) → pos m ≡ pos n → m ≡ n
pos-injective m n h = cc

some_text-none : (title : Bytes) → some (text title) ≢ none
some_text-none title h = cc

some_empty-none : some empty ≢ none
some_empty-none h = cc

titled : (c : ℕ) → c < 8 → (title : Bytes) × (header_data (pos c) true true ≡ some (text title))
unfolding header_data
titled c small =
    let inside : ltb (length header) c ≡ false = ground arith in
    let (title, there) = get_elem?-below header c small in
    (title, rw (header_data, inside, there) refl)

-- `headerData` reads outside of its vector just one place behind the last header.
pub header_data_outside : (id : ℤ) → (header_data id true true ≡ none) ↔ (id ≡ pos 8)
unfolding header_data
header_data_outside (negsuc n) = (λ h. cc, λ h. cc)
header_data_outside (pos n) = elim (ℕ-cases n) [
  | inl small ↦
      let (title, e) = titled n small in
      (
        λ h. absurd (some_text-none title (sym e ∙ h)),
        λ h. absurd (omega (arith, pos-injective n 8 h)),
      )
  | inr (inl same) ↦ (λ h. rw same refl, λ h. rw same refl)
  | inr (inr large) ↦
      let outside : ltb 8 n ≡ true = ground arith in
      (
        λ h. absurd (some_empty-none (rw (header_data, outside) at h)),
        λ h. absurd (omega (arith, pos-injective n 8 h)),
      )
]

module _ {Date : Type 0} (qt : Qt Date) where
  widest-some :
      (rows : List (List Bytes)) (c ret : ℕ)
      → IsWide rows
      → c < 8
      → (w : ℕ) × (widest qt rows c ret ≡ some w)
  widest-some [] c ret wide small = (ret, refl)
  widest-some (cells ∷ rows) c ret (eight, wide) small =
      let (cell, there) = get_elem?-below cells c (omega arith) in
      let (w, e) = widest-some rows c (max qt ret (qt.advance cell)) wide small in
      (w, rw (widest, there) e)

  measure-some :
      (m : SessionModel) (c : ℕ) → IsWide m.sessions → c < 8 → (w : ℕ) × (measure qt m c ≡ some w)
  measure-some m c wide small =
      let (title, e) = titled c small in
      let (w, e') = widest-some m.sessions c (qt.advance title + 8) wide small in
      (w + 10, rw (measure, e, e') refl)

  -- A width that is measured afresh.
  unfoldable pub needed : SessionModel → ℕ → ℕ
  needed m c = elim (measure qt m c) [ none ↦ 0 | some w ↦ w ]

  -- The sum from a column on, over as many columns as are left.
  unfoldable pub total : SessionModel → ℕ → ℕ → ℕ
  total m zero c = 0
  total m (suc left) c = needed m c + total m left (suc c)

  needed-measure : (m : SessionModel) (c w : ℕ) → measure qt m c ≡ some w → needed m c ≡ w
  unfolding needed
  needed-measure m c w h = rw (needed, h) refl

  total-sessions :
      (left c : ℕ) (m m' : SessionModel)
      → m'.sessions ≡ m.sessions
      → total m' left c ≡ total m left c
  unfolding needed total
  total-sessions left c m m' same =
      ap (λ rows. total (record { sessions = rows; column_widths = [] }) left c) same

  -- The result is `width`, and the table is as it was but for its cache.
  abbrev pub Gives : SessionModel → ℕ → Option (ℕ × SessionModel) → Type 0
  Gives m width o =
      (m' : SessionModel) × (o ≡ some (width, m')) × IsTable qt m' × (m'.sessions ≡ m.sessions)

  stored-IsTable :
      (m : SessionModel) (c w : ℕ)
      → IsTable qt m
      → measure qt m c ≡ some w
      → IsTable qt (record m { column_widths = set_at m.column_widths c w })
  stored-IsTable m c w t measured = record {
    eight = length-set_at m.column_widths c w ∙ t.eight;
    wide = t.wide;
    fresh = λ j x h. elim (get_elem?-set_at m.column_widths c j w x h) [
      | inl (same, e) ↦ inr (rw (← same, e) measured)
      | inr old ↦ t.fresh j x old
    ];
  }

  -- A column's width is that of its header and cells, measured afresh, and the cache stays right.
  pub column_width-measure :
      (m : SessionModel) (c : ℕ)
      → IsTable qt m
      → c < 8
      → Gives m (needed m c) (column_width qt (pos c) m)
  unfolding column_width
  column_width-measure m c t small =
      let (w, measured) = measure-some m c t.wide small in
      let (known, there) = get_elem?-below m.column_widths c (omega (arith, t.eight)) in
      elim (Bool-cases (known == 0)) [
        | inl unknown ↦ rw (needed-measure m c w measured) (
          record m { column_widths = set_at m.column_widths c w },
          rw (column_width, there, unknown, measured) refl,
          stored-IsTable m c w t measured,
          refl,
        )
        | inr done ↦ elim (t.fresh c known there) [
          | inl zero_width ↦ absurd (ground arith)
          | inr right ↦
              (m, rw (column_width, there, done, needed-measure m c known right) refl, t, refl)
        ]
      ]

  sum_widths-total :
      (left c sum : ℕ) (m : SessionModel)
      → IsTable qt m
      → c + left ≡ 8
      → Gives m (sum + total m left c) (sum_widths qt left c sum m)
  unfolding sum_widths total
  sum_widths-total zero c sum m t h = (m, ap (λ x. some (x, m)) (omega arith), t, refl)
  sum_widths-total (suc left) c sum m t h =
      let (m₁, gives, t₁, same₁) = column_width-measure m c t (omega arith) in
      let (m₂, gives₂, t₂, same₂) =
        sum_widths-total left (suc c) (sum + needed m c) m₁ t₁ (omega arith) in
      (
        m₂,
        rw (sum_widths, gives, gives₂)
            (ap (λ x. some (x, m₂)) (omega (arith, total-sessions left (suc c) m m₁ same₁))),
        t₂,
        same₂ ∙ same₁,
      )

  -- Of a table with eight columns whose cache agrees with its cells, the width is the sum of its eight
  -- columns' widths, each measured afresh, and the cache still agrees.
  pub table_width-total :
      (m : SessionModel) → IsTable qt m → Gives m (total m 8 0) (table_width qt m)
  unfolding table_width
  table_width-total m t = rw t.eight (
      let (m', gives, t', same) = sum_widths-total 8 0 0 m t refl in
      (m', gives ∙ ap (λ x. some (x, m')) (omega arith), t', same))

dao_update-IsWide : (rows : List (ℕ → Bytes)) → IsWide (dao_update rows)
unfolding dao_update
dao_update-IsWide [] = tt
dao_update-IsWide (value ∷ rows) = (refl, dao_update-IsWide rows)

-- `update` leaves a table, whatever there was before.
pub model_update-IsTable :
    {Date : Type 0} (qt : Qt Date) (rows : List (ℕ → Bytes)) (m : SessionModel)
    → IsTable qt (model_update rows m)
unfolding model_update
model_update-IsTable qt rows m = record {
  eight = refl;
  wide = dao_update-IsWide rows;
  fresh = λ c w h. inl (get_elem?-zeros 8 c w h);
}
