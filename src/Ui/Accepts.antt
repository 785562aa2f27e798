-- ===== src/Ui/Accepts.antt =====
-- What the filter of ui/sortfiltersessionmodel.cpp shows after any calls of its setters: the rows
-- that meet the last value of each filter.
use socks5_proxy_sum_2022_co.Prelude.{
  ℕ, ◌≡◌, ◌≢◌, refl, sym, ap, ◌∙◌, inl, inr, Bool, true, false, not, ◌&&◌, ◌||◌, List, [], ◌∷◌,
  ◌==◌, if◌then◌else◌, Bool-cases,
}
use socks5_proxy_sum_2022_co.World.{negsuc}
use socks5_proxy_sum_2022_co.Ui.Table.{Qt}
use socks5_proxy_sum_2022_co.Ui.Filter.{Filter, Cells, ℤ_eq, is_early, no_filter, settle, accepts}
use socks5_proxy_sum_2022_co.Ui.Setters.{
  IsQt, Setting, user, is_active, src_endpoint, dst_endpoint, create_date, update_date, from_date,
  to_date, bytes_sent, bytes_recv, apply, apply_all, set_user, set_is_active, set_src_endpoint,
  set_dst_endpoint, set_create_date, set_update_date, set_from_date, set_to_date, set_bytes_sent,
  set_bytes_recv,
}

abbrev pub kind : {Date : Type 0} → Setting Date → ℕ
kind (user t) = 0
kind (create_date d) = 1
kind (update_date d) = 2
kind (from_date d) = 3
kind (to_date d) = 4
kind (is_active t) = 5
kind (src_endpoint t) = 6
kind (dst_endpoint t) = 7
kind (bytes_sent n) = 8
kind (bytes_recv n) = 9

-- The last call of the same setter, or the value before.
abbrev pub latest : {Date : Type 0} → Setting Date → List (Setting Date) → Setting Date
latest s [] = s
latest s (x ∷ xs) = if kind x == kind s then latest x xs else latest s xs

not-not : (b : Bool) → not (not b) ≡ b
not-not true = refl
not-not false = refl

true-false : true ≢ false
true-false h = cc

module _ {Date : Type 0} (qt : Qt Date) where
  abbrev no_date : Date → Bool
  no_date d = is_early (qt.year d)

  -- A row meets a setting; a date before 1970 and the number -1 ask for nothing.
  abbrev pub meets : Setting Date → Cells Date → Bool
  meets (user t) c = qt.contains c.user t
  meets (create_date d) c = no_date d || qt.same_date c.create_date d
  meets (update_date d) c = no_date d || qt.same_date c.update_date d
  meets (from_date d) c = no_date d || qt.leq_date d c.update_date
  meets (to_date d) c = no_date d || qt.leq_date c.update_date d
  meets (is_active t) c = qt.contains c.is_active t
  meets (src_endpoint t) c = qt.contains c.src_endpoint t
  meets (dst_endpoint t) c = qt.contains c.dst_endpoint t
  meets (bytes_sent n) c = ℤ_eq n (negsuc 0) || ℤ_eq c.bytes_sent n
  meets (bytes_recv n) c = ℤ_eq n (negsuc 0) || ℤ_eq c.bytes_recv n

  abbrev pub met_from : Bool → List (Setting Date) → List (Setting Date) → Cells Date → Bool
  met_from met [] ss c = met
  met_from met (s ∷ before) ss c = met_from (met && meets (latest s ss) c) before ss c

  -- A row meets the last value of each of these settings.
  abbrev pub all_met : List (Setting Date) → List (Setting Date) → Cells Date → Bool
  all_met before ss c = met_from true before ss c

  -- The filters as settings.
  abbrev pub settings : Filter Date → List (Setting Date)
  settings f =
      user f.user
      ∷ create_date f.create_date
      ∷ update_date f.update_date
      ∷ from_date f.from_date
      ∷ to_date f.to_date
      ∷ is_active f.is_active
      ∷ src_endpoint f.src_endpoint
      ∷ dst_endpoint f.dst_endpoint
      ∷ bytes_sent f.bytes_sent
      ∷ bytes_recv f.bytes_recv
      ∷ []

  -- The dates among the filters are valid or before 1970, never both.
  abbrev Proper : Date → Type 0
  Proper d = qt.is_valid d ≡ not (no_date d)

  record IsSettled (f : Filter Date) : Type 0 where
    created : Proper f.create_date
    updated : Proper f.update_date
    from : Proper f.from_date
    until : Proper f.to_date

  latest-same :
      (x y : Setting Date) (ss : List (Setting Date)) (c : Cells Date)
      → kind x ≡ kind y
      → meets x c ≡ meets y c
      → meets (latest x ss) c ≡ meets (latest y ss) c
  latest-same x y [] c kinds same = same
  latest-same x y (z ∷ zs) c kinds same = elim (Bool-cases (kind z == kind y)) [
    | inl again ↦ rw (kinds, again) refl
    | inr other ↦ rw (kinds, other) (latest-same x y zs c kinds same)
  ]

  all_met-accepts :
      (f : Filter Date) (c : Cells Date) → IsSettled f → all_met (settings f) [] c ≡ accepts qt f c
  unfolding accepts
  all_met-accepts f c s =
      rw (s.created, s.updated, s.from, s.until)
        (rw
          (
            not-not (no_date f.create_date),
            not-not (no_date f.update_date),
            not-not (no_date f.from_date),
            not-not (no_date f.to_date),
          )
          refl)

module _ {Date : Type 0} (qt : Qt Date) (q : IsQt qt) where
  null_early : no_date qt qt.null_date ≡ true
  null_early = rw (q.invalid_year qt.null_date q.null_invalid) refl

  settle-Proper : (d : Date) → Proper qt (settle qt d)
  settle-Proper d = elim (Bool-cases (no_date qt d)) [
    | inl early ↦ rw (early, q.null_invalid, null_early) refl
    | inr late ↦ elim (Bool-cases (qt.is_valid d)) [
      | inl valid ↦ rw (late, valid, late) refl
      | inr invalid ↦
          absurd (true-false (ap (λ y. is_early y) (sym (q.invalid_year d invalid)) ∙ late))
    ]
  ]

  no_filter-IsSettled : IsSettled qt (no_filter qt)
  no_filter-IsSettled =
      let proper : Proper qt qt.null_date = rw (q.null_invalid, null_early) refl in
      record { created = proper; updated = proper; from = proper; until = proper }

  -- A date and what a setter makes of it ask the same.
  settle-same :
      (g : Date → Bool) (d : Date)
      → (no_date qt (settle qt d) || g (settle qt d)) ≡ (no_date qt d || g d)
  settle-same g d = elim (Bool-cases (no_date qt d)) [
    | inl early ↦ rw (early, null_early) refl
    | inr late ↦ rw (late, late) refl
  ]

  apply-IsSettled :
      (s : Setting Date) (f : Filter Date) → IsSettled qt f → IsSettled qt (apply qt s f)
  apply-IsSettled (user t) f s =
      rw (set_user qt q t f)
        (record { created = s.created; updated = s.updated; from = s.from; until = s.until })
  apply-IsSettled (create_date d) f s =
      rw (set_create_date qt q d f)
        (record { created = settle-Proper d; updated = s.updated; from = s.from; until = s.until })
  apply-IsSettled (update_date d) f s =
      rw (set_update_date qt q d f)
        (record { created = s.created; updated = settle-Proper d; from = s.from; until = s.until })
  apply-IsSettled (from_date d) f s =
      rw (set_from_date qt q d f) (record {
        created = s.created;
        updated = s.updated;
        from = settle-Proper d;
        until = s.until;
      })
  apply-IsSettled (to_date d) f s =
      rw (set_to_date qt q d f) (record {
        created = s.created;
        updated = s.updated;
        from = s.from;
        until = settle-Proper d;
      })
  apply-IsSettled (is_active t) f s =
      rw (set_is_active qt q t f)
        (record { created = s.created; updated = s.updated; from = s.from; until = s.until })
  apply-IsSettled (src_endpoint t) f s =
      rw (set_src_endpoint qt q t f)
        (record { created = s.created; updated = s.updated; from = s.from; until = s.until })
  apply-IsSettled (dst_endpoint t) f s =
      rw (set_dst_endpoint qt q t f)
        (record { created = s.created; updated = s.updated; from = s.from; until = s.until })
  apply-IsSettled (bytes_sent n) f s =
      rw (set_bytes_sent qt q n f)
        (record { created = s.created; updated = s.updated; from = s.from; until = s.until })
  apply-IsSettled (bytes_recv n) f s =
      rw (set_bytes_recv qt q n f)
        (record { created = s.created; updated = s.updated; from = s.from; until = s.until })

  met-apply :
      (s : Setting Date) (ss : List (Setting Date)) (f : Filter Date) (c : Cells Date)
      → all_met qt (settings qt (apply qt s f)) ss c ≡ all_met qt (settings qt f) (s ∷ ss) c
  met-apply (user t) ss f c = rw (set_user qt q t f) refl
  met-apply (create_date d) ss f c =
      rw
        (
          set_create_date qt q d f,
          latest-same qt (create_date (settle qt d)) (create_date d) ss c refl
              (settle-same (λ x. qt.same_date c.create_date x) d),
        )
        refl
  met-apply (update_date d) ss f c =
      rw
        (
          set_update_date qt q d f,
          latest-same qt (update_date (settle qt d)) (update_date d) ss c refl
              (settle-same (λ x. qt.same_date c.update_date x) d),
        )
        refl
  met-apply (from_date d) ss f c =
      rw
        (
          set_from_date qt q d f,
          latest-same qt (from_date (settle qt d)) (from_date d) ss c refl
              (settle-same (λ x. qt.leq_date x c.update_date) d),
        )
        refl
  met-apply (to_date d) ss f c =
      rw
        (
          set_to_date qt q d f,
          latest-same qt (to_date (settle qt d)) (to_date d) ss c refl
              (settle-same (λ x. qt.leq_date c.update_date x) d),
        )
        refl
  met-apply (is_active t) ss f c = rw (set_is_active qt q t f) refl
  met-apply (src_endpoint t) ss f c = rw (set_src_endpoint qt q t f) refl
  met-apply (dst_endpoint t) ss f c = rw (set_dst_endpoint qt q t f) refl
  met-apply (bytes_sent n) ss f c = rw (set_bytes_sent qt q n f) refl
  met-apply (bytes_recv n) ss f c = rw (set_bytes_recv qt q n f) refl

  apply_all-met :
      (ss : List (Setting Date)) (f : Filter Date) (c : Cells Date)
      → IsSettled qt f
      → accepts qt (apply_all qt ss f) c ≡ all_met qt (settings qt f) ss c
  apply_all-met [] f c s = sym (all_met-accepts qt f c s)
  apply_all-met (x ∷ ss) f c s =
      apply_all-met ss (apply qt x f) c (apply-IsSettled x f s) ∙ met-apply x ss f c

  -- After any calls of the setters, a row is shown just if it meets, for each of the ten filters, the
  -- value of the last call, or the empty filter where there was none.
  pub apply_all-accepts :
      (ss : List (Setting Date)) (c : Cells Date)
      → accepts qt (apply_all qt ss (no_filter qt)) c ≡ all_met qt (settings qt (no_filter qt)) ss c
  apply_all-accepts ss c = apply_all-met ss (no_filter qt) c no_filter-IsSettled
