-- ===== src/Ui/Setters.antt =====
-- The setters of ui/sortfiltersessionmodel.cpp: each puts its value in place.
use socks5_proxy_sum_2022_co.Prelude.{
  ◌≡◌, refl, ap, Bool, true, false, List, [], ◌∷◌, Bytes, bytes_eq, bytes_eq_iff, ==_iff,
  if◌then◌else◌,
}
use socks5_proxy_sum_2022_co.World.{ℤ, pos, negsuc}
use socks5_proxy_sum_2022_co.Ui.Table.{Qt}
use socks5_proxy_sum_2022_co.Ui.Filter.{
  Filter, ℤ_eq, settle, set_user_filter, set_create_date_filter, set_update_date_filter,
  set_from_date_filter, set_to_date_filter, set_is_active_filter, set_src_endpoint_filter,
  set_dst_endpoint_filter, set_bytes_sent_filter, set_bytes_recv_filter,
}

-- The documented behaviour of `QDate`: the null date is not valid, and an invalid date has year 0.
pub record IsQt {Date : Type 0} (qt : Qt Date) : Type 0 where
  pub same_date_iff : (d e : Date) → qt.same_date d e ≡ true → d ≡ e
  pub null_invalid : qt.is_valid qt.null_date ≡ false
  pub invalid_year : (d : Date) → qt.is_valid d ≡ false → qt.year d ≡ pos 0

-- A call of a setter.
pub data Setting (Date : Type 0) : Type 0 where
  user is_active src_endpoint dst_endpoint : Bytes → Setting Date
  create_date update_date from_date to_date : Date → Setting Date
  bytes_sent bytes_recv : ℤ → Setting Date

ℤ_eq-true : (a b : ℤ) → ℤ_eq a b ≡ true → a ≡ b
ℤ_eq-true (pos m) (pos n) h = ap pos ((==_iff m n).0 h)
ℤ_eq-true (negsuc m) (negsuc n) h = ap negsuc ((==_iff m n).0 h)
ℤ_eq-true (pos m) (negsuc n) h = cc
ℤ_eq-true (negsuc m) (pos n) h = cc

-- A guarded assignment, where the guard finds the value in place.
placed :
    {A : Type 0} (b : Bool) (f g : A)
    → (b ≡ true → f ≡ g)
    → (if◌then◌else◌ {A = Bool × A} b (false, f) (true, g)).1 ≡ g
placed true f g h = h refl
placed false f g h = refl

module _ {Date : Type 0} (qt : Qt Date) where
  abbrev pub apply : Setting Date → Filter Date → Filter Date
  apply (user t) f = (set_user_filter qt t f).1
  apply (create_date d) f = (set_create_date_filter qt d f).1
  apply (update_date d) f = (set_update_date_filter qt d f).1
  apply (from_date d) f = (set_from_date_filter qt d f).1
  apply (to_date d) f = (set_to_date_filter qt d f).1
  apply (is_active t) f = (set_is_active_filter qt t f).1
  apply (src_endpoint t) f = (set_src_endpoint_filter qt t f).1
  apply (dst_endpoint t) f = (set_dst_endpoint_filter qt t f).1
  apply (bytes_sent n) f = (set_bytes_sent_filter qt n f).1
  apply (bytes_recv n) f = (set_bytes_recv_filter qt n f).1

  abbrev pub apply_all : List (Setting Date) → Filter Date → Filter Date
  apply_all [] f = f
  apply_all (s ∷ ss) f = apply_all ss (apply s f)

module _ {Date : Type 0} (qt : Qt Date) (q : IsQt qt) where
  -- A setter puts its value in place, whether it finds it there or not.
  pub set_user : (t : Bytes) (f : Filter Date) → apply qt (user t) f ≡ record f { user = t }
  unfolding set_user_filter
  set_user t f =
      placed (bytes_eq f.user t) f (record f { user = t })
        λ there. ap (λ x. record f { user = x }) ((bytes_eq_iff f.user t).0 there)

  pub set_is_active :
      (t : Bytes) (f : Filter Date) → apply qt (is_active t) f ≡ record f { is_active = t }
  unfolding set_is_active_filter
  set_is_active t f =
      placed (bytes_eq f.is_active t) f (record f { is_active = t })
        λ there. ap (λ x. record f { is_active = x }) ((bytes_eq_iff f.is_active t).0 there)

  pub set_src_endpoint :
      (t : Bytes) (f : Filter Date) → apply qt (src_endpoint t) f ≡ record f { src_endpoint = t }
  unfolding set_src_endpoint_filter
  set_src_endpoint t f =
      placed (bytes_eq f.src_endpoint t) f (record f { src_endpoint = t })
        λ there. ap (λ x. record f { src_endpoint = x }) ((bytes_eq_iff f.src_endpoint t).0 there)

  pub set_dst_endpoint :
      (t : Bytes) (f : Filter Date) → apply qt (dst_endpoint t) f ≡ record f { dst_endpoint = t }
  unfolding set_dst_endpoint_filter
  set_dst_endpoint t f =
      placed (bytes_eq f.dst_endpoint t) f (record f { dst_endpoint = t })
        λ there. ap (λ x. record f { dst_endpoint = x }) ((bytes_eq_iff f.dst_endpoint t).0 there)

  pub set_create_date :
      (d : Date) (f : Filter Date)
      → apply qt (create_date d) f ≡ record f { create_date = settle qt d }
  unfolding set_create_date_filter
  set_create_date d f =
      placed (qt.same_date f.create_date (settle qt d)) f (record f { create_date = settle qt d })
        λ there.
          ap (λ x. record f { create_date = x }) (q.same_date_iff f.create_date (settle qt d) there)

  pub set_update_date :
      (d : Date) (f : Filter Date)
      → apply qt (update_date d) f ≡ record f { update_date = settle qt d }
  unfolding set_update_date_filter
  set_update_date d f =
      placed (qt.same_date f.update_date (settle qt d)) f (record f { update_date = settle qt d })
        λ there.
          ap (λ x. record f { update_date = x }) (q.same_date_iff f.update_date (settle qt d) there)

  pub set_from_date :
      (d : Date) (f : Filter Date) → apply qt (from_date d) f ≡ record f { from_date = settle qt d }
  unfolding set_from_date_filter
  set_from_date d f =
      placed (qt.same_date f.from_date (settle qt d)) f (record f { from_date = settle qt d })
        λ there.
          ap (λ x. record f { from_date = x }) (q.same_date_iff f.from_date (settle qt d) there)

  pub set_to_date :
      (d : Date) (f : Filter Date) → apply qt (to_date d) f ≡ record f { to_date = settle qt d }
  unfolding set_to_date_filter
  set_to_date d f =
      placed (qt.same_date f.to_date (settle qt d)) f (record f { to_date = settle qt d })
        λ there. ap (λ x. record f { to_date = x }) (q.same_date_iff f.to_date (settle qt d) there)

  pub set_bytes_sent :
      (n : ℤ) (f : Filter Date) → apply qt (bytes_sent n) f ≡ record f { bytes_sent = n }
  unfolding set_bytes_sent_filter
  set_bytes_sent n f =
      placed (ℤ_eq f.bytes_sent n) f (record f { bytes_sent = n })
        λ there. ap (λ x. record f { bytes_sent = x }) (ℤ_eq-true f.bytes_sent n there)

  pub set_bytes_recv :
      (n : ℤ) (f : Filter Date) → apply qt (bytes_recv n) f ≡ record f { bytes_recv = n }
  unfolding set_bytes_recv_filter
  set_bytes_recv n f =
      placed (ℤ_eq f.bytes_recv n) f (record f { bytes_recv = n })
        λ there. ap (λ x. record f { bytes_recv = x }) (ℤ_eq-true f.bytes_recv n there)
