-- ===== src/World/Triple.antt =====
-- Rules for what a method of src/session.cpp, src/socks.cpp, src/socks4.cpp or src/socks5.cpp
-- ensures: a precondition, a method of the monad, and a condition on its result and state.
use mathlib.Core.Path.{subst}
use socks5_proxy_sum_2022_co.Prelude.{◌≡◌, refl, sym, ◌∙◌, Bool, true, false, if◌then◌else◌}
use socks5_proxy_sum_2022_co.World.{
  World, Outcome, returned, thrown, out_of_fuel, M, pure, modify, get, ◌>>=◌, on_return,
}

abbrev pub Pred : Type 0 → Type 0 → Type 1
Pred Net Db = World Net Db → Type 0

module _ {Net Db A : Type 0} where
  pub record Triple (P : Pred Net Db) (m : M Net Db A) (Q : A → Pred Net Db) : Type 0 where
    pub at : (w : World Net Db) → P w → Q (m w).0 (m w).1

module _ {Net Db : Type 0} where
  pub Triple-bind :
      {A B : Type 0} {P : Pred Net Db} {m : M Net Db A} {f : A → M Net Db B} {R : A → Pred Net Db}
      {Q : B → Pred Net Db}
      → Triple P m R
      → ((a : A) → Triple (R a) (f a) Q)
      → Triple P (m >>= f) Q
  unfolding ◌>>=◌
  Triple-bind {m} s t = record { at = λ w p. (t (m w).0).at (m w).1 (s.at w p) }

  pub Triple-pure :
      {A : Type 0} {P : Pred Net Db} (a : A) {Q : A → Pred Net Db}
      → ((w : World Net Db) → P w → Q a w)
      → Triple P (pure a) Q
  unfolding pure
  Triple-pure a h = record { at = h }

  pub Triple-modify :
      {P : Pred Net Db} (g : World Net Db → World Net Db) {Q : Unit {0} → Pred Net Db}
      → ((w : World Net Db) → P w → Q tt (g w))
      → Triple P (modify g) Q
  unfolding modify
  Triple-modify g h = record { at = h }

  pub Triple-if :
      {A : Type 0} {P : Pred Net Db} (b : Bool) {x y : M Net Db A} {Q : A → Pred Net Db}
      → (b ≡ true → Triple P x Q)
      → (b ≡ false → Triple P y Q)
      → Triple P (if b then x else y) Q
  Triple-if true t f = t refl
  Triple-if false t f = f refl

  pub Triple-on_return :
      {A B : Type 0} (P : Outcome A → Pred Net Db) (o : Outcome A) {f : A → M Net Db (Outcome B)}
      {Q : Outcome B → Pred Net Db}
      → ((a : A) → Triple (P (returned a)) (f a) Q)
      → ((w : World Net Db) → P thrown w → Q thrown w)
      → ((w : World Net Db) → P out_of_fuel w → Q out_of_fuel w)
      → Triple (P o) (on_return o f) Q
  unfolding on_return pure
  Triple-on_return P (returned a) t x y = t a
  Triple-on_return P thrown t x y = record { at = x }
  Triple-on_return P out_of_fuel t x y = record { at = y }

  pub Triple-weaken :
      {A : Type 0} {P P' : Pred Net Db} {m : M Net Db A} {Q Q' : A → Pred Net Db}
      → Triple P' m Q'
      → ((w : World Net Db) → P w → P' w)
      → ((a : A) (w : World Net Db) → Q' a w → Q a w)
      → Triple P m Q
  Triple-weaken t p q = record { at = λ w h. q _ _ (t.at w (p w h)) }

-- A method that leaves `f` of the state as it was.
module _ {Net Db X A : Type 0} where
  pub record Keeps (f : World Net Db → X) (m : M Net Db A) : Type 0 where
    pub at : (w : World Net Db) → f (m w).1 ≡ f w

module _ {Net Db X : Type 0} {f : World Net Db → X} where
  pub Keeps-bind :
      {A B : Type 0} {m : M Net Db A} {k : A → M Net Db B}
      → Keeps f m
      → ((a : A) → Keeps f (k a))
      → Keeps f (m >>= k)
  unfolding ◌>>=◌
  Keeps-bind {m} s t = record { at = λ w. (t (m w).0).at (m w).1 ∙ s.at w }

  pub Keeps-pure : {A : Type 0} (a : A) → Keeps f (pure a)
  unfolding pure
  Keeps-pure a = record { at = λ w. refl }

  pub Keeps-get : Keeps f get
  unfolding get
  Keeps-get = record { at = λ w. refl }

  pub Keeps-modify :
      (g : World Net Db → World Net Db) → ((w : World Net Db) → f (g w) ≡ f w) → Keeps f (modify g)
  unfolding modify
  Keeps-modify g h = record { at = h }

  pub Keeps-if :
      {A : Type 0} (b : Bool) {x y : M Net Db A}
      → Keeps f x
      → Keeps f y
      → Keeps f (if b then x else y)
  Keeps-if true s t = s
  Keeps-if false s t = t

  pub Keeps-on_return :
      {A B : Type 0} (o : Outcome A) {k : A → M Net Db (Outcome B)}
      → ((a : A) → Keeps f (k a))
      → Keeps f (on_return o k)
  unfolding on_return pure
  Keeps-on_return (returned a) t = t a
  Keeps-on_return thrown t = record { at = λ w. refl }
  Keeps-on_return out_of_fuel t = record { at = λ w. refl }

pub ruleset keeps_rules =
    (Keeps-bind, Keeps-pure, Keeps-get, Keeps-modify, Keeps-if, Keeps-on_return)

module _ {Net Db : Type 0} {P : Pred Net Db} where
  pub Triple-get : Triple P get (λ _. P)
  unfolding get
  Triple-get = record { at = λ w p. p }

module _ {Net Db A : Type 0} {P : Pred Net Db} where
  -- Nothing is asked of a call whose result alone matters.
  pub Triple-any : (m : M Net Db A) → Triple P m (λ _ _. Unit {0})
  Triple-any m = record { at = λ w p. tt }

module _ {Net Db A B : Type 0} {P S : Pred Net Db} where
  -- A call whose result is known: what follows is at that result.
  pub Triple-then :
      {m : M Net Db A} (f : A → M Net Db B) {Q : B → Pred Net Db} (a : A)
      → Triple P m (λ r w. (r ≡ a) × S w)
      → Triple S (f a) Q
      → Triple P (m >>= f) Q
  unfolding ◌>>=◌
  Triple-then {m} f {Q} a s t = record {
    at = λ w p.
        let (same, h) = s.at w p in
        subst (λ r. Q (f r (m w).1).0 (f r (m w).1).1) (sym same) (t.at (m w).1 h);
  }

-- What follows a call has returned only if the call has.
pub on_return-eq-returned :
    {Net Db A B : Type 0} (o : Outcome A) (f : A → M Net Db (Outcome B)) (w : World Net Db) {b : B}
    → (on_return o f w).0 ≡ returned b
    → (a : A) × (o ≡ returned a) × ((f a w).0 ≡ returned b)
unfolding on_return pure
on_return-eq-returned (returned a) f w h = (a, refl, h)
on_return-eq-returned thrown f w h = cc
on_return-eq-returned out_of_fuel f w h = cc
