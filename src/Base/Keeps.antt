-- ===== src/Base/Keeps.antt =====
-- Invariants of actions, with one rule for each way to build an action.
use agent_workbench.Base.{◌≡◌, refl, Bool, true, false, if◌then◌else◌}
use agent_workbench.Base.Action.{
  Action, Result, returned, raised, pure, raise, gets, catch, modify, raise_if, when, ◌>>=◌, ◌>>◌,
}

-- From a state with `P`, an action ends in one with `Q`, whether it returns or raises.
pub record Leads {S E A : Type 0} (P : S → Type 0) (Q : S → Type 0) (m : Action S E A)
    : Type 0 where
  pub at : (s : S) → P s → Q (m s).1

abbrev pub Keeps : {S E A : Type 0} → (S → Type 0) → Action S E A → Type 0
Keeps P m = Leads P P m

module _ {S E A : Type 0} {P : S → Type 0} where
  pub Keeps-pure : (a : A) → Keeps {E = E} P (pure a)
  unfolding pure
  Keeps-pure a = record { at = λ s h. h }

  pub Keeps-raise : (e : E) → Keeps {A = A} P (raise e)
  unfolding raise
  Keeps-raise e = record { at = λ s h. h }

  pub Keeps-gets : (f : S → A) → Keeps {E = E} P (gets f)
  unfolding gets
  Keeps-gets f = record { at = λ s h. h }

  pub Keeps-if :
      (b : Bool) (m n : Action S E A) → Keeps P m → Keeps P n → Keeps P (if b then m else n)
  Keeps-if true m n km kn = km
  Keeps-if false m n km kn = kn

module _ {S E : Type 0} {P : S → Type 0} where
  pub Keeps-modify : (f : S → S) → ((s : S) → P s → P (f s)) → Keeps {E = E} P (modify f)
  unfolding modify
  Keeps-modify f h = record { at = h }

  pub Keeps-raise_if : (b : Bool) (e : E) → Keeps P (raise_if b e)
  unfolding raise_if
  Keeps-raise_if true e = record { at = λ s h. h }
  Keeps-raise_if false e = record { at = λ s h. h }

  pub Keeps-when : (b : Bool) (m : Action S E (Unit {0})) → Keeps P m → Keeps P (when b m)
  unfolding when
  Keeps-when true m km = km
  Keeps-when false m km = Keeps-pure tt

module _ {S E A B : Type 0} {Q R : S → Type 0} where
  bound :
      (r : Result E A) (f : A → Action S E B)
      → ((s : S) → Q s → R s)
      → ((a : A) → Leads Q R (f a))
      → Leads {E = E} {A = B} Q R (λ t. elim r [ returned a ↦ f a t | raised e ↦ (raised e, t) ])
  bound (returned a) f weaker kf = kf a
  bound (raised e) f weaker kf = record { at = weaker }

  -- A middle assertion that is as good as the last one where the first action raises.
  pub Leads-bind :
      {P : S → Type 0} (m : Action S E A) (f : A → Action S E B)
      → ((s : S) → Q s → R s)
      → Leads P Q m
      → ((a : A) → Leads Q R (f a))
      → Leads P R (m >>= f)
  unfolding ◌>>=◌
  Leads-bind m f weaker km kf = record {
    at = λ s h. let (r, t) = m s in (bound r f weaker kf).at t (km.at s h);
  }

  pub Leads-then :
      {P : S → Type 0} (m : Action S E A) (k : Action S E B)
      → ((s : S) → Q s → R s)
      → Leads P Q m
      → Leads Q R k
      → Leads P R (m >> k)
  unfolding ◌>>◌
  Leads-then m k weaker km kk = Leads-bind m (λ _. k) weaker km (λ _. kk)

module _ {S E A B : Type 0} {P : S → Type 0} where
  pub Keeps-bind :
      (m : Action S E A) (f : A → Action S E B)
      → Keeps P m
      → ((a : A) → Keeps P (f a))
      → Keeps P (m >>= f)
  Keeps-bind m f = Leads-bind m f (λ s h. h)

  pub Keeps-then : (m : Action S E A) (k : Action S E B) → Keeps P m → Keeps P k → Keeps P (m >> k)
  unfolding ◌>>◌
  Keeps-then m k km kk = Keeps-bind m (λ _. k) km (λ _. kk)

module _ {S E A : Type 0} {Q : S → Type 0} where
  caught :
      (r : Result E A) (f : E → Action S E A)
      → ((e : E) → Keeps Q (f e))
      → Keeps {E = E} {A = A} Q (λ t. elim r [ returned a ↦ (returned a, t) | raised e ↦ f e t ])
  caught (returned a) f kf = record { at = λ s h. h }
  caught (raised e) f kf = kf e

  pub Leads-catch :
      {P : S → Type 0} (m : Action S E A) (f : E → Action S E A)
      → Leads P Q m
      → ((e : E) → Keeps Q (f e))
      → Leads P Q (catch m f)
  unfolding catch
  Leads-catch m f km kf = record {
    at = λ s h. let (r, t) = m s in (caught r f kf).at t (km.at s h);
  }

pub ruleset keeps_rules = (
  Keeps-pure, Keeps-raise, Keeps-gets, Keeps-if, Leads-catch, Keeps-raise_if, Keeps-when,
  Keeps-bind, Keeps-then,
)

-- The rest of a block may use that the test did not raise.
module _ {S E B : Type 0} {P Q : S → Type 0} where
  pub Leads-raise_if :
      (b : Bool) (e : E) (k : Action S E B)
      → ((s : S) → P s → Q s)
      → (b ≡ false → Leads P Q k)
      → Leads P Q (raise_if b e >> k)
  unfolding raise_if ◌>>◌ ◌>>=◌
  Leads-raise_if true e k weaker kk = record { at = weaker }
  Leads-raise_if false e k weaker kk = record { at = λ s h. (kk refl).at s h }

  pub Keeps-weaken : (m : Action S E B) → ((s : S) → P s → Q s) → Keeps Q m → Leads P Q m
  Keeps-weaken m weaker km = record { at = λ s h. km.at s (weaker s h) }

-- A handler that starts from what the action leads to.
module _ {S E A : Type 0} {R Q : S → Type 0} where
  handled :
      (r : Result E A) (f : E → Action S E A)
      → ((s : S) → R s → Q s)
      → ((e : E) → Leads R Q (f e))
      → Leads {E = E} {A = A} R Q (λ t. elim r [ returned a ↦ (returned a, t) | raised e ↦ f e t ])
  handled (returned a) f weaker kf = record { at = weaker }
  handled (raised e) f weaker kf = kf e

  pub Leads-handle :
      {P : S → Type 0} (m : Action S E A) (f : E → Action S E A)
      → ((s : S) → R s → Q s)
      → Leads P R m
      → ((e : E) → Leads R Q (f e))
      → Leads P Q (catch m f)
  unfolding catch
  Leads-handle m f weaker km kf = record {
    at = λ s h. let (r, t) = m s in (handled r f weaker kf).at t (km.at s h);
  }

  pub Leads-if :
      (b : Bool) (m n : Action S E A)
      → (b ≡ true → Leads R Q m)
      → (b ≡ false → Leads R Q n)
      → Leads R Q (if b then m else n)
  Leads-if true m n km kn = km refl
  Leads-if false m n km kn = kn refl
