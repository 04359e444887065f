-- ===== src/Base/Ends.antt =====
-- What an action's result satisfies, with one rule for each way to build an action.
use agent_workbench.Base.{◌≡◌, subst, Bool, true, false, if◌then◌else◌}
use agent_workbench.Base.Action.{
  Action, Result, returned, raised, pure, raise, gets, catch, modify, raise_if, when, ◌>>=◌, ◌>>◌,
}
use agent_workbench.Base.Keeps.{Leads}

unfoldable pub Met :
    {S E A : Type 0} → (Q : A → S → Type 0) → (X : E → S → Type 0) → Result E A → S → Type 0
Met Q X (returned a) s = Q a s
Met Q X (raised e) s = X e s

abbrev pub MetPair :
    {S E A : Type 0} → (A → S → Type 0) → (E → S → Type 0) → Result E A × S → Type 0
MetPair Q X p = Met Q X p.0 p.1

-- From a state with `P`, an action returns with `Q` or raises with `X`.
pub record Ends {S E A : Type 0} (P : S → Type 0) (Q : A → S → Type 0) (X : E → S → Type 0)
    (m : Action S E A) : Type 0 where
  pub at : (s : S) → P s → Met Q X (m s).0 (m s).1

-- No condition.
abbrev pub Any1 : {S : Type 0} → S → Type 0
Any1 s = Unit {0}

abbrev pub Any : {S E : Type 0} → E → S → Type 0
Any e s = Unit {0}

module _ {S E A : Type 0} {P : S → Type 0} {Q : A → S → Type 0} {X : E → S → Type 0} where
  pub Ends-pure : (a : A) → ((s : S) → P s → Q a s) → Ends P Q X (pure a)
  unfolding pure Met
  Ends-pure a h = record { at = h }

  pub Ends-raise : (e : E) → ((s : S) → P s → X e s) → Ends P Q X (raise e)
  unfolding raise Met
  Ends-raise e h = record { at = h }

  pub Ends-if :
      (b : Bool) (m n : Action S E A)
      → Ends P Q X m
      → Ends P Q X n
      → Ends P Q X (if b then m else n)
  Ends-if true m n km kn = km
  Ends-if false m n km kn = kn

  pub Ends-if-false :
      (b : Bool) (m n : Action S E A) → b ≡ false → Ends P Q X n → Ends P Q X (if b then m else n)
  Ends-if-false true m n p kn = absurd (cc p)
  Ends-if-false false m n p kn = kn

module _ {S E A B : Type 0} {Q : B → S → Type 0} {X : E → S → Type 0} where
  bound :
      {R : A → S → Type 0} (r : Result E A) (s : S) (f : A → Action S E B)
      → Met R X r s
      → ((a : A) → Ends (R a) Q X (f a))
      → MetPair Q X (elim r [ returned a ↦ f a s | raised e ↦ (raised e, s) ])
  unfolding Met
  bound (returned a) s f met kf = (kf a).at s met
  bound (raised e) s f met kf = met

  pub Ends-bind :
      {P : S → Type 0} {R : A → S → Type 0} (m : Action S E A) (f : A → Action S E B)
      → Ends P R X m
      → ((a : A) → Ends (R a) Q X (f a))
      → Ends P Q X (m >>= f)
  unfolding ◌>>=◌
  Ends-bind m f km kf = record { at = λ s h. let (r, t) = m s in bound r t f (km.at s h) kf }

  pub Ends-then :
      {P R : S → Type 0} (m : Action S E A) (k : Action S E B)
      → Ends P (λ _. R) X m
      → Ends R Q X k
      → Ends P Q X (m >> k)
  unfolding ◌>>◌
  Ends-then m k km kk = Ends-bind m (λ _. k) km (λ _. kk)

-- What an action leads to holds after it, where what it raises is known.
both :
    {S E A : Type 0} (R : S → Type 0) (X : E → S → Type 0) (r : Result E A) (s : S)
    → Met {A = A} (λ _ _. Unit {0}) X r s
    → R s
    → Met {A = A} (λ _. R) X r s
unfolding Met
both R X (returned a) s met h = h
both R X (raised e) s met h = met

module _ {S E A : Type 0} {P R : S → Type 0} {X : E → S → Type 0} where
  pub Ends-Leads :
      (m : Action S E A) → Ends Any1 (λ _ _. Unit {0}) X m → Leads P R m → Ends P (λ _. R) X m
  Ends-Leads m ends leads = record {
    at = λ s h. both R X (m s).0 (m s).1 (ends.at s tt) (leads.at s h);
  }

anything :
    {S E A : Type 0} (r : Result E A) (s : S)
    → Met {S = S} {E = E} {A = A} (λ _ _. Unit {0}) (λ _ _. Unit {0}) r s
unfolding Met
anything (returned a) s = tt
anything (raised e) s = tt

pub Ends-any :
    {S E A : Type 0} {P : S → Type 0} (m : Action S E A)
    → Ends P (λ _ _. Unit {0}) (λ _ _. Unit {0}) m
Ends-any m = record { at = λ s h. anything (m s).0 (m s).1 }

module _ {S E A : Type 0} {Q : A → S → Type 0} {Y : E → S → Type 0} where
  caught :
      {X : E → S → Type 0} (r : Result E A) (s : S) (f : E → Action S E A)
      → Met Q X r s
      → ((e : E) → Ends (X e) Q Y (f e))
      → MetPair Q Y (elim r [ returned a ↦ (returned a, s) | raised e ↦ f e s ])
  unfolding Met
  caught (returned a) s f met kf = met
  caught (raised e) s f met kf = (kf e).at s met

  pub Ends-catch :
      {P : S → Type 0} {X : E → S → Type 0} (m : Action S E A) (f : E → Action S E A)
      → Ends P Q X m
      → ((e : E) → Ends (X e) Q Y (f e))
      → Ends P Q Y (catch m f)
  unfolding catch
  Ends-catch m f km kf = record { at = λ s h. let (r, t) = m s in caught r t f (km.at s h) kf }

module _ {S E : Type 0} {P : S → Type 0} {X : E → S → Type 0} where
  pub Ends-gets : {A : Type 0} (f : S → A) → Ends P (λ _. P) X (gets f)
  unfolding gets Met
  Ends-gets f = record { at = λ s h. h }

  pub Ends-modify :
      {Q : S → Type 0} (f : S → S) → ((s : S) → P s → Q (f s)) → Ends P (λ _. Q) X (modify f)
  unfolding modify Met
  Ends-modify f h = record { at = h }

  pub Ends-raise_if :
      (b : Bool) (e : E) → ((s : S) → P s → X e s) → Ends P (λ _. P) X (raise_if b e)
  unfolding raise_if Met
  Ends-raise_if true e h = record { at = h }
  Ends-raise_if false e h = record { at = λ s p. p }

  pub Ends-when :
      (b : Bool) (m : Action S E (Unit {0})) → Ends P (λ _. P) X m → Ends P (λ _. P) X (when b m)
  unfolding when
  Ends-when true m km = km
  Ends-when false m km = Ends-pure tt (λ s h. h)

taken :
    {S E A : Type 0} (Q : A → S → Type 0) (X : E → S → Type 0) (r : Result E A) (s : S) (a : A)
    → Met Q X r s
    → r ≡ returned a
    → Q a s
unfolding Met
taken Q X (returned b) s a met h = let same : b ≡ a = cc h in subst (λ x. Q x s) same met
taken Q X (raised e) s a met h = absurd (cc h)

either :
    {S E A : Type 0} (P : S → Type 0) (r : Result E A) (s : S)
    → Met {A = A} (λ _. P) (λ _. P) r s
    → P s
unfolding Met
either P (returned a) s met = met
either P (raised e) s met = met

-- What is known of the end of one run.
module _ {S E A : Type 0} (m : Action S E A) (s : S) {P : S → Type 0} where
  pub Ends-returned :
      {Q : A → S → Type 0} {X : E → S → Type 0} (a : A)
      → Ends P Q X m
      → P s
      → (m s).0 ≡ returned a
      → Q a (m s).1
  Ends-returned {Q} {X} a ends h = taken Q X (m s).0 (m s).1 a (ends.at s h)

  pub Ends-either : {R : S → Type 0} → Ends P (λ _. R) (λ _. R) m → P s → R (m s).1
  Ends-either {R} ends h = either R (m s).0 (m s).1 (ends.at s h)

-- What follows a look at the state may use what was seen.
module _ {S E A B : Type 0} {P : S → Type 0} {Q : B → S → Type 0} {X : E → S → Type 0} where
  pub Ends-look :
      (f : S → A) (k : A → Action S E B)
      → ((s : S) → P s → MetPair Q X (k (f s) s))
      → Ends P Q X (gets f >>= k)
  unfolding gets ◌>>=◌
  Ends-look f k h = record { at = h }
