-- ===== src/Base/Action.antt =====
-- A method call: state and exceptions. What was written before a `raise` stays written.
use mathlib.Core.Bool.{Bool, true, false}

pub data Result {ℓ κ} (E : Type κ) (A : Type ℓ) : Type (ℓ ⊔ κ) where
  returned : A → Result E A
  raised : E → Result E A

abbrev pub Action : Type 0 → Type 0 → Type 0 → Type 0
Action S E A = S → Result E A × S

module _ {S E A : Type 0} where
  unfoldable pub pure : A → Action S E A
  pure a s = (returned a, s)

  unfoldable pub raise : E → Action S E A
  raise e s = (raised e, s)

  unfoldable pub gets : (S → A) → Action S E A
  gets f s = (returned (f s), s)

  -- `try: m except: handle`
  unfoldable pub catch : Action S E A → (E → Action S E A) → Action S E A
  catch m handle s =
      let (r, t) = m s in elim r [ returned a ↦ (returned a, t) | raised e ↦ handle e t ]

module _ {S E : Type 0} where
  unfoldable pub modify : (S → S) → Action S E (Unit {0})
  modify f s = (returned tt, f s)

  unfoldable pub raise_if : Bool → E → Action S E (Unit {0})
  raise_if true e s = (raised e, s)
  raise_if false e s = (returned tt, s)

  unfoldable pub when : Bool → Action S E (Unit {0}) → Action S E (Unit {0})
  when true m = m
  when false m = pure tt

infixl 5 ◌>>=◌ ◌>>◌
unfoldable pub ◌>>=◌ : {S E A B : Type 0} → Action S E A → (A → Action S E B) → Action S E B
◌>>=◌ m f s = let (r, t) = m s in elim r [ returned a ↦ f a t | raised e ↦ (raised e, t) ]

unfoldable pub ◌>>◌ : {S E A B : Type 0} → Action S E A → Action S E B → Action S E B
m >> k = m >>= λ _. k
