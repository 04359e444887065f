-- ===== src/Base/Sort.antt =====
-- `list.sort(key=…)`: a stable sort by an integer, on values with their keys. What it returns is
-- ascending, and keeps the values of one key in the order in which they came.
use mathlib.Core.Path.{◌≡◌, refl, ◌∙◌}
use mathlib.Core.Bool.{Bool, true, false, ◌&&◌}
use mathlib.Core.List.{List, [], ◌∷◌}
use native.Mathlib.Omega.{arith}
use agent_workbench.Base.Tests.{if◌then◌else◌}
use agent_workbench.Base.Lists.{All, keep}
use agent_workbench.Base.Int.{ℤ, leb_ℤ, ◌≤ℤ◌}

pub record Keyed (A : Type 0) : Type 0 where
  pub key : ℤ
  pub value : A

module _ {A : Type 0} where
  unfoldable pub insert_keyed : Keyed A → List (Keyed A) → List (Keyed A)
  insert_keyed x [] = x ∷ []
  insert_keyed x (y ∷ ys) =
      let rest = insert_keyed x ys in if leb_ℤ x.key y.key then x ∷ y ∷ ys else y ∷ rest

  unfoldable pub sort_keyed : List (Keyed A) → List (Keyed A)
  sort_keyed [] = []
  sort_keyed (x ∷ xs) = insert_keyed x (sort_keyed xs)

  abbrev pub IsBelow : Keyed A → List (Keyed A) → Type 0
  IsBelow x = All (λ y. x.key ≤ℤ y.key)

  abbrev pub IsSorted : List (Keyed A) → Type 0
  IsSorted [] = Unit
  IsSorted (x ∷ xs) = IsBelow x xs × IsSorted xs

  -- The values of one key, in their order
  abbrev pub of_key : ℤ → List (Keyed A) → List (Keyed A)
  of_key k = keep (λ y. leb_ℤ y.key k && leb_ℤ k y.key)

  IsBelow-insert_keyed :
      (z x : Keyed A) (ys : List (Keyed A))
      → z.key ≤ℤ x.key
      → IsBelow z ys
      → IsBelow z (insert_keyed x ys)
  unfolding insert_keyed
  IsBelow-insert_keyed z x [] h below = (h, tt)
  IsBelow-insert_keyed z x (y ∷ ys) h below =
      elim (leb_ℤ x.key y.key)
        as (λ b. IsBelow z (if b then x ∷ y ∷ ys else y ∷ insert_keyed x ys)) [
          | true ↦ (h, below)
          | false ↦ (below.0, IsBelow-insert_keyed z x ys h below.1)
        ]

  IsBelow-trans :
      (z x : Keyed A) (ys : List (Keyed A)) → z.key ≤ℤ x.key → IsBelow x ys → IsBelow z ys
  IsBelow-trans z x [] h below = tt
  IsBelow-trans z x (y ∷ ys) h below = (omega arith, IsBelow-trans z x ys h below.1)

  branch-IsSorted :
      (b : Bool) (x y : Keyed A) (ys : List (Keyed A))
      → leb_ℤ x.key y.key ≡ b
      → IsBelow y ys
      → IsSorted ys
      → IsSorted (insert_keyed x ys)
      → IsSorted (if b then x ∷ y ∷ ys else y ∷ insert_keyed x ys)
  branch-IsSorted true x y ys e below s s' =
      let h : x.key ≤ℤ y.key = ground arith in ((h, IsBelow-trans x y ys h below), (below, s))
  branch-IsSorted false x y ys e below s s' = (IsBelow-insert_keyed y x ys (ground arith) below, s')

  insert_keyed-IsSorted :
      (x : Keyed A) (ys : List (Keyed A)) → IsSorted ys → IsSorted (insert_keyed x ys)
  unfolding insert_keyed
  insert_keyed-IsSorted x [] s = (tt, tt)
  insert_keyed-IsSorted x (y ∷ ys) s =
      branch-IsSorted (leb_ℤ x.key y.key) x y ys refl s.0 s.1 (insert_keyed-IsSorted x ys s.1)

  pub sort_keyed-IsSorted : (xs : List (Keyed A)) → IsSorted (sort_keyed xs)
  unfolding sort_keyed
  sort_keyed-IsSorted [] = tt
  sort_keyed-IsSorted (x ∷ xs) = insert_keyed-IsSorted x (sort_keyed xs) (sort_keyed-IsSorted xs)

  of_key-insert_keyed :
      (k : ℤ) (x : Keyed A) (ys : List (Keyed A)) → of_key k (insert_keyed x ys) ≡ of_key k (x ∷ ys)
  unfolding insert_keyed
  of_key-insert_keyed k x [] = refl
  of_key-insert_keyed k x (y ∷ ys) = ground (arith, of_key-insert_keyed k x ys)

  pub of_key-sort_keyed : (k : ℤ) (xs : List (Keyed A)) → of_key k (sort_keyed xs) ≡ of_key k xs
  unfolding sort_keyed
  of_key-sort_keyed k [] = refl
  of_key-sort_keyed k (x ∷ xs) =
      of_key-insert_keyed k x (sort_keyed xs) ∙ ground (arith, of_key-sort_keyed k xs)
