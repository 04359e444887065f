-- ===== src/Runtime/Retry/Recovery.antt =====
-- When call_with_retry succeeds.
use agent_workbench.Base.{
  ℕ, zero, suc, ◌+◌, ◌≤◌, ◌≡◌, refl, ap, ◌∙◌, Bool, true, false, List, [], ◌∷◌, ◌++◌, map, length,
  All, arith, if◌then◌else◌,
}
use agent_workbench.Base.Action.{
  Action, Result, returned, raised, gets, modify, raise_if, catch, ◌>>=◌, ◌>>◌,
}
use agent_workbench.Runtime.Errors.{
  RuntimeExn, model_error, model_timeout_error, model_validation_error, budget_exceeded,
  cancelled_error, timeout_error, connection_error, other_error, is_retryable,
}
use agent_workbench.Runtime.Retry.{
  Retrying, RetryPolicy, backoff, as_model_timeout, is_cancelled, try_once, check_cancelled,
  attempts, call_with_retry,
}

-- A call whose outcomes are given, one for each try.
unfoldable pub scripted : {A : Type 0} → Action (List (Result RuntimeExn A)) RuntimeExn A
scripted [] = (raised cancelled_error, [])
scripted (r ∷ rs) = (r, rs)

-- The waits after the tries from the given one on, the latest first
unfoldable pub backoffs : RetryPolicy → ℕ → List RuntimeExn → List ℕ → List ℕ
backoffs p i [] waits = waits
backoffs p i (e ∷ errors) waits = backoffs p (i + 1) errors (backoff p i ∷ waits)

goes_on :
    (e : RuntimeExn)
    → is_retryable e ≡ true
    → (is_cancelled (as_model_timeout e) ≡ false) × (is_retryable (as_model_timeout e) ≡ true)
unfolding is_retryable
goes_on (model_error m b) h = (refl, h)
goes_on model_timeout_error h = (refl, refl)
goes_on timeout_error h = (refl, refl)
goes_on connection_error h = (refl, refl)
goes_on (other_error n) h = (refl, h)
goes_on (model_validation_error m) h = absurd (cc h)
goes_on (budget_exceeded m b) h = absurd (cc h)
goes_on cancelled_error h = absurd (cc h)

module _ {A : Type 0} where
  abbrev pub never : List (Result RuntimeExn A) → Bool
  never rs = false

  -- The errors, then the result, then what no one asks for
  abbrev pub outcomes :
      A → List (Result RuntimeExn A) → List RuntimeExn → List (Result RuntimeExn A)
  outcomes a rest errors = map raised errors ++ returned a ∷ rest

  abbrev pub at_end :
      RetryPolicy
      → List (Result RuntimeExn A)
      → List RuntimeExn
      → ℕ
      → List ℕ
      → ℕ
      → Retrying (List (Result RuntimeExn A))
  at_end p rest errors n waits i = record {
    world = rest;
    tries = n + 1 + length errors;
    waits = backoffs p i errors waits;
  }

module _ {A : Type 0} (p : RetryPolicy) (retries : p.is_write ≡ false) (a : A)
    (rest : List (Result RuntimeExn A)) where
  same_end :
      (n k i : ℕ) (errors : List RuntimeExn) (waits : List ℕ)
      → k ≡ n + 1 + length errors
      → ◌≡◌ {A = Result RuntimeExn A × Retrying (List (Result RuntimeExn A))}
          (returned a, record { world = rest; tries = k; waits = backoffs p i errors waits })
          (returned a, at_end p rest errors n waits i)
  same_end n k i errors waits h =
      ap
        (λ (t : ℕ).
          let s : Retrying (List (Result RuntimeExn A)) = record {
            world = rest;
            tries = t;
            waits = backoffs p i errors waits;
          } in
          let r : Result RuntimeExn A = returned a in (r, s))
        h

  recovered :
      (errors : List RuntimeExn) (left i n : ℕ) (waits : List ℕ)
      → All (λ e. is_retryable e ≡ true) errors
      → length errors ≤ left
      → attempts p never scripted left i
          (record { world = outcomes a rest errors; tries = n; waits = waits })
        ≡ (returned a, at_end p rest errors n waits i)
  unfolding attempts try_once check_cancelled scripted backoffs gets modify raise_if catch backoff
      ◌>>=◌ ◌>>◌
  recovered [] zero i n waits ok h = same_end n (n + 1) i [] waits (omega arith)
  recovered [] (suc left) i n waits ok h = same_end n (n + 1) i [] waits (omega arith)
  recovered (e ∷ errors) zero i n waits ok h = absurd (omega (arith, h))
  recovered (e ∷ errors) (suc left) i n waits ok h =
      let (live, again) = goes_on e ok.0 in
      rw (live, retries, again)
        (recovered errors left (i + 1) (n + 1) (backoff p i ∷ waits) ok.1 (omega (arith, h))
          ∙ same_end n (n + 1 + 1 + length errors) i (e ∷ errors) waits (omega arith))

-- A read that fails with retryable errors and then succeeds is retried until it succeeds, if there
-- were no more errors than retries: the result is returned, no outcome after it is asked for, there
-- was one try more than errors, and the waits were the backoffs in their order.
pub call_with_retry-recovered :
    {A : Type 0} (p : RetryPolicy) (errors : List RuntimeExn) (a : A)
    → (rest : List (Result RuntimeExn A)) → p.is_write ≡ false
    → All (λ e. is_retryable e ≡ true) errors
    → length errors ≤ p.max_retries
    → call_with_retry p never scripted
        (record { world = outcomes a rest errors; tries = 0; waits = [] })
      ≡ (returned a, at_end p rest errors 0 [] 0)
unfolding call_with_retry
call_with_retry-recovered p errors a rest retries ok h =
    ap
      (λ (b : Bool).
        attempts p never scripted (if b then 0 else p.max_retries) 0
          (record { world = outcomes a rest errors; tries = 0; waits = [] }))
      retries
    ∙ recovered p retries a rest errors p.max_retries 0 0 [] ok h
