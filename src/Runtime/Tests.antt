-- ===== src/Runtime/Tests.antt =====
-- The properties of the model runtime at concrete inputs.
use agent_workbench.Base.{ℕ, ◌+◌, ◌≤◌, ◌≡◌, refl, false, List, [], ◌∷◌, All, arith, pos}
use agent_workbench.Base.Action.{returned}
use agent_workbench.Runtime.Budget.{BudgetTracker, BudgetSnapshot, default_limits, snapshot}
use agent_workbench.Runtime.Budget.Limits.{
  IsWithin, Charge, model, charge, charged, charge-IsWithin,
}
use agent_workbench.Runtime.Errors.{RuntimeExn, timeout_error, other_error, is_retryable}
use agent_workbench.Runtime.Retry.{RetryPolicy, call_with_retry}
use agent_workbench.Runtime.Retry.Bounds.{call_with_retry-Bounded}
use agent_workbench.Runtime.Retry.Recovery.{
  scripted, never, outcomes, at_end, call_with_retry-recovered,
}

abbrev fresh : BudgetTracker
fresh = record {
  limits = default_limits;
  used = record {
    model_calls = 10;
    tool_calls = 0;
    input_tokens = 0;
    output_tokens = 0;
    cost_usd = 0;
    elapsed_s = 0;
    delegation_depth = 0;
  };
  start = 0;
  now = 50;
}

abbrev one_call : Charge
one_call = model (pos 100) (pos 51) (pos 100)

-- The eleventh call is booked, and refused.
charge-IsWithin_example :
    ((charge one_call fresh).1 ≡ charged one_call fresh)
    × ((snap : BudgetSnapshot)
        → (charge one_call fresh).0 ≡ returned snap
        → (snapshot (charged one_call fresh) ≡ snap)
          × IsWithin default_limits (snapshot (charged one_call fresh)))
    × (IsWithin default_limits (snapshot (charged one_call fresh))
        → (charge one_call fresh).0 ≡ returned (snapshot (charged one_call fresh)))
charge-IsWithin_example = charge-IsWithin one_call fresh

abbrev policy : RetryPolicy
policy = record { max_retries = 2; is_write = false; base_backoff = 200; cap_backoff = 4000 }

abbrev errors : List RuntimeExn
errors = timeout_error ∷ other_error "RateLimitError" ∷ []

call_with_retry-Bounded_example :
    let s =
      (call_with_retry policy never
        (scripted {A = ℕ})
        (record { world = outcomes 7 [] errors; tries = 0; waits = [] })).1 in
    (s.tries ≤ 1 + 2) × All (λ t. t ≤ 4000) s.waits
call_with_retry-Bounded_example =
    call_with_retry-Bounded policy never scripted (outcomes 7 [] errors)

call_with_retry-recovered_example :
    call_with_retry policy never
      (scripted {A = ℕ})
      (record { world = outcomes 7 [] errors; tries = 0; waits = [] })
    ≡ (returned 7, at_end policy [] errors 0 [] 0)
unfolding is_retryable
call_with_retry-recovered_example =
    call_with_retry-recovered policy errors 7 [] refl (refl, (refl, tt)) (omega arith)
