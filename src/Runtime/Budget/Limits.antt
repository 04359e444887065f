-- ===== src/Runtime/Budget/Limits.antt =====
-- What a passed check of the ledger says, and what the ledger takes before it refuses.
use agent_workbench.Base.{
  ℕ, ◌+◌, ◌≤◌, ◌≡◌, refl, ap, sym, ◌∙◌, String, Option, none, some, arith, ℤ, pos_part,
}
use agent_workbench.Base.Action.{returned, pure, raise, gets, modify, ◌>>=◌, ◌>>◌}
use agent_workbench.Runtime.Budget.{
  BudgetLimits, BudgetSnapshot, BudgetTracker, Ledger, snapshot, exceeded, reject, check,
  checked_snapshot, record_model, record_tool, record_delegation,
}

-- No limit is exceeded.
pub record IsWithin (lim : BudgetLimits) (s : BudgetSnapshot) : Type 0 where
  pub model_within : s.model_calls ≤ lim.max_model_calls
  pub tool_within : s.tool_calls ≤ lim.max_tool_calls
  pub input_within : s.input_tokens ≤ lim.max_input_tokens
  pub output_within : s.output_tokens ≤ lim.max_output_tokens
  pub cost_within : s.cost_usd ≤ lim.max_cost_usd
  pub time_within : s.elapsed_s ≤ lim.max_duration_s
  pub depth_within : s.delegation_depth ≤ lim.max_delegation_depth

exceeded-IsWithin :
    (lim : BudgetLimits) (s : BudgetSnapshot) → exceeded lim s ≡ none → IsWithin lim s
unfolding exceeded
exceeded-IsWithin lim s h = ground arith

IsWithin-exceeded :
    (lim : BudgetLimits) (s : BudgetSnapshot) → IsWithin lim s → exceeded lim s ≡ none
unfolding exceeded
IsWithin-exceeded lim s h = ground arith

-- A call of the ledger that charges, and then checks.
pub data Charge : Type 0 where
  model : ℤ → ℤ → ℤ → Charge
  tools delegations : ℕ → Charge

unfoldable pub charge : Charge → Ledger BudgetSnapshot
charge (model i o c) = record_model i o c
charge (tools n) = record_tool n
charge (delegations n) = record_delegation n

-- What a charge adds to the ledger
abbrev pub added : Charge → BudgetSnapshot → BudgetSnapshot
added (model i o c) u = record u {
  model_calls = u.model_calls + 1;
  input_tokens = u.input_tokens + pos_part i;
  output_tokens = u.output_tokens + pos_part o;
  cost_usd = u.cost_usd + pos_part c;
}
added (tools n) u = record u { tool_calls = u.tool_calls + n }
added (delegations n) u = record u { delegation_depth = u.delegation_depth + n }

abbrev pub charged : Charge → BudgetTracker → BudgetTracker
charged c t = record t { used = added c t.used }

checked_as :
    (t : BudgetTracker) (o : Option (String × String))
    → exceeded t.limits (snapshot t) ≡ o
    → checked_snapshot t ≡ (reject o >> gets snapshot) t
unfolding checked_snapshot check gets ◌>>◌ ◌>>=◌
checked_as t o h = ap (λ x. (reject x >> gets snapshot) t) h

charge-checked : (c : Charge) (t : BudgetTracker) → charge c t ≡ checked_snapshot (charged c t)
unfolding charge record_model record_tool record_delegation modify ◌>>◌ ◌>>=◌
charge-checked (model i o c) t = refl
charge-checked (tools n) t = refl
charge-checked (delegations n) t = refl

reject_passed :
    (t : BudgetTracker) (o : Option (String × String)) (snap : BudgetSnapshot)
    → ((reject o >> gets snapshot) t).0 ≡ returned snap
    → (o ≡ none) × (snapshot t ≡ snap)
unfolding reject pure raise gets ◌>>◌ ◌>>=◌
reject_passed t none snap h = (refl, cc h)
reject_passed t (some (message, budget)) snap h = absurd (cc h)

reject_kept :
    (t : BudgetTracker) (o : Option (String × String)) → ((reject o >> gets snapshot) t).1 ≡ t
unfolding reject pure raise gets ◌>>◌ ◌>>=◌
reject_kept t none = refl
reject_kept t (some (message, budget)) = refl

-- A charge of the ledger is booked whether or not it is accepted, and changes nothing else; it
-- returns exactly where no limit is exceeded after it, and then returns what is used up by then.
pub charge-IsWithin :
    (c : Charge) (t : BudgetTracker)
    → ((charge c t).1 ≡ charged c t)
      × ((snap : BudgetSnapshot)
          → (charge c t).0 ≡ returned snap
          → (snapshot (charged c t) ≡ snap) × IsWithin t.limits (snapshot (charged c t)))
      × (IsWithin t.limits (snapshot (charged c t))
          → (charge c t).0 ≡ returned (snapshot (charged c t)))
charge-IsWithin c t =
    let u = charged c t in
    let run = charge-checked c t ∙ checked_as u (exceeded u.limits (snapshot u)) refl in
    (
      ap (λ p. p.1) run ∙ reject_kept u (exceeded u.limits (snapshot u)),
      λ snap h.
          let (within, same) =
            reject_passed u (exceeded u.limits (snapshot u)) snap (sym (ap (λ p. p.0) run) ∙ h) in
          (same, exceeded-IsWithin u.limits (snapshot u) within),
      λ within.
          ap (λ p. p.0)
            (charge-checked c t
              ∙ checked_as u none (IsWithin-exceeded u.limits (snapshot u) within))
          ∙ passed u,
    )
  where
    passed : (u : BudgetTracker) → ((reject none >> gets snapshot) u).0 ≡ returned (snapshot u)
    passed u = unfold reject pure gets ◌>>◌ ◌>>=◌ in refl
