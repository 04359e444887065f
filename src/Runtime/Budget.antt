-- ===== src/Runtime/Budget.antt =====
-- BudgetTracker of apps/orchestrator/runtime.py. Money is in micro-USD, times are in milliseconds
-- of one clock, which is given; counts that the caller may get wrong are signed.
pub mod Limits
use agent_workbench.Base.{
  ℕ, ◌+◌, ◌-◌, String, ◌<>◌, Option, none, some, ltb, decimal, if◌then◌else◌, ℤ, pos_part,
}
use agent_workbench.Base.Action.{Action, pure, raise, gets, modify, ◌>>=◌, ◌>>◌}
use agent_workbench.Runtime.Errors.{RuntimeExn, budget_exceeded}

pub record BudgetLimits : Type 0 where
  pub max_model_calls : ℕ
  pub max_tool_calls : ℕ
  pub max_input_tokens : ℕ
  pub max_output_tokens : ℕ
  pub max_cost_usd : ℕ
  pub max_duration_s : ℕ
  pub max_delegation_depth : ℕ

-- `BudgetLimits()`
abbrev pub default_limits : BudgetLimits
default_limits = record {
  max_model_calls = 10;
  max_tool_calls = 20;
  max_input_tokens = 60000;
  max_output_tokens = 20000;
  max_cost_usd = 2000000;
  max_duration_s = 600000;
  max_delegation_depth = 3;
}

pub record BudgetSnapshot : Type 0 where
  pub model_calls : ℕ
  pub tool_calls : ℕ
  pub input_tokens : ℕ
  pub output_tokens : ℕ
  pub cost_usd : ℕ
  pub elapsed_s : ℕ
  pub delegation_depth : ℕ

-- `BudgetTracker`, with the clock's reading
pub record BudgetTracker : Type 0 where
  pub limits : BudgetLimits
  pub used : BudgetSnapshot
  pub start : ℕ
  pub now : ℕ

-- `snapshot`
unfoldable pub snapshot : BudgetTracker → BudgetSnapshot
snapshot t = record t.used { elapsed_s = t.now - t.start }

-- `_check`: the first limit that is exceeded, by its message and name. The text of the money limit
-- is left out of its message.
unfoldable pub exceeded : BudgetLimits → BudgetSnapshot → Option (String × String)
exceeded lim s =
    if ltb lim.max_model_calls s.model_calls
    then some ("model calls exceeded (" <> decimal lim.max_model_calls <> ")", "max_model_calls")
    else if ltb lim.max_tool_calls s.tool_calls
    then some ("tool calls exceeded (" <> decimal lim.max_tool_calls <> ")", "max_tool_calls")
    else if ltb lim.max_input_tokens s.input_tokens
    then some ("input token budget exceeded", "max_input_tokens")
    else if ltb lim.max_output_tokens s.output_tokens
    then some ("output token budget exceeded", "max_output_tokens")
    else if ltb lim.max_cost_usd s.cost_usd
    then some ("cost exceeded", "max_cost_usd")
    else if ltb lim.max_duration_s s.elapsed_s
    then some ("run duration exceeded", "max_duration_s")
    else if ltb lim.max_delegation_depth s.delegation_depth
    then some ("delegation depth exceeded", "max_delegation_depth")
    else none

abbrev pub Ledger : Type 0 → Type 0
Ledger A = Action BudgetTracker RuntimeExn A

unfoldable pub reject : Option (String × String) → Ledger (Unit {0})
reject none = pure tt
reject (some (message, budget)) = raise (budget_exceeded message budget)

-- `check`
unfoldable pub check : Ledger (Unit {0})
check = do s ← gets (λ t. exceeded t.limits (snapshot t)); reject s

-- The end of each `record_…`: the snapshot, once it is checked
unfoldable pub checked_snapshot : Ledger BudgetSnapshot
checked_snapshot = check >> gets snapshot

-- `record_model`
unfoldable pub record_model : ℤ → ℤ → ℤ → Ledger BudgetSnapshot
record_model input_tokens output_tokens cost_usd =
    modify (λ t. record t {
      used = record t.used {
        model_calls = t.used.model_calls + 1;
        input_tokens = t.used.input_tokens + pos_part input_tokens;
        output_tokens = t.used.output_tokens + pos_part output_tokens;
        cost_usd = t.used.cost_usd + pos_part cost_usd;
      };
    })
    >> checked_snapshot

-- `record_tool`
unfoldable pub record_tool : ℕ → Ledger BudgetSnapshot
record_tool count =
    modify (λ t. record t { used = record t.used { tool_calls = t.used.tool_calls + count } })
    >> checked_snapshot

-- `record_delegation`
unfoldable pub record_delegation : ℕ → Ledger BudgetSnapshot
record_delegation depth =
    modify (λ t. record t {
      used = record t.used { delegation_depth = t.used.delegation_depth + depth };
    })
    >> checked_snapshot
