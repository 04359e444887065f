-- ===== src/Orchestrator/Trace.antt =====
-- What a run of the graph is allowed to do, as a step relation on a view of the machine: the node,
-- the limits, the tool calls that were charged, the number of the last event and the effects. `paid` says
-- that a tool call is charged for, within its limit, and not made yet; `gate` is opened at the node
-- that follows an approval, and nowhere else.
pub mod Laws
use agent_workbench.Base.{
  ℕ, zero, suc, ◌+◌, ◌≤◌, String, ◌≡◌, Bool, true, false, Option, some, List, ◌∷◌,
}
use agent_workbench.Base.Json.{Fields}
use agent_workbench.Contracts.Events.{AgentEvent}
use agent_workbench.Mcp.Catalog.{
  ToolMetadata, catalog_get, is_read_category, is_destructive_category,
}
use agent_workbench.Orchestrator.Graph.Core.{
  Effect, saved, appended, invoked, delegated, cancel_sent, Machine,
}
use agent_workbench.Orchestrator.State.{RunState, BudgetLimits, Node, execute_approved}

pub record View : Type 0 where
  pub node : Node
  pub limits : BudgetLimits
  pub tool_calls : ℕ
  pub last_number : ℕ
  pub effects : List Effect
  pub paid : Bool
  pub gate : Bool

abbrev pub view : {World : Type 0} → Bool → Bool → Machine World → View
view paid gate m = record {
  node = m.run.current_state;
  limits = m.run.limits;
  tool_calls = m.run.usage.tool_calls;
  last_number = m.run.event_sequence;
  effects = m.effects;
  paid = paid;
  gate = gate;
}

abbrev pub is_execute : Node → Bool
is_execute execute_approved = true
is_execute _ = false

-- A name of the catalog whose entry is a read.
pub record IsRead (name : String) : Type 0 where
  pub spec : ToolMetadata
  pub found : catalog_get name ≡ some spec
  pub is_read : is_read_category spec.category ≡ true

-- A name of the catalog whose entry is not destructive.
pub record IsSafe (name : String) : Type 0 where
  pub spec : ToolMetadata
  pub found : catalog_get name ≡ some spec
  pub is_safe : is_destructive_category spec.category ≡ false

pub data Move : View → View → Type 0 where
  saves : (v : View) (r : RunState) → Move v (record v { effects = saved r ∷ v.effects })
  -- a number is used up, whether its event is accepted or not
  skips : (v : View) → Move v (record v { last_number = v.last_number + 1 })
  emits :
      (v : View) (e : AgentEvent)
      → e.sequence ≡ v.last_number + 1
      → Move v (record v { last_number = v.last_number + 1; effects = appended e ∷ v.effects })
  moves : (v : View) (n : Node) → is_execute n ≡ false → Move v (record v { node = n })
  -- a charge that passes the limit, or that nothing is made of
  overdraws : (v : View) → Move v (record v { tool_calls = v.tool_calls + 1; paid = false })
  pays :
      (v : View)
      → v.tool_calls + 1 ≤ v.limits.max_tool_calls
      → Move v (record v { tool_calls = v.tool_calls + 1; paid = true })
  forgoes : (v : View) → Move v (record v { paid = false })
  reads :
      (v : View) (name : String) (args : Fields) (timeout : ℕ)
      → v.paid ≡ true
      → IsRead name
      → Move v (record v { paid = false; effects = invoked name args timeout ∷ v.effects })
  -- any tool but a destructive one, behind the gate
  writes :
      (v : View) (name : String) (args : Fields) (timeout : ℕ)
      → v.paid ≡ true
      → v.gate ≡ true
      → IsSafe name
      → Move v (record v { paid = false; effects = invoked name args timeout ∷ v.effects })
  opens : (v : View) → is_execute v.node ≡ true → Move v (record v { gate = true })
  closes : (v : View) → Move v (record v { gate = false })
  delegates :
      (v : View) (request : Fields) → Move v (record v { effects = delegated request ∷ v.effects })
  cancels :
      (v : View) (task : String) → Move v (record v { effects = cancel_sent task ∷ v.effects })

pub data Reach (v : View) : View → Type 0 where
  here : Reach v v
  next : {u w : View} → Reach v u → Move u w → Reach v w
