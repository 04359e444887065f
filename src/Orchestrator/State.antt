-- ===== src/Orchestrator/State.antt =====
-- The durable state of a run (apps/orchestrator/state.py). Money is in units of 0.0001 USD, to
-- which the graph rounds; times are in seconds. Dicts that the graph itself builds are records.
use agent_workbench.Base.{ℕ, String, Bool, false, Option, none, List, []}
use agent_workbench.Base.Json.{Fields, end}

-- `RunState.status`, the values of RunStatus
pub data RunStatus : Type 0 where
  created running waiting_for_approval completed failed cancelled : RunStatus

-- `RunState.current_state`: the names of STATES; `unknown` is any other text
pub data Node : Type 0 where
  classify plan resources mcp_reads a2a_delegate correlate findings propose policy : Node
  approval_pause execute_approved verify complete : Node
  unknown : String → Node

-- `RunState.outcome`
pub data Outcome : Type 0 where
  clarify more_info denied rejected completed failed cancelled : Outcome

pub data Severity : Type 0 where
  low medium high : Severity

pub data ApprovalDecision : Type 0 where
  pending approved rejected expired : ApprovalDecision

abbrev pub decision_text : ApprovalDecision → String
decision_text ApprovalDecision.pending = "pending"
decision_text ApprovalDecision.approved = "approved"
decision_text ApprovalDecision.rejected = "rejected"
decision_text ApprovalDecision.expired = "expired"

pub data ErrorCode : Type 0 where
  budget_exceeded internal_error : ErrorCode

pub record BudgetLimits : Type 0 where
  pub max_model_calls : ℕ
  pub max_tool_calls : ℕ
  pub max_delegations : ℕ
  pub max_duration_seconds : ℕ
  pub max_cost_usd : ℕ
  pub max_input_tokens : ℕ
  pub max_output_tokens : ℕ
  pub max_delegation_depth : ℕ

abbrev pub default_limits : BudgetLimits
default_limits = record {
  max_model_calls = 10;
  max_tool_calls = 20;
  max_delegations = 3;
  max_duration_seconds = 600;
  max_cost_usd = 20000;
  max_input_tokens = 60000;
  max_output_tokens = 20000;
  max_delegation_depth = 3;
}

pub record BudgetUsage : Type 0 where
  pub model_calls : ℕ
  pub tool_calls : ℕ
  pub delegations : ℕ
  pub cost_usd : ℕ
  pub input_tokens : ℕ
  pub output_tokens : ℕ
  pub delegation_depth : ℕ

abbrev pub no_usage : BudgetUsage
no_usage = record {
  model_calls = 0;
  tool_calls = 0;
  delegations = 0;
  cost_usd = 0;
  input_tokens = 0;
  output_tokens = 0;
  delegation_depth = 0;
}

-- An entry of `RunState.findings`; the confidence is in hundredths.
pub record Finding : Type 0 where
  pub finding_id : String
  pub title : String
  pub summary : String
  pub evidence_refs : List String
  pub confidence : ℕ
  pub severity : Severity

-- An entry of `RunState.proposed_actions` (ProposedAction of packages/contracts/run.py).
pub record ProposedAction : Type 0 where
  pub action_id : String
  pub tool_name : String
  pub reason : String
  pub input : Fields
  pub risk : String
  pub requires_approval : Bool
  pub rollback : Option String
  pub dry_run : Bool
  pub idempotency_key : String

-- An entry of `RunState.policy_decisions`: the keys that the policy client left out are `none`.
pub record PolicyRecord : Type 0 where
  pub action_id : String
  pub tool_name : String
  pub allowed : Option Bool
  pub requires_approval : Option Bool
  pub reason : Option String

-- An entry of `RunState.approvals`.
pub record ApprovalEntry : Type 0 where
  pub approval_id : String
  pub action_id : String
  pub decision : ApprovalDecision
  pub approver : Option String
  pub reason : Option String

pub record RunError : Type 0 where
  pub code : ErrorCode
  pub message : String

pub record RunState : Type 0 where
  pub run_id : String
  pub tenant_id : String
  pub objective : String
  pub context : Fields
  pub status : RunStatus
  pub current_state : Node
  pub limits : BudgetLimits
  pub usage : BudgetUsage
  pub started_at : ℕ
  pub trace_id : Option String
  pub correlation_id : Option String
  pub classification : Fields
  pub plan : List String
  pub resources : Fields
  pub mcp_evidence : List Fields
  pub a2a_result : Option Fields
  pub a2a_fallback : Bool
  pub findings : List Finding
  pub proposed_actions : List ProposedAction
  pub policy_decisions : List PolicyRecord
  pub approvals : List ApprovalEntry
  pub unresolved : List String
  pub outcome : Option Outcome
  pub error : Option RunError
  pub conflict : Option String
  pub event_sequence : ℕ
  pub cancelled : Bool

-- `RunState(run_id=…, tenant_id=…, objective=…, context=…, limits=…)`, with the field defaults.
unfoldable pub new_run : String → String → String → Fields → BudgetLimits → ℕ → RunState
new_run run_id tenant_id objective context limits now = record {
  run_id = run_id;
  tenant_id = tenant_id;
  objective = objective;
  context = context;
  status = RunStatus.created;
  current_state = Node.classify;
  limits = limits;
  usage = no_usage;
  started_at = now;
  trace_id = none;
  correlation_id = none;
  classification = end;
  plan = [];
  resources = end;
  mcp_evidence = [];
  a2a_result = none;
  a2a_fallback = false;
  findings = [];
  proposed_actions = [];
  policy_decisions = [];
  approvals = [];
  unresolved = [];
  outcome = none;
  error = none;
  conflict = none;
  event_sequence = 0;
  cancelled = false;
}
