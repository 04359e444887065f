-- ===== src/Orchestrator/Policies.antt =====
-- apps/orchestrator/policies.py, with the contract that its decisions keep (PolicyDecision of
-- packages/contracts/approvals.py).
pub mod Decisions
use agent_workbench.Base.{
  String, ◌<>◌, Bool, true, false, not, ◌&&◌, ◌||◌, Option, none, some, List, [], ◌∷◌, ◌==◌,
  string_eq, any, leb, length, strip, map, if◌then◌else◌,
}
use agent_workbench.Contracts.Events.{optional_strip}
use agent_workbench.Contracts.Fields.{within, optional_within}

-- The dataclass of policies.py
pub record PolicyDecision : Type 0 where
  pub allowed : Bool
  pub requires_approval : Bool
  pub reason : String
  pub rule_version : String

abbrev pub policy_rule_version : String
policy_rule_version = "1.0"

-- `evaluate`, the bootstrap default
unfoldable pub evaluate : String → String → PolicyDecision
evaluate tool_name side_effect =
    let decide = λ (allowed needs : Bool) (reason : String).
      let d : PolicyDecision = record {
        allowed = allowed;
        requires_approval = needs;
        reason = reason;
        rule_version = policy_rule_version;
      } in
      d in
    if side_effect == "none"
    then decide true false "read-only tool"
    else if side_effect == "destructive"
    then decide false false "destructive tools denied by default"
    else decide true true (tool_name <> " requires human approval")

-- PolicyDecision of the contracts. Its rule_version is always "1.0", and its max_impact none.
pub record ContractDecision : Type 0 where
  pub allowed : Bool
  pub requires_approval : Bool
  pub reason : String
  pub required_scopes : List String
  pub tenant_id : Option String
  pub run_id : Option String
  pub trace_id : Option String
  pub correlation_id : Option String

-- `_deny_is_terminal`: whether the validator accepts the decision.
abbrev pub deny_is_terminal : ContractDecision → Bool
deny_is_terminal d = not (not d.allowed && d.requires_approval)

-- `str_strip_whitespace=True`
unfoldable pub stripped_decision : ContractDecision → ContractDecision
stripped_decision d = record d {
  reason = strip d.reason;
  required_scopes = map strip d.required_scopes;
  tenant_id = optional_strip d.tenant_id;
  run_id = optional_strip d.run_id;
  trace_id = optional_strip d.trace_id;
  correlation_id = optional_strip d.correlation_id;
}

abbrev optional_between : Option String → Bool
optional_between none = true
optional_between (some s) = within 1 128 s

-- The field constraints
unfoldable pub fields_fit : ContractDecision → Bool
fields_fit d =
    within 1 2000 d.reason
    && leb (length d.required_scopes) 16
    && optional_between d.tenant_id
    && optional_between d.run_id
    && optional_within 128 d.trace_id
    && optional_within 128 d.correlation_id

-- `ContractDecision(…)`: the decision, or none for a ValidationError.
unfoldable pub make_decision : ContractDecision → Option ContractDecision
make_decision d =
    if fields_fit (stripped_decision d) && deny_is_terminal d
    then some (stripped_decision d)
    else none

abbrev pub senior_tools : List String
senior_tools = "deployment.rollback" ∷ "database.failover" ∷ []

abbrev pub destructive_tools : List String
destructive_tools = "deployment.scale_down" ∷ "database.failover" ∷ "service.disable" ∷ []

abbrev mismatched : Option String → Option String → Bool
mismatched (some a) (some b) = not (a == b)
mismatched _ _ = false

-- The arguments of `evaluate_action`; its `scopes` are not read.
pub record PolicyQuery : Type 0 where
  pub tool_name : String
  pub side_effect : String
  pub tenant_id : Option String
  pub resource_tenant_id : Option String
  pub env : String
  pub run_id : Option String
  pub trace_id : Option String
  pub correlation_id : Option String

abbrev decide : PolicyQuery → Bool → Bool → String → List String → ContractDecision
decide q allowed needs reason scopes = record {
  allowed = allowed;
  requires_approval = needs;
  reason = reason;
  required_scopes = scopes;
  tenant_id = q.tenant_id;
  run_id = q.run_id;
  trace_id = q.trace_id;
  correlation_id = q.correlation_id;
}

-- The branches of `evaluate_action`
unfoldable pub chosen_decision : PolicyQuery → ContractDecision
chosen_decision q =
    if mismatched q.tenant_id q.resource_tenant_id
    then decide q false false "tenant mismatch -> deny" []
    else if q.side_effect == "destructive" || any (λ t. t == q.tool_name) destructive_tools
    then decide q false false "destructive tools denied by default" []
    else if q.side_effect == "none"
    then decide q true false "read-only tool auto-allowed" []
    else if any (λ t. t == q.tool_name) senior_tools && q.env == "prod"
    then decide q true true (q.tool_name <> " in prod requires senior-operator approval")
        ("case.approve" ∷ "senior-operator" ∷ [])
    else decide q true true (q.tool_name <> " requires human approval") ("case.approve" ∷ [])

-- `evaluate_action`
unfoldable pub evaluate_action : PolicyQuery → Option ContractDecision
evaluate_action q = make_decision (chosen_decision q)
