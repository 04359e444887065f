-- ===== src/Orchestrator/Policies/Decisions.antt =====
-- What the policy decisions guarantee, on every branch.
use agent_workbench.Base.{
  String, ◌≡◌, ◌≢◌, ap, sym, ◌∙◌, Bool, true, false, Option, none, some, ◌==◌, string_eq, any,
  arith, eq_iff, ◌⊎◌, if◌then◌else◌,
}
use agent_workbench.Orchestrator.Policies.{
  ContractDecision, PolicyQuery, stripped_decision, make_decision, chosen_decision, evaluate_action,
  destructive_tools,
}

-- A decision that was made allows and asks for what was chosen.
made_flags :
    (b : Bool) (d out : ContractDecision)
    → (if b then some (stripped_decision d) else none) ≡ some out
    → (out.allowed ≡ d.allowed) × (out.requires_approval ≡ d.requires_approval)
unfolding stripped_decision
made_flags true d out h =
    let e : stripped_decision d ≡ out = cc h in
    (
      sym (ap (λ (x : ContractDecision). x.allowed) e),
      sym (ap (λ (x : ContractDecision). x.requires_approval) e),
    )
made_flags false d out h = absurd (cc h)

evaluate_action-flags :
    (q : PolicyQuery) (d : ContractDecision)
    → evaluate_action q ≡ some d
    → (d.allowed ≡ (chosen_decision q).allowed)
      × (d.requires_approval ≡ (chosen_decision q).requires_approval)
unfolding evaluate_action make_decision
evaluate_action-flags q d h = made_flags _ (chosen_decision q) d h

chosen_decision-allowed :
    (q : PolicyQuery)
    → (chosen_decision q).allowed ≡ true
    → (chosen_decision q).requires_approval ≡ false
    → (q.side_effect ≡ "none") × (any (λ t. t == q.tool_name) destructive_tools ≡ false)
unfolding chosen_decision
chosen_decision-allowed q allowed free = (ground (arith, eq_iff q.side_effect "none"), ground arith)

-- What `evaluate_action` allows without an approval has no side effect, and is no destructive tool.
pub evaluate_action-allowed :
    (q : PolicyQuery) (d : ContractDecision)
    → evaluate_action q ≡ some d
    → d.allowed ≡ true
    → d.requires_approval ≡ false
    → (q.side_effect ≡ "none") × (any (λ t. t == q.tool_name) destructive_tools ≡ false)
evaluate_action-allowed q d made allowed free =
    let (a, r) = evaluate_action-flags q d made in
    chosen_decision-allowed q (sym a ∙ allowed) (sym r ∙ free)

-- The tenant and the resource's tenant are given and differ.
abbrev pub IsForeign : Option String → Option String → Type 0
IsForeign tenant resource = (a b : String) × (tenant ≡ some a) × (resource ≡ some b) × (a ≢ b)

-- A resource of another tenant, a destructive side effect, or a destructive tool
abbrev pub IsForbidden : PolicyQuery → Type 0
IsForbidden q =
    IsForeign q.tenant_id q.resource_tenant_id
    ⊎ ((q.side_effect ≡ "destructive") ⊎ (any (λ t. t == q.tool_name) destructive_tools ≡ true))
