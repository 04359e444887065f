-- ===== src/Orchestrator/Graph/Gated.antt =====
-- The steps from the proposal to the end (graph.py: `_do_propose` to `_do_complete`), with the
-- approval gate between proposing and executing.
use agent_workbench.Base.{
  String, ◌<>◌, Bool, true, false, not, ◌&&◌, ◌||◌, Option, none, some, List, [], ◌∷◌, ◌++◌, ◌==◌,
  string_eq, any, keep, is_empty, length, decimal, codes, lower, is_infix, if◌then◌else◌, map, pos,
}
use agent_workbench.Base.Action.{pure, raise, raise_if, catch, when, ◌>>=◌, ◌>>◌}
use agent_workbench.Base.Json.{
  Json, bool, num, str, arr, obj, items, texts, Fields, end, field, get, optional_text,
}
use agent_workbench.Base.Python.{get_text}
use agent_workbench.Contracts.Events.{
  message_delta, approval_required, tool_started, tool_completed, run_completed,
}
use agent_workbench.Mcp.Catalog.{is_destructive_category}
use agent_workbench.Orchestrator.Clients.{failure, Clients}
use agent_workbench.Orchestrator.Graph.Calls.{mcp_read, invoke_checked}
use agent_workbench.Orchestrator.Graph.Core.{
  Graph, update, get_run, external, from_result, save, emit, transition, check_cancel, spend_tool,
}
use agent_workbench.Orchestrator.Graph.Evidence.{
  top_finding, max_confidence, severity_text, finding_json,
}
use agent_workbench.Orchestrator.Graph.Steps.{conclude, add_unresolved, unresolved_json}
use agent_workbench.Orchestrator.Registry.{validate_tool_call, build_proposed_action}
use agent_workbench.Orchestrator.State.{
  RunState, RunStatus, Outcome, Finding, ProposedAction, PolicyRecord, ApprovalEntry,
  ApprovalDecision, decision_text, policy, approval_pause, verify, complete,
}
use agent_workbench.Orchestrator.Utilities.{safe_error}

-- `"deployment" in str(title).lower()`: no letter beyond ASCII becomes one of this word's.
unfoldable pub mentions_deployment : Finding → Bool
mentions_deployment f = is_infix (codes "deployment") (lower (codes f.title))

unfoldable pub action_json : RunState → ProposedAction → Json
action_json r a = obj (
    field "schema_version" (str "1.0") (
      field "action_id" (str a.action_id) (
        field "run_id" (str r.run_id) (
          field "tenant_id" (str r.tenant_id) (
            field "tool_name" (str a.tool_name) (
              field "reason" (str a.reason) (
                field "input" (obj a.input) (
                  field "risk" (str a.risk) (
                    field "requires_approval" (bool a.requires_approval) (
                      field "rollback" (optional_text a.rollback) (
                        field "dry_run" (bool a.dry_run)
                          (field "idempotency_key" (str a.idempotency_key) end))))))))))))

decided_fields : ApprovalEntry → Fields
decided_fields a = elim a.approver [
  | none ↦ end
  | some who ↦ field "approver" (str who) (field "reason" (optional_text a.reason) end)
]

-- An approval row as the events carry it; its time is left out.
unfoldable pub approval_json : RunState → ApprovalEntry → Json
unfolding decided_fields
approval_json r a = obj (
    field "schema_version" (str "1.0") (
      field "approval_id" (str a.approval_id) (
        field "run_id" (str r.run_id) (
          field "tenant_id" (str r.tenant_id) (
            field "action_id" (str a.action_id) (
              field "requested_by" (str "orchestrator")
                (field "decision" (str (decision_text a.decision)) (decided_fields a))))))))

-- `not d.get("allowed", False)`
abbrev pub is_denied : PolicyRecord → Bool
is_denied d = elim d.allowed [ none ↦ true | some b ↦ not b ]

abbrev denial_text : PolicyRecord → String
denial_text d = elim d.reason [ none ↦ "denied" | some r ↦ r ]

-- `"; ".join(…)`
joined : List String → String
joined [] = ""
joined (s ∷ []) = s
joined (s ∷ t ∷ ts) = s <> "; " <> joined (t ∷ ts)

optional_bool : String → Option Bool → Fields → Fields
optional_bool key none fs = fs
optional_bool key (some b) fs = field key (bool b) fs

-- A policy decision as the dict that `_do_policy` builds.
unfoldable pub policy_json : PolicyRecord → Json
unfolding optional_bool
policy_json d = obj (
    field "action_id" (str d.action_id) (
      field "tool_name" (str d.tool_name) (
        optional_bool "allowed" d.allowed (
          optional_bool "requires_approval" d.requires_approval
            (elim d.reason [ none ↦ end | some r ↦ field "reason" (str r) end ])))))

-- A new row for an action; all of them are pending.
unfoldable pub request_approval : RunState → ProposedAction → ApprovalEntry
request_approval r a = record {
  approval_id = r.run_id <> "-" <> a.action_id <> "-appr";
  action_id = a.action_id;
  decision = ApprovalDecision.pending;
  approver = none;
  reason = none;
}

abbrev pub is_approved : ApprovalDecision → Bool
is_approved ApprovalDecision.approved = true
is_approved _ = false

-- `{a["action_id"] for a in state.approvals if a.get("decision") == "approved"}`
unfoldable pub approved_ids : List ApprovalEntry → List String
approved_ids [] = []
approved_ids (a ∷ rows) =
    let rest = approved_ids rows in if is_approved a.decision then a.action_id ∷ rest else rest

module _ (c : Clients) where
  abbrev build :
      RunState → String → String → Fields → String → Option String → Bool → Graph c ProposedAction
  build r tool reason input risk rollback dry_run =
      from_result c (
        build_proposed_action c.python r.run_id r.tenant_id tool reason input risk rollback dry_run)

  -- The actions that `_do_propose` builds, from the findings.
  unfoldable pub propose_actions : RunState → List Finding → Graph c (List ProposedAction)
  propose_actions r [] = raise (failure "ValueError" "max() arg is an empty sequence")
  propose_actions r (f ∷ fs) = do
    let service = get_text c.python r.context "service" "checkout-api"
    let top = top_finding f fs
    ticket ←
        build r "ticket.create" ("Track investigation: " <> top.title)
          (field "title" (str ("Investigate " <> service))
            (field "severity" (str (severity_text top.severity)) end))
          "low" none false
    if any mentions_deployment (f ∷ fs)
        then (do
          rollback ←
              build r "deployment.rollback"
                "Recent release correlates with symptoms; prepare dry-run rollback"
                (field "service" (str service) (field "dry_run" (bool true) end)) "medium"
                (some "re-deploy release 2026.09.10") true
          pure (ticket ∷ rollback ∷ []))
        else pure (ticket ∷ [])

  -- `_do_propose`
  unfoldable pub do_propose : Graph c (Unit {0})
  do_propose = do
    r ← get_run c
    actions ← propose_actions r r.findings
    update c (λ r. record r { proposed_actions = actions })
    transition c policy message_delta
        (field "proposed" (arr (texts (map (λ a. a.action_id) actions))) end)

  -- The loop of `_do_policy`.
  unfoldable pub evaluate_actions : String → List ProposedAction → Graph c (List PolicyRecord)
  evaluate_actions env [] = pure []
  evaluate_actions env (a ∷ rows) = do
    reply ← external c (c.evaluate a env)
    rest ← evaluate_actions env rows
    pure (
        record {
          action_id = a.action_id;
          tool_name = a.tool_name;
          allowed = reply.allowed;
          requires_approval = reply.requires_approval;
          reason = reply.reason;
        }
        ∷ rest)

  -- `_do_policy`
  unfoldable pub do_policy : Graph c Bool
  unfolding joined
  do_policy = do
    r ← get_run c
    decisions ← evaluate_actions (get_text c.python r.context "env" "dev") r.proposed_actions
    update c (λ r. record r { policy_decisions = decisions })
    save c
    let denied = keep is_denied decisions
    if is_empty denied
        then (do update c (λ r. record r { current_state = approval_pause }); save c; pure false)
        else (do
          conclude c Outcome.denied
          emit c message_delta (
              field "policy_denial"
                (str (
                  "Policy denied "
                  <> decimal (length denied)
                  <> " action(s): "
                  <> joined (map denial_text denied)
                  <> ". Nothing executed."))
                end)
          transition c complete run_completed (
              field "outcome" (str "denied")
                (field "denied" (arr (items (map policy_json denied))) end))
          pure true)

  -- Nothing to approve: the next node is set, but the driver returns all the same.
  unfoldable pub pass_pause : Graph c (Unit {0})
  pass_pause = do update c (λ r. record r { current_state = verify }); save c

  unfoldable pub ask_approval : Graph c (Unit {0})
  ask_approval = do
    update c (λ r. record r {
      status = RunStatus.waiting_for_approval;
      approvals = r.approvals ++ map (request_approval r) r.proposed_actions;
    })
    r ← get_run c
    emit c approval_required (
        field "approvals" (arr (items (map (approval_json r) r.approvals)))
          (field "actions" (arr (items (map (action_json r) r.proposed_actions))) end))
    save c

  -- `_do_approval_pause`
  unfoldable pub do_approval_pause : Graph c (Unit {0})
  unfolding pass_pause ask_approval
  do_approval_pause = do
    r ← get_run c
    if is_empty r.proposed_actions then pass_pause else ask_approval

  tool_event : ProposedAction → Fields → Fields
  tool_event a rest = field "tool_name" (str a.tool_name) (field "action_id" (str a.action_id) rest)

  -- The `try` around a write; nothing is retried.
  unfoldable pub perform : ProposedAction → Graph c (Unit {0})
  unfolding tool_event
  perform a =
      catch
        (do
          out ← invoke_checked c a.tool_name a.input
          emit c tool_completed (tool_event a (field "status" (str "succeeded") end)))
        (λ e. do
          emit c tool_completed (
              tool_event a (field "status" (str "failed") (field "error" (str (safe_error e)) end)))
          update c (add_unresolved ("Action " <> a.action_id <> " failed: " <> safe_error e)))

  -- One round of the loop of `_do_execute`, for an action that is approved.
  unfoldable pub execute_action : ProposedAction → Graph c (Unit {0})
  unfolding tool_event
  execute_action a = do
    spec ← from_result c (validate_tool_call c.python a.tool_name a.input)
    raise_if (is_destructive_category spec.category)
        (failure "RuntimeError" "refusing to execute destructive tool")
    check_cancel c
    spend_tool c
    emit c tool_started (tool_event a (field "dry_run" (bool a.dry_run) end))
    perform a

  unfoldable pub execute_actions : List String → List ProposedAction → Graph c (Unit {0})
  execute_actions ids [] = pure tt
  execute_actions ids (a ∷ rows) = do
    when (any (λ i. i == a.action_id) ids) (execute_action a)
    execute_actions ids rows

  -- `_do_execute`
  unfoldable pub do_execute : Graph c (Unit {0})
  do_execute = do
    r ← get_run c
    let ids = approved_ids r.approvals
    raise_if (not (is_empty r.proposed_actions) && is_empty ids)
        (failure "RuntimeError" "execute_approved without any approved approval row")
    execute_actions ids r.proposed_actions
    update c (λ r. record r { current_state = verify; status = RunStatus.running })
    save c

  abbrev is_verified : Option Fields → Bool
  is_verified none = false
  is_verified (some out) = elim (get "status" out) [
    | some (str s) ↦ s == "healthy" || s == "degraded"
    | _ ↦ false
  ]

  -- `_do_verify`
  unfoldable pub do_verify : Graph c (Unit {0})
  do_verify = do
    r ← get_run c
    out ←
        mcp_read c "service.get_health"
          (field "service" (str (get_text c.python r.context "service" "checkout-api")) end)
    transition c complete message_delta (field "verified" (bool (is_verified out)) end)

  abbrev outcome_text : Option Outcome → String
  outcome_text none = "completed"
  outcome_text (some Outcome.clarify) = "clarify"
  outcome_text (some Outcome.more_info) = "more_info"
  outcome_text (some Outcome.denied) = "denied"
  outcome_text (some Outcome.rejected) = "rejected"
  outcome_text (some Outcome.completed) = "completed"
  outcome_text (some Outcome.failed) = "failed"
  outcome_text (some Outcome.cancelled) = "cancelled"

  -- `_do_complete`; `state.result` is a copy of fields and is kept in the event alone.
  unfoldable pub do_complete : Graph c (Unit {0})
  do_complete = do
    update c (λ r. record r {
      outcome = elim r.outcome [ none ↦ some Outcome.completed | some o ↦ some o ];
      status = RunStatus.completed;
    })
    r ← get_run c
    emit c run_completed (
        field "result"
          (obj (
            field "schema_version" (str "1.0") (
              field "run_id" (str r.run_id) (
                field "tenant_id" (str r.tenant_id) (
                  field "situation" (str r.objective) (
                    field "evidence" (arr (items (map obj r.mcp_evidence))) (
                      field "findings" (arr (items (map (finding_json r) r.findings))) (
                        field "confidence" (num (pos (max_confidence r.findings))) (
                          field "proposed_actions"
                            (arr (items (map (action_json r) r.proposed_actions)))
                            (field "unresolved_questions" (unresolved_json r)
                              (field "outcome" (str (outcome_text r.outcome)) end)))))))))))
          end)
    save c
