-- ===== src/Orchestrator/Fakes.antt =====
-- The deterministic clients of apps/orchestrator/graph.py (FakeModelClient, FakeMCPClient,
-- FakeA2AClient, FakePolicyClient), which every local run is wired to, as one value of Clients.
-- Their calls are recorded, the latest first; the clock stands still.
use agent_workbench.Base.{
  ℕ, String, ◌<>◌, true, false, not, ◌&&◌, ◌||◌, none, some, List, [], ◌∷◌, ◌==◌, string_eq, ltb,
  codes, lower, is_infix, strip, text_length, if◌then◌else◌, pos,
}
use agent_workbench.Base.Action.{Result, returned, raised}
use agent_workbench.Base.Dict.{Dict, lookup}
use agent_workbench.Base.Json.{
  Json, null, bool, num, str, arr, obj, other, items, texts, nil, Fields, end, field, get,
  truthy_option,
}
use agent_workbench.Base.Python.{Python, get_text}
use agent_workbench.Mcp.Catalog.{SideEffect, catalog_get}
use agent_workbench.Orchestrator.Clients.{Exn, timeout, failure, Clients, PolicyReply}
use agent_workbench.Orchestrator.Policies.{PolicyQuery, evaluate_action}
use agent_workbench.Orchestrator.Registry.{validate_tool_call}
use agent_workbench.Orchestrator.State.{ProposedAction}

-- `FakeModelClient.classify`
unfoldable pub fake_classify : String → Fields → Fields
unfolding is_infix strip
fake_classify objective context =
    let text = strip objective in
    if ltb (text_length text) 8
    then field "category" (str "unknown")
        (field "needs_clarification" (bool true) (field "reason" (str "objective too short") end))
    else (let lowered = lower (codes text) in
        let category =
          if is_infix (codes "checkout") lowered
            || is_infix (codes "error rate") lowered
            || is_infix (codes "incident") lowered
          then "incident"
          else if is_infix (codes "deploy") lowered || is_infix (codes "rollback") lowered
          then "change"
          else "investigation" in
        if not (truthy_option (get "service" context)) && not (is_infix (codes "service") lowered)
        then field "category" (str category) (
            field "needs_clarification" (bool true)
              (field "reason" (str "missing service context") end))
        else field "category" (str category) (
            field "needs_clarification" (bool false)
              (field "reason" (str (category <> " investigation")) end)))

-- `FakeModelClient.plan`
abbrev pub fake_plan : List String
fake_plan =
    "retrieve service metadata" ∷ "query read-only telemetry (metrics/logs/health)"
    ∷ "delegate to observability specialist" ∷ "correlate specialist output with primary evidence"
    ∷ "propose approval-gated actions" ∷ []

pub data FailMode : Type 0 where
  timed_out failed malformed : FailMode

pub data A2aMode : Type 0 where
  ok timed_out failed low_confidence conflict malformed : A2aMode

pub data PolicyMode : Type 0 where
  approve_all deny_rollback deny_all : PolicyMode

-- What the constructors of the fakes are given; the confidence is in hundredths.
pub record Config : Type 0 where
  pub fail_tools : Dict FailMode
  pub health_status : String
  pub a2a_mode : A2aMode
  pub confidence : ℕ
  pub policy_mode : PolicyMode

pub record FakeWorld : Type 0 where
  pub clock : ℕ
  pub mcp_calls : List (String × Fields)
  pub a2a_calls : List Fields
  pub cancelled : List String

module _ (py : Python) where
  -- The answers of `FakeMCPClient.invoke`
  unfoldable pub fake_output : Config → String → Fields → Json
  fake_output cfg tool args =
      let service = get_text py args "service" "checkout-api" in
      if tool == "telemetry.query_metrics"
      then obj (
          field "service" (str service) (
            field "error_rate" (num (pos 18))
              (field "ref" (str ("telemetry://m/" <> service <> "/err")) end)))
      else if tool == "telemetry.query_logs"
      then obj (
          field "service" (str service) (
            field "errors" (num (pos 4200))
              (field "ref" (str ("telemetry://l/" <> service <> "/err")) end)))
      else if tool == "service.get_health"
      then obj (
          field "service" (str service) (
            field "status" (str cfg.health_status)
              (field "ref" (str ("telemetry://h/" <> service)) end)))
      else if tool == "deployment.get_current_release"
      then obj (
          field "service" (str service) (
            field "release" (str "2026.09.10")
              (field "ref" (str ("resource://releases/" <> service)) end)))
      else if tool == "telemetry.get_trace"
      then obj (
          field "service" (str service) (
            field "trace_id" (str (get_text py args "trace_id" "trace-mock-1")) (
              field "ref"
                (str ("trace://t/" <> service <> "/" <> get_text py args "trace_id" "trace-mock-1"))
                end)))
      else if tool == "remediation.simulate"
      then obj (
          field "action" (str (get_text py args "action" "restart")) (
            field "executed" (bool false)
              (field "dry_run" (bool true) (field "ref" (str "simulate://s/1") end))))
      else if tool == "ticket.create" || tool == "deployment.rollback"
      then obj (
          field "ok" (bool true) (
            field "dry_run" (bool (truthy_option (get "dry_run" args)))
              (field "ref" (str "ticket://t/1") end)))
      else obj (field "ok" (bool true) end)

  -- `FakeMCPClient.invoke`
  unfoldable pub fake_invoke : Config → String → Fields → FakeWorld → Result Exn Json × FakeWorld
  fake_invoke cfg tool args w = elim (validate_tool_call py tool args) [
    | raised e ↦ (raised e, w)
    | returned _ ↦
        let w' : FakeWorld = record w { mcp_calls = (tool, args) ∷ w.mcp_calls } in
        elim (lookup tool cfg.fail_tools) [
          | none ↦ (returned (fake_output cfg tool args), w')
          | some mode ↦ elim mode [
            | FailMode.timed_out ↦
                (raised (timeout "TimeoutError" ("tool " <> tool <> " timed out")), w')
            | FailMode.failed ↦ (raised (failure "RuntimeError" ("tool " <> tool <> " failed")), w')
            | FailMode.malformed ↦
                (returned (obj (field "unexpected_blob" (other "<object object>") end)), w')
          ]
        ]
  ]

  fake_finding : String → String → String → ℕ → Fields
  fake_finding title summary ref confidence =
      field "findings"
        (arr (
          items (
            obj (
              field "title" (str title) (
                field "summary" (str summary) (
                  field "evidence_refs" (arr (texts (ref ∷ [])))
                    (field "confidence" (num (pos confidence)) end))))
            ∷ [])))
        (field "probable_cause" (str title) (field "unresolved_questions" (arr nil) end))

  fake_answer : String → String → Fields → Fields
  fake_answer task status output =
      field "task_id" (str task) (field "status" (str status) (field "output" (obj output) end))

  -- `FakeA2AClient.delegate`
  unfoldable pub fake_delegate : Config → Fields → FakeWorld → Result Exn Fields × FakeWorld
  unfolding fake_finding fake_answer
  fake_delegate cfg request w =
      let w' : FakeWorld = record w { a2a_calls = request ∷ w.a2a_calls } in
      let task = get_text py request "task_id" "task_1" in
      elim cfg.a2a_mode [
        | A2aMode.timed_out ↦ (raised (timeout "TimeoutError" "A2A delegation timed out"), w')
        | A2aMode.failed ↦ (
          returned (
              field "task_id" (str task) (
                field "status" (str "failed") (
                  field "error"
                    (obj (
                      field "code" (str "a2a_error") (
                        field "message" (str "specialist unavailable")
                          (field "retryable" (bool true) end))))
                    end))),
          w',
        )
        | A2aMode.malformed ↦
            (returned (fake_answer task "completed" (field "bogus" (num (pos 100)) end)), w')
        | A2aMode.low_confidence ↦ (
          returned (
              fake_answer task "completed" (
                field "findings" (arr nil) (
                  field "probable_cause" null (
                    field "unresolved_questions" (arr (texts ("insufficient telemetry refs" ∷ [])))
                      end)))),
          w',
        )
        | A2aMode.conflict ↦ (
          returned (
              fake_answer task "completed"
                (fake_finding "All healthy" "No anomaly detected" "a2a://obs/1" 90)),
          w',
        )
        | A2aMode.ok ↦ (
          returned (
              fake_answer task "completed" (
                fake_finding "Metric anomaly in checkout-api"
                  "Elevated error rate correlates with recent release"
                  "telemetry://m/checkout-api/err" cfg.confidence)),
          w',
        )
      ]

  abbrev side_effect_text : SideEffect → String
  side_effect_text SideEffect.none = "none"
  side_effect_text SideEffect.external_write = "external_write"
  side_effect_text SideEffect.destructive = "destructive"

  denied_reply : String → PolicyReply
  denied_reply reason = record {
    allowed = some false;
    requires_approval = some false;
    reason = some reason;
  }

  abbrev policy_query : String → String → String → PolicyQuery
  policy_query tool_name side_effect env = record {
    tool_name = tool_name;
    side_effect = side_effect;
    tenant_id = none;
    resource_tenant_id = none;
    env = env;
    run_id = none;
    trace_id = none;
    correlation_id = none;
  }

  policy_answer : ProposedAction → String → Result Exn PolicyReply
  policy_answer a env =
      let side_effect : String = elim (catalog_get a.tool_name) [
        | none ↦ "external_write"
        | some m ↦ side_effect_text m.side_effect
      ] in
      elim (evaluate_action (policy_query a.tool_name side_effect env)) [
        | none ↦ raised (failure "ValidationError" "PolicyDecision")
        | some d ↦ returned (record {
          allowed = some d.allowed;
          requires_approval = some d.requires_approval;
          reason = some d.reason;
        })
      ]

  -- `FakePolicyClient.evaluate`
  unfoldable pub fake_evaluate : Config → ProposedAction → String → Result Exn PolicyReply
  unfolding denied_reply policy_answer
  fake_evaluate cfg a env = elim cfg.policy_mode [
    | PolicyMode.deny_all ↦ returned (denied_reply "denied by test policy")
    | PolicyMode.deny_rollback ↦
        if a.tool_name == "deployment.rollback"
        then returned (denied_reply "rollback denied in test policy")
        else policy_answer a env
    | PolicyMode.approve_all ↦ policy_answer a env
  ]

  -- The fakes together
  abbrev pub fake_clients : Config → Clients
  fake_clients cfg = record {
    World = FakeWorld;
    python = py;
    now = λ w. (w.clock, w);
    classify = λ objective context w. (returned (fake_classify objective context), w);
    plan = λ objective classification w. (returned fake_plan, w);
    invoke = λ tool args seconds w. fake_invoke cfg tool args w;
    delegate = λ request w. fake_delegate cfg request w;
    cancel = λ task w. (returned tt, record w { cancelled = task ∷ w.cancelled });
    evaluate = λ a env w. (fake_evaluate cfg a env, w);
  }
