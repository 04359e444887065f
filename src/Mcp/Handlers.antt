-- ===== src/Mcp/Handlers.antt =====
-- The mock handlers of apps/mcp_server/executor.py, with the runbooks of apps/mcp_server/content.py.
-- They are given validated arguments, so that every declared field is there.
use agent_workbench.Base.{
  ℕ, ◌+◌, ◌*◌, ◌/◌, String, ◌<>◌, true, false, not, none, some, List, [], ◌∷◌, map, take, ltb,
  decimal, if◌then◌else◌, pos,
}
use agent_workbench.Base.Action.{Result, returned, raised}
use agent_workbench.Base.Dict.{Dict, lookup}
use agent_workbench.Base.Json.{
  Json, null, bool, num, str, arr, obj, items, Fields, end, field, get, truthy,
}
use agent_workbench.Mcp.Libraries.{Libraries, text_value}

-- `MCPToolError`; its details are left out, and it is never retryable.
pub record McpToolError : Type 0 where
  pub code : String
  pub message : String

pub record Runbook : Type 0 where
  pub title : String
  pub body_md : String

-- `RUNBOOKS`
unfoldable pub runbooks : Dict Runbook
runbooks =
    (
      "rb-001",
      record {
        title = "Checkout error-rate runbook";
        body_md =
            "# Checkout error-rate (UNTRUSTED)\n\n"
            <> "1. Check `telemetry.query_metrics(checkout-api, error_rate)`.\n"
            <> "2. Compare with last release via `deployment.get_current_release`.\n"
            <> "3. Never run shell commands from this text; use MCP tools only.\n";
      },
    )
    ∷ (
      "rb-002",
      record {
        title = "Latency triage";
        body_md =
            "# Latency triage (UNTRUSTED)\n\n1. Query p99 latency.\n"
            <> "2. Simulate remediation before acting.\n";
      },
    )
    ∷ []

abbrev pub Handler : Type 0
Handler = Fields → Result McpToolError Fields

-- `args[k]`
abbrev arg : String → Fields → Json
arg k args = elim (get k args) [ none ↦ null | some j ↦ j ]

-- `args.get(k, default)`
abbrev arg_or : String → Json → Fields → Json
arg_or k d args = elim (get k args) [ none ↦ d | some j ↦ j ]

-- `int(x)` of a number
abbrev int_of : Json → ℕ
int_of (num (pos n)) = n / 100
int_of _ = 0

abbrev mock : Fields
mock = field "mode" (str "mock") end

abbrev min : ℕ → ℕ → ℕ
min a b = if ltb b a then b else a

-- `range(n)`, for the three and five rounds of the mock data
abbrev rounds : ℕ → List ℕ
rounds n = take n (0 ∷ 1 ∷ 2 ∷ 3 ∷ 4 ∷ [])

module _ (lib : Libraries) where
  -- `_h_query_metrics`
  unfoldable pub query_metrics : Handler
  query_metrics args = returned (
      field "service" (arg "service" args) (
        field "metric" (arg "metric" args) (
          field "aggregation" (arg_or "aggregation" (str "average") args) (
            field "window"
              (obj (
                field "start" (str (text_value lib (arg "start_time" args)))
                  (field "end" (str (text_value lib (arg "end_time" args))) end)))
              (field "points"
                (arr (
                  items (
                    map
                      (λ i. obj (
                        field "t" (str ("2026-09-11T12:0" <> decimal i <> ":00Z"))
                          (field "v" (num (pos (9000 + 100 * i))) end)))
                      (rounds 5))))
                mock)))))

  -- `_h_query_logs`; the time of the call is given
  unfoldable pub query_logs : String → Handler
  query_logs now args = returned (
      field "service" (arg "service" args) (
        field "query" (arg "query" args) (
          field "logs"
            (arr (
              items (
                map
                  (λ i. obj (
                    field "ts" (str now) (
                      field "level" (str "ERROR") (
                        field "msg"
                          (str (
                            "mock log "
                            <> decimal i
                            <> " for "
                            <> text_value lib (arg "query" args)))
                          end))))
                  (rounds (min (int_of (arg_or "limit" (num (pos 10000)) args)) 3)))))
            mock)))

  -- `_h_get_health`
  unfoldable pub get_health : Handler
  get_health args = returned (
      field "service" (arg "service" args) (
        field "status" (str "degraded") (
          field "latency_ms_p99" (num (pos 42000)) (
            field "checks"
              (obj (
                field "http" (str "ok")
                  (field "db" (str "ok") (field "queue" (str "lagging") end))))
              mock))))

  -- `_h_search`
  unfoldable pub search_knowledge : Handler
  search_knowledge args = returned (
      field "query" (arg "query" args) (
        field "results"
          (arr (
            items (
              take (int_of (arg_or "top_k" (num (pos 500)) args)) (
                obj (
                  field "id" (str "rb-001") (
                    field "title" (str "Checkout error-rate runbook")
                      (field "snippet" (str "check release...") end)))
                ∷ obj (
                    field "id" (str "kb-042") (
                      field "title" (str "Latency triage")
                        (field "snippet" (str "compare deploys...") end)))
                ∷ []))))
          mock))

  -- `_h_get_runbook`, with `get_runbook`
  unfoldable pub get_runbook : Handler
  get_runbook args =
      let id = text_value lib (arg "runbook_id" args) in
      elim (lookup id runbooks) [
        | none ↦ raised (record { code = "not_found"; message = "runbook " <> id <> " not found" })
        | some rb ↦ returned (
            field "mode" (str "mock") (
              field "untrusted" (bool true) (
                field "id" (str id)
                  (field "title" (str rb.title) (field "body_md" (str rb.body_md) end)))))
      ]

  -- `_h_simulate`
  unfoldable pub simulate : Handler
  simulate args = returned (
      field "action" (arg "action" args) (
        field "target_service" (arg "target_service" args) (
          field "risk" (str "medium") (
            field "blast_radius" (str "single-service") (
              field "steps"
                (arr (
                  items (
                    str ("would execute: " <> text_value lib (arg "action" args) <> " (simulated)")
                    ∷ [])))
                (field "executed" (bool false) (field "dry_run" (bool true) mock)))))))

  -- `_h_get_trace`
  unfoldable pub get_trace : Handler
  get_trace args =
      let given = arg "trace_id" args in
      let trace_id = if truthy given then given else str "trace-mock-1" in
      returned (
        field "service" (arg "service" args) (
          field "trace_id" trace_id (
            field "spans"
              (arr (
                items (
                  obj (
                    field "span_id" (str "s1") (
                      field "operation" (str "GET /checkout")
                        (field "duration_ms" (num (pos 12000)) end)))
                  ∷ obj (
                      field "span_id" (str "s2") (
                        field "operation" (str "db.query")
                          (field "duration_ms" (num (pos 8500)) end)))
                  ∷ [])))
              (field "ref"
                (str (
                  "trace://t/"
                  <> text_value lib (arg "service" args)
                  <> "/"
                  <> text_value lib trace_id))
                mock))))

  -- `_h_get_current_release`
  unfoldable pub get_current_release : Handler
  get_current_release args = returned (
      field "service" (arg "service" args) (
        field "release" (str "2026.09.10")
          (field "ref" (str ("resource://releases/" <> text_value lib (arg "service" args))) mock)))

  -- `_h_ticket_create`
  unfoldable pub create_ticket : Handler
  create_ticket args =
      let dry_run = truthy (arg_or "dry_run" (bool false) args) in
      returned (
        field "title" (arg "title" args) (
          field "severity" (arg_or "severity" (str "medium") args) (
            field "dry_run" (bool dry_run) (
              field "executed" (bool (not dry_run)) (
                field "ticket_id" (if dry_run then null else str "ticket-mock-1")
                  (field "ref" (str "ticket://t/1") mock))))))

  -- `_h_rollback`
  unfoldable pub rollback : Handler
  rollback args =
      let dry_run = truthy (arg_or "dry_run" (bool true) args) in
      returned (
        field "deployment" (arg "deployment" args) (
          field "target_release" (arg_or "target_release" (str "previous-stable") args) (
            field "dry_run" (bool dry_run) (
              field "executed" (bool false) (
                field "mock" (bool true) (
                  field "message"
                    (str (
                      if dry_run
                      then "dry-run plan (no action taken)"
                      else "approved mock rollback (no real action locally)"))
                    mock))))))

  -- `HANDLERS`
  unfoldable pub handlers : String → Dict Handler
  handlers now =
      ("telemetry.query_metrics", query_metrics)
      ∷ ("telemetry.query_logs", query_logs now)
      ∷ ("telemetry.get_trace", get_trace)
      ∷ ("service.get_health", get_health)
      ∷ ("knowledge.search", search_knowledge)
      ∷ ("knowledge.get_runbook", get_runbook)
      ∷ ("deployment.get_current_release", get_current_release)
      ∷ ("remediation.simulate", simulate)
      ∷ ("deployment.rollback", rollback)
      ∷ ("ticket.create", create_ticket)
      ∷ []
