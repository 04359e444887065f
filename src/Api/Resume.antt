-- ===== src/Api/Resume.antt =====
-- The resumption of a paused run: `_maybe_resume` of apps/api/routes/approvals.py. The clients of the
-- resumed graph are a parameter.
use agent_workbench.Base.{
  Bool, true, false, not, none, some, List, [], ◌++◌, map, ◌==◌, string_eq, if◌then◌else◌,
}
use agent_workbench.Base.Action.{Result, returned, raised, ◌>>◌}
use agent_workbench.Base.Dict.{lookup, insert}
use agent_workbench.Base.Json.{bool, str, end, field}
use agent_workbench.Contracts.Events.{run_completed}
use agent_workbench.Orchestrator.Breaker.{new_breaker, circuit_breaker_threshold}
use agent_workbench.Orchestrator.Clients.{Clients}
use agent_workbench.Orchestrator.Graph.Core.{Machine}
use agent_workbench.Orchestrator.Graph.Run.{run}
use agent_workbench.Orchestrator.State.{
  RunState, RunStatus, Outcome, ApprovalEntry, Node, approval_pause, execute_approved,
}
use agent_workbench.Persistence.Database.{Approval, RepositoryError, find_approval}
use agent_workbench.Persistence.Repository.{append_next_event}
use agent_workbench.Persistence.Updates.{update_run, list_approvals}
use agent_workbench.Api.Store.{Gateway, RepositoryStore, quietly, save, apply_effects}
use agent_workbench.Api.Requests.{DecideCall, event, store_of}

-- The row's decision goes to the entry with its id.
unfoldable pub synced : List Approval → ApprovalEntry → ApprovalEntry
synced rows e = elim (find_approval e.approval_id rows) [
  | none ↦ e
  | some a ↦ record e { decision = a.decision; approver = a.approver; reason = a.reason }
]

abbrev listed : Result RepositoryError (List Approval) → List Approval
listed (returned rows) = rows
listed (raised e) = []

abbrev pub is_paused : Node → Bool
is_paused approval_pause = true
is_paused _ = false

module _ (c : Clients) where
  -- The sync of the cached approvals with the persisted rows
  unfoldable pub sync : DecideCall → RunState → Gateway c.World → RunState
  sync d r g = record r {
    approvals =
        map (synced (listed (list_approvals d.run_id d.identity.tenant_id g.db).0)) r.approvals;
  }

  -- `decision == "rejected"`
  unfoldable pub conclude_rejected : DecideCall → RunState → Gateway c.World → Gateway c.World
  conclude_rejected d r g =
      let done : RunState = record r {
        status = RunStatus.completed;
        outcome = some Outcome.rejected;
      } in
      let h = save (store_of d) done g in
      record h {
        db =
            quietly
              (append_next_event (
                  event d.around.completed_id d.run_id d.identity.tenant_id run_completed
                    (field "outcome" (str "rejected") (field "executed" (bool false) end)))
                >> update_run d.run_id d.identity.tenant_id
                    (record { status = some "completed"; current_state = none; budget = none }))
              h.db;
      }

  -- A new graph
  abbrev pub fresh_machine : RunState → c.World → Machine c.World
  fresh_machine r w = record {
    run = r;
    breaker = new_breaker circuit_breaker_threshold;
    effects = [];
    world = w;
  }

  -- `graph.run(state)` on the cached state; the loop has more rounds than it takes.
  unfoldable pub run_graph : RepositoryStore → RunState → Gateway c.World → Gateway c.World
  run_graph st r g =
      let m = (run c 14 (fresh_machine r g.world)).1 in
      let h = apply_effects st m.effects g in
      record h {
        run_states = insert st.run_id m.run h.run_states;
        effects = m.effects ++ g.effects;
        world = m.world;
      }

  -- The graph goes on from execute_approved.
  unfoldable pub continue_approved : DecideCall → RunState → Gateway c.World → Gateway c.World
  continue_approved d r =
      run_graph (store_of d)
        (record r { current_state = execute_approved; status = RunStatus.running })

  -- `_maybe_resume`, for a cached state
  unfoldable pub resume_state : DecideCall → RunState → Gateway c.World → Gateway c.World
  resume_state d r g =
      let s = sync d r g in
      let h : Gateway c.World = record g { run_states = insert d.run_id s g.run_states } in
      if not (is_paused s.current_state)
      then h
      else if d.body.decision == "rejected"
      then conclude_rejected d s h
      else continue_approved d s h

  -- `_maybe_resume`
  unfoldable pub maybe_resume : DecideCall → Gateway c.World → Gateway c.World
  maybe_resume d g = elim (lookup d.run_id g.run_states) [ none ↦ g | some r ↦ resume_state d r g ]
