-- ===== src/Api/Store.antt =====
-- apps/api/store.py: the gateway's process-local state, and RepositoryStore, the graph's store. The
-- effects of a graph that ran are applied to the repository in their order, as the graph reads none
-- of it. The times of the graph's approval entries are those of their first save; the budget of a
-- run's row is left out.
use agent_workbench.Base.{ℕ, ◌+◌, String, not, ◌&&◌, Option, none, some, List, [], ◌∷◌}
use agent_workbench.Base.Dict.{Dict, insert}
use agent_workbench.Contracts.Events.{AgentEvent}
use agent_workbench.Orchestrator.Graph.Core.{
  Effect, saved, appended, invoked, delegated, cancel_sent, node_text,
}
use agent_workbench.Orchestrator.State.{RunState, RunStatus, ApprovalEntry}
use agent_workbench.Persistence.Database.{Approval, Database, Repository}
use agent_workbench.Persistence.Repository.{append_next_event, create_approval}
use agent_workbench.Persistence.Updates.{update_run, make_approval}

-- The reply of a decision.
pub record Decided : Type 0 where
  pub approval_id : String
  pub run_id : String
  pub decision : String
  pub approver : String
  pub reason : Option String

-- An entry of `DECIDE_IDEMPOTENCY`
pub record CachedDecision : Type 0 where
  pub approval_id : String
  pub key : String
  pub reply : Decided

-- The repository's database, the caches of the process, the effects of the graphs that were resumed
-- (the latest first), and the world of their clients.
pub record Gateway (World : Type 0) : Type 0 where
  pub db : Database
  pub run_states : Dict RunState
  pub decided : List CachedDecision
  pub cancel_flags : List String
  pub a2a_cancelled : List String
  pub effects : List Effect
  pub world : World

abbrev pub run_status_text : RunStatus → String
run_status_text RunStatus.created = "created"
run_status_text RunStatus.running = "running"
run_status_text RunStatus.waiting_for_approval = "waiting_for_approval"
run_status_text RunStatus.completed = "completed"
run_status_text RunStatus.failed = "failed"
run_status_text RunStatus.cancelled = "cancelled"

-- A method whose exception is suppressed: what it leaves in the database.
abbrev pub quietly : {A : Type 0} → Repository A → Database → Database
quietly m d = (m d).1

create_valid : Option Approval → Database → Database
create_valid none d = d
create_valid (some a) d = quietly (create_approval a) d

-- `RepositoryStore`: the run and the tenant that it writes for
pub record RepositoryStore : Type 0 where
  pub run_id : String
  pub tenant_id : String
  pub now : ℕ

module _ (st : RepositoryStore) where
  -- `_upsert_approval`: a decided entry has no decided_at, so its contract refuses it.
  unfoldable pub upsert_approval : ApprovalEntry → Database → Database
  unfolding create_valid
  upsert_approval e = create_valid (
      make_approval (record {
        approval_id = e.approval_id;
        run_id = st.run_id;
        tenant_id = st.tenant_id;
        action_id = e.action_id;
        requested_by = "orchestrator";
        approver = e.approver;
        decision = e.decision;
        reason = e.reason;
        requested_at = st.now;
        decided_at = none;
        expires_at = some (st.now + 1800);
      }))

  unfoldable pub upsert_approvals : List ApprovalEntry → Database → Database
  upsert_approvals [] d = d
  upsert_approvals (e ∷ es) d = upsert_approvals es (upsert_approval e d)

  -- The database part of `save`
  unfoldable pub save_row : RunState → Database → Database
  save_row r d = upsert_approvals r.approvals (
      quietly
        (update_run st.run_id st.tenant_id (record {
          status = some (run_status_text r.status);
          current_state = some (node_text r.current_state);
          budget = none;
        }))
        d)

module _ {World : Type 0} (st : RepositoryStore) where
  -- `save`
  unfoldable pub save : RunState → Gateway World → Gateway World
  save r g = record g { run_states = insert st.run_id r g.run_states; db = save_row st r g.db }

  -- `append`, for the run and the tenant of the store
  unfoldable pub append : AgentEvent → Gateway World → Gateway World
  append e g = record g {
    db =
        quietly
          (append_next_event (record e {
            run_id = st.run_id;
            tenant_id = st.tenant_id;
            safe_for_ui = e.safe_for_ui && not e.sensitive;
          }))
          g.db;
  }

  unfoldable pub apply_effect : Effect → Gateway World → Gateway World
  apply_effect (saved r) g = save r g
  apply_effect (appended e) g = append e g
  apply_effect (invoked tool args timeout) g = g
  apply_effect (delegated request) g = g
  apply_effect (cancel_sent task) g = g

  -- The effects of a graph, whose latest is the first
  unfoldable pub apply_effects : List Effect → Gateway World → Gateway World
  apply_effects [] g = g
  apply_effects (e ∷ es) g = apply_effect e (apply_effects es g)
