-- ===== src/Api/Runs.antt =====
-- Endpoints of apps/api/routes/runs.py: the cancellation of a run, its execution in the background,
-- and the replay of its events. The text of the event stream is left out; `int(s)` is a parameter.
pub mod Cancel
pub mod Replayed
use agent_workbench.Base.{
  ℕ, String, ◌<>◌, Bool, true, false, not, ◌&&◌, Option, none, some, List, [], ◌∷◌, ◌==◌, string_eq,
  number_eq, any, ℤ, pos, negsuc, if◌then◌else◌,
}
use agent_workbench.Base.Action.{Result, returned, raised, pure, gets, modify, when, ◌>>=◌, ◌>>◌}
use agent_workbench.Base.Dict.{lookup, insert}
use agent_workbench.Base.Json.{str, Fields, end, field}
use agent_workbench.Contracts.Events.{AgentEvent, run_cancelled}
use agent_workbench.Orchestrator.Clients.{Clients}
use agent_workbench.Orchestrator.State.{RunState, RunStatus}
use agent_workbench.Persistence.Database.{RepositoryError, Repository}
use agent_workbench.Persistence.Repository.{get_run, list_events, append_next_event}
use agent_workbench.Persistence.Updates.{update_run}
use agent_workbench.Security.Authorization.{Identity, require_scopes, has}
use agent_workbench.Api.Store.{Gateway, RepositoryStore, quietly}
use agent_workbench.Api.Requests.{
  ApiError, escaped, Endpoint, missing_only, event, in_repository, authorized, suppressed,
}
use agent_workbench.Api.Resume.{run_graph}

pub record RunCall : Type 0 where
  pub run_id : String
  pub identity : Identity
  pub now : ℕ
  pub event_id : String

-- `flags.add(x)`, and the append of a text that is not in the list
abbrev pub add_absent : String → List String → List String
add_absent x xs = if has xs x then xs else x ∷ xs

abbrev pub update_cached :
    {World : Type 0} → String → (RunState → RunState) → Gateway World → Gateway World
update_cached run_id f g = elim (lookup run_id g.run_states) [
  | none ↦ g
  | some r ↦ record g { run_states = insert run_id (f r) g.run_states }
]

-- `request_cancel` of store.py
unfoldable pub request_cancel : {World : Type 0} → String → Gateway World → Gateway World
request_cancel run_id g =
    let h = update_cached run_id (λ r. record r { cancelled = true }) g in
    record h {
      cancel_flags = add_absent run_id g.cancel_flags;
      a2a_cancelled = add_absent (run_id <> "-obs-1") g.a2a_cancelled;
    }

-- `propagate_cancel` of worker.py
unfoldable pub propagate_cancel : {World : Type 0} → String → Gateway World → Gateway World
propagate_cancel run_id g =
    let h = request_cancel run_id g in
    record h { a2a_cancelled = add_absent (run_id <> "-obs-1") h.a2a_cancelled }

pub record CancelReply : Type 0 where
  pub run_id : String
  pub status : String

module _ (c : Clients) where
  abbrev cancelled_event : RunCall → AgentEvent
  cancelled_event d =
      event d.event_id d.run_id d.identity.tenant_id run_cancelled
        (field "reason" (str "cancel requested") end)

  -- The row and the event of a run that was not cancelled
  unfoldable pub cancel_row : RunCall → Endpoint c.World (Unit {0})
  cancel_row d = do
    in_repository c
        (update_run d.run_id d.identity.tenant_id
          (record { status = some "cancelled"; current_state = none; budget = none }))
        escaped
    in_repository c (suppressed (append_next_event (cancelled_event d))) escaped

  -- `cancel_run`
  unfoldable pub cancel_run : RunCall → Endpoint c.World CancelReply
  cancel_run d = do
    authorized c (require_scopes d.identity ("case.write" ∷ []))
    row ← in_repository c (get_run d.run_id d.identity.tenant_id) missing_only
    when (not (row.status == "cancelled")) (cancel_row d)
    modify (request_cancel d.run_id)
    modify (update_cached d.run_id (λ r. record r { status = RunStatus.cancelled }))
    modify (propagate_cancel d.run_id)
    pure (record { run_id = d.run_id; status = "cancelled" })

  -- `_execute_run`
  unfoldable pub execute_run : RepositoryStore → Gateway c.World → Gateway c.World
  execute_run st g = elim (lookup st.run_id g.run_states) [
    | none ↦ g
    | some r ↦
        run_graph c st (if has g.cancel_flags st.run_id then record r { cancelled = true } else r) g
  ]

pub record EventsCall : Type 0 where
  pub run_id : String
  pub identity : Identity
  pub after_sequence : ℕ
  pub last_event_id : Option String

pub record EventsReply : Type 0 where
  pub run_id : String
  pub after_sequence : ℤ
  pub events : List AgentEvent

abbrev find_sequence : String → List AgentEvent → Option ℕ
find_sequence event_id [] = none
find_sequence event_id (e ∷ es) =
    if e.event_id == event_id then some e.sequence else find_sequence event_id es

-- `_sequence_for_event_id`
unfoldable pub sequence_for_event_id : String → String → String → Repository (Option ℕ)
sequence_for_event_id run_id tenant event_id db =
    let (r, t) = list_events run_id tenant (negsuc 0) 1000 db in
    elim r [
      | returned es ↦ (returned (find_sequence event_id es), t)
      | raised e ↦ (returned none, t)
    ]

abbrev pub or_after : ℕ → Result RepositoryError (Option ℕ) → ℤ
or_after after (returned (some n)) = pos n
or_after after _ = pos after

module _ (c : Clients) (parse_int : String → Option ℤ) where
  -- `Last-Event-ID`: a number, or the id of an event
  unfoldable pub header_after : EventsCall → Option String → Gateway c.World → ℤ
  header_after d none g = pos d.after_sequence
  header_after d (some text) g =
      if d.after_sequence == 0 && not (text == "")
      then elim (parse_int text) [
        | some z ↦ z
        | none ↦
            or_after d.after_sequence
              (sequence_for_event_id d.run_id d.identity.tenant_id text g.db).0
      ]
      else pos d.after_sequence

  -- `run_events`
  unfoldable pub run_events : EventsCall → Endpoint c.World EventsReply
  run_events d = do
    authorized c (require_scopes d.identity ("case.read" ∷ []))
    row ← in_repository c (get_run d.run_id d.identity.tenant_id) missing_only
    after ← gets (header_after d d.last_event_id)
    events ← in_repository c (list_events d.run_id d.identity.tenant_id after 1000) missing_only
    pure (record { run_id = d.run_id; after_sequence = after; events = events })
