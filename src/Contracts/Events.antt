-- ===== src/Contracts/Events.antt =====
-- packages/contracts/events.py. The time stamp of an event is left out.
use agent_workbench.Base.{ℕ, String, Bool, not, ◌&&◌, Option, none, some, leb, strip, if◌then◌else◌}
use agent_workbench.Base.Json.{Fields}
use agent_workbench.Contracts.Fields.{is_id, optional_within}

pub data EventType : Type 0 where
  run_started message_delta tool_started tool_completed agent_delegated finding_created : EventType
  approval_required approval_received run_completed run_failed run_cancelled : EventType

pub record AgentEvent : Type 0 where
  pub event_id : String
  pub run_id : String
  pub tenant_id : String
  pub sequence : ℕ
  pub type : EventType
  pub payload : Fields
  pub trace_id : Option String
  pub correlation_id : Option String
  pub sensitive : Bool
  pub safe_for_ui : Bool

abbrev pub optional_strip : Option String → Option String
optional_strip none = none
optional_strip (some s) = some (strip s)

-- `str_strip_whitespace=True`
unfoldable pub stripped : AgentEvent → AgentEvent
stripped e = record e {
  event_id = strip e.event_id;
  run_id = strip e.run_id;
  tenant_id = strip e.tenant_id;
  trace_id = optional_strip e.trace_id;
  correlation_id = optional_strip e.correlation_id;
}

-- The field constraints, and `_sensitive_never_ui_safe`.
unfoldable pub is_accepted : AgentEvent → Bool
is_accepted e =
    is_id e.event_id
    && is_id e.run_id
    && is_id e.tenant_id
    && leb e.sequence 1000000
    && optional_within 128 e.trace_id
    && optional_within 128 e.correlation_id
    && not (e.sensitive && e.safe_for_ui)

-- `AgentEvent(…)`: the event, or none for a ValidationError.
unfoldable pub make_event : AgentEvent → Option AgentEvent
unfolding stripped is_accepted
make_event e = if is_accepted (stripped e) then some (stripped e) else none
