-- ===== src/Protocols/AgUi/Rendering.antt =====
-- What the user interface gets to see of one event.
use agent_workbench.Base.{
  ◌*◌, ◌≡◌, ◌≢◌, refl, ap, ◌⊎◌, inl, inr, String, Bool, true, false, Option, none, some, pos,
  string_eq, if◌then◌else◌,
}
use agent_workbench.Base.Action.{Result, returned, raised}
use agent_workbench.Base.Dict.{lookup}
use agent_workbench.Base.Json.{Json, null, bool, num, str, arr, obj, other, Fields, get, merge}
use agent_workbench.Base.Python.{Python, get_text}
use agent_workbench.Contracts.Events.{
  AgentEvent, EventType, run_started, message_delta, tool_started, tool_completed, agent_delegated,
  finding_created, approval_required, approval_received, run_completed, run_failed, run_cancelled,
}
use agent_workbench.Protocols.AgUi.{
  UiError, AnyEvent, canonical, type_value, ag_ui_type_by_canonical, terminal_ag_ui, as_dict,
  is_true, is_renderable, snapshot, body, base, with_base, rendered, to_ag_ui, is_terminal_ag_ui,
}

-- The dict says that it is safe for the interface, and not that it is sensitive.
abbrev pub Shown : Fields → Type 0
Shown d = (get "safe_for_ui" d ≡ some (bool true)) × (get "sensitive" d ≢ some (bool true))

is_true-true : (o : Option Json) → is_true o ≡ true → o ≡ some (bool true)
is_true-true (some (bool true)) h = refl
is_true-true (some (bool false)) h = absurd (cc h)
is_true-true (some null) h = absurd (cc h)
is_true-true (some (num z)) h = absurd (cc h)
is_true-true (some (str s)) h = absurd (cc h)
is_true-true (some (arr xs)) h = absurd (cc h)
is_true-true (some (obj fs)) h = absurd (cc h)
is_true-true (some (other s)) h = absurd (cc h)
is_true-true none h = absurd (cc h)

is_true-false : (o : Option Json) → is_true o ≡ false → o ≢ some (bool true)
is_true-false o h e = absurd (cc (h, e))

both_flags : (b c : Bool) → (if b then false else c) ≡ true → (c ≡ true) × (b ≡ false)
both_flags true c h = absurd (cc h)
both_flags false c h = (h, refl)

renderable-Shown : (d : Fields) → is_renderable d ≡ true → Shown d
unfolding is_renderable
renderable-Shown d h =
    let (safe, open_) =
      both_flags (is_true (get "sensitive" d)) (is_true (get "safe_for_ui" d)) h in
    (is_true-true (get "safe_for_ui" d) safe, is_true-false (get "sensitive" d) open_)

with_base-some :
    (ag_type : String) (d : Fields) (r : Result UiError Fields)
    → with_base ag_type d r ≢ returned none
with_base-some ag_type d (returned payload) e = absurd (cc e)
with_base-some ag_type d (raised error) e = absurd (cc e)

module _ (py : Python) where
  rendered-some : (d : Fields) → rendered py d ≢ returned none
  unfolding rendered
  rendered-some d = with_base-some _ d _

  chosen_by :
      (b : Bool) (d : Fields)
      → ((m : Fields) → (if b then rendered py d else returned none) ≡ returned (some m) → b ≡ true)
        × ((if b then rendered py d else returned none) ≡ returned none → b ≡ false)
  chosen_by true d = (λ m e. refl, λ e. absurd (rendered-some d e))
  chosen_by false d = (λ m e. absurd (cc e), λ e. refl)

  -- The filter: to_ag_ui renders an event only where its dict has safe_for_ui true and sensitive not
  -- true, and it drops an event only where is_renderable does not hold of it.
  pub to_ag_ui-Shown :
      (e : AnyEvent)
      → ((m : Fields) → to_ag_ui py e ≡ returned (some m) → Shown (as_dict e))
        × (to_ag_ui py e ≡ returned none → is_renderable (as_dict e) ≡ false)
  unfolding to_ag_ui
  to_ag_ui-Shown e =
      let (kept, dropped) = chosen_by (is_renderable (as_dict e)) (as_dict e) in
      (λ m h. renderable-Shown (as_dict e) (kept m h), dropped)

-- The table of the adapter's documentation
abbrev pub ag_ui_name : EventType → String
ag_ui_name run_started = "RUN_STARTED"
ag_ui_name message_delta = "TEXT_MESSAGE_CONTENT"
ag_ui_name tool_started = "TOOL_CALL_START"
ag_ui_name tool_completed = "TOOL_CALL_FINISH"
ag_ui_name agent_delegated = "ACTIVITY"
ag_ui_name finding_created = "STATE_SNAPSHOT"
ag_ui_name approval_required = "FRONTEND_INTERACTION"
ag_ui_name approval_received = "STATE_UPDATE"
ag_ui_name run_completed = "RUN_FINISHED"
ag_ui_name run_failed = "RUN_ERROR"
ag_ui_name run_cancelled = "RUN_CANCELLED"

abbrev pub ends_run : EventType → Bool
ends_run run_completed = true
ends_run run_failed = true
ends_run run_cancelled = true
ends_run _ = false

-- Where there is a finding, it is a dict.
abbrev pub HasCard : Fields → Type 0
HasCard payload =
    (get "finding" payload ≡ none) ⊎ ((f : Fields) × (get "finding" payload ≡ some (obj f)))

module _ (py : Python) (e : AgentEvent) (timestamp : String) where
  abbrev dict : EventType → Fields
  dict t = as_dict (canonical (record e { type = t }) timestamp)

  -- The rendered event, and what a client reads of it
  abbrev pub RendersAs : EventType → Result UiError (Option Fields) → Type 0
  RendersAs t r =
      (m : Fields) × (r ≡ returned (some m))
      × (get "type" m ≡ some (str (ag_ui_name t)))
      × (get "sequence" m ≡ some (num (pos (100 * e.sequence))))
      × (get "event_id" m ≡ some (str e.event_id))
      × (get "run_id" m ≡ some (str e.run_id))
      × (is_terminal_ag_ui py m ≡ ends_run t)

  snapshot-returned :
      HasCard e.payload → (p : Fields) × (snapshot e.payload (get "finding" e.payload) ≡ returned p)
  unfolding snapshot
  snapshot-returned (inl missing) = (_, ap (snapshot e.payload) missing)
  snapshot-returned (inr (f, found)) = (_, ap (snapshot e.payload) found)

  rendered-RendersAs : (t : EventType) → HasCard e.payload → RendersAs t (rendered py (dict t))
  unfolding rendered as_dict type_value ag_ui_type_by_canonical lookup get get_text body base merge
      is_terminal_ag_ui terminal_ag_ui
  rendered-RendersAs run_started h = (_, refl, refl, refl, refl, refl, refl)
  rendered-RendersAs message_delta h = (_, refl, refl, refl, refl, refl, refl)
  rendered-RendersAs tool_started h = (_, refl, refl, refl, refl, refl, refl)
  rendered-RendersAs tool_completed h = (_, refl, refl, refl, refl, refl, refl)
  rendered-RendersAs agent_delegated h = (_, refl, refl, refl, refl, refl, refl)
  rendered-RendersAs finding_created h =
      let (p, e) = snapshot-returned h in
      (_, ap (with_base "STATE_SNAPSHOT" (dict finding_created)) e, refl, refl, refl, refl, refl)
  rendered-RendersAs approval_required h = (_, refl, refl, refl, refl, refl, refl)
  rendered-RendersAs approval_received h = (_, refl, refl, refl, refl, refl, refl)
  rendered-RendersAs run_completed h = (_, refl, refl, refl, refl, refl, refl)
  rendered-RendersAs run_failed h = (_, refl, refl, refl, refl, refl, refl)
  rendered-RendersAs run_cancelled h = (_, refl, refl, refl, refl, refl, refl)

  -- An event of the contract that is safe for the interface and not sensitive, whose finding, if any,
  -- is a dict, is rendered under the type that the documentation's table gives, with its sequence, id
  -- and run, and it is terminal exactly where the event ends its run.
  pub to_ag_ui-RendersAs :
      e.safe_for_ui ≡ true
      → e.sensitive ≡ false
      → HasCard e.payload
      → RendersAs e.type (to_ag_ui py (canonical e timestamp))
  unfolding to_ag_ui is_renderable as_dict get rendered get_text base
  to_ag_ui-RendersAs safe open_ card = rw (open_, safe) (rendered-RendersAs e.type card)
