-- ===== src/Protocols/Tests.antt =====
-- The properties of the AG-UI adapter at three events that come out of order.
use agent_workbench.Base.{
  ℕ, ◌≡◌, refl, inl, inr, String, Bool, true, false, none, some, List, [], ◌∷◌, ℤ,
}
use agent_workbench.Base.Action.{returned}
use agent_workbench.Base.Json.{Fields, str, obj, field, end, get}
use agent_workbench.Base.Sort.{Keyed, IsSorted, of_key}
use agent_workbench.Contracts.Events.{
  AgentEvent, EventType, message_delta, finding_created, run_completed,
}
use agent_workbench.Orchestrator.Examples.{plain_python}
use agent_workbench.Protocols.AgUi.{
  canonical, as_dict, is_renderable, to_ag_ui, batch_to_ag_ui, values,
}
use agent_workbench.Protocols.AgUi.Batch.{Stamped, Relays, events_of, batch_to_ag_ui-IsSorted}
use agent_workbench.Protocols.AgUi.Rendering.{Shown, RendersAs, to_ag_ui-Shown, to_ag_ui-RendersAs}

abbrev event : String → ℕ → EventType → Bool → Fields → AgentEvent
event id n type sensitive payload = record {
  event_id = id;
  run_id = "run_1";
  tenant_id = "tenant_a";
  sequence = n;
  type = type;
  payload = payload;
  trace_id = none;
  correlation_id = none;
  sensitive = sensitive;
  safe_for_ui = true;
}

abbrev finding : AgentEvent
finding =
    event "evt_2" 2 finding_created false
      (field "finding" (obj (field "title" (str "Saturation") end)) end)

abbrev out_of_order : List Stamped
out_of_order =
    (event "evt_3" 3 run_completed false end, "10:03")
    ∷ (finding, "10:02")
    ∷ (event "evt_1" 1 message_delta true end, "10:01")
    ∷ []

to_ag_ui-Shown_example :
    ((m : Fields)
      → to_ag_ui plain_python (canonical finding "10:02") ≡ returned (some m)
      → Shown (as_dict (canonical finding "10:02")))
    × (to_ag_ui plain_python (canonical finding "10:02") ≡ returned none
        → is_renderable (as_dict (canonical finding "10:02")) ≡ false)
to_ag_ui-Shown_example = to_ag_ui-Shown plain_python (canonical finding "10:02")

to_ag_ui-RendersAs_example :
    RendersAs plain_python finding "10:02" finding_created
      (to_ag_ui plain_python (canonical finding "10:02"))
unfolding get
to_ag_ui-RendersAs_example =
    to_ag_ui-RendersAs plain_python finding "10:02" refl refl (inr (_, refl))

batch_to_ag_ui-IsSorted_example :
    (ks rows : List (Keyed Fields)) × Relays plain_python out_of_order ks
    × (batch_to_ag_ui (λ s. none) plain_python (events_of out_of_order) ≡ returned (values rows))
    × IsSorted rows
    × ((k : ℤ) → of_key k rows ≡ of_key k ks)
unfolding get
batch_to_ag_ui-IsSorted_example =
    batch_to_ag_ui-IsSorted plain_python (λ s. none) out_of_order
      (inl refl, (inr (_, refl), (inl refl, tt)))
