-- ===== src/Protocols/AgUi/Batch.antt =====
-- The batches of events that the user interface gets.
use agent_workbench.Base.{
  ℕ, ◌*◌, ◌≡◌, refl, ap, ◌∙◌, String, true, false, Option, none, some, List, [], ◌∷◌, map, All, ℤ,
  pos, arith, Bool-cases, ◌⊎◌, inl, inr,
}
use agent_workbench.Base.Action.{returned}
use agent_workbench.Base.Json.{Fields, Json, num, get}
use agent_workbench.Base.Python.{Python}
use agent_workbench.Base.Sort.{
  Keyed, sort_keyed, IsSorted, of_key, sort_keyed-IsSorted, of_key-sort_keyed,
}
use agent_workbench.Contracts.Events.{AgentEvent}
use agent_workbench.Protocols.AgUi.{
  AnyEvent, canonical, as_dict, is_renderable, to_ag_ui, int_of, mapped, keyed, values,
  batch_to_ag_ui, add_first, add_mapped, add_keyed, sort_rows, sorted_rows,
}
use agent_workbench.Protocols.AgUi.Rendering.{HasCard, RendersAs, to_ag_ui-RendersAs}

-- An event of the contract, with the text of its time
abbrev pub Stamped : Type 0
Stamped = AgentEvent × String

abbrev pub IsHidden : AgentEvent → Type 0
IsHidden e = (e.sensitive ≡ true) ⊎ (e.safe_for_ui ≡ false)

-- What is to be shown of some events, in the order in which they came, by their sequences
pub data Relays (py : Python) : List Stamped → List (Keyed Fields) → Type 0 where
  done : Relays py [] []
  hidden :
      {e : AgentEvent} {t : String} {es : List Stamped} {ks : List (Keyed Fields)}
      → IsHidden e
      → Relays py es ks
      → Relays py ((e, t) ∷ es) ks
  shown :
      {e : AgentEvent} {t : String} {es : List Stamped} {ks : List (Keyed Fields)} (m : Fields)
      → RendersAs py e t e.type (returned (some m))
      → Relays py es ks
      → Relays py ((e, t) ∷ es) (record { key = pos e.sequence; value = m } ∷ ks)

abbrev pub events_of : List Stamped → List AnyEvent
events_of = map (λ p. canonical p.0 p.1)

abbrev or_zero : Option Json → Json
or_zero none = num (pos 0)
or_zero (some j) = j

module _ (py : Python) (parse_int : String → Option ℤ) where
  dropped : (e : AgentEvent) (t : String) → IsHidden e → to_ag_ui py (canonical e t) ≡ returned none
  unfolding to_ag_ui is_renderable as_dict get
  dropped e t (inl h) = ground (arith, h)
  dropped e t (inr h) = ground (arith, h)

  int_of-hundredths : (n : ℕ) → int_of parse_int (num (pos (100 * n))) ≡ returned (pos n)
  unfolding int_of
  int_of-hundredths n = ap (λ k. returned (pos k)) (omega arith)

  -- The values and keys of events that are to be shown
  abbrev Mapped : List Stamped → List (Keyed Fields) → Type 0
  Mapped es ks =
      Relays py es ks
      × (mapped py (events_of es) ≡ returned (values ks))
      × (keyed parse_int (values ks) ≡ returned ks)

  Mapped-hidden :
      (e : AgentEvent) (t : String) (es : List Stamped) (ks : List (Keyed Fields))
      → IsHidden e
      → Mapped es ks
      → Mapped ((e, t) ∷ es) ks
  unfolding mapped
  Mapped-hidden e t es ks h (relays, m, k) = (
    Relays.hidden h relays,
    ap (λ r. add_mapped r (mapped py (events_of es))) (dropped e t h) ∙ m,
    k,
  )

  Mapped-shown :
      (e : AgentEvent) (t : String) (es : List Stamped) (ks : List (Keyed Fields))
      → RendersAs py e t e.type (to_ag_ui py (canonical e t))
      → Mapped es ks
      → (ks' : List (Keyed Fields)) × Mapped ((e, t) ∷ es) ks'
  unfolding mapped keyed
  Mapped-shown e t es ks (m, same, type, sequence, event_id, run_id, terminal) (relays, ms, k) = (
    record { key = pos e.sequence; value = m } ∷ ks,
    (
      Relays.shown m (m, refl, type, sequence, event_id, run_id, terminal) relays,
      ap (λ r. add_mapped r (mapped py (events_of es))) same ∙ ap (add_first m) ms,
      ap (λ o. add_keyed (int_of parse_int (or_zero o)) m (keyed parse_int (values ks))) sequence
          ∙ ap (λ r. add_keyed r m (keyed parse_int (values ks))) (int_of-hundredths e.sequence)
          ∙ ap (add_first _) k,
    ),
  )

  flags-IsHidden : (e : AgentEvent) → IsHidden e ⊎ ((e.safe_for_ui ≡ true) × (e.sensitive ≡ false))
  flags-IsHidden e = elim (Bool-cases e.sensitive) [
    | inl secret ↦ inl (inl secret)
    | inr open_ ↦ elim (Bool-cases e.safe_for_ui) [
      | inl safe ↦ inr (safe, open_)
      | inr unsafe ↦ inl (inr unsafe)
    ]
  ]

  Mapped-All :
      (es : List Stamped)
      → All (λ p. HasCard p.0.payload) es
      → (ks : List (Keyed Fields)) × Mapped es ks
  unfolding mapped keyed
  Mapped-All [] cards = ([], (Relays.done, refl, refl))
  Mapped-All ((e, t) ∷ es) cards =
      let (ks, rest) = Mapped-All es cards.1 in
      elim (flags-IsHidden e) [
        | inl h ↦ (ks, Mapped-hidden e t es ks h rest)
        | inr flags ↦
            Mapped-shown e t es ks (to_ag_ui-RendersAs py e t flags.0 flags.1 cards.0) rest
      ]

  -- A batch of events of the contract, whose findings are dicts, is rendered: its rows are the
  -- renderings of the events that are safe for the interface and not sensitive, ascending by the
  -- events' sequences, and events with one sequence stay in the order in which they came.
  pub batch_to_ag_ui-IsSorted :
      (es : List Stamped)
      → All (λ p. HasCard p.0.payload) es
      → (ks rows : List (Keyed Fields)) × Relays py es ks
        × (batch_to_ag_ui parse_int py (events_of es) ≡ returned (values rows))
        × IsSorted rows
        × ((k : ℤ) → of_key k rows ≡ of_key k ks)
  unfolding batch_to_ag_ui
  batch_to_ag_ui-IsSorted es cards =
      let (ks, (relays, m, k)) = Mapped-All es cards in
      (
        ks,
        sort_keyed ks,
        relays,
        ap (sort_rows parse_int) m ∙ ap sorted_rows k,
        sort_keyed-IsSorted ks,
        λ k. of_key-sort_keyed k ks,
      )
