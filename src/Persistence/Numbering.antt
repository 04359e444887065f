-- ===== src/Persistence/Numbering.antt =====
-- The numbers that the repository gives to events.
use agent_workbench.Base.{
  ℕ, ◌+◌, ◌≤◌, String, ◌<>◌, ◌≡◌, refl, ap, ◌∙◌, true, false, ◌&&◌, Option, none, some, List, [],
  ◌∷◌, string_eq, number_eq, ltb, ◌||◌, arith, eq_iff, ℤ,
}
use agent_workbench.Base.Action.{
  Result, returned, raised, pure, raise, raise_if, gets, modify, ◌>>=◌, ◌>>◌,
}
use agent_workbench.Contracts.Events.{AgentEvent, make_event}
use agent_workbench.Persistence.Database.{
  Database, RepositoryError, not_found, conflict, validation_error, transaction, Repository,
  find_run, find_event, next_sequence, has_sequence,
}
use agent_workbench.Persistence.Steps.{pass, commit, rollback, own_run, foreign_run}
use agent_workbench.Persistence.Repository.{
  owned, append_next_event, numbered, list_events, assign_next, insert_event, unless_stored,
  checked, redacted,
}

-- The next number is above every number of the run.
has_sequence-next :
    (run_id : String) (n : ℕ) (rows : List AgentEvent)
    → next_sequence run_id rows ≤ n
    → has_sequence run_id n rows ≡ false
unfolding next_sequence has_sequence
has_sequence-next run_id n [] h = refl
has_sequence-next run_id n (e ∷ rows) h =
    ground (arith, has_sequence-next run_id n rows, eq_iff e.run_id run_id)

next_sequence-numbered :
    (e : AgentEvent) (rows : List AgentEvent)
    → next_sequence e.run_id (numbered e (next_sequence e.run_id rows) ∷ rows)
      ≡ next_sequence e.run_id rows + 1
unfolding next_sequence
next_sequence-numbered e rows = ground (arith, eq_iff e.run_id e.run_id)

-- What follows the insertion of a row: the event of the contract and the new row, or, where the
-- contract refuses it, its error and the rows as they were.
abbrev pub outcome :
    Option AgentEvent → AgentEvent → Database → Result RepositoryError AgentEvent × Database
outcome none row s = (raised (validation_error "AgentEvent"), s)
outcome (some e) row s = (returned e, record s { events = row ∷ s.events })

-- The row that is inserted: its payload is redacted, and its number is the next of the run.
abbrev pub next_row : AgentEvent → Database → AgentEvent
next_row e s = numbered (redacted s.redact e) (next_sequence e.run_id s.events)

settled :
    (o : Option AgentEvent) (row : AgentEvent) (s : Database) (m : Repository AgentEvent)
    → m s ≡ checked o (record s { events = row ∷ s.events })
    → transaction m s ≡ outcome o row s
unfolding checked pure raise
settled none row s m h = rollback m s _ _ h
settled (some e) row s m h = commit m s _ _ h

inserted :
    (row : AgentEvent) (o : Option AgentEvent) (s : Database)
    → has_sequence row.run_id row.sequence s.events ≡ false
    → (insert_event row >> checked o) s ≡ checked o (record s { events = row ∷ s.events })
unfolding insert_event gets modify pure raise_if ◌>>=◌ ◌>>◌
inserted row o s fresh =
    ap
      (λ b.
        ((raise_if b (conflict ("event sequence conflict run=" <> row.run_id))
              >> (modify (λ t. record t { events = row ∷ t.events }) >> pure row))
            >> checked o)
          s)
      fresh

unstored :
    (o : Option AgentEvent) (m : Repository AgentEvent) (s : Database)
    → o ≡ none
    → unless_stored o m s ≡ m s
unfolding unless_stored
unstored none m s h = refl
unstored (some old) m s h = absurd (cc h)

appended :
    (e : AgentEvent) (s : Database)
    → (e.sensitive && e.safe_for_ui) ≡ false
    → owned e.tenant_id (find_run e.run_id s.runs) ≡ true
    → find_event e.event_id s.events ≡ none
    → has_sequence e.run_id (next_sequence e.run_id s.events) s.events ≡ false
    → append_next_event e s ≡ outcome (make_event (next_row e s)) (next_row e s) s
unfolding append_next_event assign_next gets ◌>>=◌
appended e s safe own new fresh =
    pass _ _ _ s safe
    ∙ settled (make_event (next_row e s)) (next_row e s) s _ (
        own_run e.run_id e.tenant_id _ s own
        ∙ (unstored (find_event e.event_id s.events) (assign_next (redacted s.redact e)) s new
            ∙ inserted (next_row e s) (make_event (next_row e s)) s fresh))

-- For an event of the tenant's own run, with a new id: the number after the largest of the run is one
-- that no event of the run has. The row with that number and the redacted payload is stored, and the
-- event of the contract is returned, unless the contract refuses it, which changes nothing; and the
-- next number after the row is one more.
pub append_next_event-next_sequence :
    (e : AgentEvent) (s : Database)
    → (e.sensitive && e.safe_for_ui) ≡ false
    → owned e.tenant_id (find_run e.run_id s.runs) ≡ true
    → find_event e.event_id s.events ≡ none
    → (append_next_event e s ≡ outcome (make_event (next_row e s)) (next_row e s) s)
      × (has_sequence e.run_id (next_sequence e.run_id s.events) s.events ≡ false)
      × (next_sequence e.run_id (next_row e s ∷ s.events) ≡ next_sequence e.run_id s.events + 1)
append_next_event-next_sequence e s safe own new =
    let fresh =
      has_sequence-next e.run_id (next_sequence e.run_id s.events) s.events (omega arith) in
    (appended e s safe own new fresh, fresh, next_sequence-numbered (redacted s.redact e) s.events)

-- A run that is not the tenant's own is answered like one that does not exist, and nothing is
-- written: listing its events, and appending an event to it.
pub list_events-isolated :
    (e : AgentEvent) (after : ℤ) (limit : ℕ) (s : Database)
    → owned e.tenant_id (find_run e.run_id s.runs) ≡ false
    → (ltb limit 1 || ltb 5000 limit) ≡ false
    → (e.sensitive && e.safe_for_ui) ≡ false
    → (list_events e.run_id e.tenant_id after limit s
        ≡ (raised (not_found ("run " <> e.run_id <> " not found")), s))
      × (append_next_event e s ≡ (raised (not_found ("run " <> e.run_id <> " not found")), s))
unfolding list_events append_next_event gets ◌>>=◌
list_events-isolated e after limit s foreign fits safe = (
  pass _ _ _ s fits ∙ foreign_run e.run_id e.tenant_id _ s foreign,
  pass _ _ _ s safe ∙ rollback _ s s _ (foreign_run e.run_id e.tenant_id _ s foreign),
)
