-- ===== src/Api/Runs/Replayed.antt =====
-- Which events the replay gives.
use agent_workbench.Base.{
  ℕ, ◌<◌, ◌≡◌, refl, sym, subst, String, Bool, true, false, ◌&&◌, Option, none, some, List, [], ◌∷◌,
  ◌==◌, string_eq, eq_iff, arith, if◌then◌else◌, All, take, zero, suc, ℤ, pos, leb,
}
use agent_workbench.Base.Action.{Result, returned, raised, pure, ◌>>=◌}
use agent_workbench.Base.Ends.{
  Ends, Met, MetPair, Any1, Any, Ends-pure, Ends-bind, Ends-then, Ends-any, Ends-returned,
  Ends-look,
}
use agent_workbench.Contracts.Events.{AgentEvent}
use agent_workbench.Orchestrator.Clients.{Clients}
use agent_workbench.Persistence.Database.{Database, RepositoryError, Repository}
use agent_workbench.Persistence.Repository.{is_after, insert_sorted, selected, list_events}
use agent_workbench.Api.Store.{Gateway}
use agent_workbench.Api.Requests.{ApiError, missing_only, in_repository}
use agent_workbench.Api.Runs.{EventsCall, EventsReply, header_after, run_events}

-- An event of the run, with a number above `after`
abbrev pub IsSince : String → ℕ → AgentEvent → Type 0
IsSince run_id after e = (e.run_id ≡ run_id) × (after < e.sequence)

module _ (P : AgentEvent → Type 0) where
  All-insert_sorted :
      (e : AgentEvent) (rows : List AgentEvent) → P e → All P rows → All P (insert_sorted e rows)
  unfolding insert_sorted
  All-insert_sorted e [] h hs = (h, tt)
  All-insert_sorted e (f ∷ rows) h hs =
      elim (leb e.sequence f.sequence)
        as (λ b. All P (if b then e ∷ f ∷ rows else f ∷ insert_sorted e rows)) [
          | true ↦ (h, hs)
          | false ↦ (hs.0, All-insert_sorted e rows h hs.1)
        ]

  All-take : (n : ℕ) (rows : List AgentEvent) → All P rows → All P (take n rows)
  All-take zero rows hs = tt
  All-take (suc n) [] hs = tt
  All-take (suc n) (e ∷ rows) hs = (hs.0, All-take n rows hs.1)

module _ (run_id tenant : String) (after : ℕ) where
  kept-IsSince :
      (b : Bool) (e : AgentEvent) (rest : List AgentEvent)
      → (b ≡ true → IsSince run_id after e)
      → All (IsSince run_id after) rest
      → All (IsSince run_id after) (if b then insert_sorted e rest else rest)
  kept-IsSince true e rest h hs = All-insert_sorted _ e rest (h refl) hs
  kept-IsSince false e rest h hs = hs

  matches-IsSince :
      (e : AgentEvent)
      → e.run_id == run_id && is_after (pos after) e.sequence ≡ true
      → IsSince run_id after e
  unfolding is_after
  matches-IsSince e h = ground (arith, eq_iff e.run_id run_id)

  selected-IsSince :
      (rows : List AgentEvent) → All (IsSince run_id after) (selected run_id (pos after) rows)
  unfolding selected
  selected-IsSince [] = tt
  selected-IsSince (e ∷ rows) = kept-IsSince _ e _ (matches-IsSince e) (selected-IsSince rows)

  list_events-IsSince :
      Ends Any1
        (λ es _. All (IsSince run_id after) es)
        Any
        (list_events run_id tenant (pos after) 1000)
  unfolding list_events
  list_events-IsSince = Ends-then {R = Any1} _ _ (Ends-any _) (
      Ends-then {R = Any1} _ _ (Ends-any _) (
        Ends-look _ _ (λ s u.
          (Ends-pure {P = Any1} _ (λ t v. All-take _ 1000 _ (selected-IsSince s.events))).at s tt)))

module _ (c : Clients) {A : Type 0} (Q : A → Type 0) where
  lifted :
      (r : Result RepositoryError A) (convert : RepositoryError → ApiError) (d : Database)
      → (h : Gateway c.World) → Met (λ a _. Q a) Any r d
      → MetPair
          (λ a _. Q a)
          Any
          (elim r as (λ _. Result ApiError A × Gateway c.World) [
            | returned a ↦ (returned a, h)
            | raised e ↦ (raised (convert e), h)
          ])
  unfolding Met
  lifted (returned a) convert d h met = met
  lifted (raised e) convert d h met = tt

  -- What a method returns, its endpoint returns.
  Ends-in_repository :
      (m : Repository A) (convert : RepositoryError → ApiError)
      → Ends Any1 (λ a _. Q a) Any m
      → Ends Any1 (λ a _. Q a) Any (in_repository c m convert)
  unfolding in_repository
  Ends-in_repository m convert ends = record {
    at = λ g u. lifted (m g.db).0 convert (m g.db).1 _ (ends.at g.db tt);
  }

module _ (c : Clients) (parse_int : String → Option ℤ) (d : EventsCall) where
  abbrev Since : EventsReply → Type 0
  Since reply = All (IsSince d.run_id d.after_sequence) reply.events

  after_none :
      (o : Option String) (g : Gateway c.World)
      → o ≡ none
      → header_after c parse_int d o g ≡ pos d.after_sequence
  unfolding header_after
  after_none none g h = refl
  after_none (some s) g h = absurd (cc h)

  listed-Since :
      (after : ℤ)
      → after ≡ pos d.after_sequence
      → Ends Any1
          (λ reply _. Since reply)
          Any
          (do
            events ←
                in_repository c (list_events d.run_id d.identity.tenant_id after 1000) missing_only
            pure (record { run_id = d.run_id; after_sequence = after; events = events }))
  listed-Since after same =
      Ends-bind {R = λ es _. All (IsSince d.run_id d.after_sequence) es} _ _
        (Ends-in_repository c (All (IsSince d.run_id d.after_sequence)) _ _ (
          subst
            (λ z.
              Ends Any1 (λ es _. All (IsSince d.run_id d.after_sequence) es) Any
                (list_events d.run_id d.identity.tenant_id z 1000))
            (sym same) (list_events-IsSince d.run_id d.identity.tenant_id d.after_sequence)))
        (λ es. Ends-pure _ (λ s h. h))

  run_events-Since :
      d.last_event_id ≡ none → Ends Any1 (λ reply _. Since reply) Any (run_events c parse_int d)
  unfolding run_events
  run_events-Since no_header = Ends-then {R = Any1} _ _ (Ends-any _) (
      Ends-bind {R = λ _. Any1} _ _ (Ends-any _) (λ row.
        Ends-look _ _ (λ g u. (listed-Since _ (after_none d.last_event_id g no_header)).at g tt)))

-- Without Last-Event-ID, each event that the replay returns is the run's and has a number above
-- after_sequence, which is at least 0: an event with the number 0 is never returned.
pub run_events-IsSince :
    (c : Clients) (parse_int : String → Option ℤ) (d : EventsCall) (g : Gateway c.World)
    → (reply : EventsReply) → d.last_event_id ≡ none
    → (run_events c parse_int d g).0 ≡ returned reply
    → All (IsSince d.run_id d.after_sequence) reply.events
run_events-IsSince c parse_int d g reply no_header answered =
    Ends-returned (run_events c parse_int d) g reply (run_events-Since c parse_int d no_header) tt
      answered
