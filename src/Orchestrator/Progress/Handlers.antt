-- ===== src/Orchestrator/Progress/Handlers.antt =====
-- What the driver's start and its exception handlers raise, and where they leave the run.
use agent_workbench.Base.{String, Bool, true, false, ◌≡◌, refl, Option, none, some}
use agent_workbench.Base.Action.{pure, raise, gets, modify, when, ◌>>=◌, ◌>>◌}
use agent_workbench.Base.Ends.{Ends, Met, Ends-pure, Ends-bind, Ends-then, Ends-catch, Ends-any}
use agent_workbench.Base.Json.{Fields}
use agent_workbench.Base.Keeps.{Leads, Keeps, keeps_rules, Leads-then}
use agent_workbench.Contracts.Events.{EventType, AgentEvent}
use agent_workbench.Orchestrator.Clients.{
  Exn, run_cancelled, budget_exceeded, timeout, failure, Clients,
}
use agent_workbench.Orchestrator.Graph.Core.{
  Machine, Graph, update, effect, get_run, save, append, emit, transition,
}
use agent_workbench.Orchestrator.Graph.Run.{fail, send_cancel, suppress, handle, start}
use agent_workbench.Orchestrator.Progress.{is_settled, Rests}
use agent_workbench.Orchestrator.Progress.Rules.{On, On-save, On-emit, On-place}
use agent_workbench.Orchestrator.State.{RunState, ErrorCode}

-- The one exception that leaves `run`: the contract of the events refused one.
pub record IsRefusal (e : Exn) : Type 0 where
  pub refused : e ≡ failure "ValidationError" "AgentEvent"

module _ (c : Clients) where
  abbrev pub Calm : {A : Type 0} → Graph c A → Type 0
  Calm m = Ends (λ _. Unit {0}) (λ _ _. Unit {0}) (λ e _. IsRefusal e) m

  Calm-pure : {A : Type 0} (a : A) → Calm (pure a)
  Calm-pure a = Ends-pure a (λ m h. tt)

  Calm-bind :
      {A B : Type 0} (m : Graph c A) (f : A → Graph c B)
      → Calm m
      → ((a : A) → Calm (f a))
      → Calm (m >>= f)
  Calm-bind = Ends-bind

  Calm-then : {A B : Type 0} (m : Graph c A) (k : Graph c B) → Calm m → Calm k → Calm (m >> k)
  Calm-then = Ends-then

  Calm-when : (b : Bool) (m : Graph c (Unit {0})) → Calm m → Calm (when b m)
  unfolding when
  Calm-when true m h = h
  Calm-when false m h = Calm-pure tt

  Calm-update : (f : RunState → RunState) → Calm (update c f)
  unfolding update modify Met
  Calm-update f = record { at = λ m h. tt }

  Calm-get_run : Calm (get_run c)
  unfolding get_run gets Met
  Calm-get_run = record { at = λ m h. tt }

  Calm-save : Calm (save c)
  unfolding save Met
  Calm-save = record { at = λ m h. tt }

  Calm-send_cancel : Calm (send_cancel c)
  unfolding send_cancel Met
  Calm-send_cancel = record { at = λ m h. tt }

  Calm-append : (o : Option AgentEvent) → Calm (append c o)
  unfolding append effect modify raise Met
  Calm-append none = record { at = λ m h. record { refused = refl } }
  Calm-append (some e) = record { at = λ m h. tt }

  Calm-emit : (t : EventType) (payload : Fields) → Calm (emit c t payload)
  unfolding emit
  Calm-emit t payload = search (Calm-then, Calm-bind, Calm-update, Calm-get_run, Calm-append)

  Calm-suppress : (m : Graph c (Unit {0})) → Calm (suppress c m)
  unfolding suppress
  Calm-suppress m = Ends-catch m _ (Ends-any m) (λ e. Ends-pure tt (λ s h. tt))

  Calm-fail : (code : ErrorCode) (message : String) → Calm (fail c code message)
  unfolding fail
  Calm-fail code message = Calm-update _

  ruleset calm_rules = (
    Calm-pure, Calm-bind, Calm-then, Calm-when, Calm-update, Calm-get_run, Calm-save,
    Calm-send_cancel, Calm-emit, Calm-suppress, Calm-fail,
  )

  pub Calm-start : Calm (start c)
  unfolding start transition
  Calm-start = search calm_rules depth 20

  pub Calm-handle : (e : Exn) → Calm (handle c e)
  unfolding handle
  Calm-handle run_cancelled = search calm_rules depth 20
  Calm-handle (budget_exceeded s) = search calm_rules depth 20
  Calm-handle (timeout s t) = search calm_rules depth 20
  Calm-handle (failure s t) = search calm_rules depth 20

  rest :
      {P : Machine c.World → Type 0} (f : RunState → RunState)
      → ((r : RunState) → is_settled (f r).status ≡ true)
      → Leads P (On Rests) (update c f)
  rest f settled = record {
    at = λ m h. (On-place c {A = λ _. Unit {0}} f (λ r _. settled r)).at m (record { at = tt });
  }

  On-send_cancel : Keeps (On Rests) (send_cancel c)
  unfolding send_cancel
  On-send_cancel = record { at = λ m h. record { at = h.at } }

  fail-Rests :
      {P : Machine c.World → Type 0} (code : ErrorCode) (message : String)
      → Leads P (On Rests) (fail c code message)
  unfolding fail is_settled
  fail-Rests code message = rest _ (λ r. refl)

  -- Whatever was raised, its handler leaves the run at rest.
  pub handle-Rests : {P : Machine c.World → Type 0} (e : Exn) → Leads P (On Rests) (handle c e)
  unfolding handle suppress is_settled
  handle-Rests run_cancelled =
      Leads-then _ _ (λ s h. h) (rest _ (λ r. refl))
        (search (keeps_rules, On-emit, On-save, On-send_cancel))
  handle-Rests (budget_exceeded s) =
      Leads-then _ _ (λ s h. h) (fail-Rests _ _) (search (keeps_rules, On-emit, On-save))
  handle-Rests (timeout s t) =
      Leads-then _ _ (λ s h. h) (fail-Rests _ _) (search (keeps_rules, On-emit, On-save))
  handle-Rests (failure s t) =
      Leads-then _ _ (λ s h. h) (fail-Rests _ _) (search (keeps_rules, On-emit, On-save))
