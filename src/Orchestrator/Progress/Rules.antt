-- ===== src/Orchestrator/Progress/Rules.antt =====
-- Rules for where a run is after an action.
use agent_workbench.Base.{Option, none, some, ◌≡◌, sym, subst}
use agent_workbench.Base.Action.{Action, Result, modify, gets, raise, ◌>>=◌, ◌>>◌}
use agent_workbench.Base.Ends.{Ends, Ends-bind, Ends-then, Ends-Leads, Ends-any}
use agent_workbench.Base.Json.{Fields}
use agent_workbench.Base.Keeps.{Leads, Keeps, keeps_rules, Leads-then}
use agent_workbench.Contracts.Events.{EventType, AgentEvent}
use agent_workbench.Orchestrator.Clients.{Exn, Clients}
use agent_workbench.Orchestrator.Graph.Core.{
  Machine, update, effect, get_run, external, save, append, emit, transition,
}
use agent_workbench.Orchestrator.Progress.{Place, place}
use agent_workbench.Orchestrator.State.{RunState, Node}

-- A condition on where the run is.
pub record On {World : Type 0} (B : Place → Type 0) (m : Machine World) : Type 0 where
  pub at : B (place m.run)

module _ (c : Clients) {B : Place → Type 0} where
  pub On-get_run : Keeps (On B) (get_run c)
  unfolding get_run gets
  On-get_run = record { at = λ m h. record { at = h.at } }

  pub On-update :
      (f : RunState → RunState)
      → ((r : RunState) → place (f r) ≡ place r)
      → Keeps (On B) (update c f)
  unfolding update modify
  On-update f same = record { at = λ m h. record { at = subst B (sym (same m.run)) h.at } }

  pub On-save : Keeps (On B) (save c)
  unfolding save
  On-save = record { at = λ m h. record { at = h.at } }

  pub On-external :
      {A : Type 0} (f : c.World → Result Exn A × c.World) → Keeps (On B) (external c f)
  unfolding external
  On-external f = record { at = λ m h. record { at = h.at } }

  On-append : (o : Option AgentEvent) → Keeps (On B) (append c o)
  unfolding append effect modify raise
  On-append none = record { at = λ m h. record { at = h.at } }
  On-append (some e) = record { at = λ m h. record { at = h.at } }

  pub On-emit : (t : EventType) (payload : Fields) → Keeps (On B) (emit c t payload)
  unfolding emit
  On-emit t payload = search (keeps_rules, On-update, On-get_run, On-append)

  -- An update that moves the run.
  pub On-place :
      {A : Place → Type 0} (f : RunState → RunState)
      → ((r : RunState) → A (place r) → B (place (f r)))
      → Leads (On A) (On B) (update c f)
  unfolding update modify
  On-place f moved = record { at = λ m h. record { at = moved m.run h.at } }

  pub On-transition :
      {A : Place → Type 0} (n : Node) (t : EventType) (payload : Fields)
      → ((r : RunState) → A (place r) → B (place (record r { current_state = n })))
      → Leads (On A) (On B) (transition c n t payload)
  unfolding transition
  On-transition n t payload moved =
      Leads-then _ _ (λ s h. h) (On-place _ moved) (search (keeps_rules, On-emit, On-save))

-- The rest of a block, from nothing known.
module _ {S E A B : Type 0} {P : S → Type 0} {Q : B → S → Type 0} where
  pub skip :
      (m : Action S E A) (k : Action S E B)
      → Ends (λ _. Unit {0}) Q (λ _ _. Unit {0}) k
      → Ends P Q (λ _ _. Unit {0}) (m >> k)
  skip m k = Ends-then m k (Ends-any m)

  pub skip-bind :
      (m : Action S E A) (f : A → Action S E B)
      → ((a : A) → Ends (λ _. Unit {0}) Q (λ _ _. Unit {0}) (f a))
      → Ends P Q (λ _ _. Unit {0}) (m >>= f)
  skip-bind m f = Ends-bind m f (Ends-any m)

-- The rest of a block, with what is known.
module _ {S E A B : Type 0} {P R : S → Type 0} {Q : B → S → Type 0} where
  pub carry :
      (m : Action S E A) (k : Action S E B)
      → Leads P R m
      → Ends R Q (λ _ _. Unit {0}) k
      → Ends P Q (λ _ _. Unit {0}) (m >> k)
  carry m k leads = Ends-then m k (Ends-Leads m (Ends-any m) leads)

  pub carry-bind :
      (m : Action S E A) (f : A → Action S E B)
      → Leads P R m
      → ((a : A) → Ends R Q (λ _ _. Unit {0}) (f a))
      → Ends P Q (λ _ _. Unit {0}) (m >>= f)
  carry-bind m f leads = Ends-bind m f (Ends-Leads m (Ends-any m) leads)

module _ {S E A B : Type 0} {P : S → Type 0} {Q : B → S → Type 0} where
  pub keep :
      (m : Action S E A) (k : Action S E B)
      → Keeps P m
      → Ends P Q (λ _ _. Unit {0}) k
      → Ends P Q (λ _ _. Unit {0}) (m >> k)
  keep = carry

  pub keep-bind :
      (m : Action S E A) (f : A → Action S E B)
      → Keeps P m
      → ((a : A) → Ends P Q (λ _ _. Unit {0}) (f a))
      → Ends P Q (λ _ _. Unit {0}) (m >>= f)
  keep-bind = carry-bind

pub last :
    {S E A : Type 0} {P R : S → Type 0} (m : Action S E A)
    → Leads P R m
    → Ends P (λ _. R) (λ _ _. Unit {0}) m
last m leads = Ends-Leads m (Ends-any m) leads
