-- ===== src/Api/Runs/Cancel.antt =====
-- What a run that was cancelled may still do.
use agent_workbench.Base.{
  ℕ, ◌+◌, suc, ◌≡◌, refl, sym, ap, subst, String, Bool, true, false, Option, none, some, List, [],
  ◌∷◌, ◌++◌, string_eq, eq_iff, arith, if◌then◌else◌,
}
use agent_workbench.Base.Action.{returned, raised, pure, raise, gets, modify, raise_if, ◌>>=◌, ◌>>◌}
use agent_workbench.Base.Dict.{lookup}
use agent_workbench.Base.Ends.{Ends, Met, Any1, Any, Ends-bind, Ends-then, Ends-any, Ends-returned}
use agent_workbench.Base.Json.{Fields}
use agent_workbench.Base.Keeps.{
  Keeps, Keeps-pure, Keeps-gets, Keeps-modify, Keeps-bind, Keeps-then, Keeps-when, Leads-catch,
}
use agent_workbench.Contracts.Events.{AgentEvent, EventType}
use agent_workbench.Orchestrator.Clients.{Clients, Exn}
use agent_workbench.Orchestrator.Graph.Core.{
  Effect, saved, appended, invoked, delegated, cancel_sent, Machine, Graph, update, effect, get_run,
  save, append, emit, transition, check_cancel,
}
use agent_workbench.Orchestrator.Graph.Run.{
  round, loop, handle, start, run, fail, suppress, send_cancel,
}
use agent_workbench.Orchestrator.State.{RunState, Node}
use agent_workbench.Security.Authorization.{has}
use agent_workbench.Api.Store.{Gateway, RepositoryStore}
use agent_workbench.Api.Requests.{ApiError}
use agent_workbench.Api.Resume.{fresh_machine, run_graph}
use agent_workbench.Api.Runs.{
  RunCall, CancelReply, request_cancel, propagate_cancel, cancel_run, execute_run,
}

-- The calls of tools and of the specialist
abbrev pub is_call : Effect → Bool
is_call (invoked tool args timeout) = true
is_call (delegated request) = true
is_call (saved r) = false
is_call (appended e) = false
is_call (cancel_sent task) = false

abbrev pub call_count : List Effect → ℕ
call_count [] = 0
call_count (e ∷ es) = if is_call e then suc (call_count es) else call_count es

module _ (c : Clients) where
  -- The run is cancelled, and nothing was called.
  abbrev Stopped : Machine c.World → Type 0
  Stopped m = (m.run.cancelled ≡ true) × (call_count m.effects ≡ 0)

  abbrev Quiet : Machine c.World → Type 0
  Quiet m = call_count m.effects ≡ 0

  Stopped-append : (o : Option AgentEvent) → Keeps Stopped (append c o)
  unfolding append effect modify raise
  Stopped-append none = record { at = λ m h. h }
  Stopped-append (some e) = record { at = λ m h. h }

  Stopped-emit : (t : EventType) (payload : Fields) → Keeps Stopped (emit c t payload)
  unfolding emit update get_run
  Stopped-emit t payload =
      Keeps-then _ _ (Keeps-modify _ (λ m h. h))
        (Keeps-bind _ _ (Keeps-gets _) (λ r. Stopped-append _))

  Stopped-save : Keeps Stopped (save c)
  unfolding save
  Stopped-save = record { at = λ m h. h }

  Stopped-transition :
      (next : Node) (t : EventType) (payload : Fields) → Keeps Stopped (transition c next t payload)
  unfolding transition update
  Stopped-transition next t payload =
      Keeps-then _ _ (Keeps-modify _ (λ m h. h)) (Keeps-then _ _ (Stopped-emit t _) Stopped-save)

  Stopped-start : Keeps Stopped (start c)
  unfolding start update get_run
  Stopped-start =
      Keeps-bind _ _ (Keeps-gets _) (λ r.
        Keeps-when _ _ (Keeps-then _ _ (Keeps-modify _ (λ m h. h)) (Stopped-transition _ _ _)))

  Stopped-suppress : (m : Graph c (Unit {0})) → Keeps Stopped m → Keeps Stopped (suppress c m)
  unfolding suppress
  Stopped-suppress m km = Leads-catch _ _ km (λ e. Keeps-pure tt)

  Stopped-send_cancel : Keeps Stopped (send_cancel c)
  unfolding send_cancel
  Stopped-send_cancel = record { at = λ m h. h }

  Stopped-handle : (e : Exn) → Keeps Stopped (handle c e)
  unfolding handle update fail
  Stopped-handle Exn.run_cancelled =
      Keeps-then _ _ (Keeps-modify _ (λ m h. h))
        (Keeps-then _ _ (Stopped-emit _ _) (Keeps-then _ _ Stopped-save Stopped-send_cancel))
  Stopped-handle (Exn.budget_exceeded message) =
      Keeps-then _ _ (Keeps-modify _ (λ m h. h)) (Keeps-then _ _ (Stopped-emit _ _) Stopped-save)
  Stopped-handle (Exn.timeout class message) =
      Keeps-then _ _ (Keeps-modify _ (λ m h. h))
        (Stopped-suppress _ (Keeps-then _ _ (Stopped-emit _ _) Stopped-save))
  Stopped-handle (Exn.failure class message) =
      Keeps-then _ _ (Keeps-modify _ (λ m h. h))
        (Stopped-suppress _ (Keeps-then _ _ (Stopped-emit _ _) Stopped-save))

  -- The first round of a cancelled run changes nothing.
  loop-cancelled :
      (fuel : ℕ) (m : Machine c.World)
      → m.run.cancelled ≡ true
      → loop c (suc fuel) m ≡ (raised Exn.run_cancelled, m)
  unfolding loop round check_cancel get_run gets raise_if ◌>>=◌ ◌>>◌
  loop-cancelled fuel m h = rw h refl

  Stopped-loop : (fuel : ℕ) → Keeps Stopped (loop c (suc fuel))
  Stopped-loop fuel = record {
    at = λ m h. subst Stopped (sym (ap (λ p. p.1) (loop-cancelled fuel m h.0))) h;
  }

  Stopped-run : (fuel : ℕ) → Keeps Stopped (run c (suc fuel))
  unfolding run
  Stopped-run fuel = Keeps-then _ _ Stopped-start (
      Leads-catch _ _ (Stopped-loop fuel)
        (λ e. Keeps-then _ _ (Stopped-handle e) (Keeps-pure true)))

call_count-append : (es fs : List Effect) → call_count (es ++ fs) ≡ call_count es + call_count fs
call_count-append [] fs = omega arith
call_count-append (e ∷ es) fs = ground (arith, call_count-append es fs)

quiet_first : (es fs : List Effect) → call_count es ≡ 0 → call_count (es ++ fs) ≡ call_count fs
quiet_first es fs h = omega (arith, call_count-append es fs)

module _ (c : Clients) (st : RepositoryStore) where
  run_graph-calls :
      (r : RunState) (g : Gateway c.World)
      → r.cancelled ≡ true
      → call_count (run_graph c st r g).effects ≡ call_count g.effects
  unfolding run_graph
  run_graph-calls r g h =
      quiet_first (run c 14 (fresh_machine c r g.world)).1.effects g.effects
        ((Stopped-run c 13).at (fresh_machine c r g.world) (h, refl)).1

  flagged :
      (b : Bool) (r : RunState)
      → b ≡ true
      → (if b then record r { cancelled = true } else r).cancelled ≡ true
  flagged true r h = refl
  flagged false r h = absurd (cc h)

  executed :
      (o : Option RunState) (b : Bool) (g : Gateway c.World)
      → b ≡ true
      → call_count
          (elim o as (λ _. Gateway c.World) [
            | none ↦ g
            | some r ↦ run_graph c st (if b then record r { cancelled = true } else r) g
          ]).effects
        ≡ call_count g.effects
  executed none b g h = refl
  executed (some r) b g h = run_graph-calls _ g (flagged b r h)

  -- A run whose flag is set calls nothing.
  execute_run-calls :
      (g : Gateway c.World)
      → has g.cancel_flags st.run_id ≡ true
      → call_count (execute_run c st g).effects ≡ call_count g.effects
  unfolding execute_run
  execute_run-calls g h = executed (lookup st.run_id g.run_states) _ g h

has-add_absent : (x : String) (xs : List String) → has (if has xs x then xs else x ∷ xs) x ≡ true
has-add_absent x xs = ground (arith, eq_iff x x)

module _ (c : Clients) (d : RunCall) where
  abbrev Flagged : Gateway c.World → Type 0
  Flagged g = has g.cancel_flags d.run_id ≡ true

  propagate_cancel-Flagged : (g : Gateway c.World) → Flagged (propagate_cancel d.run_id g)
  unfolding propagate_cancel request_cancel
  propagate_cancel-Flagged g = has-add_absent d.run_id g.cancel_flags

  propagated-Flagged :
      (reply : CancelReply)
      → Ends {E = ApiError} Any1
          (λ _. Flagged)
          Any
          (modify (propagate_cancel d.run_id) >> pure reply)
  unfolding modify pure ◌>>◌ ◌>>=◌ Met
  propagated-Flagged reply = record { at = λ g u. propagate_cancel-Flagged g }

  cancel_run-Flagged : Ends Any1 (λ _. Flagged) Any (cancel_run c d)
  unfolding cancel_run
  cancel_run-Flagged = Ends-then {R = Any1} _ _ (Ends-any _) (
      Ends-bind {R = λ _. Any1} _ _ (Ends-any _) (λ row. Ends-then {R = Any1} _ _ (Ends-any _) (
        Ends-then {R = Any1} _ _ (Ends-any _)
          (Ends-then {R = Any1} _ _ (Ends-any _) (propagated-Flagged _)))))

-- Once the cancellation of a run was answered, the execution of the run that is still in the
-- background's queue calls no tool and delegates nothing, whatever the clients are.
pub cancel_run-stops :
    (c : Clients) (d : RunCall) (st : RepositoryStore) (g : Gateway c.World) (reply : CancelReply)
    → st.run_id ≡ d.run_id
    → (cancel_run c d g).0 ≡ returned reply
    → let h = (cancel_run c d g).1 in call_count (execute_run c st h).effects ≡ call_count h.effects
cancel_run-stops c d st g reply same answered =
    let flag = Ends-returned (cancel_run c d) g reply (cancel_run-Flagged c d) tt answered in
    execute_run-calls c st (cancel_run c d g).1
      (subst (λ x. has (cancel_run c d g).1.cancel_flags x ≡ true) (sym same) flag)
