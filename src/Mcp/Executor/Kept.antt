-- ===== src/Mcp/Executor/Kept.antt =====
-- What is stored under an idempotency key stays there.
use agent_workbench.Base.{
  ◌≡◌, String, Option, none, some, inl, inr, string_eq, eq_iff, arith, Option-cases,
}
use agent_workbench.Base.Dict.{Dict, lookup, insert, lookup-insert}
use agent_workbench.Base.Ends.{
  Ends, Ends-pure, Ends-raise, Ends-gets, Ends-modify, Ends-raise_if, Ends-when, Ends-bind,
  Ends-then, Ends-catch,
}
use agent_workbench.Base.Json.{Fields}
use agent_workbench.Mcp.Catalog.{ToolMetadata}
use agent_workbench.Mcp.Libraries.{Libraries}
use agent_workbench.Mcp.Calls.{
  Stored, McpServer, Call, Stop, tool_error, validation_error, key_error, Execution,
}
use agent_workbench.Mcp.Executor.{
  replay, remember, perform, replay_or_perform, chosen, attempt, report, execute_known, add_absent,
}
use agent_workbench.Mcp.Executor.Steps.{audit-Same, run_handler-Same, admit-Same}

module _ (lib : Libraries) (c : Call) (k : String) (v : Stored) where
  abbrev pub Holds : Dict Stored → Type 0
  Holds d = lookup k d ≡ some v

  abbrev pub HoldsIn : McpServer → Type 0
  HoldsIn s = Holds s.idempotency_store

  abbrev pub Holding : {A : Type 0} → Execution A → Type 0
  Holding m = Ends HoldsIn (λ _. HoldsIn) (λ _. HoldsIn) m

  insert-Holds :
      (j : String) (w : Stored) (d : Dict Stored)
      → lookup j d ≡ none
      → Holds d
      → Holds (insert j w d)
  insert-Holds j w d absent h = ground (arith, lookup-insert j k w d, eq_iff j k)

  add_absent-Holds :
      (j : String) (w : Stored) (d : Dict Stored) → Holds d → Holds (add_absent j w d)
  add_absent-Holds j w d h = elim (Option-cases (lookup j d)) [
    | inl e ↦ rw (e, add_absent) (insert-Holds j w d e h)
    | inr (u, e) ↦ rw (e, add_absent) h
  ]

  stays : (e : Stop) (s : McpServer) → HoldsIn s → HoldsIn s
  stays e s h = h

  perform-Holds : (meta : ToolMetadata) (args : Fields) → Holding (perform lib c meta args)
  unfolding perform remember
  perform-Holds meta args = Ends-bind _ _ (run_handler-Same lib c Holds _ stays meta _ args) (λ out.
      Ends-then _ _ (Ends-raise_if _ _ (λ s h. h)) (
        Ends-then _ _
          (Ends-when _ _ (Ends-modify {Q = HoldsIn} _ (λ s h. add_absent-Holds _ _ _ h)))
          (Ends-then _ _ (audit-Same lib c Holds _ stays meta _ _ _ _) (Ends-pure _ (λ s h. h)))))

  replay_or_perform-Holds :
      (meta : ToolMetadata) (args : Fields) (o : Option Stored)
      → Holding (replay_or_perform lib c meta args o)
  unfolding replay_or_perform replay
  replay_or_perform-Holds meta args none = perform-Holds meta args
  replay_or_perform-Holds meta args (some seen) =
      Ends-then _ _ (Ends-raise_if _ _ (λ s h. h))
        (Ends-then _ _ (audit-Same lib c Holds _ stays meta _ _ _ _) (Ends-pure _ (λ s h. h)))

  attempt-Holds : (meta : ToolMetadata) → Holding (attempt lib c meta)
  unfolding chosen
  attempt-Holds meta =
      admit-Same lib c Holds _ stays meta
        (λ args. (Ends-bind _ _ (Ends-gets _) (λ o. replay_or_perform-Holds meta args o)).at)

  report-Holds : (meta : ToolMetadata) (e : Stop) → Holding (report lib c meta e)
  unfolding report
  report-Holds meta (tool_error status decision e) =
      Ends-then _ _ (audit-Same lib c Holds _ stays meta _ _ _ _) (Ends-raise _ (λ s h. h))
  report-Holds meta validation_error = Ends-raise _ (λ s h. h)
  report-Holds meta key_error = Ends-raise _ (λ s h. h)

  pub known-Holds : (o : Option ToolMetadata) → Holding (execute_known lib c o)
  unfolding execute_known
  known-Holds none = Ends-raise _ (λ s h. h)
  known-Holds (some meta) = Ends-catch _ _ (attempt-Holds meta) (report-Holds meta)
