-- ===== src/Mcp/Executor/Replay.antt =====
-- A repeated call with an idempotency key.
use agent_workbench.Base.{
  ◌≡◌, refl, ap, sym, ◌∙◌, subst, String, Bool, true, false, Option, none, some, List, [], ◌∷◌, inl,
  inr, string_eq, eq_iff, arith, if◌then◌else◌, Option-cases,
}
use agent_workbench.Base.Action.{returned, gets, when, ◌>>=◌}
use agent_workbench.Base.Dict.{Dict, lookup, lookup-insert}
use agent_workbench.Base.Ends.{
  Ends, Ends-pure, Ends-raise, Ends-modify, Ends-raise_if, Ends-bind, Ends-then, Ends-catch,
  Ends-any, Ends-returned, Ends-either,
}
use agent_workbench.Base.Json.{Json, bool, Fields, end, field, put}
use agent_workbench.Mcp.Catalog.{ToolMetadata, catalog_get}
use agent_workbench.Mcp.Libraries.{Libraries}
use agent_workbench.Mcp.Redaction.{redact_fields}
use agent_workbench.Mcp.Calls.{
  Stored, McpServer, Call, Stop, tool_error, validation_error, key_error, Execution, is_keyed,
}
use agent_workbench.Mcp.Audit.{store_key, input_hash_of}
use agent_workbench.Mcp.Executor.{
  replay, remember, perform, replay_or_perform, chosen, attempt, report, execute_known,
  execute_tool, deduplicated, add_absent,
}
use agent_workbench.Mcp.Executor.Steps.{audit-Same, run_handler-Same, admit-Same}
use agent_workbench.Mcp.Executor.Kept.{Holds, HoldsIn, known-Holds}
use agent_workbench.Mcp.Executor.Gates.{Gated, execute_tool-Gated}

when_true :
    {P Q : McpServer → Type 0} {X : Stop → McpServer → Type 0} (b : Bool)
    → (m : Execution (Unit {0})) → b ≡ true
    → Ends P (λ _. Q) X m
    → Ends P (λ _. Q) X (when b m)
unfolding when
when_true true m h km = km
when_true false m h km = absurd (cc h)

put_twice : (k : String) (v : Json) (fs : Fields) → put k v (put k v fs) ≡ put k v fs
unfolding put
put_twice k v end = ground (arith, eq_iff k k)
put_twice k v (field j w fs) = ground (arith, put_twice k v fs, eq_iff k j, eq_iff k k)

module _ (lib : Libraries) (c : Call) (keyed : is_keyed c ≡ true) where
  -- The result is stored, up to the mark of a repeated one.
  abbrev Repeats : Fields → McpServer → Type 0
  Repeats out s =
      (v : Stored) × (lookup (store_key lib c) s.idempotency_store ≡ some v)
      × (deduplicated v ≡ put "deduplicated" (bool true) out)

  abbrev Free : Stop → McpServer → Type 0
  Free e s = Unit {0}

  free : (S : Dict Stored → Type 0) (e : Stop) (s : McpServer) → S s.idempotency_store → Free e s
  free S e s h = tt

  abbrev Absent : Dict Stored → Type 0
  Absent d = lookup (store_key lib c) d ≡ none

  abbrev Fresh : McpServer → Type 0
  Fresh s = Absent s.idempotency_store

  add_absent-Absent :
      (v : Stored) (d : Dict Stored)
      → Absent d
      → lookup (store_key lib c) (add_absent (store_key lib c) v d) ≡ some v
  add_absent-Absent v d h =
      rw (h, add_absent)
        (ground (
          arith,
          lookup-insert (store_key lib c) (store_key lib c) v d,
          eq_iff (store_key lib c) (store_key lib c),
        ))

  stored_as : Fields → Stored
  stored_as result = record { input_hash = input_hash_of lib c; result = result }

  abbrev Has : Fields → Dict Stored → Type 0
  Has result d = lookup (store_key lib c) d ≡ some (stored_as result)

  remember-Has :
      (result : Fields)
      → Ends Fresh (λ _ s. Has result s.idempotency_store) Free (remember lib c result)
  unfolding remember stored_as
  remember-Has result =
      when_true (is_keyed c) _ keyed
        (Ends-modify _ (λ s h. add_absent-Absent (stored_as result) s.idempotency_store h))

  perform-Repeats :
      (meta : ToolMetadata) (args : Fields) → Ends Fresh Repeats Free (perform lib c meta args)
  unfolding perform stored_as
  perform-Repeats meta args =
      Ends-bind _ _ (run_handler-Same lib c Absent _ (free Absent) meta _ args) (λ out.
        Ends-then _ _ (Ends-raise_if _ _ (λ s h. tt)) (
          Ends-then _ _ (remember-Has (redact_fields lib out)) (
            Ends-then _ _
              (audit-Same lib c (Has (redact_fields lib out)) _ (free (Has (redact_fields lib out)))
                meta _ _ _ _)
              (Ends-pure _ (λ s h. (stored_as (redact_fields lib out), h, refl))))))

  replay-Repeats :
      (meta : ToolMetadata) (v : Stored)
      → Ends
          (HoldsIn lib c (store_key lib c) v)
          (λ out s. Repeats out s × (out ≡ deduplicated v))
          Free
          (replay lib c meta v)
  unfolding replay
  replay-Repeats meta v = Ends-then _ _ (Ends-raise_if _ _ (λ s h. tt)) (
      Ends-then _ _
        (audit-Same lib c (Holds lib c (store_key lib c) v) _
          (free (Holds lib c (store_key lib c) v)) meta _ _ _ _)
        (Ends-pure _ (λ s h. ((v, h, sym (put_twice _ _ _)), refl))))

  chosen_as :
      (meta : ToolMetadata) (args : Fields) (s : McpServer) (o : Option Stored)
      → lookup (store_key lib c) s.idempotency_store ≡ o
      → chosen lib c meta args s ≡ replay_or_perform lib c meta args o s
  unfolding chosen gets ◌>>=◌
  chosen_as meta args s o h =
      let eq : (if is_keyed c then lookup (store_key lib c) s.idempotency_store else none) ≡ o =
        rw keyed h in
      ap (λ x. replay_or_perform lib c meta args x s) eq

  attempt-Repeats : (meta : ToolMetadata) → Ends Fresh Repeats Free (attempt lib c meta)
  unfolding replay_or_perform
  attempt-Repeats meta =
      admit-Same lib c Absent _ (free Absent) meta
        (λ args s h. rw (chosen_as meta args s none h) ((perform-Repeats meta args).at s h))

  attempt-replayed :
      (meta : ToolMetadata) (v : Stored)
      → Ends
          (HoldsIn lib c (store_key lib c) v)
          (λ out s. Repeats out s × (out ≡ deduplicated v))
          Free
          (attempt lib c meta)
  unfolding replay_or_perform
  attempt-replayed meta v =
      admit-Same lib c (Holds lib c (store_key lib c) v) _ (free (Holds lib c (store_key lib c) v))
        meta (λ args s h. rw (chosen_as meta args s (some v) h) ((replay-Repeats meta v).at s h))

  report-raises :
      {P : McpServer → Type 0} {Q : Fields → McpServer → Type 0} (meta : ToolMetadata) (e : Stop)
      → Ends P Q Free (report lib c meta e)
  unfolding report
  report-raises meta (tool_error status decision e) =
      Ends-then {R = λ _. Unit {0}} _ _ (Ends-any _) (Ends-raise _ (λ s h. tt))
  report-raises meta validation_error = Ends-raise _ (λ s h. tt)
  report-raises meta key_error = Ends-raise _ (λ s h. tt)

  known-Repeats : (o : Option ToolMetadata) → Ends Fresh Repeats Free (execute_known lib c o)
  unfolding execute_known
  known-Repeats none = Ends-raise _ (λ s h. tt)
  known-Repeats (some meta) = Ends-catch _ _ (attempt-Repeats meta) (report-raises meta)

  known-replayed :
      (o : Option ToolMetadata) (v : Stored)
      → Ends
          (HoldsIn lib c (store_key lib c) v)
          (λ out s. Repeats out s × (out ≡ deduplicated v))
          Free
          (execute_known lib c o)
  unfolding execute_known
  known-replayed none v = Ends-raise _ (λ s h. tt)
  known-replayed (some meta) v = Ends-catch _ _ (attempt-replayed meta v) (report-raises meta)

-- Calls one after another.
unfoldable pub calls : Libraries → List Call → McpServer → McpServer
calls lib [] s = s
calls lib (c ∷ cs) s = calls lib cs (execute_tool lib c s).1

calls-Holds :
    (lib : Libraries) (cs : List Call) (k : String) (v : Stored) (s : McpServer)
    → lookup k s.idempotency_store ≡ some v
    → lookup k (calls lib cs s).idempotency_store ≡ some v
unfolding calls execute_tool
calls-Holds lib [] k v s h = h
calls-Holds lib (c ∷ cs) k v s h =
    calls-Holds lib cs k v _ (Ends-either _ s (known-Holds lib c k v (catalog_get c.tool_name)) h)

execute_tool-Repeats :
    (lib : Libraries) (c : Call) (s : McpServer) (out : Fields) (keyed : is_keyed c ≡ true)
    → (execute_tool lib c s).0 ≡ returned out
    → Repeats lib c keyed out (execute_tool lib c s).1
unfolding execute_tool
execute_tool-Repeats lib c s out keyed h =
    elim (Option-cases (lookup (store_key lib c) s.idempotency_store)) [
      | inl fresh ↦
          Ends-returned _ s out (known-Repeats lib c keyed (catalog_get c.tool_name)) fresh h
      | inr (v, held) ↦
          (Ends-returned _ s out (known-replayed lib c keyed (catalog_get c.tool_name) v) held h).0
    ]

execute_tool-replayed :
    (lib : Libraries) (c : Call) (s : McpServer) (out : Fields) (v : Stored)
    → is_keyed c ≡ true
    → lookup (store_key lib c) s.idempotency_store ≡ some v
    → (execute_tool lib c s).0 ≡ returned out
    → out ≡ deduplicated v
unfolding execute_tool
execute_tool-replayed lib c s out v keyed held h =
    (Ends-returned _ s out (known-replayed lib c keyed (catalog_get c.tool_name) v) held h).1

no_handler :
    (lib : Libraries) (c : Call) (s t : McpServer) (v : Stored)
    → is_keyed c ≡ true
    → lookup (store_key lib c) s.idempotency_store ≡ some v
    → Gated lib c s.executions s.idempotency_store t
    → t.executions ≡ s.executions
no_handler lib c s t v keyed held (inl same) = same
no_handler lib c s t v keyed held (inr (args, ran, ok)) = absurd (cc (held, ok.fresh keyed))

-- After a call with an idempotency key on a write tool has returned, and whatever is called in
-- between, no further call with that tool and key calls a handler, whoever makes it; and where it
-- returns, it returns the first result, marked as deduplicated.
pub execute_tool-once :
    (lib : Libraries) (c c' : Call) (between : List Call) (s : McpServer) (out : Fields)
    → is_keyed c ≡ true
    → is_keyed c' ≡ true
    → store_key lib c ≡ store_key lib c'
    → (execute_tool lib c s).0 ≡ returned out
    → let t = calls lib between (execute_tool lib c s).1 in
      ((execute_tool lib c' t).1.executions ≡ t.executions)
      × ((again : Fields)
          → (execute_tool lib c' t).0 ≡ returned again
          → again ≡ put "deduplicated" (bool true) out)
execute_tool-once lib c c' between s out keyed keyed' same h =
    let (v, stored, marked) = execute_tool-Repeats lib c s out keyed h in
    let held = calls-Holds lib between (store_key lib c) v _ stored in
    let t = calls lib between (execute_tool lib c s).1 in
    let here : lookup (store_key lib c') t.idempotency_store ≡ some v =
      subst (λ k. lookup k t.idempotency_store ≡ some v) same held in
    (
      no_handler lib c' t (execute_tool lib c' t).1 v keyed' here (execute_tool-Gated lib c' t),
      λ again returned_again.
          (execute_tool-replayed lib c' t again v keyed' here returned_again) ∙ marked,
    )
