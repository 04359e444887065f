-- ===== src/Orchestrator/Trace/Laws.antt =====
-- What every run of the step relation satisfies.
use agent_workbench.Base.{
  ℕ, ◌+◌, ◌≤◌, ◌<◌, String, ◌≡◌, refl, sym, ap, ◌∙◌, Bool, true, false, List, [], ◌∷◌, arith, subst,
}
use agent_workbench.Base.Json.{Fields}
use agent_workbench.Mcp.Catalog.{ToolCategory, is_read_category, is_destructive_category}
use agent_workbench.Orchestrator.Graph.Core.{
  Effect, saved, appended, invoked, delegated, cancel_sent,
}
use agent_workbench.Orchestrator.Trace.{
  View, is_execute, IsRead, IsSafe, Move, saves, skips, emits, moves, overdraws, pays, forgoes,
  reads, writes, opens, closes, delegates, cancels, Reach, here, next,
}

-- Every invocation among the effects is one that `Q` allows.
unfoldable pub AllCalls : (Q : String → Fields → Type 0) → List Effect → Type 0
AllCalls Q [] = Unit {0}
AllCalls Q (invoked name args timeout ∷ es) = Q name args × AllCalls Q es
AllCalls Q (_ ∷ es) = AllCalls Q es

abbrev pub OnlyReads : List Effect → Type 0
OnlyReads = AllCalls (λ name args. IsRead name)

abbrev pub OnlySafe : List Effect → Type 0
OnlySafe = AllCalls (λ name args. IsSafe name)

-- The number of invocations.
unfoldable pub invocations : List Effect → ℕ
invocations [] = 0
invocations (invoked name args timeout ∷ es) = invocations es + 1
invocations (_ ∷ es) = invocations es

-- The numbers of the appended events fall, from the latest on, below a bound.
unfoldable pub Numbered : ℕ → List Effect → Type 0
Numbered bound [] = Unit {0}
Numbered bound (appended e ∷ es) = (e.sequence < bound) × Numbered e.sequence es
Numbered bound (_ ∷ es) = Numbered bound es

pub record IsQuiet (v : View) : Type 0 where
  pub shut : v.gate ≡ false
  pub away : is_execute v.node ≡ false
  pub only_reads : OnlyReads v.effects

Move-IsQuiet : {v w : View} → Move v w → IsQuiet v → IsQuiet w
unfolding AllCalls
Move-IsQuiet (saves v r) h = record { shut = h.shut; away = h.away; only_reads = h.only_reads }
Move-IsQuiet (skips v) h = record { shut = h.shut; away = h.away; only_reads = h.only_reads }
Move-IsQuiet (emits v e p) h = record { shut = h.shut; away = h.away; only_reads = h.only_reads }
Move-IsQuiet (moves v n p) h = record { shut = h.shut; away = p; only_reads = h.only_reads }
Move-IsQuiet (overdraws v) h = record { shut = h.shut; away = h.away; only_reads = h.only_reads }
Move-IsQuiet (pays v p) h = record { shut = h.shut; away = h.away; only_reads = h.only_reads }
Move-IsQuiet (forgoes v) h = record { shut = h.shut; away = h.away; only_reads = h.only_reads }
Move-IsQuiet (reads v name args t p q) h = record {
  shut = h.shut;
  away = h.away;
  only_reads = (q, h.only_reads);
}
Move-IsQuiet (writes v name args t p q s) h = absurd (cc (q, h.shut))
Move-IsQuiet (opens v p) h = absurd (cc (p, h.away))
Move-IsQuiet (closes v) h = record { shut = refl; away = h.away; only_reads = h.only_reads }
Move-IsQuiet (delegates v r) h = record { shut = h.shut; away = h.away; only_reads = h.only_reads }
Move-IsQuiet (cancels v t) h = record { shut = h.shut; away = h.away; only_reads = h.only_reads }

pub Reach-IsQuiet : {v w : View} → IsQuiet v → Reach v w → IsQuiet w
Reach-IsQuiet h here = h
Reach-IsQuiet h (next r m) = Move-IsQuiet m (Reach-IsQuiet h r)

safe_category : (k : ToolCategory) → is_read_category k ≡ true → is_destructive_category k ≡ false
safe_category ToolCategory.read h = refl
safe_category ToolCategory.analysis h = refl
safe_category ToolCategory.write h = refl
safe_category ToolCategory.destructive h = cc

IsRead-IsSafe : (name : String) → IsRead name → IsSafe name
IsRead-IsSafe name h = record {
  spec = h.spec;
  found = h.found;
  is_safe = safe_category h.spec.category h.is_read;
}

Move-OnlySafe : {v w : View} → Move v w → OnlySafe v.effects → OnlySafe w.effects
unfolding AllCalls
Move-OnlySafe (saves v r) h = h
Move-OnlySafe (skips v) h = h
Move-OnlySafe (emits v e p) h = h
Move-OnlySafe (moves v n p) h = h
Move-OnlySafe (overdraws v) h = h
Move-OnlySafe (pays v p) h = h
Move-OnlySafe (forgoes v) h = h
Move-OnlySafe (reads v name args t p q) h = (IsRead-IsSafe name q, h)
Move-OnlySafe (writes v name args t p q s) h = (s, h)
Move-OnlySafe (opens v p) h = h
Move-OnlySafe (closes v) h = h
Move-OnlySafe (delegates v r) h = h
Move-OnlySafe (cancels v t) h = h

pub Reach-OnlySafe : {v w : View} → OnlySafe v.effects → Reach v w → OnlySafe w.effects
Reach-OnlySafe h here = h
Reach-OnlySafe h (next r m) = Move-OnlySafe m (Reach-OnlySafe h r)

Move-limits : {v w : View} → Move v w → w.limits ≡ v.limits
Move-limits (saves v r) = refl
Move-limits (skips v) = refl
Move-limits (emits v e p) = refl
Move-limits (moves v n p) = refl
Move-limits (overdraws v) = refl
Move-limits (pays v p) = refl
Move-limits (forgoes v) = refl
Move-limits (reads v name args t p q) = refl
Move-limits (writes v name args t p q s) = refl
Move-limits (opens v p) = refl
Move-limits (closes v) = refl
Move-limits (delegates v r) = refl
Move-limits (cancels v t) = refl

pub Reach-limits : {v w : View} → Reach v w → w.limits ≡ v.limits
Reach-limits here = refl
Reach-limits (next r m) = Move-limits m ∙ Reach-limits r

abbrev pub owed : Bool → ℕ
owed true = 1
owed false = 0

-- Every invocation was charged for, within the limit.
pub record IsCharged (v : View) : Type 0 where
  pub charged : invocations v.effects + owed v.paid ≤ v.tool_calls
  pub within_limit : invocations v.effects + owed v.paid ≤ v.limits.max_tool_calls

Move-IsCharged : {v w : View} → Move v w → IsCharged v → IsCharged w
unfolding invocations
Move-IsCharged (saves v r) h = record { charged = h.charged; within_limit = h.within_limit }
Move-IsCharged (skips v) h = record { charged = h.charged; within_limit = h.within_limit }
Move-IsCharged (emits v e p) h = record { charged = h.charged; within_limit = h.within_limit }
Move-IsCharged (moves v n p) h = record { charged = h.charged; within_limit = h.within_limit }
Move-IsCharged (overdraws v) h = record {
  charged = omega (arith, h.charged);
  within_limit = omega (arith, h.within_limit);
}
Move-IsCharged (pays v p) h = record {
  charged = omega (arith, h.charged);
  within_limit = omega (arith, h.charged, p);
}
Move-IsCharged (forgoes v) h = record {
  charged = omega (arith, h.charged);
  within_limit = omega (arith, h.within_limit);
}
Move-IsCharged (reads v name args t p q) h = record {
  charged = omega (arith, h.charged, ap owed p);
  within_limit = omega (arith, h.within_limit, ap owed p);
}
Move-IsCharged (writes v name args t p q s) h = record {
  charged = omega (arith, h.charged, ap owed p);
  within_limit = omega (arith, h.within_limit, ap owed p);
}
Move-IsCharged (opens v p) h = record { charged = h.charged; within_limit = h.within_limit }
Move-IsCharged (closes v) h = record { charged = h.charged; within_limit = h.within_limit }
Move-IsCharged (delegates v r) h = record { charged = h.charged; within_limit = h.within_limit }
Move-IsCharged (cancels v t) h = record { charged = h.charged; within_limit = h.within_limit }

pub Reach-IsCharged : {v w : View} → IsCharged v → Reach v w → IsCharged w
Reach-IsCharged h here = h
Reach-IsCharged h (next r m) = Move-IsCharged m (Reach-IsCharged h r)

Numbered-weaken : (a b : ℕ) → a ≤ b → (es : List Effect) → Numbered a es → Numbered b es
unfolding Numbered
Numbered-weaken a b h [] n = tt
Numbered-weaken a b h (appended e ∷ es) n = (omega (arith, n.0), n.1)
Numbered-weaken a b h (saved _ ∷ es) n = Numbered-weaken a b h es n
Numbered-weaken a b h (invoked _ _ _ ∷ es) n = Numbered-weaken a b h es n
Numbered-weaken a b h (delegated _ ∷ es) n = Numbered-weaken a b h es n
Numbered-weaken a b h (cancel_sent _ ∷ es) n = Numbered-weaken a b h es n

abbrev IsNumbered : View → Type 0
IsNumbered v = Numbered (v.last_number + 1) v.effects

Move-IsNumbered : {v w : View} → Move v w → IsNumbered v → IsNumbered w
unfolding Numbered
Move-IsNumbered (saves v r) h = h
Move-IsNumbered (skips v) h = Numbered-weaken _ _ (omega arith) v.effects h
Move-IsNumbered (emits v e p) h = (omega (arith, p), subst (λ n. Numbered n v.effects) (sym p) h)
Move-IsNumbered (moves v n p) h = h
Move-IsNumbered (overdraws v) h = h
Move-IsNumbered (pays v p) h = h
Move-IsNumbered (forgoes v) h = h
Move-IsNumbered (reads v name args t p q) h = h
Move-IsNumbered (writes v name args t p q s) h = h
Move-IsNumbered (opens v p) h = h
Move-IsNumbered (closes v) h = h
Move-IsNumbered (delegates v r) h = h
Move-IsNumbered (cancels v t) h = h

pub Reach-Numbered : {v w : View} → IsNumbered v → Reach v w → IsNumbered w
Reach-Numbered h here = h
Reach-Numbered h (next r m) = Move-IsNumbered m (Reach-Numbered h r)
