-- ===== src/Mcp/Executor/Rules.antt =====
-- What an action leads to, for the ways in which execute_tool is built: a step that raises ends it,
-- and what comes after a gate may use that the gate was passed.
use agent_workbench.Base.{◌≡◌, refl, Bool, true, false, Option, none, some}
use agent_workbench.Base.Action.{
  Result, returned, raised, pure, raise, gets, raise_if, when, ◌>>=◌, ◌>>◌,
}
use agent_workbench.Base.Json.{Fields}
use agent_workbench.Base.Keeps.{Leads}
use agent_workbench.Mcp.Context.{AuthError}
use agent_workbench.Mcp.Calls.{McpServer, Stop, Execution}
use agent_workbench.Mcp.Executor.{allow}

module _ {B : Type 0} {P Q : McpServer → Type 0} (weaker : (s : McpServer) → P s → Q s) where
  pub Leads-allow :
      {A : Type 0} (r : Result AuthError A) (k : Execution B)
      → ((a : A) → r ≡ returned a → Leads P Q k)
      → Leads P Q (allow r >> k)
  unfolding allow pure raise ◌>>◌ ◌>>=◌
  Leads-allow (returned a) k next = record { at = λ s h. (next a refl).at s h }
  Leads-allow (raised e) k next = record { at = weaker }

  pub Leads-parsed :
      (o : Option Fields) (e : Stop) (g : Fields → Fields) (f : Fields → Execution B)
      → ((p : Fields) → o ≡ some p → Leads P Q (f (g p)))
      → Leads P Q
          ((elim o as (λ _. Execution Fields) [ none ↦ raise e | some p ↦ pure (g p) ]) >>= f)
  unfolding pure raise ◌>>=◌
  Leads-parsed none e g f next = record { at = weaker }
  Leads-parsed (some p) e g f next = record { at = λ s h. (next p refl).at s h }

  pub Leads-gates :
      (w a b : Bool) (e1 e2 : Stop) (k : Execution B)
      → ((w ≡ true → a ≡ false) → (w ≡ true → b ≡ false) → Leads P Q k)
      → Leads P Q (when w (raise_if a e1 >> raise_if b e2) >> k)
  unfolding when raise_if pure ◌>>◌ ◌>>=◌
  Leads-gates false a b e1 e2 k next = record {
    at = λ s h. (next (λ p. absurd (cc p)) (λ p. absurd (cc p))).at s h;
  }
  Leads-gates true true b e1 e2 k next = record { at = weaker }
  Leads-gates true false true e1 e2 k next = record { at = weaker }
  Leads-gates true false false e1 e2 k next = record {
    at = λ s h. (next (λ p. refl) (λ p. refl)).at s h;
  }

module _ {A B : Type 0} {P Q : McpServer → Type 0} where
  pub Leads-gets :
      (f : McpServer → A) (k : A → Execution B)
      → ((s : McpServer) → P s → Q (k (f s) s).1)
      → Leads P Q (gets f >>= k)
  unfolding gets ◌>>=◌
  Leads-gets f k h = record { at = h }

module _ {A B : Type 0} {P Q : McpServer → Type 0} (weaker : (s : McpServer) → P s → Q s) where
  pub Leads-raised : (e : Stop) (f : A → Execution B) → Leads P Q (raise e >>= f)
  unfolding raise ◌>>=◌
  Leads-raised e f = record { at = weaker }
