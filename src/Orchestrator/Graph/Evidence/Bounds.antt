-- ===== src/Orchestrator/Graph/Evidence/Bounds.antt =====
-- The findings that a run keeps are in the bounds of their contract.
use agent_workbench.Base.{
  ℕ, suc, ◌≤◌, String, ◌≡◌, refl, subst, Bool, true, false, Option, none, some, List, [], ◌∷◌,
  length, All, arith, length-take-le, strip, ℤ, pos, negsuc, if◌then◌else◌,
}
use agent_workbench.Base.Action.{Result, returned, raised}
use agent_workbench.Base.Json.{Fields}
use agent_workbench.Base.Python.{Python, get_text}
use agent_workbench.Orchestrator.Graph.Evidence.{
  clamp_confidence, severity_of, kept_finding, checked_finding, evidence_refs_of, raw_confidence,
  build_finding, build_findings,
}
use agent_workbench.Orchestrator.Clients.{Exn}
use agent_workbench.Orchestrator.State.{Finding}

-- A finding with its confidence in [0, 1], the severity of that confidence, and at most 16 refs.
pub record IsBounded (f : Finding) : Type 0 where
  pub confidence : f.confidence ≤ 100
  pub severity : f.severity ≡ severity_of f.confidence
  pub refs : length f.evidence_refs ≤ 16

clamp_confidence-le : (z : ℤ) → clamp_confidence z ≤ 100
unfolding clamp_confidence
clamp_confidence-le (pos n) = ground arith
clamp_confidence-le (negsuc n) = omega arith

kept_finding-IsBounded :
    (run_id : String) (i : ℕ) (title summary : String) (refs : List String) (z : ℤ)
    → IsBounded (kept_finding run_id i title summary refs z)
unfolding kept_finding
kept_finding-IsBounded run_id i title summary refs z = record {
  confidence = clamp_confidence-le z;
  severity = refl;
  refs = length-take-le 16 refs;
}

returned_if :
    (b : Bool) (note : String) (f out : Finding)
    → (if b then raised note else returned f) ≡ returned out
    → f ≡ out
returned_if true note f out h = cc
returned_if false note f out h = cc

checked_finding-IsBounded :
    (run_id : String) (i : ℕ) (title summary : String) (refs : Result Exn (List String))
    → (z : Option ℤ) → (out : Finding)
    → checked_finding run_id i title summary refs z ≡ returned out
    → IsBounded out
unfolding checked_finding
checked_finding-IsBounded run_id i title summary (returned refs) (some z) out h =
    subst IsBounded (returned_if _ _ (kept_finding run_id i title summary refs z) out h)
      (kept_finding-IsBounded run_id i title summary refs z)
checked_finding-IsBounded run_id i title summary (returned refs) none out h = cc
checked_finding-IsBounded run_id i title summary (raised e) z out h = cc

build_finding-IsBounded :
    (py : Python) (run_id : String) (i : ℕ) (f : Fields) (out : Finding)
    → build_finding py run_id i f ≡ returned out
    → IsBounded out
unfolding build_finding
build_finding-IsBounded py run_id i f =
    checked_finding-IsBounded run_id i (strip (get_text py f "title" ""))
      (strip (get_text py f "summary" "")) (evidence_refs_of py f) (raw_confidence py f)

AllBounded : List Finding × List String → Type 0
AllBounded p = All IsBounded p.0

kept_next :
    (r : Result String Finding) (rest : List Finding × List String)
    → ((out : Finding) → r ≡ returned out → IsBounded out)
    → AllBounded rest
    → AllBounded
        (elim r [ raised note ↦ (rest.0, note ∷ rest.1) | returned f ↦ (f ∷ rest.0, rest.1) ])
unfolding AllBounded
kept_next (raised note) rest bounded h = h
kept_next (returned f) rest bounded h = (bounded f refl, h)

-- Every finding that the loop keeps, whatever the specialist sent, has its confidence in [0, 1], the
-- severity that belongs to it, and at most 16 evidence references.
pub build_findings-IsBounded :
    (py : Python) (run_id : String) (i : ℕ) (sent : List Fields)
    → All IsBounded (build_findings py run_id i sent).0
unfolding build_findings AllBounded
build_findings-IsBounded py run_id i [] = tt
build_findings-IsBounded py run_id i (f ∷ sent) =
    kept_next (build_finding py run_id i f) (build_findings py run_id (suc i) sent)
      (build_finding-IsBounded py run_id i f) (build_findings-IsBounded py run_id (suc i) sent)
