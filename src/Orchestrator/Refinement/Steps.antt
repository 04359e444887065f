-- ===== src/Orchestrator/Refinement/Steps.antt =====
-- The steps of Graph/Steps follow the step relation.
use agent_workbench.Base.{String, Bool, false, Option, none, some, List, [], ◌∷◌, refl}
use agent_workbench.Base.Json.{Fields}
use agent_workbench.Base.Keeps.{Keeps, Keeps-pure, Keeps-bind, Keeps-then, keeps_rules}
use agent_workbench.Orchestrator.Clients.{Clients}
use agent_workbench.Orchestrator.Graph.Steps.{
  conclude, do_classify, do_plan, do_resources, add_evidence, read_evidence, do_mcp_reads,
  do_delegate, do_correlate, emit_findings, do_findings, correct,
}
use agent_workbench.Orchestrator.Refinement.{
  Follows, Follows-get_run, Follows-external, Follows-from_result, Follows-update, Follows-move,
  Follows-save, Follows-emit, Follows-transition, Follows-spend_model,
}
use agent_workbench.Orchestrator.Refinement.Calls.{Follows-mcp_read, Follows-delegate}
use agent_workbench.Orchestrator.State.{Outcome, Finding}
use agent_workbench.Orchestrator.Trace.{View}

pub ruleset follows_rules = (
  keeps_rules, Follows-get_run, Follows-external, Follows-from_result, Follows-update, Follows-move,
  Follows-save, Follows-emit, Follows-transition, Follows-spend_model, Follows-mcp_read,
  Follows-delegate,
)

module _ (c : Clients) {v : View} {gate : Bool} where
  pub Follows-conclude : (o : Outcome) → Keeps (Follows v false gate) (conclude c o)
  unfolding conclude
  Follows-conclude o = search follows_rules depth 30

  pub Follows-do_classify : Keeps (Follows v false gate) (do_classify c)
  unfolding do_classify
  Follows-do_classify = search (follows_rules, Follows-conclude) depth 30

  pub Follows-do_plan : Keeps (Follows v false gate) (do_plan c)
  unfolding do_plan
  Follows-do_plan = search follows_rules depth 30

  pub Follows-do_resources : Keeps (Follows v false gate) (do_resources c)
  unfolding do_resources
  Follows-do_resources = search follows_rules depth 30

  Follows-add_evidence :
      (tool : String) (o : Option Fields) → Keeps (Follows v false gate) (add_evidence c tool o)
  unfolding add_evidence
  Follows-add_evidence tool none = Keeps-pure tt
  Follows-add_evidence tool (some found) = Follows-update c _ (λ r. refl)

  Follows-read_evidence :
      (tool : String) (args : Fields) → Keeps (Follows v false gate) (read_evidence c tool args)
  unfolding read_evidence
  Follows-read_evidence tool args = search (follows_rules, Follows-add_evidence)

  pub Follows-do_mcp_reads : Keeps (Follows v false gate) (do_mcp_reads c)
  unfolding do_mcp_reads
  Follows-do_mcp_reads = search (follows_rules, Follows-read_evidence) depth 30

  pub Follows-do_delegate : Keeps (Follows v false gate) (do_delegate c)
  unfolding do_delegate
  Follows-do_delegate = search follows_rules depth 30

  pub Follows-do_correlate : Keeps (Follows v false gate) (do_correlate c)
  unfolding do_correlate correct
  Follows-do_correlate = search follows_rules depth 30

  Follows-emit_findings : (fs : List Finding) → Keeps (Follows v false gate) (emit_findings c fs)
  unfolding emit_findings
  Follows-emit_findings [] = search follows_rules depth 30
  Follows-emit_findings (f ∷ fs) =
      Keeps-bind _ _ (Follows-get_run c)
        (λ r. Keeps-then _ _ (Follows-emit c _ _) (Follows-emit_findings fs))

  pub Follows-do_findings : Keeps (Follows v false gate) (do_findings c)
  unfolding do_findings
  Follows-do_findings = search (follows_rules, Follows-conclude, Follows-emit_findings) depth 30
