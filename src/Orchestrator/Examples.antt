-- ===== src/Orchestrator/Examples.antt =====
-- Runs of the graph over the fake clients.
use agent_workbench.Base.{none, []}
use agent_workbench.Base.Json.{str, end, field}
use agent_workbench.Base.Python.{Python}
use agent_workbench.Orchestrator.Breaker.{new_breaker, circuit_breaker_threshold}
use agent_workbench.Orchestrator.Fakes.{Config, A2aMode, PolicyMode, FakeWorld, fake_clients}
use agent_workbench.Orchestrator.Graph.Core.{Machine}
use agent_workbench.Orchestrator.Graph.Run.{run}
use agent_workbench.Orchestrator.State.{RunState, new_run, default_limits}

-- A runtime for evaluation: every value that is no text has the same text and size.
abbrev pub plain_python : Python
plain_python = record {
  show = λ j. "{}";
  parse_float = λ s. none;
  dumps_length = λ j. 100;
  sha256_hex = λ s. "0123456789abcdef0123456789abcdef";
  repr_sorted = λ fs. "[]";
}

abbrev pub healthy_config : Config
healthy_config = record {
  fail_tools = [];
  health_status = "degraded";
  a2a_mode = A2aMode.ok;
  confidence = 80;
  policy_mode = PolicyMode.approve_all;
}

abbrev pub idle_world : FakeWorld
idle_world = record { clock = 0; mcp_calls = []; a2a_calls = []; cancelled = [] }

abbrev pub checkout_run : RunState
checkout_run =
    new_run "run_1" "tenant_a" "Checkout error rate is up"
      (field "service" (str "checkout-api") end) default_limits 0

abbrev pub start_at : RunState → Machine FakeWorld
start_at r = record {
  run = r;
  breaker = new_breaker circuit_breaker_threshold;
  effects = [];
  world = idle_world;
}

final : RunState
unfolding run
final = (run (fake_clients plain_python healthy_config) 14 (start_at checkout_run)).1.run
