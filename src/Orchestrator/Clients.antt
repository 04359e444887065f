-- ===== src/Orchestrator/Clients.antt =====
-- The clients that the graph is given (the Protocols of apps/orchestrator/graph.py), and what they
-- may do: return a value or raise, and change a world of their own.
use agent_workbench.Base.{ℕ, String, Bool, Option, List}
use agent_workbench.Base.Action.{Result}
use agent_workbench.Base.Json.{Json, Fields}
use agent_workbench.Base.Python.{Python}
use agent_workbench.Orchestrator.State.{ProposedAction}

-- The exceptions that the graph tells apart. A `timeout` is a TimeoutError or a ConnectionError and
-- a `failure` any other, each with its class name and its `str`.
pub data Exn : Type 0 where
  run_cancelled : Exn
  budget_exceeded : String → Exn
  timeout failure : String → String → Exn

-- What a PolicyClient answers: a dict that may lack keys.
pub record PolicyReply : Type 0 where
  pub allowed : Option Bool
  pub requires_approval : Option Bool
  pub reason : Option String

pub record Clients : Type 1 where
  pub World : Type 0
  pub python : Python
  -- Clock.now, in seconds
  pub now : World → ℕ × World
  -- ModelClient
  pub classify : String → Fields → World → Result Exn Fields × World
  pub plan : String → Fields → World → Result Exn (List String) × World
  -- MCPClient.invoke, with the timeout in seconds
  pub invoke : String → Fields → ℕ → World → Result Exn Json × World
  -- A2AClient.delegate and cancel
  pub delegate : Fields → World → Result Exn Fields × World
  pub cancel : String → World → Result Exn (Unit {0}) × World
  -- PolicyClient.evaluate
  pub evaluate : ProposedAction → String → World → Result Exn PolicyReply × World
