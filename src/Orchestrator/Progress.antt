-- ===== src/Orchestrator/Progress.antt =====
-- The driver's loop ends by itself: each step that goes on moves to a node of a lower rank.
pub mod Rules
pub mod Nodes
pub mod Handlers
pub mod Driver
use agent_workbench.Base.{ℕ, Bool, true, false, ◌≡◌, refl, is_empty, ◌<◌, List}
use agent_workbench.Orchestrator.State.{
  ProposedAction, RunState, RunStatus, Node, classify, plan, resources, mcp_reads, a2a_delegate,
  correlate, findings, propose, policy, approval_pause, execute_approved, verify, complete, unknown,
}

-- The rounds that may still follow the one at a node.
unfoldable pub rank : Node → ℕ
rank classify = 12
rank plan = 11
rank resources = 10
rank mcp_reads = 9
rank a2a_delegate = 8
rank correlate = 7
rank findings = 6
rank propose = 5
rank policy = 4
rank approval_pause = 3
rank execute_approved = 2
rank verify = 1
rank complete = 0
rank (unknown s) = 0

-- A status in which a run rests.
unfoldable pub is_settled : RunStatus → Bool
is_settled RunStatus.created = false
is_settled RunStatus.running = false
is_settled _ = true

-- The nodes that need a proposal.
unfoldable pub needs_action : Node → Bool
needs_action policy = true
needs_action approval_pause = true
needs_action _ = false

-- The part of a run that says where it is.
pub record Place : Type 0 where
  pub node : Node
  pub status : RunStatus
  pub actions : List ProposedAction

abbrev pub place : RunState → Place
place r = record { node = r.current_state; status = r.status; actions = r.proposed_actions }

-- At a node, with what the node needs.
pub record IsAt (n : Node) (p : Place) : Type 0 where
  pub at_node : p.node ≡ n
  pub proposals : needs_action n ≡ true → is_empty p.actions ≡ false

abbrev pub Rests : Place → Type 0
Rests p = is_settled p.status ≡ true

abbrev pub HasActions : Place → Type 0
HasActions p = is_empty p.actions ≡ false

-- What a step at a node leads to: a settled run, or a lower node.
unfoldable pub Advanced : Node → Bool → Place → Type 0
Advanced n true p = Rests p
Advanced n false p = (lower : Node) × (rank lower < rank n) × IsAt lower p
