-- ===== src/Graph/Run.antt =====
-- The compiled graph (app/graph/builder.py): a configuration is the node to run next and the
-- state, and a step runs that node and follows its edge.
use dev_ops_copilot.Base.{List, [], ◌∷◌, ◌++◌, String}
use dev_ops_copilot.Graph.{AgentState, Settings, Env, human}
use dev_ops_copilot.Graph.Edges.{
  Node, plan, agent, tools, approval, reflect, report, verify, end_, route_after_agent,
  route_after_approval, route_after_reflect, route_after_verify,
}
use dev_ops_copilot.Graph.Nodes.{
  plan_node, agent_node, approval_node, tool_node, reflect_node, report_node,
}
use dev_ops_copilot.Graph.Nodes.Verify.{verify_node}

pub record Config : Type 0 where
  pub node : Node
  pub state : AgentState

abbrev to_ : Node → AgentState → Config
to_ n s = record { node = n; state = s }

-- `START → plan`, and the state before the node `n` runs.
abbrev pub follow : (AgentState → Node) → AgentState → Config
follow route s = to_ (route s) s

-- One super-step.
unfoldable pub step_at : Settings → Env → Node → AgentState → Config
step_at settings e plan s = to_ agent (plan_node e s)
step_at settings e agent s = follow route_after_agent (agent_node settings e s)
step_at settings e tools s = to_ agent (tool_node e s)
step_at settings e approval s = follow route_after_approval (approval_node e.answer s)
step_at settings e reflect s = follow route_after_reflect (reflect_node settings e s)
step_at settings e report s = to_ verify (report_node settings e s)
step_at settings e verify s = follow route_after_verify (verify_node settings e s)
step_at settings e end_ s = to_ end_ s

unfoldable pub step : Settings → Env → Config → Config
unfolding step_at
step settings e c = step_at settings e c.node c.state

-- A run, by what each of its steps takes from outside.
unfoldable pub run : Settings → List Env → Config → Config
run settings [] c = c
run settings (e ∷ es) c = run settings es (step settings e c)

-- A new turn: the question is appended to the thread's messages, and the graph starts.
unfoldable pub start : String → AgentState → Config
start question s = to_ plan (record s { messages = s.messages ++ human question ∷ [] })
