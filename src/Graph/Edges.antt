-- ===== src/Graph/Edges.antt =====
-- The conditional edges of the graph (app/graph/edges.py).
use dev_ops_copilot.Base.{[], ◌∷◌, any_of, if◌then◌else◌}
use dev_ops_copilot.Policy.Gate.{call_requires_approval}
use dev_ops_copilot.Graph.{AgentState, investigating, done, last_calls}

-- The nodes of the graph, and its end.
pub data Node : Type 0 where
  plan agent tools approval reflect report verify end_ : Node

unfoldable pub route_after_agent : AgentState → Node
route_after_agent s = elim (last_calls s.messages) [
  | [] ↦ reflect
  | c ∷ cs ↦ if any_of call_requires_approval (c ∷ cs) then approval else tools
]

unfoldable pub route_after_approval : AgentState → Node
route_after_approval s = elim (last_calls s.messages) [ [] ↦ agent | c ∷ cs ↦ tools ]

unfoldable pub route_after_reflect : AgentState → Node
route_after_reflect s = elim s.status [ done ↦ report | _ ↦ agent ]

unfoldable pub route_after_verify : AgentState → Node
route_after_verify s = elim s.status [ investigating ↦ agent | _ ↦ end_ ]
