-- ===== src/Graph/Safety.antt =====
-- The tool node and the approvals (app/graph/edges.py, builder.py).
use mathlib.Core.List.{append-nil}
use dev_ops_copilot.Base.{
  ◌≡◌, refl, true, false, List, [], ◌∷◌, ◌++◌, arith, any_of, Bool-cases, inl, inr, String,
}
use dev_ops_copilot.Policy.{ToolCall}
use dev_ops_copilot.Policy.Gate.{call_requires_approval}
use dev_ops_copilot.Graph.{AgentState, Settings, Env, Answer, Message, last_calls, calls_of}
use dev_ops_copilot.Graph.Edges.{
  Node, plan, agent, tools, approval, reflect, report, verify, end_, route_after_agent,
  route_after_approval, route_after_reflect, route_after_verify,
}
use dev_ops_copilot.Graph.Nodes.{agent_node, approval_node, rejections}
use dev_ops_copilot.Graph.Run.{Config, step, step_at}

-- The last message of a list that ends in a given one.
pub last_calls-append : (ms : List Message) (m : Message) → last_calls (ms ++ m ∷ []) ≡ calls_of m
last_calls-append [] m = refl
last_calls-append (m' ∷ []) m = refl
last_calls-append (m' ∷ n ∷ ms) m = last_calls-append (n ∷ ms) m

last_calls_of_rejections :
    (ms : List Message) (reason : String) (c : ToolCall) (cs : List ToolCall)
    → last_calls (ms ++ rejections reason (c ∷ cs)) ≡ []
last_calls_of_rejections [] reason c [] = refl
last_calls_of_rejections [] reason c (d ∷ cs) = last_calls_of_rejections [] reason d cs
last_calls_of_rejections (m ∷ []) reason c cs = last_calls_of_rejections [] reason c cs
last_calls_of_rejections (m ∷ n ∷ ms) reason c cs = last_calls_of_rejections (n ∷ ms) reason c cs

route_after_agent-tools :
    (s : AgentState)
    → route_after_agent s ≡ tools
    → any_of call_requires_approval (last_calls s.messages) ≡ false
unfolding route_after_agent
route_after_agent-tools s h = go (last_calls s.messages) refl
  where
    go :
        (cs : List ToolCall)
        → last_calls s.messages ≡ cs
        → any_of call_requires_approval (last_calls s.messages) ≡ false
    go [] e = rw e refl
    go (c ∷ cs) e = elim (Bool-cases (any_of call_requires_approval (c ∷ cs))) [
      | inl t ↦ (let k : approval ≡ tools = rw (e, t, route_after_agent) at h in cc)
      | inr f ↦ rw e f
    ]

-- After a rejection the control goes back to the agent.
pub route_after_rejection :
    (a : Answer) (s : AgentState)
    → a.approved ≡ false
    → route_after_approval (approval_node a s) ≡ agent
unfolding route_after_approval approval_node
route_after_rejection a s no_ = go (last_calls s.messages) refl
  where
    go :
        (cs : List ToolCall)
        → last_calls s.messages ≡ cs
        → route_after_approval (approval_node a s) ≡ agent
    go [] e = rw (no_, e) (rw append-nil (rw (e, route_after_approval) refl))
    go (c ∷ cs) e =
        rw (no_, e)
          (rw (last_calls_of_rejections s.messages a.reason c cs, route_after_approval) refl)

route_after_reflect-ne-tools : (s : AgentState) → route_after_reflect s ≡ tools → ⊥
unfolding route_after_reflect
route_after_reflect-ne-tools s h = ground arith

route_after_verify-ne-tools : (s : AgentState) → route_after_verify s ≡ tools → ⊥
unfolding route_after_verify
route_after_verify-ne-tools s h = ground arith

step_at_approved :
    (settings : Settings) (e : Env) (n : Node) (s : AgentState)
    → (step_at settings e n s).node ≡ tools
    → any_of call_requires_approval (last_calls (step_at settings e n s).state.messages) ≡ true
    → (n ≡ approval) × (e.answer.approved ≡ true) × ((step_at settings e n s).state ≡ s)
unfolding step_at
step_at_approved settings e plan s h w = cc
step_at_approved settings e agent s h w = cc (route_after_agent-tools (agent_node settings e s) h)
step_at_approved settings e tools s h w = cc
step_at_approved settings e approval s h w = elim (Bool-cases e.answer.approved) [
  | inl yes_ ↦ (refl, yes_, unfold approval_node in rw yes_ refl)
  | inr no_ ↦ cc (route_after_rejection e.answer s no_)
]
step_at_approved settings e reflect s h w = absurd (route_after_reflect-ne-tools _ h)
step_at_approved settings e report s h w = cc
step_at_approved settings e verify s h w = absurd (route_after_verify-ne-tools _ h)
step_at_approved settings e end_ s h w = cc

-- Whenever the tool node is about to run a message with an approve-class call, the step before it
-- was the approval node with an approving answer, and it left the message as the reviewer saw it.
pub step_approved :
    (settings : Settings) (e : Env) (c : Config)
    → (step settings e c).node ≡ tools
    → any_of call_requires_approval (last_calls (step settings e c).state.messages) ≡ true
    → (c.node ≡ approval) × (e.answer.approved ≡ true) × ((step settings e c).state ≡ c.state)
unfolding step
step_approved settings e c h w = step_at_approved settings e c.node c.state h w
