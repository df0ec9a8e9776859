-- ===== src/Graph/History.antt =====
-- The conversation as the model's API wants it: a tool call and its answer (app/graph/nodes.py: the
-- agent, approval and tool nodes).
use dev_ops_copilot.Base.{
  ◌≡◌, refl, ◌∙◌, false, Option, none, some, List, [], ◌∷◌, ◌++◌, arith, String, Bool-cases, inl,
  inr, ◌==◌, string_eq, if◌then◌else◌, eq_refl, Option-cases, any_of,
}
use mathlib.Core.Option.{some-injective}
use dev_ops_copilot.Policy.{ToolCall}
use dev_ops_copilot.Policy.Gate.{call_requires_approval}
use dev_ops_copilot.Graph.{
  AgentState, Status, investigating, Settings, Env, Answer, Message, human, ai, tool, ToolResult,
  last_calls, call_ids, result_ids, AnswersCalls,
}
use dev_ops_copilot.Graph.Edges.{
  Node, plan, agent, tools, approval, reflect, report, verify, end_, route_after_agent,
  route_after_approval, route_after_reflect, route_after_verify,
}
use dev_ops_copilot.Graph.Nodes.{
  plan_node, agent_node, approval_node, reflect_node, report_node, tool_node, guard, rejections,
}
use dev_ops_copilot.Graph.Nodes.Verify.{verify_node}
use dev_ops_copilot.Graph.Safety.{last_calls-append, route_after_rejection}
use dev_ops_copilot.Graph.Run.{Config, step, step_at, run, start}

-- The ids still to be answered after one more message, `none` where the history is broken.
abbrev pub accept : List String → Message → Option (List String)
accept [] (human _) = some []
accept [] (ai _ calls) = some (call_ids calls)
accept [] (tool _ _ _) = none
accept (i ∷ is) (human _) = none
accept (i ∷ is) (ai _ _) = none
accept (i ∷ is) (tool _ j _) = if j == i then some is else none

-- The ids still to be answered after the messages.
abbrev pub open_ids : List String → List Message → Option (List String)
open_ids is [] = some is
open_ids is (m ∷ ms) = elim (accept is m) [ none ↦ none | some js ↦ open_ids js ms ]

-- A history in which every call has its answer.
abbrev pub IsAnswered : List Message → Type 0
IsAnswered ms = open_ids [] ms ≡ some []

-- The open ids are those of the last message, an assistant's.
abbrev pub IsPending : List Message → Type 0
IsPending ms = open_ids [] ms ≡ some (call_ids (last_calls ms))

open_ids-append :
    (is js : List String) (ms ns : List Message)
    → open_ids is ms ≡ some js
    → open_ids is (ms ++ ns) ≡ open_ids js ns
open_ids-append is js [] ns h = rw (some-injective _ _ h) refl
open_ids-append is js (m ∷ ms) ns h = elim (Option-cases (accept is m)) [
  | inl e ↦ let broken : none ≡ some js = rw (e, open_ids) at h in cc
  | inr (is', e) ↦ rw (e, open_ids) (open_ids-append is' js ms ns (rw (e, open_ids) at h))
]

open_ids-rejections :
    (reason : String) (calls : List ToolCall)
    → open_ids (call_ids calls) (rejections reason calls) ≡ some []
open_ids-rejections reason [] = refl
open_ids-rejections reason (c ∷ cs) =
    rw (eq_refl c.id, open_ids, accept) (open_ids-rejections reason cs)

open_ids-guard : (e : Env) (rs : List ToolResult) → open_ids (result_ids rs) (guard e rs) ≡ some []
open_ids-guard e [] = refl
open_ids-guard e (r ∷ rs) = rw (eq_refl r.tool_call_id, open_ids, accept) (open_ids-guard e rs)

-- What holds of the messages when a node is about to run.
abbrev pub Valid : Node → List Message → Type 0
Valid tools ms = IsPending ms
Valid approval ms = IsPending ms
Valid _ ms = IsAnswered ms

messages-reflect_node :
    (settings : Settings) (e : Env) (s : AgentState)
    → (reflect_node settings e s).messages ≡ s.messages
unfolding reflect_node
messages-reflect_node settings e s = ground arith

messages-verify_node :
    (settings : Settings) (e : Env) (s : AgentState)
    → (verify_node settings e s).messages ≡ s.messages
unfolding verify_node
messages-verify_node settings e s = ground arith

-- The agent's message opens the ids of its own calls.
agent_node-IsPending :
    (settings : Settings) (e : Env) (s : AgentState)
    → IsAnswered s.messages
    → IsPending (agent_node settings e s).messages
unfolding agent_node
agent_node-IsPending settings e s h =
    rw (last_calls-append s.messages _) (open_ids-append [] [] s.messages _ h)

-- The edge after the agent goes to `reflect` only if nothing is open.
route_after_agent-Valid :
    (s : AgentState) → IsPending s.messages → Valid (route_after_agent s) s.messages
unfolding route_after_agent
route_after_agent-Valid s h = go (last_calls s.messages) refl
  where
    go : (cs : List ToolCall) → last_calls s.messages ≡ cs → Valid (route_after_agent s) s.messages
    go [] e = rw (e, route_after_agent) (rw e at h)
    go (c ∷ cs) e = elim (Bool-cases (any_of call_requires_approval (c ∷ cs))) [
      | inl t ↦ rw (e, route_after_agent) (rw t h)
      | inr f ↦ rw (e, route_after_agent) (rw f h)
    ]

route_after_approval-Valid :
    (s : AgentState) → IsPending s.messages → Valid (route_after_approval s) s.messages
unfolding route_after_approval
route_after_approval-Valid s h = go (last_calls s.messages) refl
  where
    go :
        (cs : List ToolCall)
        → last_calls s.messages ≡ cs
        → Valid (route_after_approval s) s.messages
    go [] e = rw (e, route_after_approval) (rw e at h)
    go (c ∷ cs) e = rw (e, route_after_approval) h

rejected-IsAnswered :
    (a : Answer) (s : AgentState)
    → a.approved ≡ false
    → IsPending s.messages
    → IsAnswered (approval_node a s).messages
unfolding approval_node
rejected-IsAnswered a s no_ h = rw no_ (
    open_ids-append [] (call_ids (last_calls s.messages)) s.messages _ h
    ∙ open_ids-rejections a.reason (last_calls s.messages))

approval_node-Valid :
    (a : Answer) (s : AgentState)
    → IsPending s.messages
    → Valid (route_after_approval (approval_node a s)) (approval_node a s).messages
approval_node-Valid a s h = elim (Bool-cases a.approved) [
  | inl yes_ ↦ unfold approval_node in rw yes_ (route_after_approval-Valid s h)
  | inr no_ ↦ rw (route_after_rejection a s no_) (rejected-IsAnswered a s no_ h)
]

tool_node-IsAnswered :
    (e : Env) (s : AgentState)
    → AnswersCalls e
    → IsPending s.messages
    → IsAnswered (tool_node e s).messages
unfolding tool_node
tool_node-IsAnswered e s answers h =
    open_ids-append [] (call_ids (last_calls s.messages)) s.messages _ h
    ∙ rw (← answers (last_calls s.messages))
        (open_ids-guard e (e.run_tools (last_calls s.messages)))

route_after_reflect-Valid :
    (s : AgentState) → IsAnswered s.messages → Valid (route_after_reflect s) s.messages
unfolding route_after_reflect
route_after_reflect-Valid s h = go s.status refl
  where
    go : (t : Status) → s.status ≡ t → Valid (route_after_reflect s) s.messages
    go investigating e = rw (e, route_after_reflect) h
    go _ e = rw (e, route_after_reflect) h

route_after_verify-Valid :
    (s : AgentState) → IsAnswered s.messages → Valid (route_after_verify s) s.messages
unfolding route_after_verify
route_after_verify-Valid s h = go s.status refl
  where
    go : (t : Status) → s.status ≡ t → Valid (route_after_verify s) s.messages
    go investigating e = rw (e, route_after_verify) h
    go _ e = rw (e, route_after_verify) h

step_at-Valid :
    (settings : Settings) (e : Env) (n : Node) (s : AgentState)
    → AnswersCalls e
    → Valid n s.messages
    → Valid (step_at settings e n s).node (step_at settings e n s).state.messages
unfolding step_at
step_at-Valid settings e plan s answers h = unfold plan_node in h
step_at-Valid settings e agent s answers h =
    route_after_agent-Valid _ (agent_node-IsPending settings e s h)
step_at-Valid settings e tools s answers h = tool_node-IsAnswered e s answers h
step_at-Valid settings e approval s answers h = approval_node-Valid e.answer s h
step_at-Valid settings e reflect s answers h =
    route_after_reflect-Valid _ (rw (messages-reflect_node settings e s) h)
step_at-Valid settings e report s answers h = unfold report_node in h
step_at-Valid settings e verify s answers h =
    route_after_verify-Valid _ (rw (messages-verify_node settings e s) h)
step_at-Valid settings e end_ s answers h = h

abbrev pub ValidConfig : Config → Type 0
ValidConfig c = Valid c.node c.state.messages

-- Every tool the runs are given answers its calls.
abbrev pub AllAnswer : List Env → Type 0
AllAnswer [] = Unit
AllAnswer (e ∷ es) = AnswersCalls e × AllAnswer es

run-Valid :
    (settings : Settings) (es : List Env) (c : Config)
    → AllAnswer es
    → ValidConfig c
    → ValidConfig (run settings es c)
unfolding run
run-Valid settings [] c answers h = h
run-Valid settings (e ∷ es) c (a, answers) h =
    run-Valid settings es (step settings e c) answers
      (unfold step in step_at-Valid settings e c.node c.state a h)

-- From a thread whose calls are all answered, a new question is investigated with a valid history
-- after any number of steps and whatever the model, the tools and the reviewer reply: before the
-- approval and the tool node exactly the calls of the last message are open, and before every
-- other node, and at the end, no call is left without its answer.
pub run_keeps_history :
    (settings : Settings) (es : List Env) (question : String) (s : AgentState)
    → AllAnswer es
    → IsAnswered s.messages
    → ValidConfig (run settings es (start question s))
unfolding start
run_keeps_history settings es question s answers h =
    run-Valid settings es (start question s) answers
      (open_ids-append [] [] s.messages (human question ∷ []) h)
