-- ===== src/Graph/Bound.antt =====
-- The length of a run (app/graph/nodes.py) and the recursion limit (app/session.py).
use dev_ops_copilot.Base.{
  ℕ, ◌+◌, ◌-◌, ◌*◌, ◌≤◌, ◌<◌, ◌≡◌, ◌≢◌, refl, true, false, List, [], ◌∷◌, arith, ◌⊎◌, inl, inr,
  Bool-cases, leb, length, String, if◌then◌else◌,
}
use dev_ops_copilot.Graph.{AgentState, Settings, Env, CallsOnlyBound, last_calls}
use dev_ops_copilot.Graph.Edges.{
  Node, plan, agent, tools, approval, reflect, report, verify, end_, route_after_agent,
  route_after_approval, route_after_reflect, route_after_verify,
}
use dev_ops_copilot.Graph.Nodes.{
  plan_node, agent_node, approval_node, reflect_node, report_node, tool_node, at_cap,
}
use dev_ops_copilot.Graph.Nodes.Verify.{verify_node}
use dev_ops_copilot.Graph.Run.{Config, step, step_at, run, start}
use dev_ops_copilot.Graph.Safety.{last_calls-append}

module _ (settings : Settings) where
  -- Agent passes that may still call tools, and revisions of the fix that are left.
  abbrev pub passes_left : AgentState → ℕ
  passes_left s = settings.max_iterations - 1 - s.iteration

  abbrev pub revisions_left : AgentState → ℕ
  revisions_left s = settings.verify_max_attempts - s.verify_attempts

  abbrev from_agent : AgentState → ℕ
  from_agent s = 3 * passes_left s + 4 * (revisions_left s + 1)

  abbrev from_reflect : AgentState → ℕ
  from_reflect s =
      if leb settings.max_iterations s.iteration then 4 * revisions_left s + 3 else from_agent s + 1

  abbrev from_report : AgentState → ℕ
  from_report s = 3 * passes_left s + 4 * revisions_left s + 2

  abbrev from_verify : AgentState → ℕ
  from_verify s = 3 * passes_left s + 4 * revisions_left s + 1

  -- A bound on the steps from here to the end.
  abbrev pub steps_left : Node → AgentState → ℕ
  steps_left plan s = 1 + 3 * (settings.max_iterations - 1) + 4 * (revisions_left s + 1)
  steps_left agent s = from_agent s
  steps_left tools s = from_agent s + 1
  steps_left approval s = from_agent s + 2
  steps_left reflect s = from_reflect s
  steps_left report s = from_report s
  steps_left verify s = from_verify s
  steps_left end_ s = 0

  plan_step : (e : Env) (s : AgentState) → from_agent (plan_node e s) < steps_left plan s
  unfolding plan_node
  plan_step e s = omega arith

  report_step : (e : Env) (s : AgentState) → from_verify (report_node settings e s) < from_report s
  unfolding report_node
  report_step e s = omega arith

  tool_step : (e : Env) (s : AgentState) → from_agent (tool_node e s) < steps_left tools s
  unfolding tool_node
  tool_step e s = omega arith

  reflect_step :
      (e : Env) (s : AgentState)
      → steps_left (route_after_reflect (reflect_node settings e s)) (reflect_node settings e s)
        < from_reflect s
  unfolding reflect_node route_after_reflect
  reflect_step e s = ground arith

  approval_step :
      (e : Env) (s : AgentState)
      → steps_left (route_after_approval (approval_node e.answer s)) (approval_node e.answer s)
        < steps_left approval s
  unfolding approval_node route_after_approval
  approval_step e s = ground arith

  verify_step :
      (e : Env) (s : AgentState)
      → steps_left (route_after_verify (verify_node settings e s)) (verify_node settings e s)
        < from_verify s
  unfolding verify_node route_after_verify
  verify_step e s = ground arith

  -- The agent is invoked without tools at its cap, so its message carries no calls.
  agent_at_cap :
      (e : Env) (s : AgentState)
      → CallsOnlyBound e
      → at_cap settings s ≡ true
      → last_calls (agent_node settings e s).messages ≡ []
  unfolding agent_node
  agent_at_cap e s bound cap_ = rw (last_calls-append s.messages _) (rw cap_ (bound _ _ _ _))

  reflect_after_agent :
      (s : AgentState) → last_calls s.messages ≡ [] → route_after_agent s ≡ reflect
  unfolding route_after_agent
  reflect_after_agent s h = rw (h, route_after_agent) refl

  route_after_agent-cases :
      (s : AgentState)
      → (route_after_agent s ≡ reflect)
        ⊎ ((route_after_agent s ≡ tools) ⊎ (route_after_agent s ≡ approval))
  unfolding route_after_agent
  route_after_agent-cases s = ground arith

  from_reflect-agent :
      (e : Env) (s : AgentState) → from_reflect (agent_node settings e s) < from_agent s
  unfolding agent_node
  from_reflect-agent e s = ground arith

  from_agent-agent :
      (e : Env) (s : AgentState)
      → at_cap settings s ≡ false
      → from_agent (agent_node settings e s) + 2 < from_agent s
  unfolding agent_node
  from_agent-agent e s h = ground arith

  agent_step :
      (e : Env) (s : AgentState)
      → CallsOnlyBound e
      → steps_left (route_after_agent (agent_node settings e s)) (agent_node settings e s)
        < from_agent s
  agent_step e s bound = elim (Bool-cases (at_cap settings s)) [
    | inl cap_ ↦
        rw (reflect_after_agent (agent_node settings e s) (agent_at_cap e s bound cap_))
          (from_reflect-agent e s)
    | inr free ↦ elim (route_after_agent-cases (agent_node settings e s)) [
      | inl r ↦ rw r (from_reflect-agent e s)
      | inr (inl t) ↦ rw t (omega (arith, from_agent-agent e s free))
      | inr (inr a) ↦ rw a (omega (arith, from_agent-agent e s free))
    ]
  ]

  step_at_decreases :
      (e : Env) (n : Node) (s : AgentState)
      → CallsOnlyBound e
      → n ≢ end_
      → steps_left (step_at settings e n s).node (step_at settings e n s).state < steps_left n s
  unfolding step_at
  step_at_decreases e plan s bound h = plan_step e s
  step_at_decreases e agent s bound h = agent_step e s bound
  step_at_decreases e tools s bound h = tool_step e s
  step_at_decreases e approval s bound h = approval_step e s
  step_at_decreases e reflect s bound h = reflect_step e s
  step_at_decreases e report s bound h = report_step e s
  step_at_decreases e verify s bound h = verify_step e s
  step_at_decreases e end_ s bound h = absurd (h refl)

  -- No model of the run calls a tool that is not bound to it.
  abbrev pub AllBound : List Env → Type 0
  AllBound [] = Unit
  AllBound (e ∷ es) = CallsOnlyBound e × AllBound es

  run_at_end : (es : List Env) (c : Config) → c.node ≡ end_ → (run settings es c).node ≡ end_
  unfolding run step step_at
  run_at_end [] c h = h
  run_at_end (e ∷ es) c h = run_at_end es (step settings e c) (rw (h, step_at) refl)

  run_ends :
      (es : List Env) (c : Config)
      → AllBound es
      → steps_left c.node c.state ≤ length es
      → (run settings es c).node ≡ end_
  unfolding run step
  run_ends [] c bound h = at_zero c.node c.state h
    where
      at_zero : (n : Node) (s : AgentState) → steps_left n s ≤ 0 → n ≡ end_
      at_zero plan s h = absurd (omega arith)
      at_zero agent s h = absurd (omega arith)
      at_zero tools s h = absurd (omega arith)
      at_zero approval s h = absurd (omega arith)
      at_zero reflect s h = absurd (ground arith)
      at_zero report s h = absurd (omega arith)
      at_zero verify s h = absurd (omega arith)
      at_zero end_ s h = refl
  run_ends (e ∷ es) c (b, bound) h = elim (dec_end c.node) [
    | inl at_end ↦ run_at_end (e ∷ es) c at_end
    | inr going ↦
        run_ends es (step settings e c) bound
          (omega (arith, step_at_decreases e c.node c.state b going))
  ]
    where
      dec_end : (n : Node) → (n ≡ end_) ⊎ (n ≢ end_)
      dec_end end_ = inl refl
      dec_end _ = inr (λ q. cc)

  -- Whatever the model, the tools and the reviewer reply, a turn is over after the recursion limit
  -- of the session, `max_iterations * 4 + 10` steps, provided that no model calls a tool that is not
  -- bound to it, that there is an iteration, and that four times the allowed revisions of the fix
  -- are at most `max_iterations + 8` (the defaults are 8 iterations and one revision).
  pub run_within_recursion_limit :
      (es : List Env) (question : String) (s : AgentState)
      → AllBound es
      → 0 < settings.max_iterations
      → 4 * settings.verify_max_attempts ≤ settings.max_iterations + 8
      → length es ≡ settings.max_iterations * 4 + 10
      → (run settings es (start question s)).node ≡ end_
  unfolding start
  run_within_recursion_limit es question s bound some_ few n =
      run_ends es (start question s) bound (omega arith)
