-- ===== src/Tests/Investigation.antt =====
-- The graph's theorems at a run that proposes a restart.
use dev_ops_copilot.Base.{ℕ, zero, suc, ◌≡◌, refl, true, [], arith, ℕ, suc}
use dev_ops_copilot.Policy.{requires_approval, classify, base_rule}
use dev_ops_copilot.Policy.Gate.{auto_approvable, evidence_confidence}
use dev_ops_copilot.Graph.Nodes.{approval_node}
use dev_ops_copilot.Graph.Edges.{route_after_approval}
use dev_ops_copilot.Graph.Edges.{agent, approval, end_}
use dev_ops_copilot.Graph.Run.{Config, step, run, start}
use dev_ops_copilot.Graph.Safety.{step_approved}
use dev_ops_copilot.Graph.History.{run_keeps_history, AllAnswer, ValidConfig}
use dev_ops_copilot.Graph.Bound.{run_within_recursion_limit, AllBound}
use dev_ops_copilot.Session.{resume, resume_auto_refused}
use dev_ops_copilot.Tests.Fixtures.{
  env, settings, state_of, paused_messages, steps, approving, env-AnswersCalls, env-CallsOnlyBound,
}

abbrev paused : Config
paused = record { node = approval; state = state_of paused_messages }

all_answer : (n : ℕ) → AllAnswer (steps n)
all_answer zero = tt
all_answer (suc n) = (env-AnswersCalls, all_answer n)

all_bound : (n : ℕ) → AllBound settings (steps n)
all_bound zero = tt
all_bound (suc n) = (env-CallsOnlyBound, all_bound n)

step_approved_example :
    (paused.node ≡ approval)
    × (env.answer.approved ≡ true)
    × ((step settings env paused).state ≡ paused.state)
unfolding step approval_node route_after_approval requires_approval classify base_rule
step_approved_example = step_approved settings env paused refl refl

run_keeps_history_example :
    ValidConfig (run settings (steps 3) (start "why is checkout down?" (state_of [])))
run_keeps_history_example =
    run_keeps_history settings (steps 3) "why is checkout down?" (state_of []) (all_answer 3) refl

run_within_recursion_limit_example :
    (run settings (steps 18) (start "why is checkout down?" (state_of []))).node ≡ end_
run_within_recursion_limit_example =
    run_within_recursion_limit settings (steps 18) "why is checkout down?" (state_of [])
      (all_bound 18) (omega arith) (omega arith) refl

resume_auto_refused_example : (resume settings env paused approving true).node ≡ agent
unfolding requires_approval classify base_rule auto_approvable evidence_confidence
resume_auto_refused_example = resume_auto_refused settings env paused approving refl refl refl
