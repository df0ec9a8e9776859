-- ===== src/Tests/Fixtures.antt =====
-- A model that proposes a restart, a tool box that answers, a reviewer that approves.
use dev_ops_copilot.Base.{ℕ, zero, suc, refl, ap, true, false, none, List, [], ◌∷◌}
use dev_ops_copilot.Policy.{ToolCall, high}
use dev_ops_copilot.Report.{Report, sev2}
use dev_ops_copilot.Report.Node.{Panel}
use dev_ops_copilot.Graph.{
  AgentState, Settings, Env, Answer, Request, agent_request, Reply, ToolResult, CallsOnlyBound,
  AnswersCalls, investigating, inconclusive_run, human, ai, Message,
}

abbrev pub restart : ToolCall
restart = record { name = "restart_deployment"; args = []; id = "c1" }

abbrev pub read_logs : ToolCall
read_logs = record { name = "search_logs"; args = []; id = "c2" }

abbrev reply_to : Request → Reply
reply_to (agent_request fast true plan notice ms) = record {
  content = "checking";
  tool_calls = restart ∷ [];
  tokens = 10;
}
reply_to (agent_request fast false plan notice ms) = record {
  content = "the pool is exhausted";
  tool_calls = [];
  tokens = 10;
}
reply_to _ = record { content = "done"; tool_calls = []; tokens = 5 }

abbrev run_calls : List ToolCall → List ToolResult
run_calls [] = []
run_calls (c ∷ cs) = record { content = "ok"; tool_call_id = c.id; name = c.name } ∷ run_calls cs

abbrev pub no_objections : Panel
no_objections = record { prosecute = λ _. none; defend = λ _ _. none }

abbrev pub bare_report : Report
bare_report = record {
  summary = "checkout fails";
  severity = sev2;
  confidence = high;
  root_cause = none;
  affected_services = [];
  hypotheses = [];
  evidence = [];
  recommended_actions = [];
  calibrated_confidence = none;
  abstained = false;
  needs = [];
  grounding = none;
  critique = none;
  verification = none;
}

abbrev pub approving : Answer
approving = record { approved = true; reason = "" }

abbrev pub env : Env
env = record {
  llm = reply_to;
  is_incident = λ _. true;
  is_informational = λ _. false;
  scrub = λ t. t;
  found = λ _ _. false;
  run_tools = run_calls;
  answer = approving;
  synthesize = λ _. (bare_report, 20);
  panel = no_objections;
  dump_args = λ _. "{}";
  dump = λ _. "";
  assess = λ _ _. none;
  sandbox = λ _. inconclusive_run;
}

pub env-AnswersCalls : AnswersCalls env
env-AnswersCalls [] = refl
env-AnswersCalls (c ∷ cs) = ap (◌∷◌ c.id) (env-AnswersCalls cs)

pub env-CallsOnlyBound : CallsOnlyBound env
env-CallsOnlyBound fast plan notice ms = refl

abbrev pub settings : Settings
settings = record {
  max_iterations = 2;
  max_tokens_per_run = 0;
  verify_max_attempts = 1;
  model_routing = false;
  verify_fix = true;
  sandbox_verify = false;
  adversarial_critique = true;
  confidence_gate = true;
}

abbrev pub state_of : List Message → AgentState
state_of ms = record {
  messages = ms;
  plan = [];
  iteration = 0;
  feedback = "";
  report = none;
  tokens_used = 0;
  verification = none;
  verify_attempts = 0;
  status = investigating;
}

abbrev pub paused_messages : List Message
paused_messages = human "why is checkout down?" ∷ ai "checking" (restart ∷ []) ∷ []

-- So many steps with the same environment.
abbrev pub steps : ℕ → List Env
steps zero = []
steps (suc n) = env ∷ steps n
