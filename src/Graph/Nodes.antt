-- ===== src/Graph/Nodes.antt =====
-- The nodes of the graph (app/graph/nodes.py, the guarded tool node of app/graph/builder.py). A
-- node returns the state after its update, with the reducers of app/graph/state.py applied:
-- messages are appended, tokens and verification attempts are added.
pub mod Verify
use Prim.Native.Char.{code}
use dev_ops_copilot.Base.{
  ℕ, ◌+◌, ◌<>◌, String, Bool, true, false, Option, none, some, List, [], ◌∷◌, ◌++◌, map, ◌&&◌, ◌||◌,
  ltb, leb, eqb, ◌==◌, string_eq, any_of, if◌then◌else◌,
}
use dev_ops_copilot.Base.Text.{
  codes, strip, take_chars, drop_chars, starts_with_word, stripped_lines,
}
use dev_ops_copilot.Guardrails.{sanitize_tool_output}
use dev_ops_copilot.Routing.{use_fast_model}
use dev_ops_copilot.Policy.{ToolCall, Level, low, medium, high, Classification, classify}
use dev_ops_copilot.Policy.Gate.{GateResult, confidence_gate}
use dev_ops_copilot.Report.Node.{finish_report}
use dev_ops_copilot.Graph.{
  AgentState, Message, human, ai, tool, Settings, Env, Answer, ToolResult, Status, investigating,
  done, plan_request, agent_request, reflect_request, last_calls, last_user_text, evidence_count,
}
use dev_ops_copilot.Graph.Digest.{evidence_digest}

-- `_over_token_budget`: the budget is off at 0.
unfoldable pub over_token_budget : ℕ → Settings → Bool
over_token_budget tokens_used settings =
    ltb 0 settings.max_tokens_per_run && leb settings.max_tokens_per_run tokens_used

unfoldable pub plan_node : Env → AgentState → AgentState
unfolding stripped_lines
plan_node e s =
    let resp = e.llm (plan_request (last_user_text s.messages) s.messages) in
    record s {
      plan = stripped_lines resp.content;
      iteration = 0;
      status = investigating;
      feedback = "";
      tokens_used = s.tokens_used + resp.tokens;
    }

-- At the step cap or over the budget, the agent must answer.
abbrev pub at_cap : Settings → AgentState → Bool
at_cap settings s =
    leb settings.max_iterations (s.iteration + 1) || over_token_budget s.tokens_used settings

abbrev cap_notice : Bool → String
cap_notice over_budget =
    "You have reached the "
    <> ((if over_budget then "token budget" else "investigation step limit")
        <> ". Do NOT call any tools. Summarize the root cause and your recommendation now.")

abbrev feedback_notice : String → String
feedback_notice feedback =
    if feedback == ""
    then ""
    else "Reviewer feedback on your previous answer — address this now before finishing:\n"
      <> feedback

unfoldable pub agent_node : Settings → Env → AgentState → AgentState
unfolding use_fast_model
agent_node settings e s =
    let fast =
      use_fast_model e.is_incident e.is_informational (last_user_text s.messages)
        settings.model_routing in
    let request =
      if at_cap settings s
      then agent_request fast false s.plan (cap_notice (over_token_budget s.tokens_used settings))
          s.messages
      else agent_request fast true s.plan (feedback_notice s.feedback) s.messages in
    let resp = e.llm request in
    record s {
      messages = s.messages ++ ai resp.content resp.tool_calls ∷ [];
      iteration = s.iteration + 1;
      tokens_used = s.tokens_used + resp.tokens;
    }

pub record ApprovalRequest : Type 0 where
  pub risk : Level
  pub evidence : ℕ
  pub gate : GateResult
  pub actions : List Classification

abbrev is_level : Level → Classification → Bool
is_level high c = elim c.risk [ high ↦ true | _ ↦ false ]
is_level medium c = elim c.risk [ medium ↦ true | _ ↦ false ]
is_level low c = elim c.risk [ low ↦ true | _ ↦ false ]

-- What the approval node shows to the reviewer.
unfoldable pub approval_request : AgentState → ApprovalRequest
approval_request s =
    let all_calls = last_calls s.messages in
    let actions : List Classification = map (λ c. classify c.name c.args) all_calls in
    let count = evidence_count s.messages in
    record {
      risk =
          if any_of (is_level high) actions
          then high
          else if any_of (is_level medium) actions
          then medium
          else low;
      evidence = count;
      gate = confidence_gate all_calls count;
      actions = actions;
    }

abbrev pub rejections : String → List ToolCall → List Message
rejections reason [] = []
rejections reason (c ∷ cs) =
    tool
      ("ACTION REJECTED by human: "
        <> (reason
            <> ". Do not retry this exact action; summarize findings or propose an alternative."))
      c.id ""
    ∷ rejections reason cs

unfoldable pub approval_node : Answer → AgentState → AgentState
approval_node a s =
    if a.approved
    then s
    else record s { messages = s.messages ++ rejections a.reason (last_calls s.messages) }

-- Every result is redacted, then scanned and boxed.
abbrev pub guard : Env → List ToolResult → List Message
guard e [] = []
guard e (r ∷ rs) =
    tool (sanitize_tool_output e.found r.name (e.scrub r.content)).0 r.tool_call_id r.name
    ∷ guard e rs

unfoldable pub tool_node : Env → AgentState → AgentState
unfolding sanitize_tool_output
tool_node e s = record s { messages = s.messages ++ guard e (e.run_tools (last_calls s.messages)) }

-- The latest answer: the last assistant message without tool calls.
abbrev latest_or : String → List Message → String
latest_or found [] = found
latest_or found (ai content [] ∷ ms) = latest_or content ms
latest_or found (_ ∷ ms) = latest_or found ms

abbrev done_word : List ℕ
done_word = codes "done"

abbrev continue_word : List ℕ
continue_word = codes "continue"

-- `rest.lstrip(" :\n-")`
lstrip_marks : String → String
lstrip_marks String.[] = String.[]
lstrip_marks (String.◌∷◌ c s) =
    let rest = lstrip_marks s in
    if eqb (code c) 32 || (eqb (code c) 58 || (eqb (code c) 10 || eqb (code c) 45))
    then rest
    else String.◌∷◌ c s

-- The gap note behind the verdict word.
unfoldable pub feedback_of : String → String
unfolding lstrip_marks strip take_chars drop_chars starts_with_word
feedback_of text = take_chars 500 (
    strip (
      lstrip_marks
        (if starts_with_word continue_word (codes text) then drop_chars 8 text else text)))

unfoldable pub reflect_node : Settings → Env → AgentState → AgentState
unfolding strip feedback_of starts_with_word
reflect_node settings e s =
    if leb settings.max_iterations s.iteration || over_token_budget s.tokens_used settings
    then record s { status = done; feedback = "" }
    else let resp = e.llm (reflect_request (last_user_text s.messages) (latest_or "" s.messages)) in
      let text = strip resp.content in
      if starts_with_word done_word (codes text)
      then record s { status = done; feedback = ""; tokens_used = s.tokens_used + resp.tokens }
      else record s {
        status = investigating;
        feedback = feedback_of text;
        tokens_used = s.tokens_used + resp.tokens;
      }

unfoldable pub report_node : Settings → Env → AgentState → AgentState
unfolding finish_report evidence_digest
report_node settings e s =
    let (synthesized, tokens) = e.synthesize s in
    record s {
      report = some (
          finish_report settings.adversarial_critique e.panel synthesized
            (evidence_digest e.dump_args s.messages));
      status = done;
      tokens_used = s.tokens_used + tokens;
    }
