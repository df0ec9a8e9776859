-- ===== src/Graph.antt =====
-- The agent's shared state (app/graph/state.py) and what the nodes take from outside the
-- repository: the language model, the tools, the reviewer, the sandbox and the regular expressions.
pub mod Edges
pub mod Nodes
pub mod Fix
pub mod Run
pub mod Digest
pub mod Safety
pub mod History
pub mod Bound
use dev_ops_copilot.Base.{
  ℕ, suc, ◌≡◌, String, Bool, true, false, Option, none, some, List, [], ◌∷◌, ◌++◌, map,
}
use dev_ops_copilot.Base.Value.{Value}
use dev_ops_copilot.Policy.{ToolCall, Level}
use dev_ops_copilot.Policy.Gate.{GateResult}
use dev_ops_copilot.Report.{Report, Verification}
use dev_ops_copilot.Report.Node.{Panel}

-- `HumanMessage`, `AIMessage` with its tool calls, `ToolMessage` with its call's id and its name.
pub data Message : Type 0 where
  human : String → Message
  ai : String → List ToolCall → Message
  tool : String → String → String → Message

pub data Status : Type 0 where
  investigating awaiting_approval done failed : Status

pub record AgentState : Type 0 where
  pub messages : List Message
  pub plan : List String
  pub iteration : ℕ
  pub feedback : String
  pub report : Option Report
  pub tokens_used : ℕ
  pub verification : Option Verification
  pub verify_attempts : ℕ
  pub status : Status

pub record Settings : Type 0 where
  pub max_iterations : ℕ
  pub max_tokens_per_run : ℕ
  pub verify_max_attempts : ℕ
  pub model_routing : Bool
  pub verify_fix : Bool
  pub sandbox_verify : Bool
  pub adversarial_critique : Bool
  pub confidence_gate : Bool

-- What a call of the model is asked. `with_tools` and `fast` choose among the four bound models
-- of the agent node; the wording of the prompts around these parts is fixed.
pub data Request : Type 0 where
  plan_request : String → List Message → Request
  agent_request : Bool → Bool → List String → String → List Message → Request
  reflect_request : String → String → Request

-- The reply, with the total of its usage metadata.
pub record Reply : Type 0 where
  pub content : String
  pub tool_calls : List ToolCall
  pub tokens : ℕ

-- What a tool returns for one call.
pub record ToolResult : Type 0 where
  pub content : String
  pub tool_call_id : String
  pub name : String

-- The answer to the approval request.
pub record Answer : Type 0 where
  pub approved : Bool
  pub reason : String

pub data SandboxVerdict : Type 0 where
  resolved not_resolved no_patch inconclusive_run : SandboxVerdict

-- What one step may take from outside.
pub record Env : Type 0 where
  pub llm : Request → Reply
  -- whether the incident and the informational patterns of app/routing.py are found in a text
  pub is_incident : String → Bool
  pub is_informational : String → Bool
  -- `app.redaction.scrub`, and the search of an injection pattern
  pub scrub : String → String
  pub found : String → String → Bool
  -- LangGraph's `ToolNode`
  pub run_tools : List ToolCall → List ToolResult
  pub answer : Answer
  -- the report as the parse and the probes leave it, with the tokens that the node spends
  pub synthesize : AgentState → Report × ℕ
  pub panel : Panel
  -- `json.dumps` of a call's arguments and of one value
  pub dump_args : ToolCall → String
  pub dump : Value → String
  -- the verification as parsed from the model's reply, `none` where the call raises
  pub assess : Report → String → Option (Verification × ℕ)
  pub sandbox : String → SandboxVerdict

abbrev pub result_ids : List ToolResult → List String
result_ids [] = []
result_ids (r ∷ rs) = r.tool_call_id ∷ result_ids rs

abbrev pub call_ids : List ToolCall → List String
call_ids [] = []
call_ids (c ∷ cs) = c.id ∷ call_ids cs

-- A model that no tools are bound to makes no tool calls.
abbrev pub CallsOnlyBound : Env → Type 0
CallsOnlyBound e =
    (fast : Bool) (plan : List String) (notice : String) (ms : List Message)
    → (e.llm (agent_request fast false plan notice ms)).tool_calls ≡ []

-- `ToolNode` answers each call of a message, in the order of the calls.
abbrev pub AnswersCalls : Env → Type 0
AnswersCalls e = (calls : List ToolCall) → result_ids (e.run_tools calls) ≡ call_ids calls

-- `state["messages"][-1]`, by its tool calls: none where it is no assistant message.
abbrev pub calls_of : Message → List ToolCall
calls_of (ai _ calls) = calls
calls_of _ = []

-- The tool calls of the last message.
abbrev pub last_calls : List Message → List ToolCall
last_calls [] = []
last_calls (m ∷ []) = calls_of m
last_calls (m ∷ n ∷ ms) = last_calls (n ∷ ms)

abbrev pub last_user_or : String → List Message → String
last_user_or found [] = found
last_user_or found (human text ∷ ms) = last_user_or text ms
last_user_or found (_ ∷ ms) = last_user_or found ms

-- `_last_user_text`
abbrev pub last_user_text : List Message → String
last_user_text ms = last_user_or "" ms

-- `sum(1 for m in messages if isinstance(m, ToolMessage))`
abbrev pub evidence_count : List Message → ℕ
evidence_count [] = 0
evidence_count (tool _ _ _ ∷ ms) = suc (evidence_count ms)
evidence_count (_ ∷ ms) = evidence_count ms
