-- ===== src/Session.antt =====
-- The session (app/session.py): resuming a paused run, the enforcement of the confidence gate on
-- programmatic approvers, and the answer that a finished turn shows.
use dev_ops_copilot.Base.{
  ◌≡◌, refl, ◌∙◌, ◌<>◌, String, Bool, true, false, Option, none, some, List, [], ◌∷◌, ◌&&◌, not,
  any_of, Bool-cases, inl, inr, if◌then◌else◌, ◌==◌, string_eq,
}
use dev_ops_copilot.Base.Text.{is_blank}
use dev_ops_copilot.Policy.{ToolCall}
use dev_ops_copilot.Policy.Gate.{
  GateResult, confidence_gate, auto_approvable, call_requires_approval, call_risk,
  evidence_confidence,
}
use dev_ops_copilot.Policy.Laws.{confidence_gate-blocked}
use dev_ops_copilot.Report.{Report}
use dev_ops_copilot.Graph.{
  Settings, Env, Answer, Message, human, ai, tool, last_calls, evidence_count,
}
use dev_ops_copilot.Graph.Edges.{agent, approval}
use dev_ops_copilot.Graph.Run.{Config, step, step_at}
use dev_ops_copilot.Graph.Safety.{route_after_rejection}

-- The tool calls of the last assistant message that has some.
abbrev pub pending_calls_or : List ToolCall → List Message → List ToolCall
pending_calls_or found [] = found
pending_calls_or found (ai _ (c ∷ cs) ∷ ms) = pending_calls_or (c ∷ cs) ms
pending_calls_or found (_ ∷ ms) = pending_calls_or found ms

-- `_pending_gate`
unfoldable pub pending_gate : List Message → GateResult
pending_gate ms = confidence_gate (pending_calls_or [] ms) (evidence_count ms)

-- `_apply_confidence_gate`, with `auto` for a programmatic approver.
unfoldable pub apply_confidence_gate : Settings → List Message → Answer → Bool → Answer
apply_confidence_gate settings ms a auto =
    if a.approved && (auto && settings.confidence_gate)
    then (if (pending_gate ms).auto_approve_blocked
        then record {
          approved = false;
          reason = "Auto-approval blocked by confidence gate: " <> (pending_gate ms).reason;
        }
        else a)
    else a

-- `resume`: the paused run goes on with the gated answer.
unfoldable pub resume : Settings → Env → Config → Answer → Bool → Config
resume settings e c a auto =
    step settings (record e { answer = apply_confidence_gate settings c.state.messages a auto }) c

-- What the stream of a turn yields: a step's line, a pause for the reviewer, or the end.
pub data Event : Type 0 where
  trace_line : String → Event
  approval_pause : List String → Event
  turn_done : String → Option Report → List String → Event

pub data TurnResult : Type 0 where
  awaiting : List String → TurnResult
  completed : String → Option Report → List String → TurnResult

abbrev no_answer : String
no_answer = "(no final answer produced)"

-- The last pause or end, where the stream has one.
abbrev last_outcome : TurnResult → List Event → TurnResult
last_outcome r [] = r
last_outcome r (trace_line _ ∷ es) = last_outcome r es
last_outcome r (approval_pause trace ∷ es) = last_outcome (awaiting trace) es
last_outcome r (turn_done text report trace ∷ es) = last_outcome (completed text report trace) es

-- `_drive`
unfoldable pub drive : List Event → TurnResult
drive es = last_outcome (completed no_answer none []) es

abbrev last_final : Option String → List Message → Option String
last_final found [] = found
last_final found (ai content [] ∷ ms) =
    last_final (if is_blank content then found else some content) ms
last_final found (_ ∷ ms) = last_final found ms

abbrev last_any : Option String → List Message → Option String
last_any found [] = found
last_any found (ai content _ ∷ ms) = last_any (if content == "" then found else some content) ms
last_any found (_ ∷ ms) = last_any found ms

-- `_last_ai_text`
unfoldable pub last_ai_text : List Message → String
last_ai_text ms = elim (last_final none ms) [
  | some text ↦ text
  | none ↦ elim (last_any none ms) [ some text ↦ text | none ↦ no_answer ]
]

pending_calls_of_last :
    (found : List ToolCall) (ms : List Message) (c : ToolCall) (cs : List ToolCall)
    → last_calls ms ≡ c ∷ cs
    → pending_calls_or found ms ≡ c ∷ cs
pending_calls_of_last found [] c cs h = cc
pending_calls_of_last found (human _ ∷ []) c cs h = cc
pending_calls_of_last found (tool _ _ _ ∷ []) c cs h = cc
pending_calls_of_last found (ai _ [] ∷ []) c cs h = cc
pending_calls_of_last found (ai _ (d ∷ ds) ∷ []) c cs h = h
pending_calls_of_last found (human _ ∷ n ∷ ms) c cs h = pending_calls_of_last found (n ∷ ms) c cs h
pending_calls_of_last found (tool _ _ _ ∷ n ∷ ms) c cs h =
    pending_calls_of_last found (n ∷ ms) c cs h
pending_calls_of_last found (ai _ [] ∷ n ∷ ms) c cs h = pending_calls_of_last found (n ∷ ms) c cs h
pending_calls_of_last found (ai _ (d ∷ ds) ∷ n ∷ ms) c cs h =
    pending_calls_of_last (d ∷ ds) (n ∷ ms) c cs h

-- A call that needs an approval and whose risk the evidence does not cover.
abbrev pub is_thin : List Message → ToolCall → Bool
is_thin ms c =
    call_requires_approval c
    && not (auto_approvable (some (call_risk c)) (some (evidence_confidence (evidence_count ms))))

pending_gate-blocked :
    (ms : List Message)
    → any_of (is_thin ms) (last_calls ms) ≡ true
    → (pending_gate ms).auto_approve_blocked ≡ true
unfolding pending_gate
pending_gate-blocked ms h = go (last_calls ms) refl
  where
    go : (cs : List ToolCall) → last_calls ms ≡ cs → (pending_gate ms).auto_approve_blocked ≡ true
    go [] e = let broken : false ≡ true = rw e at h in cc
    go (c ∷ cs) e =
        rw (pending_calls_of_last [] ms c cs e)
          (confidence_gate-blocked (c ∷ cs) (evidence_count ms) ∙ rw e at h)

gated-refused :
    (settings : Settings) (ms : List Message) (a : Answer)
    → settings.confidence_gate ≡ true
    → (pending_gate ms).auto_approve_blocked ≡ true
    → (apply_confidence_gate settings ms a true).approved ≡ false
unfolding apply_confidence_gate
gated-refused settings ms a on blocked = elim (Bool-cases a.approved) [
  | inl yes_ ↦ rw (yes_, on, blocked) refl
  | inr no_ ↦ rw no_ refl
]

-- With the confidence gate on, no answer of a programmatic approver brings a paused run to the
-- tool node while one of the pending calls needs an approval and carries a risk that the evidence
-- gathered so far does not cover: the run goes back to the agent.
pub resume_auto_refused :
    (settings : Settings) (e : Env) (c : Config) (a : Answer)
    → settings.confidence_gate ≡ true
    → c.node ≡ approval
    → any_of (is_thin c.state.messages) (last_calls c.state.messages) ≡ true
    → (resume settings e c a true).node ≡ agent
unfolding resume step
resume_auto_refused settings e c a on paused thin =
    rw (paused, step_at)
      (route_after_rejection _ c.state
        (gated-refused settings c.state.messages a on (pending_gate-blocked c.state.messages thin)))
