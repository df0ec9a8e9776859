-- ===== src/Api/Chat/Stream.antt =====
-- The streaming requests (app/api/main.py: chat_stream, approve_stream, _stream_payload). A stream is
-- the lines of the steps and what it ends with; a client that goes away is left out.
use dev_ops_copilot.Base.{
  ◌<>◌, String, Bool, Option, none, some, List, [], ◌∷◌, ◌++◌, map, not, contains, if◌then◌else◌,
  string_eq,
}
use dev_ops_copilot.Tenancy.Auth.{Context}
use dev_ops_copilot.Tenancy.Usage.{over_quota}
use dev_ops_copilot.Spend
use dev_ops_copilot.Report.{Report}
use dev_ops_copilot.Api.{Reply, ok, crashed, ApiSettings, ℕ}
use dev_ops_copilot.Api.Access.{require_perm, quota_gate, check_message, scoped}
use dev_ops_copilot.Api.Sessions.{begin_turn, end_turn, evict}
use dev_ops_copilot.Api.Chat.{
  Outcome, awaiting_approval, completed, raised, Turn, ask, resume, Desk, mark, unmark, called,
  meter_and_spend, friendly_error, open_session, leave, evict_if, opened, decided,
}
use dev_ops_copilot.Api.Chat.Request.{on_ok, spend_read}

-- The `type` of an event on the wire, with what it carries.
pub data Wire : Type 0 where
  trace : (line : String) → Wire
  approval : Wire
  done : (answer : String) → Option Report → (tokens_used : ℕ) → Wire
  error : (answer : String) → Wire

pub record StreamEvent : Type 0 where
  pub thread_id : String
  pub event : Wire

-- `_stream_payload`, of the event that a stream ends with.
abbrev pub last_event : Outcome → Wire
last_event (awaiting_approval r) = approval
last_event (completed r) = done r.final_text r.report r.tokens_used
last_event (raised text stays) = error (friendly_error text)

unfoldable pub stream_payload : String → List String → Outcome → List StreamEvent
unfolding friendly_error
stream_payload thread_id lines o =
    map (λ line. record { thread_id = thread_id; event = trace line }) lines
    ++ record { thread_id = thread_id; event = last_event o } ∷ []

abbrev pub error_event : String → String → List StreamEvent
error_event thread_id text = record { thread_id = thread_id; event = error text } ∷ []

abbrev paused_answer : String
paused_answer =
    "This thread is paused awaiting approval — approve or reject the pending action first."

module _ (settings : ApiSettings) (ctx : Context) (turn : Turn) (lines : List String) where
  -- What becomes of the process once the stream of `ask_stream` has ended.
  abbrev pub streamed : String → Bool → Outcome → Desk → Desk
  streamed t existed (awaiting_approval r) d = leave turn t (mark t d)
  streamed t existed (completed r) d =
      leave turn t (meter_and_spend settings ctx turn turn.request_id r.tokens_used (unmark t d))
  streamed t existed (raised text stays) d = leave turn t (evict_if (not existed) t d)

  abbrev pub stream_turn :
      String → String → Bool → Desk → Option String → Desk × Reply (List StreamEvent)
  stream_turn thread_id t existed d (some text) =
      (leave turn t (evict_if (not existed) t d), ok (error_event thread_id (friendly_error text)))
  stream_turn thread_id t existed d none =
      if contains d.paused t
      then (leave turn t (mark t d), ok (error_event thread_id paused_answer))
      else (
        streamed t existed turn.outcome (called (ask t) t turn.outcome (unmark t d)),
        ok (stream_payload thread_id lines turn.outcome),
      )

  -- `chat_stream`, after the checks of its message.
  unfoldable pub chat_stream : String → Desk → Desk × Reply (List StreamEvent)
  unfolding scoped open_session meter_and_spend stream_payload friendly_error evict begin_turn
      end_turn
  chat_stream thread_id d =
      let t = scoped ctx thread_id in
      let (d', failure) = opened settings turn t d in
      stream_turn thread_id t (contains d.pool.sessions t) d' failure

  -- `POST /chat/stream`: its dependencies, then the handler; `month` is the month's start.
  unfoldable pub post_chat_stream :
      (month thread_id message : String) → Desk → Desk × Reply (List StreamEvent)
  unfolding require_perm quota_gate over_quota Spend.total check_message chat_stream
  post_chat_stream month thread_id message d =
      let spent = (Spend.total turn.now d.spend).1 in
      let d' = spend_read settings ctx turn month d in
      on_ok (require_perm settings "run_investigation" ctx) d (
        on_ok (quota_gate settings ctx month spent d.store) d'
          (on_ok (check_message settings message) d' (chat_stream thread_id d')))

  -- What becomes of the process once the stream of `resume_stream` has ended.
  abbrev pub resume_streamed : String → Outcome → Desk → Desk
  resume_streamed t (awaiting_approval r) d = leave turn t (mark t d)
  resume_streamed t (completed r) d =
      leave turn t (meter_and_spend settings ctx turn turn.request_id r.tokens_used (unmark t d))
  resume_streamed t (raised text stays) d = leave turn t d

  abbrev pub approve_stream_turn :
      String → String → Bool → Bool → Desk → Option String → Desk × Reply (List StreamEvent)
  approve_stream_turn thread_id t existed approved d (some text) = (leave turn t d, crashed)
  approve_stream_turn thread_id t existed approved d none =
      if contains d.paused t
      then (
        resume_streamed t turn.outcome
            (called (resume t) t turn.outcome (decided thread_id approved d)),
        ok (stream_payload thread_id lines turn.outcome),
      )
      else (
        leave turn t (evict_if (not existed) t d),
        ok (
            error_event thread_id
              ("no investigation awaiting approval for thread '" <> (thread_id <> "'"))),
      )

  unfoldable pub approve_stream : String → Bool → Desk → Desk × Reply (List StreamEvent)
  unfolding scoped open_session meter_and_spend stream_payload friendly_error evict begin_turn
      end_turn
  approve_stream thread_id approved d =
      let t = scoped ctx thread_id in
      let (d', failure) = opened settings turn t d in
      approve_stream_turn thread_id t (contains d.pool.sessions t) approved d' failure

  -- `POST /approve/stream`
  unfoldable pub post_approve_stream : String → Bool → Desk → Desk × Reply (List StreamEvent)
  unfolding require_perm approve_stream
  post_approve_stream thread_id approved d =
      on_ok (require_perm settings "approve_action" ctx) d (approve_stream thread_id approved d)
