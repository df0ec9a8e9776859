-- ===== src/Api/Chat.antt =====
-- The turns that requests and incidents start (app/api/main.py: chat, approve,
-- _run_triggered_investigation, _resume_triggered, _meter_and_spend, _record_slo, _friendly_error). A
-- handler runs from its start to its end with no other in between; what the session answers, and
-- whether one can be built, comes from outside.
pub mod Request
pub mod Stream
pub mod Trigger
pub mod Marks
pub mod Opening
pub mod Guarded
pub mod Audited
pub mod Kept
pub mod StreamKept
pub mod Stranded
use dev_ops_copilot.Base.{
  ℕ, ◌<>◌, String, Bool, true, false, Option, none, some, List, [], ◌∷◌, ◌++◌, ◌&&◌, ◌||◌, not,
  contains, eqb, ltb, length, if◌then◌else◌, ◌==◌, string_eq, ◌+◌,
}
use dev_ops_copilot.Base.Int.{ℤ, pos}
use dev_ops_copilot.Base.Case.{lower_str}
use dev_ops_copilot.Base.Text.{has_text}
use dev_ops_copilot.Report.{Report}
use dev_ops_copilot.Spend
use dev_ops_copilot.SloMetrics.{SloMetrics, record_slo}
use dev_ops_copilot.Tenancy.{Store}
use dev_ops_copilot.Tenancy.Usage.{over_quota, record_investigation}
use dev_ops_copilot.Tenancy.Auth.{Context, TenantConfig}
use dev_ops_copilot.Api.{Reply, ok, refused, crashed, ApiSettings, ◌>>◌, ◌>>=◌}
use dev_ops_copilot.Api.Access.{require_perm, quota_gate, check_message, scoped, plan_of}
use dev_ops_copilot.Api.Sessions.{
  Pool, add, discard, evict, make_room, created, get_session, begin_turn, end_turn,
}

unfoldable pub friendly_error : String → String
friendly_error text =
    if has_text "rate_limit" text || has_text "429" text
    then "The LLM provider's rate limit was reached. Please try again later or check your plan/quota."
    else if has_text "authentication" (lower_str text)
        || (has_text "401" text || has_text "api_key" (lower_str text))
    then "The LLM provider rejected the API key. Check the key for the configured COPILOT_PROVIDER in your .env."
    else "Something went wrong while running the agent: " <> text

-- A `TurnResult`, less its trace and the request for an approval.
pub record Result : Type 0 where
  pub final_text : String
  pub report : Option Report
  pub tokens_used : ℕ

-- How a call of `ask` or `resume` ends: by its status, or with an exception, its text and whether
-- an interrupt of the checkpoint stays then; an exception adds none.
pub data Outcome : Type 0 where
  awaiting_approval : Result → Outcome
  completed : Result → Outcome
  raised : String → Bool → Outcome

pub record ChatResponse : Type 0 where
  pub thread_id : String
  pub status : String
  pub answer : String
  pub report : Option Report
  pub tokens_used : ℕ

-- What a turn takes from outside: the times, the ids and the key of the usage rows, the error
-- where a session cannot be built, and what the session answers.
pub record Turn : Type 0 where
  pub now : ℕ
  pub done_at : ℕ
  pub latency : ℤ
  pub date : String
  pub row_ids : String × String
  pub request_id : String
  pub unbuildable : Option String
  pub outcome : Outcome

-- What a call of the session was.
pub data Call : Type 0 where
  ask : String → Call
  resume : String → Call

-- The process and the checkpoints: `paused` are the threads whose checkpoint holds an interrupt,
-- `calls` are those made of sessions so far, `decisions` are the audited approvals.
pub record Desk : Type 0 where
  pub pool : Pool
  pub paused : List String
  pub store : Store
  pub spend : Spend.Tracker
  pub metrics : SloMetrics
  pub calls : List Call
  pub decisions : List (String × Bool)

abbrev pub mark : String → Desk → Desk
mark t d = record d { pool = record d.pool { awaiting = add t d.pool.awaiting } }

abbrev pub unmark : String → Desk → Desk
unmark t d = record d { pool = record d.pool { awaiting = discard t d.pool.awaiting } }

-- The paused threads after a call of the session of `t`.
abbrev pub paused_after : Outcome → String → List String → List String
paused_after (awaiting_approval r) t ts = add t ts
paused_after (completed r) t ts = discard t ts
paused_after (raised text stays) t ts = if stays then ts else discard t ts

-- A call of the session of a thread, with what becomes of its checkpoint.
abbrev pub called : Call → String → Outcome → Desk → Desk
called call t o d = record d { calls = d.calls ++ call ∷ []; paused = paused_after o t d.paused }

abbrev org_of : Option TenantConfig → Option String
org_of none = none
org_of (some cfg) = some cfg.org_id

-- `_record_spend`
unfoldable pub record_spend : ApiSettings → ℕ → ℕ → Spend.Tracker → Spend.Tracker
unfolding Spend.record_tokens
record_spend settings now tokens t =
    if eqb settings.global_token_cap 0 || eqb tokens 0
    then t
    else (Spend.record_tokens now (pos tokens) t).0

-- `_meter_and_spend`, with the key that stands for `idem or request_id`
unfoldable pub meter_and_spend : ApiSettings → Context → Turn → String → ℕ → Desk → Desk
unfolding record_investigation record_spend
meter_and_spend settings ctx turn key tokens d = record d {
  store =
      record_investigation turn.row_ids.0 turn.row_ids.1 turn.date (org_of ctx.current_tenant)
        tokens key d.store;
  spend = record_spend settings turn.done_at tokens d.spend;
}

abbrev has_report : Option Report → Bool
has_report none = false
has_report (some r) = true

abbrev is_abstained : Option Report → Bool
is_abstained none = false
is_abstained (some r) = r.abstained

-- `_record_slo`
unfoldable pub record_result : Turn → Result → SloMetrics → SloMetrics
unfolding record_slo
record_result turn r m =
    record_slo turn.latency (pos r.tokens_used) (has_report r.report || not (r.final_text == ""))
      (is_abstained r.report) m

abbrev pub error_response : String → String → ChatResponse
error_response thread_id text = record {
  thread_id = thread_id;
  status = "error";
  answer = friendly_error text;
  report = none;
  tokens_used = 0;
}

-- `_to_response`
unfoldable pub to_response : String → String → Result → ChatResponse
to_response thread_id status r = record {
  thread_id = thread_id;
  status = status;
  answer = r.final_text;
  report = r.report;
  tokens_used = r.tokens_used;
}

abbrev pub on_pool : (Pool → Pool) → Desk → Desk
on_pool f d = record d { pool = f d.pool }

-- `_get_session`, with the error of a session that cannot be built, once there is room for it.
unfoldable pub open_session : ApiSettings → Turn → String → Pool → Pool × Option String
unfolding get_session make_room
open_session settings turn t p =
    if contains p.sessions t then (p, none) else elim turn.unbuildable [
      | none ↦ (get_session settings.max_sessions turn.now t p, none)
      | some text ↦ (
        if ltb 0 settings.max_sessions
            then make_room (1 + length p.sessions) settings.max_sessions p
            else p,
        some text,
      )
    ]

-- The end of `_running_turn`.
abbrev pub leave : Turn → String → Desk → Desk
leave turn t d = on_pool (end_turn turn.done_at t) d

abbrev pub evict_if : Bool → String → Desk → Desk
evict_if b t d = if b then on_pool (evict t) d else d

-- The start of a turn: `_running_turn` and `_get_session`.
abbrev pub opened : ApiSettings → Turn → String → Desk → Desk × Option String
opened settings turn t d =
    let (p, error) = open_session settings turn t (begin_turn t d.pool) in
    (record d { pool = p }, error)

abbrev pub decided : String → Bool → Desk → Desk
decided thread_id approved d = record d { decisions = d.decisions ++ (thread_id, approved) ∷ [] }
