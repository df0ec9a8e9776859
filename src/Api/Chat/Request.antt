-- ===== src/Api/Chat/Request.antt =====
-- The requests of a client (app/api/main.py: chat, approve), with their dependencies.
use dev_ops_copilot.Base.{
  ◌<>◌, String, Bool, Option, none, some, not, contains, ltb, if◌then◌else◌, string_eq,
}
use dev_ops_copilot.Spend
use dev_ops_copilot.Tenancy.Usage.{over_quota}
use dev_ops_copilot.Tenancy.Auth.{Context}
use dev_ops_copilot.Api.{Reply, ok, refused, crashed, ApiSettings}
use dev_ops_copilot.Api.Access.{require_perm, quota_gate, check_message, scoped, plan_of}
use dev_ops_copilot.Api.Sessions.{evict, begin_turn, end_turn}
use dev_ops_copilot.Api.Chat.{
  Outcome, awaiting_approval, completed, raised, ChatResponse, Turn, ask, resume, Desk, mark,
  unmark, called, meter_and_spend, record_result, error_response, to_response, friendly_error,
  open_session, leave, evict_if, opened, decided,
}

-- What comes after a dependency or a check that lets the request through.
abbrev pub on_ok : {A B : Type 0} → Reply A → Desk → Desk × Reply B → Desk × Reply B
on_ok (ok _) d next = next
on_ok (refused status detail) d next = (d, refused status detail)
on_ok crashed d next = (d, crashed)

module _ (settings : ApiSettings) (ctx : Context) (turn : Turn) where
  -- How `chat` goes on after `session.ask`.
  abbrev pub answered : String → String → Bool → Outcome → Desk → Desk × Reply ChatResponse
  answered thread_id t existed (awaiting_approval r) d =
      (leave turn t (mark t d), ok (to_response thread_id "awaiting_approval" r))
  answered thread_id t existed (completed r) d = (
    leave turn t (record (meter_and_spend settings ctx turn turn.request_id r.tokens_used d) {
      metrics = record_result turn r d.metrics;
    }),
    ok (to_response thread_id "completed" r),
  )
  answered thread_id t existed (raised text b) d =
      (evict_if (not existed) t (leave turn t d), ok (error_response thread_id text))

  abbrev pub paused_detail : String
  paused_detail =
      "This thread is paused awaiting approval — approve or reject the pending action (POST /approve) before sending a new message."

  -- The turn of `chat`, with the session at hand or the error of its construction.
  abbrev pub chat_turn : String → String → Bool → Desk → Option String → Desk × Reply ChatResponse
  chat_turn thread_id t existed d (some text) =
      (evict_if (not existed) t (leave turn t d), ok (error_response thread_id text))
  chat_turn thread_id t existed d none =
      if contains d.paused t
      then (leave turn t (mark t d), refused 409 paused_detail)
      else answered thread_id t existed turn.outcome (called (ask t) t turn.outcome (unmark t d))

  -- `chat`, after the checks of its message.
  unfoldable pub chat : String → Desk → Desk × Reply ChatResponse
  unfolding scoped open_session meter_and_spend record_result to_response friendly_error evict
      begin_turn end_turn
  chat thread_id d =
      let t = scoped ctx thread_id in
      let (d', error) = opened settings turn t d in
      chat_turn thread_id t (contains d.pool.sessions t) d' error

  -- What `quota_gate` does to the spend tracker: its window may roll where the cap is read.
  abbrev pub spend_read : String → Desk → Desk
  spend_read month d =
      if over_quota (plan_of ctx.current_tenant) month d.store
      then d
      else if ltb 0 settings.global_token_cap
      then record d { spend = (Spend.total turn.now d.spend).0 }
      else d

  -- `POST /chat`: its dependencies, then the handler; `month` is the month's start.
  unfoldable pub post_chat : (month thread_id message : String) → Desk → Desk × Reply ChatResponse
  unfolding require_perm quota_gate over_quota Spend.total check_message chat
  post_chat month thread_id message d =
      let spent = (Spend.total turn.now d.spend).1 in
      let d' = spend_read month d in
      on_ok (require_perm settings "run_investigation" ctx) d (
        on_ok (quota_gate settings ctx month spent d.store) d'
          (on_ok (check_message settings message) d' (chat thread_id d')))

  -- How `approve` goes on after `session.resume`.
  abbrev pub resumed : String → String → Outcome → Desk → Desk × Reply ChatResponse
  resumed thread_id t (awaiting_approval r) d =
      (leave turn t (mark t d), ok (to_response thread_id "awaiting_approval" r))
  resumed thread_id t (completed r) d = (
    leave turn t (meter_and_spend settings ctx turn turn.request_id r.tokens_used (unmark t d)),
    ok (to_response thread_id "completed" r),
  )
  resumed thread_id t (raised text b) d = (leave turn t d, ok (error_response thread_id text))

  abbrev pub approve_turn :
      String → String → Bool → Bool → Desk → Option String → Desk × Reply ChatResponse
  approve_turn thread_id t existed approved d (some text) = (leave turn t d, crashed)
  approve_turn thread_id t existed approved d none =
      if contains d.paused t
      then resumed thread_id t turn.outcome
          (called (resume t) t turn.outcome (decided thread_id approved d))
      else (
        leave turn t (evict_if (not existed) t d),
        refused 404 ("no investigation awaiting approval for thread '" <> (thread_id <> "'")),
      )

  unfoldable pub approve : String → Bool → Desk → Desk × Reply ChatResponse
  unfolding scoped open_session meter_and_spend to_response friendly_error evict begin_turn end_turn
  approve thread_id approved d =
      let t = scoped ctx thread_id in
      let (d', error) = opened settings turn t d in
      approve_turn thread_id t (contains d.pool.sessions t) approved d' error

  -- `POST /approve`
  unfoldable pub post_approve : String → Bool → Desk → Desk × Reply ChatResponse
  unfolding require_perm approve
  post_approve thread_id approved d =
      on_ok (require_perm settings "approve_action" ctx) d (approve thread_id approved d)
