-- ===== src/Api/Chat/Trigger.antt =====
-- The turns that no client waits for (app/api/main.py: _run_triggered_investigation,
-- _resume_triggered).
use dev_ops_copilot.Base.{
  ◌<>◌, String, Bool, Option, none, some, contains, if◌then◌else◌, string_eq,
}
use dev_ops_copilot.Tenancy.Auth.{Context}
use dev_ops_copilot.Api.{ApiSettings}
use dev_ops_copilot.Api.Sessions.{begin_turn, end_turn}
use dev_ops_copilot.Api.Chat.{
  Outcome, awaiting_approval, completed, raised, Turn, ask, resume, Desk, mark, unmark, called,
  meter_and_spend, open_session, leave, opened, decided,
}

module _ (settings : ApiSettings) (ctx : Context) (turn : Turn) where
  -- How a turn goes on that an incident started; an exception is only logged.
  abbrev pub triggered : String → Outcome → Desk → Desk
  triggered t (awaiting_approval r) d = leave turn t (mark t d)
  triggered t (completed r) d = leave turn t (meter_and_spend settings ctx turn t r.tokens_used d)
  triggered t (raised text b) d = leave turn t d

  abbrev pub triggered_turn : String → Desk → Option String → Desk
  triggered_turn t d (some text) = leave turn t d
  triggered_turn t d none = triggered t turn.outcome (called (ask t) t turn.outcome d)

  -- `_run_triggered_investigation`, of the incident with the id
  unfoldable pub run_triggered : String → Desk → Desk
  unfolding open_session meter_and_spend begin_turn end_turn
  run_triggered incident_id d =
      let t = "pd-" <> incident_id in
      let (d', error) = opened settings turn t d in triggered_turn t d' error

  abbrev pub resumed_quietly : String → Outcome → Desk → Desk
  resumed_quietly t (awaiting_approval r) d = leave turn t (mark t d)
  resumed_quietly t (completed r) d = leave turn t (unmark t d)
  resumed_quietly t (raised text b) d = leave turn t d

  abbrev pub resume_turn : String → Bool → Desk → Option String → Desk
  resume_turn t approved d (some text) = leave turn t d
  resume_turn t approved d none =
      if contains d.paused t
      then resumed_quietly t turn.outcome (called (resume t) t turn.outcome (decided t approved d))
      else leave turn t d

  -- `_resume_triggered`, after a button in Slack
  unfoldable pub resume_triggered : String → Bool → Desk → Desk
  unfolding open_session begin_turn end_turn
  resume_triggered t approved d =
      let (d', error) = opened settings turn t d in resume_turn t approved d' error
