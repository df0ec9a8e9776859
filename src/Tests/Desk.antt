-- ===== src/Tests/Desk.antt =====
-- The theorems on the turns that requests and incidents start, at a process with one free session.
use dev_ops_copilot.Base.{◌≡◌, ◌⊎◌, refl, true, false, none, List, [], ◌∷◌, contains, string_eq}
use dev_ops_copilot.Base.Text.{is_blank}
use dev_ops_copilot.Base.Int.{pos}
use dev_ops_copilot.Tests.Stores.{two_orgs, settings, acme_config}
use dev_ops_copilot.Tenancy.Auth.{Context, enter, no_tenant}
use dev_ops_copilot.Tenancy.Roles.{can, rank_of, need_of}
use dev_ops_copilot.SloMetrics.{no_metrics}
use dev_ops_copilot.Api.Access.{scoped}
use dev_ops_copilot.Api.Chat.{Result, awaiting_approval, completed, raised, Turn, Desk, ask, resume}
use dev_ops_copilot.Api.Chat.Request.{post_chat, post_approve}
use dev_ops_copilot.Api.Chat.Trigger.{run_triggered}
use dev_ops_copilot.Api.Chat.Guarded.{Permitted, WithinBudget, post_chat-guarded}
use dev_ops_copilot.Api.Chat.Audited.{post_approve-audited}
use dev_ops_copilot.Api.Chat.Kept.{Kept}
use dev_ops_copilot.Api.Chat.Stranded.{
  Incoming, message, streamed_message, approval, incident, handle_all, handle_all-Kept,
}

abbrev desk : Desk
desk = record {
  pool = record { sessions = "o1:t0" ∷ []; running = []; awaiting = []; last_used = [] };
  paused = [];
  store = two_orgs;
  spend = record { window = 60; start = 0; total = 0 };
  metrics = no_metrics;
  calls = [];
  decisions = [];
}

abbrev caller : Context
caller = enter acme_config "key:k1"

abbrev result : Result
result = record { final_text = "Roll back?"; report = none; tokens_used = 40 }

-- A turn that pauses for an approval.
abbrev pausing : Turn
pausing = record {
  now = 10;
  done_at = 20;
  latency = pos 9000;
  date = "2026-02-01";
  row_ids = ("u2", "u3");
  request_id = "r2";
  unbuildable = none;
  outcome = awaiting_approval result;
}

abbrev ending : Turn
ending = record pausing { outcome = completed result }

abbrev failing : Turn
failing = record pausing { outcome = raised "429" true }

abbrev incoming : List (Turn × Incoming)
incoming =
    (pausing, message caller "2026-02-01" "t1" "checkout is slow")
    ∷ (failing, approval caller "t1" true)
    ∷ (failing, streamed_message caller "2026-02-01" "t2" "and now?" ("plan" ∷ []))
    ∷ (ending, incident no_tenant "P7")
    ∷ []

handle_all-Kept_example : Kept (handle_all settings incoming desk)
handle_all-Kept_example = handle_all-Kept settings incoming desk λ u h. cc

post_chat-guarded_example :
    ((post_chat settings caller pausing "2026-02-01" "t1" "checkout is slow" desk).0.calls ≡ [])
    ⊎ (((post_chat settings caller pausing "2026-02-01" "t1" "checkout is slow" desk).0.calls
          ≡ ask (scoped caller "t1") ∷ [])
        × Permitted settings caller "run_investigation"
        × WithinBudget settings caller pausing "2026-02-01" desk
        × (is_blank "checkout is slow" ≡ false)
        × (contains desk.paused (scoped caller "t1") ≡ false))
post_chat-guarded_example =
    post_chat-guarded settings caller pausing "2026-02-01" "t1" "checkout is slow" desk

abbrev waiting : Desk
waiting = record desk { paused = "o1:t0" ∷ [] }

post_approve-audited_example :
    (((post_approve settings caller ending "t0" true waiting).0.calls ≡ [])
      × ((post_approve settings caller ending "t0" true waiting).0.decisions ≡ []))
    ⊎ (((post_approve settings caller ending "t0" true waiting).0.calls
          ≡ resume (scoped caller "t0") ∷ [])
        × ((post_approve settings caller ending "t0" true waiting).0.decisions ≡ ("t0", true) ∷ [])
        × Permitted settings caller "approve_action"
        × (contains waiting.paused (scoped caller "t0") ≡ true))
post_approve-audited_example = post_approve-audited settings caller ending "t0" true waiting

post_approve_test :
    (post_approve settings caller ending "t0" true waiting).0.calls ≡ resume "o1:t0" ∷ []
unfolding post_approve can rank_of need_of
post_approve_test = refl

-- The alert of a service that fires again asks the session that is still paused for an approval.
asked_again_test :
    (run_triggered settings no_tenant ending "slo-api"
      (run_triggered settings no_tenant pausing "slo-api" desk)).calls
    ≡ ask "pd-slo-api" ∷ ask "pd-slo-api" ∷ []
unfolding run_triggered
asked_again_test = refl

-- The thread is not paused any more, but stays marked as waiting for an approval.
still_marked_test :
    (run_triggered settings no_tenant ending "slo-api"
      (run_triggered settings no_tenant pausing "slo-api" desk)).pool.awaiting
    ≡ "pd-slo-api" ∷ []
unfolding run_triggered
still_marked_test = refl
