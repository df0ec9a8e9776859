-- ===== src/Tests/Machines.antt =====
-- Retries, the breaker, the queue, the limiters, the poller, the remediation and the service graph
-- at concrete inputs.
use mathlib.Core.List.{Permᴰ}
use dev_ops_copilot.Base.Case.{lower_str}
use dev_ops_copilot.Base.{none, some, Option, if◌then◌else◌}
use dev_ops_copilot.ServiceGraph.Clusters.{dated_of, sort_by_time, clusters_of, cluster_by_time}
use dev_ops_copilot.ServiceGraph.Clusters.Gaps.{flat, Ascends, IsSplit, clusters_of-gaps}
use dev_ops_copilot.Base.{
  ℕ, zero, suc, ◌+◌, ◌-◌, ◌≡◌, refl, ◌≤◌, ◌↔◌, max, take, String, true, false, none, some, List, [],
  ◌∷◌, ltb, arith, string_eq, contains,
}
use dev_ops_copilot.Base.Text.{distinct, starts_with}
use dev_ops_copilot.Base.Int.{pos}
use dev_ops_copilot.Base.Value.{text}
use dev_ops_copilot.Resilience.Retry.{
  Attempt, returned, raised, retry_call, backoff_delays, is_retryable,
}
use dev_ops_copilot.Resilience.Retry.Laws.{retry_call-runs}
use dev_ops_copilot.Resilience.Breaker.{Breaker}
use dev_ops_copilot.Resilience.Breaker.Laws.{IsConsistent, Try}
use dev_ops_copilot.JobQueue.{Job, Queue}
use dev_ops_copilot.JobQueue.Laws.{count, work, work_settles}
use dev_ops_copilot.RateLimit.{Store, over_limit, count_hit}
use dev_ops_copilot.RateLimit.Laws.{window_of, over_limit_verdict}
use dev_ops_copilot.SloPoller.{Burn, burn_of}
use dev_ops_copilot.SloPoller.Laws.{Poll, run_polls, Spaced, run_polls-Spaced}
use dev_ops_copilot.Autonomy.{Controller}
use dev_ops_copilot.Autonomy.Laws.{infra}
use dev_ops_copilot.Api.Remediation.{RemediateRequest, post_remediate}
use dev_ops_copilot.Api.Remediation.Effects.{may_act, acted, post_remediate-effects}
use dev_ops_copilot.ServiceGraph.{Edge, downstream_set, bfs}
use dev_ops_copilot.ServiceGraph.Reach.{Reaches, downstream_set-Reaches}
use dev_ops_copilot.ServiceGraph.Storm.{
  failing_set, rank_root_causes, correlate_storm, downstream_of,
}
use dev_ops_copilot.ServiceGraph.Blast.{blast_radius}

-- A call that fails twice.
abbrev flaky : ℕ → Attempt String String
flaky zero = raised "timeout"
flaky (suc zero) = raised "timeout"
flaky (suc (suc n)) = returned "ok"

abbrev always_down : ℕ → Attempt String String
always_down n = raised "timeout"

retry_call-runs_example :
    let r = retry_call flaky (λ _. true) 4 100 1000 in
    (1 ≤ r.calls)
    × (r.calls ≤ max 1 4)
    × (r.outcome ≡ flaky (r.calls - 1))
    × (r.slept ≡ take (r.calls - 1) (backoff_delays 4 100 1000))
retry_call-runs_example = retry_call-runs flaky (λ _. true) 4 100 1000

abbrev times : List ℕ
times = 1 ∷ 2 ∷ 3 ∷ []

abbrev tripped : Breaker
tripped = record { failure_threshold = 2; reset_timeout = 60; failures = 2; opened_at = some 100 }

tripped-IsConsistent : IsConsistent tripped
tripped-IsConsistent = record { some_threshold = omega arith; opened = refl }

abbrev answer : Attempt String String
answer = returned "ok"

abbrev tries : List (Try String String)
tries =
    record { now = 120; failed_at = 121; attempt = answer }
    ∷ record { now = 159; failed_at = 161; attempt = raised "timeout" }
    ∷ []

abbrev job : Job
job = record { kind = "investigate"; payload = "svc"; attempts = 0; id = "j1" }

abbrev queued : Queue
queued = record { q = job ∷ []; dead_letter = [] }

work_settles_example :
    ((work (λ _. false) 3 3 queued).0.q ≡ [])
    × (count "j1" (work (λ _. false) 3 3 queued).1
          + count "j1" (work (λ _. false) 3 3 queued).0.dead_letter
        ≡ count "j1" queued.q + count "j1" queued.dead_letter)
work_settles_example = work_settles (λ _. false) 3 3 queued "j1" (omega arith)

abbrev windows : Store
windows = ("1.2.3.4", (0, 5)) ∷ ("5.6.7.8", (50, 2)) ∷ []

over_limit_verdict_example :
    (over_limit 1 70 "5.6.7.8" 2 60 windows).1
    ≡ ltb 2 (count_hit 70 60 (window_of 70 "5.6.7.8" windows)).1
over_limit_verdict_example =
    over_limit_verdict 1 70 "5.6.7.8" 2 60 windows (omega arith) (refl, (refl, tt))

abbrev burning : Burn
burning = ("verdict", text "PAGE: fast burn" none) ∷ []

abbrev poll_at : ℕ → Poll
poll_at now = record {
  now = now;
  services = "checkout" ∷ "search" ∷ [];
  burn_fn = λ _. burn_of burning;
  trigger_fn = λ _ _. true;
}

run_polls-Spaced_example :
    Spaced 3600 (run_polls 3600 (poll_at 0 ∷ poll_at 300 ∷ poll_at 3600 ∷ []) [] [])
run_polls-Spaced_example = run_polls-Spaced 3600 (poll_at 0 ∷ poll_at 300 ∷ poll_at 3600 ∷ [])

abbrev controller : Controller
controller = record {
  observe_fn = λ _ _. burning;
  execute_fn = λ _ _. some (text "ok" none);
  revert_fn = λ _ _. some (text "ok" none);
  to_float = λ _. some (pos 2);
  dry_run = false;
}

abbrev request : RemediateRequest
request = record {
  action = "rollback_deployment";
  target = "checkout";
  reason = "bad deploy";
  confidence = "high";
  namespace = "shop";
}

post_remediate-effects_example :
    infra (post_remediate true controller request).0
    ≡ (if may_act true controller request then acted controller request else [])
post_remediate-effects_example = post_remediate-effects true controller request

may_act_test : may_act true controller request ≡ true
may_act_test = refl

abbrev edges : List Edge
edges =
    ("web", "checkout")
    ∷ ("checkout", "payments")
    ∷ ("payments", "checkout")
    ∷ ("web", "search")
    ∷ []

downstream_set-Reaches_example :
    (r : List String) × (downstream_set edges "checkout" ≡ some r)
    × ((x : String) → (contains r x ≡ true) ↔ Reaches edges "checkout" x)
downstream_set-Reaches_example = downstream_set-Reaches edges "checkout"

blast_radius_two :
    blast_radius edges "payments"
    ≡ some (record {
      failing_service = "payments";
      affected_upstream = "checkout" ∷ "payments" ∷ "web" ∷ [];
      downstream_dependencies = "checkout" ∷ "payments" ∷ [];
    })
unfolding blast_radius downstream_set bfs
blast_radius_two = refl

is_retryable_test :
    (is_retryable "HTTPError" "503 Service Unavailable" ≡ true)
    × (is_retryable "ValueError" "bad input" ≡ false)
unfolding is_retryable starts_with lower_str
is_retryable_test = (refl, refl)

abbrev failing : List String
failing = "web" ∷ "payments" ∷ "web" ∷ "checkout" ∷ []

correlate_storm_two : (correlate_storm failing edges).0 ≡ some "checkout"
unfolding correlate_storm rank_root_causes downstream_of failing_set downstream_set bfs distinct
correlate_storm_two = refl

-- Three alerts with their times, out of order, and one without; the window is 300.
abbrev alerts : List (Option ℕ × String)
alerts = (some 900, "search") ∷ (none, "batch") ∷ (some 100, "db") ∷ (some 350, "api") ∷ []

cluster_by_time_test :
    cluster_by_time 300 alerts ≡ ("db" ∷ "api" ∷ []) ∷ ("search" ∷ []) ∷ ("batch" ∷ []) ∷ []
unfolding cluster_by_time
cluster_by_time_test = refl

clusters_of-gaps_example :
    Permᴰ (dated_of alerts) (flat (clusters_of 300 (sort_by_time (dated_of alerts))))
    × Ascends (flat (clusters_of 300 (sort_by_time (dated_of alerts))))
    × IsSplit 300 (clusters_of 300 (sort_by_time (dated_of alerts)))
clusters_of-gaps_example = clusters_of-gaps 300 (dated_of alerts)
