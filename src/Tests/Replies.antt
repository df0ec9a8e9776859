-- ===== src/Tests/Replies.antt =====
-- The theorems on replies of the model and on the webhooks, at small replies and deliveries.
use dev_ops_copilot.Base.{
  ℕ, ◌≡◌, refl, String, true, Option, none, some, [], ◌∷◌, arith, string_eq, List, length,
}
use dev_ops_copilot.Base.Json.{Json, number, text, array, object, end, field, nil, cons, Printer}
use dev_ops_copilot.Base.Int.{pos}
use dev_ops_copilot.Base.Text.{take_chars, strip, starts_with}
use dev_ops_copilot.Policy.{high, low}
use dev_ops_copilot.Report.{Hypothesis, validated, invalidated, inconclusive, Report}
use dev_ops_copilot.Tests.Fixtures.{bare_report}
use dev_ops_copilot.Base.Case.{lower_str}
use dev_ops_copilot.Base.Text.{take_chars, strip, starts_with}
use dev_ops_copilot.IncidentMemory.{keys, learn_from_report}
use dev_ops_copilot.IncidentMemory.Distinct.{Finished, IsDistinct, learn_all, learn_all-IsDistinct}
use dev_ops_copilot.Report.Parse.{parse_report}
use dev_ops_copilot.Report.Parse.Bounds.{IsReport, parse_report-IsReport}
use dev_ops_copilot.Report.Probe.{Score, probe_hypotheses}
use dev_ops_copilot.Api.{ok}
use dev_ops_copilot.Api.Webhooks.{Hooks, HookEnv, accepted, pagerduty_webhook}
use dev_ops_copilot.Api.Webhooks.Once.{receive, pagerduty_webhook-once}

abbrev printer : Printer
printer = record { str = λ v. "?"; dumps = λ v. "?" }

-- What the JSON parser makes of the reply below.
abbrev loads : String → Option Json
loads s = some (
    object (
      field "summary" (text " db is down ") (
        field "hypotheses"
          (array (
            cons
              (object (
                field "cause" (text "disk full")
                  (field "evidence" (array (cons (text "df: 100%") (cons (text " ") nil))) end)))
              (cons (text "a stray text") nil)))
          (field "root_cause" (number "7" true) end))))

abbrev reply : String
reply = "Here it is: {...}"

parse_report-IsReport_example : IsReport (parse_report printer loads reply "raw")
parse_report-IsReport_example = parse_report-IsReport printer loads reply "raw"

parse_report_test : (parse_report printer loads reply "raw").summary ≡ "db is down"
unfolding parse_report take_chars strip
parse_report_test = refl

abbrev disk : Hypothesis
disk = record { cause = "disk full"; verdict = validated; confidence = high; evidence = [] }

abbrev network : Hypothesis
network = record { cause = "partition"; verdict = inconclusive; confidence = low; evidence = [] }

abbrev ruled_out : Hypothesis
ruled_out = record { cause = "deploy"; verdict = invalidated; confidence = low; evidence = [] }

-- The answer to a probe, by the verdict of the hypothesis.
abbrev probe : Hypothesis → Option (Score × ℕ)
probe h = elim h.verdict [
  | validated ↦ some (record { support = 300; verdict = validated; rationale = "" }, 20)
  | _ ↦ some (record { support = 900; verdict = validated; rationale = "packet loss" }, 30)
]

probe_hypotheses_test : (probe_hypotheses probe (disk ∷ ruled_out ∷ network ∷ [])).tokens ≡ 50
unfolding probe_hypotheses
probe_hypotheses_test = refl

-- Signatures are the bodies themselves, and a body is its own digest.
abbrev env : HookEnv
env = record {
  hmac = λ k b. b;
  sha256 = λ b. b;
  to_int = λ s. some (pos 100);
  pager_event = λ b. some (record {
    event_type = "incident.triggered";
    id = "P1";
    title = "";
    summary = "latency";
    service = "api";
    url = "";
  });
  stripe_event = λ b. none;
  dumps = λ i. i.title;
  has_llm_key = true;
  pagerduty_secret = "s";
  stripe_secret = "s";
}

abbrev hooks : Hooks
hooks = record { seen = []; jobs = record { q = []; dead_letter = [] } }

accepted_test : (pagerduty_webhook env 100 "b" "v1=b" hooks).1 ≡ ok accepted
unfolding pagerduty_webhook strip starts_with
accepted_test = refl

pagerduty_webhook-once_example :
    (pagerduty_webhook env 650 "b" "v0=x, v1=b" (
      receive env
        ((120, "c", "v1=c") ∷ (130, "b", "v1=b") ∷ [])
        (pagerduty_webhook env 100 "b" "v1=b" hooks).0)).0.jobs
    ≡ (receive env
        ((120, "c", "v1=c") ∷ (130, "b", "v1=b") ∷ [])
        (pagerduty_webhook env 100 "b" "v1=b" hooks).0).jobs
pagerduty_webhook-once_example =
    pagerduty_webhook-once env 100 650 "b" "v1=b" "v0=x, v1=b"
      ((120, "c", "v1=c") ∷ (130, "b", "v1=b") ∷ []) hooks (omega arith)
      (omega arith, (omega arith, tt)) accepted_test

-- The cause of the report differs from the one already learned in its white space and its case only.
abbrev oom_report : Report
oom_report = record bare_report { root_cause = some " Out of memory " }

abbrev finished : List Finished
finished =
    (true, true, "why is checkout down", oom_report, "2026-02-01")
    ∷ (true, true, "again", record bare_report { root_cause = some "out of MEMORY" }, "2026-02-02")
    ∷ []

learn_all-IsDistinct_example : IsDistinct (keys (learn_all finished []))
unfolding strip
learn_all-IsDistinct_example = learn_all-IsDistinct finished [] (omega arith, (omega arith, tt)) tt

learn_all_test : length (learn_all finished []) ≡ 1
unfolding learn_all learn_from_report take_chars strip lower_str
learn_all_test = refl
