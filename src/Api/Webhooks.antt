-- ===== src/Api/Webhooks.antt =====
-- The webhooks that open investigations, answer approvals and change plans (app/api/main.py), with
-- the deliveries that were seen. `sha256` is the digest of a body; times are whole seconds.
pub mod Claims
pub mod Once
use dev_ops_copilot.Base.{
  ℕ, ◌+◌, ◌<>◌, String, Bool, true, false, Option, none, some, List, [], ◌∷◌, ◌++◌, ◌&&◌, ◌||◌, not,
  ltb, keep, length, ◌==◌, string_eq, if◌then◌else◌, is_some,
}
use dev_ops_copilot.Base.Int.{ℤ}
use dev_ops_copilot.Base.Dict.{Dict, lookup, insert}
use dev_ops_copilot.Base.Text.{starts_with, codes}
use dev_ops_copilot.JobQueue.{Job, Queue, enqueue}
use dev_ops_copilot.Tenancy.{Store}
use dev_ops_copilot.Tenancy.Orgs.{set_plan}
use dev_ops_copilot.Tenancy.Usage.Billing.{StripeEvent, plan_from_stripe_event}
use dev_ops_copilot.Api.{Reply, ok, refused, crashed}
use dev_ops_copilot.Api.Signatures.{verify_pagerduty, verify_slack, verify_stripe}
use mathlib.Core.List.{reverse}
use Prim.Native.Char.{Char, code}

-- `_SEEN_DELIVERIES`: the digests of bodies, with the times of their claims.
abbrev pub Seen : Type 0
Seen = Dict String ℕ

-- `_DELIVERY_TTL`
abbrev pub delivery_ttl : ℕ
delivery_ttl = 600

-- A seen delivery that may still come again.
abbrev pub is_kept : ℕ → String × ℕ → Bool
is_kept now (k, t) = not (ltb (t + delivery_ttl) now)

abbrev pub pruned : ℕ → Seen → Seen
pruned now seen = if ltb 5000 (length seen) then keep (is_kept now) seen else seen

abbrev pub is_duplicate : ℕ → Option ℕ → Bool
is_duplicate now none = false
is_duplicate now (some prev) = ltb now (prev + delivery_ttl)

module _ (sha256 : String → String) where
  -- `_claim_delivery`, at `now`
  unfoldable pub claim_delivery : ℕ → String → Seen → Seen × Bool
  claim_delivery now body seen =
      let kept = pruned now seen in
      if is_duplicate now (lookup (sha256 body) kept)
      then (kept, false)
      else (insert (sha256 body) now kept, true)

-- `payload["event"]`, with "" where a text is missing or null, and whether the id is a text.
pub record PagerEvent : Type 0 where
  pub event_type : String
  pub id : String
  pub title : String
  pub summary : String
  pub service : String
  pub url : String

pub record Incident : Type 0 where
  pub id : String
  pub type : String
  pub title : String
  pub service : String
  pub url : String

abbrev or_else : String → String → String
or_else s t = if s == "" then t else s

unfoldable pub parse_incident : PagerEvent → Option Incident
parse_incident e =
    if starts_with "incident." e.event_type
    then some (record {
      id = e.id;
      type = e.event_type;
      title = or_else e.title (or_else e.summary "(untitled incident)");
      service = e.service;
      url = e.url;
    })
    else none

-- `text.endswith(suffix)`
abbrev backwards : String → String → String
backwards acc String.[] = acc
backwards acc (String.◌∷◌ c s) = backwards (String.◌∷◌ c acc) s

abbrev pub ends_with : String → String → Bool
ends_with suffix s = starts_with (backwards "" suffix) (backwards "" s)

-- What the webhooks keep: the deliveries and the job queue of the process.
pub record Hooks : Type 0 where
  pub seen : Seen
  pub jobs : Queue

-- `_enqueue_investigation`, while the worker is up; `dumps` is the payload of the job.
unfoldable pub enqueue_investigation : (Incident → String) → Incident → Queue → Queue
unfolding enqueue
enqueue_investigation dumps incident q =
    enqueue
      (record { kind = "investigate"; payload = dumps incident; attempts = 0; id = incident.id }) q

-- The `status` of the answer.
pub data HookStatus : Type 0 where
  ignored accepted accepted_no_llm duplicate : HookStatus

-- `_slo_trigger`
unfoldable pub slo_trigger : (Incident → String) → String → String → Queue → Queue
unfolding enqueue_investigation
slo_trigger dumps service verdict q =
    enqueue_investigation dumps
      (record {
        id = "slo-" <> service;
        type = "";
        title = "SLO burn alert: " <> (service <> (" — " <> verdict));
        service = service;
        url = "";
      })
      q

-- What the handlers take from outside and from the settings.
pub record HookEnv : Type 0 where
  pub hmac : String → String → String
  pub sha256 : String → String
  pub to_int : String → Option ℤ
  pub pager_event : String → Option PagerEvent
  pub stripe_event : String → Option StripeEvent
  pub dumps : Incident → String
  pub has_llm_key : Bool
  pub pagerduty_secret : String
  pub stripe_secret : String

module _ (env : HookEnv) where
  abbrev deliver : Incident → Hooks → Seen × Bool → Hooks × Reply HookStatus
  deliver i h (seen, false) = (record h { seen = seen }, ok duplicate)
  deliver i h (seen, true) =
      (record { seen = seen; jobs = enqueue_investigation env.dumps i h.jobs }, ok accepted)

  -- What `pagerduty_webhook` does with an incident.
  abbrev pub accept : ℕ → String → Hooks → Option Incident → Hooks × Reply HookStatus
  accept now body h none = (h, ok ignored)
  accept now body h (some i) =
      if i.id == ""
      then (h, ok ignored)
      else if not (ends_with "triggered" i.type)
      then (h, ok ignored)
      else if not env.has_llm_key
      then (h, ok accepted_no_llm)
      else deliver i h (claim_delivery env.sha256 now body h.seen)

  abbrev pub accept_event : ℕ → String → Hooks → Option PagerEvent → Hooks × Reply HookStatus
  accept_event now body h none = (h, refused 400 "invalid JSON body")
  accept_event now body h (some e) = accept now body h (parse_incident e)

  unfoldable pub pagerduty_webhook :
      ℕ → (body signature : String) → Hooks → Hooks × Reply HookStatus
  unfolding enqueue_investigation parse_incident claim_delivery verify_pagerduty
  pagerduty_webhook now body signature h =
      if (env.pagerduty_secret == "")
        || not (verify_pagerduty env.hmac env.pagerduty_secret body signature)
      then (h, refused 401 "invalid or unconfigured PagerDuty webhook signature")
      else accept_event now body h (env.pager_event body)

  abbrev pub apply_plan :
      Store → Option (String × String) → Store × Reply (Option (String × String))
  apply_plan s none = (s, ok none)
  apply_plan s (some (org_id, plan)) = (set_plan org_id plan s, ok (some (org_id, plan)))

  abbrev pub apply_event : Store → Option StripeEvent → Store × Reply (Option (String × String))
  apply_event s none = (s, refused 400 "Malformed Stripe event.")
  apply_event s (some e) = apply_plan s (plan_from_stripe_event e)

  unfoldable pub stripe_webhook :
      ℕ → (body signature : String) → Store → Store × Reply (Option (String × String))
  unfolding set_plan plan_from_stripe_event verify_stripe
  stripe_webhook now body signature s =
      if verify_stripe env.hmac env.to_int now body signature env.stripe_secret
      then apply_event s (env.stripe_event body)
      else (s, refused 401 "Invalid Stripe signature.")
