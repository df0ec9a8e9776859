-- ===== src/Api/Webhooks/Once.antt =====
-- A delivery that comes again within its time opens no second investigation.
use dev_ops_copilot.Base.{
  ℕ, ◌+◌, ◌≤◌, ◌<◌, ◌≡◌, refl, String, Bool, true, false, Option, none, some, List, [], ◌∷◌, ◌||◌,
  not, ◌==◌, string_eq, All, Bool-cases, inl, inr, ◌≢◌, ◌⊎◌,
}
use dev_ops_copilot.Api.{Reply, ok, refused}
use dev_ops_copilot.Api.Signatures.{verify_pagerduty}
use dev_ops_copilot.Api.Webhooks.{
  Seen, claim_delivery, PagerEvent, Incident, parse_incident, ends_with, Hooks, HookStatus, ignored,
  accepted, accepted_no_llm, HookEnv, accept, accept_event, pagerduty_webhook, deliver,
}
use dev_ops_copilot.Api.Webhooks.Claims.{Claimed, claim-Claimed, claim-again, claim-first}

module _ (env : HookEnv) where
  -- A webhook changes nothing and is not accepted, or it is for an incident, and its claim decides.
  abbrev Outcomes : ℕ → String → Hooks → Hooks × Reply HookStatus → Type 0
  Outcomes now body h o =
      ((r : Reply HookStatus) × (o ≡ (h, r)) × (r ≢ ok accepted))
      ⊎ ((i : Incident) × (o ≡ deliver env i h (claim_delivery env.sha256 now body h.seen)))

  accept-Outcomes :
      (now : ℕ) (body : String) (h : Hooks) (o : Option Incident)
      → Outcomes now body h (accept env now body h o)
  accept-Outcomes now body h none = inl (ok ignored, refl, λ e. cc)
  accept-Outcomes now body h (some i) = elim (Bool-cases (i.id == "")) [
    | inl unnamed ↦ rw unnamed (inl (ok ignored, refl, λ e. cc))
    | inr named ↦ elim (Bool-cases (ends_with "triggered" i.type)) [
      | inr other ↦ rw (named, other) (inl (ok ignored, refl, λ e. cc))
      | inl triggered ↦ elim (Bool-cases env.has_llm_key) [
        | inr keyless ↦ rw (named, triggered, keyless) (inl (ok accepted_no_llm, refl, λ e. cc))
        | inl keyed ↦ rw (named, triggered, keyed) (inr (i, refl))
      ]
    ]
  ]

  event-Outcomes :
      (now : ℕ) (body : String) (h : Hooks) (o : Option PagerEvent)
      → Outcomes now body h (accept_event env now body h o)
  event-Outcomes now body h none = inl (refused 400 "invalid JSON body", refl, λ e. cc)
  event-Outcomes now body h (some e) = accept-Outcomes now body h (parse_incident e)

  webhook-Outcomes :
      (now : ℕ) (body signature : String) (h : Hooks)
      → Outcomes now body h (pagerduty_webhook env now body signature h)
  unfolding pagerduty_webhook
  webhook-Outcomes now body signature h =
      elim (Bool-cases (
        (env.pagerduty_secret == "")
        || not (verify_pagerduty env.hmac env.pagerduty_secret body signature))) [
          | inl forged ↦ rw (pagerduty_webhook, forged) (inl (_, refl, λ e. cc))
          | inr signed ↦
              rw (pagerduty_webhook, signed) (event-Outcomes now body h (env.pager_event body))
        ]

  deliver-seen : (i : Incident) (h : Hooks) (r : Seen × Bool) → (deliver env i h r).0.seen ≡ r.0
  deliver-seen i h (seen, true) = refl
  deliver-seen i h (seen, false) = refl

  webhook-Claimed :
      (now t : ℕ) (body signature k : String) (h : Hooks)
      → now ≤ t
      → Claimed t k h.seen
      → Claimed t k (pagerduty_webhook env now body signature h).0.seen
  webhook-Claimed now t body signature k h le c = elim (webhook-Outcomes now body signature h) [
    | inl (r, same, other) ↦ rw same c
    | inr (i, same) ↦
        rw (same, deliver-seen i h) (claim-Claimed env.sha256 now t body k h.seen le c)
  ]

  -- Webhooks, one after the other: each with its time, its body and its signature.
  unfoldable pub receive : List (ℕ × String × String) → Hooks → Hooks
  receive [] h = h
  receive ((now, body, signature) ∷ ds) h =
      receive ds (pagerduty_webhook env now body signature h).0

  receive-Claimed :
      (t : ℕ) (k : String) (ds : List (ℕ × String × String)) (h : Hooks)
      → All (λ (now, _, _). now ≤ t) ds
      → Claimed t k h.seen
      → Claimed t k (receive ds h).seen
  unfolding receive
  receive-Claimed t k [] h le c = c
  receive-Claimed t k ((now, body, signature) ∷ ds) h (first, le) c =
      receive-Claimed t k ds (pagerduty_webhook env now body signature h).0 le
        (webhook-Claimed now t body signature k h first c)

  accepted_by_claim :
      (i : Incident) (h : Hooks) (r : Seen × Bool)
      → (deliver env i h r).1 ≡ ok accepted
      → r.1 ≡ true
  accepted_by_claim i h (seen, true) e = refl
  accepted_by_claim i h (seen, false) e = cc

  webhook-claims :
      (now t : ℕ) (body signature : String) (h : Hooks)
      → t < now + 600
      → (pagerduty_webhook env now body signature h).1 ≡ ok accepted
      → Claimed t (env.sha256 body) (pagerduty_webhook env now body signature h).0.seen
  webhook-claims now t body signature h lasts e = elim (webhook-Outcomes now body signature h) [
    | inl (r, same, other) ↦ absurd (other (rw same at e))
    | inr (i, same) ↦
        rw (same, deliver-seen i h)
          (claim-first env.sha256 now t body h.seen lasts
            (accepted_by_claim i h (claim_delivery env.sha256 now body h.seen) (rw same at e)))
  ]

  unclaimed_jobs :
      (i : Incident) (h : Hooks) (r : Seen × Bool)
      → r.1 ≡ false
      → (deliver env i h r).0.jobs ≡ h.jobs
  unclaimed_jobs i h (seen, true) e = cc
  unclaimed_jobs i h (seen, false) e = refl

  webhook-again :
      (t : ℕ) (body signature : String) (h : Hooks)
      → Claimed t (env.sha256 body) h.seen
      → (pagerduty_webhook env t body signature h).0.jobs ≡ h.jobs
  webhook-again t body signature h c = elim (webhook-Outcomes t body signature h) [
    | inl (r, same, other) ↦ rw same refl
    | inr (i, same) ↦ rw same (
        unclaimed_jobs i h (claim_delivery env.sha256 t body h.seen)
          (claim-again env.sha256 t body h.seen c))
  ]

  -- Once a PagerDuty webhook was accepted, the same body, delivered again less than ten minutes
  -- later, enqueues no job, whatever other deliveries came meanwhile and however many were seen.
  pub pagerduty_webhook-once :
      (now t : ℕ) (body signature signature' : String) (ds : List (ℕ × String × String)) (h : Hooks)
      → t < now + 600
      → All (λ (at, _, _). at ≤ t) ds
      → (pagerduty_webhook env now body signature h).1 ≡ ok accepted
      → (pagerduty_webhook env t body signature'
          (receive ds (pagerduty_webhook env now body signature h).0)).0.jobs
        ≡ (receive ds (pagerduty_webhook env now body signature h).0).jobs
  pagerduty_webhook-once now t body signature signature' ds h lasts le e =
      webhook-again t body signature' _ (
        receive-Claimed t (env.sha256 body) ds _ le (webhook-claims now t body signature h lasts e))
