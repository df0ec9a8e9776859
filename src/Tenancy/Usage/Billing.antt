-- ===== src/Tenancy/Usage/Billing.antt =====
-- The billing worker (app/billing.py: sync_usage_to_stripe, plan_from_stripe_event). The Stripe
-- client is a parameter, which says whether a meter event is accepted.
use dev_ops_copilot.Base.{
  ℕ, suc, ◌≡◌, refl, ap, ◌∙◌, ◌||◌, String, Bool, true, false, Option, none, some, List, [], ◌∷◌,
  ◌&&◌, not, keep, take, length, contains, ◌==◌, string_eq, Bool-cases, inl, inr, if◌then◌else◌,
  suc,
}
use dev_ops_copilot.Base.Text.{strip}
use dev_ops_copilot.Base.Case.{lower_str}
use dev_ops_copilot.Tenancy.{Org, UsageRow, Store, update_where}
use dev_ops_copilot.Tenancy.Orgs.{get_org}
use dev_ops_copilot.Tenancy.Usage.{unsynced_usage, mark_synced, sort_by_ts, is_unsynced}

pub record MeterEvent : Type 0 where
  pub customer_id : String
  pub event_name : String
  pub value : ℕ
  pub idempotency_key : String

abbrev pub customer_of : Option Org → String
customer_of none = ""
customer_of (some org) = org.stripe_customer_id

module _ (create_meter_event : MeterEvent → Bool) (event_name : String) where
  abbrev pub event_of : String → UsageRow → MeterEvent
  event_of customer r = record {
    customer_id = customer;
    event_name = event_name;
    value = r.amount;
    idempotency_key = (if r.event_key == "" then r.id else r.event_key);
  }

  -- The loop over the rows: the ids of the rows sent.
  unfoldable pub send_rows : List UsageRow → Store → List String
  send_rows [] s = []
  send_rows (r ∷ rows) s =
      let rest = send_rows rows s in
      let customer = customer_of (get_org r.org_id s) in
      if not (customer == "") && create_meter_event (event_of customer r) then r.id ∷ rest else rest

  -- The store after the sync, and the number of rows synced.
  unfoldable pub sync_usage_to_stripe : ℕ → Store → Store × ℕ
  unfolding send_rows
  sync_usage_to_stripe limit s =
      let synced = send_rows (unsynced_usage "investigation" limit s) s in
      (mark_synced synced s, length synced)

-- A subscription event, with empty texts where a field is missing.
pub record StripeEvent : Type 0 where
  pub event_type : String
  pub org_id : String
  pub plan : String

unfoldable pub plan_from_stripe_event : StripeEvent → Option (String × String)
plan_from_stripe_event event =
    let org_id = strip event.org_id in
    let plan = lower_str (strip event.plan) in
    if org_id == ""
    then none
    else if event.event_type == "customer.subscription.deleted"
    then some (org_id, "free")
    else if contains ("customer.subscription.created" ∷ "customer.subscription.updated" ∷ [])
        event.event_type
    then (if contains ("free" ∷ "team" ∷ "enterprise" ∷ []) plan then some (org_id, plan) else none)
    else none

-- A row whose meter event is accepted: its organisation has a customer, and the client takes the
-- event of the customer, the row's amount, and its key, or its id where it has none.
abbrev pub accepts : (MeterEvent → Bool) → String → UsageRow → Option Org → Bool
accepts create_meter_event event_name r none = false
accepts create_meter_event event_name r (some org) =
    not (org.stripe_customer_id == "")
    && create_meter_event (record {
      customer_id = org.stripe_customer_id;
      event_name = event_name;
      value = r.amount;
      idempotency_key = (if r.event_key == "" then r.id else r.event_key);
    })

abbrev pub is_accepted : (MeterEvent → Bool) → String → Store → UsageRow → Bool
is_accepted create_meter_event event_name s r =
    accepts create_meter_event event_name r (get_org r.org_id s)

-- The id is that of an accepted row of the batch.
abbrev pub was_sent : (MeterEvent → Bool) → String → Store → List UsageRow → String → Bool
was_sent create_meter_event event_name s [] id = false
was_sent create_meter_event event_name s (r ∷ rows) id =
    (is_accepted create_meter_event event_name s r && (id == r.id))
    || was_sent create_meter_event event_name s rows id

module _ (create_meter_event : MeterEvent → Bool) (event_name : String) (s : Store) where
  -- The loop's test is that of the row's acceptance.
  tested :
      (r : UsageRow) (o : Option Org)
      → (not (customer_of o == "")
          && create_meter_event (event_of create_meter_event event_name (customer_of o) r))
        ≡ accepts create_meter_event event_name r o
  tested r none = refl
  tested r (some org) = refl

  sent_ids :
      (rows : List UsageRow) (id : String)
      → contains (send_rows create_meter_event event_name rows s) id
        ≡ was_sent create_meter_event event_name s rows id
  unfolding send_rows
  sent_ids [] id = refl
  sent_ids (r ∷ rows) id = elim (Bool-cases (is_accepted create_meter_event event_name s r)) [
    | inl took ↦
        rw (send_rows, tested r (get_org r.org_id s), took)
          (ap (λ b. (id == r.id) || b) (sent_ids rows id))
    | inr left ↦ rw (send_rows, tested r (get_org r.org_id s), left) (sent_ids rows id)
  ]

  sent_count :
      (rows : List UsageRow)
      → length (send_rows create_meter_event event_name rows s)
        ≡ length (keep (is_accepted create_meter_event event_name s) rows)
  unfolding send_rows
  sent_count [] = refl
  sent_count (r ∷ rows) = elim (Bool-cases (is_accepted create_meter_event event_name s r)) [
    | inl took ↦ rw (send_rows, tested r (get_org r.org_id s), took) (ap suc (sent_count rows))
    | inr left ↦ rw (send_rows, tested r (get_org r.org_id s), left) (sent_count rows)
  ]

marked_rows :
    (kind : String) (ids : List String) (sent : String → Bool) (rows : List UsageRow)
    → ((id : String) → contains ids id ≡ sent id)
    → keep
        (is_unsynced kind)
        (update_where (λ r. contains ids r.id) (λ r. record r { synced = true }) rows)
      ≡ keep (λ r. is_unsynced kind r && not (sent r.id)) rows
marked_rows kind ids sent [] same = refl
marked_rows kind ids sent (r ∷ rows) same = elim (Bool-cases (sent r.id)) [
  | inl took ↦
      let known : contains ids r.id ≡ true = same r.id ∙ took in
      elim (Bool-cases (is_unsynced kind r)) [
        | inl due ↦ rw (known, took, due) (marked_rows kind ids sent rows same)
        | inr shut ↦ rw (known, took, shut) (marked_rows kind ids sent rows same)
      ]
  | inr left ↦
      let unknown : contains ids r.id ≡ false = same r.id ∙ left in
      elim (Bool-cases (is_unsynced kind r)) [
        | inl due ↦ rw (unknown, left, due) (ap (λ q. r ∷ q) (marked_rows kind ids sent rows same))
        | inr shut ↦ rw (unknown, left, shut) (marked_rows kind ids sent rows same)
      ]
]

-- What a sync changes of what is unsynced: whatever the client accepts, the unsynced rows after it,
-- of any kind and up to any number, are those before it, in their order, without the rows that have
-- the id of a row which the sync took up and whose meter event was accepted: none of these is
-- offered to a later sync, and every other row still is. The number returned is that of the
-- accepted rows.
pub sync_usage_to_stripe-once :
    (create_meter_event : MeterEvent → Bool) (event_name : String) (limit : ℕ) (s : Store)
    (kind : String) (later_limit : ℕ)
    → (unsynced_usage kind later_limit
          (sync_usage_to_stripe create_meter_event event_name limit s).0
        ≡ take later_limit (
            sort_by_ts (
              keep
                (λ r.
                  is_unsynced kind r
                  && not (
                      was_sent create_meter_event event_name s
                        (unsynced_usage "investigation" limit s)
                        r.id))
                s.usage)))
      × ((sync_usage_to_stripe create_meter_event event_name limit s).1
          ≡ length (
              keep
                (is_accepted create_meter_event event_name s)
                (unsynced_usage "investigation" limit s)))
unfolding sync_usage_to_stripe unsynced_usage mark_synced
sync_usage_to_stripe-once create_meter_event event_name limit s kind later_limit =
    let batch = unsynced_usage "investigation" limit s in
    (
      ap (λ rows. take later_limit (sort_by_ts rows))
          (marked_rows kind (send_rows create_meter_event event_name batch s)
            (was_sent create_meter_event event_name s batch) s.usage
            (sent_ids create_meter_event event_name s batch)),
      sent_count create_meter_event event_name s batch,
    )
