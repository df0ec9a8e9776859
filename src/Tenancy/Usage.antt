-- ===== src/Tenancy/Usage.antt =====
-- The usage ledger (app/tenancy/store.py: record_usage and below), metering (app/metering.py)
-- and retention. Ids and times are arguments; a row's `meta` is left out, which nothing reads.
pub mod Laws
pub mod Billing
use dev_ops_copilot.Base.{
  ℕ, ◌+◌, ◌-◌, ◌*◌, ◌<>◌, String, Bool, true, false, Option, none, some, List, [], ◌∷◌, ◌++◌, ◌&&◌,
  ◌||◌, not, any_of, keep, take, length, contains, ◌==◌, string_eq, eqb, ltb, leb, if◌then◌else◌,
}
use dev_ops_copilot.Base.Case.{le_str}
use dev_ops_copilot.Tenancy.{UsageRow, Store, update_where}
use dev_ops_copilot.Tenancy.Plans.{quota, within_quota}

-- The unique columns: the id, and the event key unless it is empty.
abbrev pub conflicts : String → String → UsageRow → Bool
conflicts id event_key r = (r.id == id) || (not (event_key == "") && (r.event_key == event_key))

-- `INSERT OR IGNORE`
unfoldable pub record_usage : String → String → String → String → ℕ → String → Store → Store
record_usage id now org_id kind amount event_key s =
    let row : UsageRow = record {
      id = id;
      org_id = org_id;
      kind = kind;
      amount = amount;
      ts = now;
      event_key = event_key;
      synced = false;
    } in
    if any_of (conflicts id event_key) s.usage then s else record s { usage = s.usage ++ row ∷ [] }

abbrev pub insert_by_ts : UsageRow → List UsageRow → List UsageRow
insert_by_ts r [] = r ∷ []
insert_by_ts r (q ∷ qs) =
    let later = insert_by_ts r qs in if le_str r.ts q.ts then r ∷ q ∷ qs else q ∷ later

-- `ORDER BY ts`
abbrev pub sort_by_ts : List UsageRow → List UsageRow
sort_by_ts [] = []
sort_by_ts (r ∷ rs) = insert_by_ts r (sort_by_ts rs)

abbrev pub is_unsynced : String → UsageRow → Bool
is_unsynced kind r = not r.synced && (r.kind == kind)

unfoldable pub unsynced_usage : String → ℕ → Store → List UsageRow
unsynced_usage kind limit s = take limit (sort_by_ts (keep (is_unsynced kind) s.usage))

unfoldable pub mark_synced : List String → Store → Store
mark_synced ids s = record s {
  usage = update_where (λ r. contains ids r.id) (λ r. record r { synced = true }) s.usage;
}

-- The rows that a total counts; an empty `since` is no bound.
abbrev pub counted : String → String → String → UsageRow → Bool
counted org_id kind since r =
    (r.org_id == org_id) && (r.kind == kind) && ((since == "") || le_str since r.ts)

abbrev pub sum_where : (UsageRow → Bool) → List UsageRow → ℕ
sum_where p [] = 0
sum_where p (r ∷ rs) = (if p r then r.amount else 0) + sum_where p rs

unfoldable pub usage_total : String → String → String → Store → ℕ
usage_total org_id kind since s = sum_where (counted org_id kind since) s.usage

-- The store after the purge, and the number of rows removed.
unfoldable pub purge_usage_before : String → Store → Store × ℕ
purge_usage_before cutoff s = (
  record s { usage = keep (λ r. le_str cutoff r.ts) s.usage },
  length (keep (λ r. not (le_str cutoff r.ts)) s.usage),
)

-- `apply_retention`, with the cutoff that the number of days gives.
unfoldable pub apply_retention : ℕ → String → Store → Store × ℕ
unfolding purge_usage_before
apply_retention days cutoff s = if eqb days 0 then (s, 0) else purge_usage_before cutoff s

-- `record_investigation` for the current tenant; `key` is the idempotency key or the request's id,
-- and `id` and `id'` are the two rows' ids.
unfoldable pub record_investigation :
    String → String → String → Option String → ℕ → String → Store → Store
unfolding record_usage
record_investigation id id' now none tokens key s = s
record_investigation id id' now (some org_id) tokens key s =
    let s' =
      record_usage id now org_id "investigation" 1 (org_id <> (":investigation:" <> key)) s in
    if eqb tokens 0
    then s'
    else record_usage id' now org_id "tokens" tokens (org_id <> (":tokens:" <> key)) s'

-- The current tenant's organisation and plan.
unfoldable pub over_quota : Option (String × String) → String → Store → Bool
unfolding usage_total within_quota
over_quota none month s = false
over_quota (some (org_id, plan)) month s =
    not (within_quota plan "investigations_per_month" (usage_total org_id "investigation" month s))

pub record UsageSummary : Type 0 where
  pub plan : String
  pub used : ℕ
  pub limit : Option ℕ
  -- `none` without a limit; the source's number goes below zero where more is used than allowed
  pub remaining : Option ℕ
  pub over_by : ℕ
  pub tokens_used : ℕ
  pub warning : Bool

-- `used >= 0.8 * limit`, for a limit above zero.
abbrev warns : ℕ → Option ℕ → Bool
warns used none = false
warns used (some limit) = ltb 0 limit && leb (8 * limit) (10 * used)

abbrev remaining_of : ℕ → Option ℕ → Option ℕ × ℕ
remaining_of used none = (none, 0)
remaining_of used (some limit) = (some (limit - used), used - limit)

-- `usage_summary`; the difference `limit - used` is `remaining` less `over_by`.
unfoldable pub usage_summary : Option (String × String) → String → Store → Option UsageSummary
unfolding usage_total quota
usage_summary none month s = none
usage_summary (some (org_id, plan)) month s =
    let used = usage_total org_id "investigation" month s in
    let limit = quota plan "investigations_per_month" in
    some (record {
      plan = plan;
      used = used;
      limit = limit;
      remaining = (remaining_of used limit).0;
      over_by = (remaining_of used limit).1;
      tokens_used = usage_total org_id "tokens" month s;
      warning = warns used limit;
    })
