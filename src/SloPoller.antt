-- ===== src/SloPoller.antt =====
-- The poller that opens investigations on a burning error budget (app/slo_poller.py).
-- A burn-rate result is a dict of JSON values. Times are whole numbers of one unit.
pub mod Laws
use dev_ops_copilot.Base.{
  ℕ, ◌+◌, max, String, Bool, true, false, Option, none, some, List, [], ◌∷◌, ◌++◌, ◌&&◌, not, leb,
  ◌==◌, string_eq, if◌then◌else◌,
}
use dev_ops_copilot.Base.Dict.{Dict, lookup, get_or, insert}
use dev_ops_copilot.Base.Value.{Value, null, text, to_str, truthy}
use dev_ops_copilot.Base.Text.{codes, starts_with_word}

abbrev pub Burn : Type 0
Burn = Dict String Value

-- `str(burn.get("verdict", "")).lower().startswith("page")`
unfoldable pub is_page_worthy : Burn → Bool
is_page_worthy burn =
    starts_with_word (codes "page") (codes (to_str (get_or "verdict" (text "" none) burn)))

-- What reading a service's burn rate does.
pub data Reading : Type 0 where
  raised : Reading
  -- a value that is no dict
  not_dict : Reading
  burn_of : Burn → Reading

pub record Alert : Type 0 where
  pub service : String
  pub burn : Burn

unfoldable pub is_alert : Burn → Bool
is_alert burn = not (truthy (get_or "error" null burn)) && is_page_worthy burn

unfoldable pub select_alerts : (String → Reading) → List String → List Alert
unfolding is_alert
select_alerts burn_fn [] = []
select_alerts burn_fn (svc ∷ services) =
    let rest = select_alerts burn_fn services in
    elim (burn_fn svc) [
      | raised ↦ rest
      | not_dict ↦ rest
      | burn_of burn ↦ if is_alert burn then record { service = svc; burn = burn } ∷ rest else rest
    ]

-- `max(10, interval)` and `max(0, cooldown)`, the latter of a number that is not negative.
abbrev pub poll_interval : ℕ → ℕ
poll_interval interval = max 10 interval

abbrev pub LastFired : Type 0
LastFired = Dict String ℕ

-- `_due`
unfoldable pub due : ℕ → LastFired → String → ℕ → Bool
due cooldown last_fired service now = elim (lookup service last_fired) [
  | none ↦ true
  | some last ↦ leb (last + cooldown) now
]

-- What a sweep leaves: the times of the last attempts, the services fired, and the services whose
-- trigger was called.
pub record Sweep : Type 0 where
  pub last_fired : LastFired
  pub fired : List String
  pub attempted : List String

-- The loop of `tick` over the alerts; `trigger_fn` says whether the trigger returns.
unfoldable pub sweep : (String → Burn → Bool) → ℕ → ℕ → List Alert → LastFired → Sweep
unfolding due
sweep trigger_fn cooldown now [] last_fired = record {
  last_fired = last_fired;
  fired = [];
  attempted = [];
}
sweep trigger_fn cooldown now (a ∷ alerts) last_fired =
    let skipped = sweep trigger_fn cooldown now alerts last_fired in
    let after = sweep trigger_fn cooldown now alerts (insert a.service now last_fired) in
    if due cooldown last_fired a.service now
    then record {
      last_fired = after.last_fired;
      fired = (if trigger_fn a.service a.burn then a.service ∷ after.fired else after.fired);
      attempted = a.service ∷ after.attempted;
    }
    else skipped

unfoldable pub tick :
    (String → Reading) → (String → Burn → Bool) → ℕ → List String → ℕ → LastFired → Sweep
unfolding select_alerts sweep
tick burn_fn trigger_fn cooldown services now last_fired =
    sweep trigger_fn cooldown now (select_alerts burn_fn services) last_fired
