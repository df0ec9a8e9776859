-- ===== src/Api/Access.antt =====
-- Who is let in (app/api/main.py): LimitsMiddleware, require_auth, require_perm, quota_gate, the
-- checks of a message, and the name that a tenant's thread has inside the process.
pub mod Laws
use dev_ops_copilot.Base.{
  ℕ, ◌+◌, ◌<>◌, String, Bool, true, false, Option, none, some, List, [], ◌∷◌, ◌&&◌, ◌||◌, not,
  contains, eqb, ltb, ◌==◌, string_eq, if◌then◌else◌, length,
}
use dev_ops_copilot.Base.Text.{strip, starts_with, drop_chars, is_blank, codes}
use dev_ops_copilot.Base.Int.{show_ℕ}
use dev_ops_copilot.RateLimit
use dev_ops_copilot.Spend
use dev_ops_copilot.Tenancy.{Store}
use dev_ops_copilot.Tenancy.Roles.{can}
use dev_ops_copilot.Tenancy.Usage.{over_quota}
use dev_ops_copilot.Tenancy.Vault.{Cipher}
use dev_ops_copilot.Tenancy.Auth.{
  TenantConfig, Resolution, denied, failed, granted, resolve, resolve_jwt, Context, enter,
  no_tenant,
}
use dev_ops_copilot.Api.{Reply, ok, refused, crashed, Request, ApiSettings, ◌>>=◌, ◌>>◌}
use Prim.Native.Char.{Char, code}

-- `_OPEN_PATHS`
abbrev pub open_paths : List String
open_paths = "/healthz" ∷ "/readyz" ∷ "/metrics/slo" ∷ []

-- `text.split(",")[0]`
abbrev before_comma : String → String
before_comma String.[] = String.[]
before_comma (String.◌∷◌ c s) =
    let rest = before_comma s in if eqb (code c) 44 then String.[] else String.◌∷◌ c rest

abbrev host_of : Option String → String
host_of none = "unknown"
host_of (some host) = host

abbrev first_hop : Option String → Option String → String
first_hop none host = host_of host
first_hop (some fwd) host = if fwd == "" then host_of host else strip (before_comma fwd)

unfoldable pub client_ip : Request → Bool → String
client_ip r trust_proxy =
    if trust_proxy then first_hop r.forwarded_for r.client_host else host_of r.client_host

abbrev is_open : Request → Bool
is_open r = (r.method == "OPTIONS") || contains open_paths r.path

abbrev too_large : ℕ → Option ℕ → Bool
too_large most none = false
too_large most (some n) = ltb most n

-- `_RL_MAX_KEYS` of the limiter and its window.
abbrev pub max_keys : ℕ
max_keys = 10000

abbrev limit_verdict : RateLimit.Store × Bool → RateLimit.Store × Reply (Unit {0})
limit_verdict (store, true) = (store, refused 429 "Rate limit exceeded — slow down and retry.")
limit_verdict (store, false) = (store, ok tt)

-- `LimitsMiddleware._guarded`, as far as the call of what it guards.
unfoldable pub guarded :
    ApiSettings → ℕ → Request → RateLimit.Store → RateLimit.Store × Reply (Unit {0})
unfolding RateLimit.over_limit client_ip
guarded settings now r store =
    if is_open r
    then (store, ok tt)
    else if too_large settings.max_body_bytes r.content_length
    then (store, refused 413 "Request body too large.")
    else if (r.method == "POST") && ltb 0 settings.rate_limit_per_min
    then limit_verdict (
        RateLimit.over_limit max_keys now (client_ip r settings.trust_proxy)
          settings.rate_limit_per_min 60 store)
    else (store, ok tt)

-- `text.count(".")`
abbrev count_dots : String → ℕ
count_dots String.[] = 0
count_dots (String.◌∷◌ c s) = (if eqb (code c) 46 then 1 else 0) + count_dots s

abbrev or_empty : Option String → String
or_empty none = ""
or_empty (some s) = s

-- The credential of the header, with or without its scheme.
unfoldable pub bearer_token : Option String → String
bearer_token header =
    let provided = or_empty header in
    if starts_with "Bearer " provided then strip (drop_chars 7 provided) else strip provided

-- What needs no credential here: probes, preflights, webhooks, SCIM and the signup.
unfoldable pub is_exempt : Request → Bool
is_exempt r =
    is_open r
    || (starts_with "/webhooks/" r.path || (starts_with "/scim/" r.path || (r.path == "/signup")))

abbrev admit : Store × Resolution → Store × Reply Context
admit (s, denied) = (s, refused 401 "Invalid or revoked credential.")
admit (s, failed) = (s, crashed)
admit (s, granted cfg actor) = (s, ok (enter cfg actor))

module _ (sha256 : String → String) (c : Cipher) (kek : String)
    (verify_jwt : String → Option String) where
  -- The resolution of a tenant's credential: an API key, or a token with two dots.
  unfoldable pub resolve_token : String → String → Store → Store × Resolution
  resolve_token now token s =
      if starts_with "dcp_" token
      then resolve sha256 c kek now token s
      else if eqb (count_dots token) 2
      then (s, resolve_jwt sha256 c kek verify_jwt token s)
      else (s, denied)

  unfoldable pub require_auth : ApiSettings → String → Request → Store → Store × Reply Context
  unfolding resolve_token is_exempt bearer_token
  require_auth settings now r s =
      if is_exempt r
      then (s, ok no_tenant)
      else if settings.multi_tenant
      then admit (resolve_token now (bearer_token r.authorization) s)
      else if settings.api_token == ""
      then (s, ok no_tenant)
      else if or_empty r.authorization == "Bearer " <> settings.api_token
      then (s, ok no_tenant)
      else (s, refused 401 "Missing or invalid API token.")

abbrev pub role_of : Option TenantConfig → String
role_of none = "viewer"
role_of (some cfg) = cfg.role

-- `text.replace("_", " ")`
abbrev spaced : String → String
spaced String.[] = String.[]
spaced (String.◌∷◌ c s) =
    let rest = spaced s in if eqb (code c) 95 then " " <> rest else String.◌∷◌ c rest

-- `require_perm`
unfoldable pub require_perm : ApiSettings → String → Context → Reply (Unit {0})
require_perm settings action ctx =
    if not settings.multi_tenant || can (role_of ctx.current_tenant) action
    then ok tt
    else refused 403 (
        "Role '"
        <> (role_of ctx.current_tenant <> ("' is not permitted to " <> (spaced action <> "."))))

-- `_scoped`
abbrev pub scoped_by : Option TenantConfig → String → String
scoped_by none thread_id = thread_id
scoped_by (some cfg) thread_id = cfg.org_id <> (":" <> thread_id)

unfoldable pub scoped : Context → String → String
scoped ctx thread_id = scoped_by ctx.current_tenant thread_id

abbrev pub plan_of : Option TenantConfig → Option (String × String)
plan_of none = none
plan_of (some cfg) = some (cfg.org_id, cfg.plan)

abbrev quota_detail : String
quota_detail = "Monthly investigation quota reached for your plan — upgrade to continue."

abbrev spend_detail : String
spend_detail =
    "Fleet-wide token budget reached — investigations are paused. Try again after the budget window rolls over."

-- `quota_gate`, with the start of the month and the total of the spend tracker.
unfoldable pub quota_gate : ApiSettings → Context → String → ℕ → Store → Reply (Unit {0})
unfolding Spend.over_cap
quota_gate settings ctx month spent s =
    if over_quota (plan_of ctx.current_tenant) month s
    then refused 402 quota_detail
    else if ltb 0 settings.global_token_cap && Spend.over_cap spent settings.global_token_cap
    then refused 429 spend_detail
    else ok tt

-- `_check_message`
unfoldable pub check_message : ApiSettings → String → Reply (Unit {0})
check_message settings message =
    if is_blank message
    then refused 400 "Message cannot be empty."
    else if ltb settings.max_message_chars (length (codes message))
    then refused 413
        ("Message too long (max " <> show_ℕ settings.max_message_chars <> " characters).")
    else ok tt

-- `_current_org_id`
unfoldable pub current_org_id : Context → Reply String
current_org_id ctx = elim ctx.current_tenant [
  | none ↦ refused 400 "Admin endpoints require multi-tenant mode + a tenant API key."
  | some cfg ↦ ok cfg.org_id
]
