-- ===== src/Tenancy/Auth.antt =====
-- The resolution of a credential into the request's tenant (app/tenancy/auth.py) and what a request
-- knows of it (app/tenant_context.py). `verify_jwt` is app/tenancy/supabase_auth.py: the email claim
-- of a valid token, "" where it has none, and `none` for a token that is not valid.
use dev_ops_copilot.Base.{
  ◌<>◌, String, Option, none, some, List, [], ◌∷◌, keep, contains, ◌==◌, string_eq, if◌then◌else◌,
}
use dev_ops_copilot.Base.Dict.{Dict, get_or}
use dev_ops_copilot.Base.Text.{strip, take_chars}
use dev_ops_copilot.Base.Case.{lower_str}
use dev_ops_copilot.Tenancy.{Org, ApiKey, Store}
use dev_ops_copilot.Tenancy.Orgs.{get_org, get_membership_by_email}
use dev_ops_copilot.Tenancy.Keys.{resolve_api_key}
use dev_ops_copilot.Tenancy.Vault.{Cipher}
use dev_ops_copilot.Tenancy.Secrets.{get_integration_secrets}

pub record TenantConfig : Type 0 where
  pub org_id : String
  pub plan : String
  pub role : String
  pub provider : String
  pub model : String
  pub fast_model : String
  pub provider_keys : Dict String String
  pub github_token : String
  pub github_repo : String
  pub repo_path : String
  pub logs_path : String
  pub integration_secrets : Dict String String

-- `_LLM_KEY_ENV`
abbrev pub llm_key_env : Dict String String
llm_key_env =
    ("anthropic", "ANTHROPIC_API_KEY")
    ∷ ("openai", "OPENAI_API_KEY")
    ∷ ("gemini", "GEMINI_API_KEY")
    ∷ ("groq", "GROQ_API_KEY")
    ∷ ("deepseek", "DEEPSEEK_API_KEY")
    ∷ []

-- `_INTEGRATION_KEYS`
abbrev pub integration_keys : List String
integration_keys =
    "DD_API_KEY" ∷ "DD_APP_KEY" ∷ "DD_SITE" ∷ "PAGERDUTY_API_TOKEN" ∷ "PAGERDUTY_FROM_EMAIL"
    ∷ "KUBE_CONFIG_PATH" ∷ "KUBE_NAMESPACE" ∷ "SENTRY_API_TOKEN" ∷ "SENTRY_ORG" ∷ "SENTRY_PROJECT"
    ∷ "TRACES_API_URL" ∷ "CORPUS_PATH" ∷ []

-- `{p: secrets[env] for p, env in … if secrets.get(env)}`
abbrev pub keys_among : Dict String String → Dict String String → Dict String String
keys_among secrets [] = []
keys_among secrets ((p, env) ∷ rest) =
    let others = keys_among secrets rest in
    let value = get_or env "" secrets in if value == "" then others else (p, value) ∷ others

unfoldable pub build_tenant_config : Org → String → Dict String String → TenantConfig
build_tenant_config org role secrets = record {
  org_id = org.id;
  plan = org.plan;
  role = role;
  provider = get_or "COPILOT_PROVIDER" "" secrets;
  model = get_or "COPILOT_MODEL" "" secrets;
  fast_model = get_or "COPILOT_FAST_MODEL" "" secrets;
  provider_keys = keys_among secrets llm_key_env;
  github_token = get_or "GITHUB_TOKEN" "" secrets;
  github_repo = get_or "GITHUB_REPO" "" secrets;
  repo_path = "";
  logs_path = "";
  integration_secrets = keep (λ (e : String × String). contains integration_keys e.0) secrets;
}

-- What a credential resolves to; `failed` is an exception of the decryption of a secret.
pub data Resolution : Type 0 where
  denied : Resolution
  failed : Resolution
  granted : TenantConfig → (actor : String) → Resolution

abbrev pub grant : Org → String → String → Option (Dict String String) → Resolution
grant org role actor none = failed
grant org role actor (some secrets) = granted (build_tenant_config org role secrets) actor

module _ (sha256 : String → String) (c : Cipher) (kek : String) where
  abbrev pub grant_key : Store × Option (Org × ApiKey) → Store × Resolution
  grant_key (s, none) = (s, denied)
  grant_key (s, some (org, key)) = (
    s,
    grant org key.role ("key:" <> take_chars 8 key.id) (get_integration_secrets c kek org.id s),
  )

  unfoldable pub resolve : String → String → Store → Store × Resolution
  resolve now api_key s = grant_key (resolve_api_key sha256 now api_key s)

  abbrev pub grant_member : String → String → Store → Option Org → Resolution
  grant_member email role s none = denied
  grant_member email role s (some org) =
      grant org role ("user:" <> email) (get_integration_secrets c kek org.id s)

  abbrev pub grant_membership : String → Store → Option (String × String) → Resolution
  grant_membership email s none = denied
  grant_membership email s (some (org_id, role)) = grant_member email role s (get_org org_id s)

  unfoldable pub resolve_jwt : (String → Option String) → String → Store → Resolution
  resolve_jwt verify_jwt token s = elim (verify_jwt token) [
    | none ↦ denied
    | some claim ↦
        let email = lower_str (strip claim) in
        if email == "" then denied else grant_membership email s (get_membership_by_email email s)
  ]

-- The request's context variables.
pub record Context : Type 0 where
  pub current_tenant : Option TenantConfig
  pub actor : String

-- `set_tenant` and `set_actor`
abbrev pub enter : TenantConfig → String → Context
enter cfg actor = record { current_tenant = some cfg; actor = (if actor == "" then "-" else actor) }

abbrev pub no_tenant : Context
no_tenant = record { current_tenant = none; actor = "-" }

-- `tenant_id`
unfoldable pub tenant_id : Context → String
tenant_id ctx = elim ctx.current_tenant [ none ↦ "-" | some cfg ↦ cfg.org_id ]
