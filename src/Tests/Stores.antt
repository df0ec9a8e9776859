-- ===== src/Tests/Stores.antt =====
-- A store with two organisations, the settings of a process, and a digest and a cipher that are
-- simple enough to compute with.
use dev_ops_copilot.Base.{refl, String, true, false, some, [], ◌∷◌}
use dev_ops_copilot.Tenancy.{Org, ApiKey, UsageRow, Store, empty_store}
use dev_ops_copilot.Tenancy.Vault.{Cipher}
use dev_ops_copilot.Tenancy.Auth.{TenantConfig}
use dev_ops_copilot.Api.{ApiSettings}

abbrev pub acme : Org
acme = record {
  id = "o1";
  name = "Acme";
  plan = "free";
  created_at = "2026-01-01";
  stripe_customer_id = "cus_1";
}

abbrev pub beta : Org
beta = record {
  id = "o2";
  name = "Beta";
  plan = "team";
  created_at = "2026-01-02";
  stripe_customer_id = "";
}

abbrev pub acme_key : ApiKey
acme_key = record {
  id = "k1";
  org_id = "o1";
  prefix = "ab12";
  name = "ci";
  role = "responder";
  created_at = "2026-01-01";
  last_used_at = "";
  revoked_at = "";
  expires_at = "2026-04-01";
}

abbrev pub leaked_key : ApiKey
leaked_key = record acme_key { id = "k9"; prefix = "zz99" }

-- A digest and a cipher that are simple enough to compute with.
abbrev pub digest : String → String
digest s = s

abbrev pub cipher : Cipher
cipher = record {
  seal = λ _ plaintext. plaintext;
  unseal = λ _ token. some token;
  unseal-seal = λ _ _. refl;
}

abbrev pub usage_row : UsageRow
usage_row = record {
  id = "u1";
  org_id = "o1";
  kind = "investigation";
  amount = 1;
  ts = "2026-01-03";
  event_key = "o1:investigation:r1";
  synced = false;
}

abbrev pub two_orgs : Store
two_orgs = record empty_store {
  orgs = record { org = acme; wrapped_dek = "w" } ∷ record { org = beta; wrapped_dek = "" } ∷ [];
  memberships = record { org_id = "o1"; user_id = "p1"; role = "viewer" } ∷ [];
  api_keys =
      record { key = acme_key; secret_hash = "s3cret" }
      ∷ record { key = leaked_key; secret_hash = "leaked" }
      ∷ [];
  usage = usage_row ∷ [];
}

abbrev pub settings : ApiSettings
settings = record {
  multi_tenant = true;
  api_token = "";
  max_body_bytes = 1000000;
  rate_limit_per_min = 60;
  trust_proxy = false;
  global_token_cap = 0;
  max_message_chars = 8000;
  max_sessions = 50;
  signup_enabled = true;
  scim_token = "idp";
  scim_org = "o1";
  scim_default_role = "viewer";
}

abbrev pub acme_config : TenantConfig
acme_config = record {
  org_id = "o1";
  plan = "free";
  role = "responder";
  provider = "";
  model = "";
  fast_model = "";
  provider_keys = [];
  github_token = "";
  github_repo = "";
  repo_path = "";
  logs_path = "";
  integration_secrets = [];
}
