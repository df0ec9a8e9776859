-- ===== src/Api.antt =====
-- The HTTP surface (app/api/main.py): the gate between turns and changes of the configuration, the
-- pool of sessions, who is let in, and the handlers that write to the tenant store. Here what these
-- share: replies, requests, and the settings (app/config.py) that they read.
pub mod Gate
pub mod Sessions
pub mod Access
pub mod Admin
pub mod Onboarding
pub mod Signatures
pub mod Webhooks
pub mod Chat
pub mod Remediation
use dev_ops_copilot.Base.{ℕ, String, Bool, Option, none, some, ◌<>◌}

-- The answer of a dependency or handler: a value, an `HTTPException` with its status and detail, or
-- an exception that becomes a 500.
pub data Reply (A : Type 0) : Type 0 where
  ok : A → Reply A
  refused : (status : ℕ) → (detail : String) → Reply A
  crashed : Reply A

infixl 5 ◌>>=◌ ◌>>◌
abbrev pub ◌>>=◌ : {A B : Type 0} → Reply A → (A → Reply B) → Reply B
ok a >>= f = f a
refused status detail >>= f = refused status detail
crashed >>= f = crashed

abbrev pub ◌>>◌ : {A B : Type 0} → Reply A → Reply B → Reply B
m >> k = m >>= λ _. k

abbrev pub is_ok : {A : Type 0} → Reply A → Bool
is_ok (ok _) = Bool.true
is_ok _ = Bool.false

-- A header that is missing is `none`; so is a content length that is no number.
pub record Request : Type 0 where
  pub method : String
  pub path : String
  pub authorization : Option String
  pub content_length : Option ℕ
  pub forwarded_for : Option String
  pub client_host : Option String

pub record ApiSettings : Type 0 where
  pub multi_tenant : Bool
  pub api_token : String
  pub max_body_bytes : ℕ
  pub rate_limit_per_min : ℕ
  pub trust_proxy : Bool
  pub global_token_cap : ℕ
  pub max_message_chars : ℕ
  pub max_sessions : ℕ
  pub signup_enabled : Bool
  pub scim_token : String
  pub scim_org : String
  pub scim_default_role : String
