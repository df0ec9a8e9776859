-- ===== src/Tests/Admissions.antt =====
-- The theorems on who is let in and on what the administration does, at a store with two
-- organisations.
use dev_ops_copilot.Base.{
  ◌≡◌, refl, String, true, Option, none, some, List, [], ◌∷◌, string_eq, str_ne,
}
use dev_ops_copilot.Base.Text.{strip, starts_with, drop_chars, take_chars}
use dev_ops_copilot.Tests.Stores.{settings, acme_config, acme_key, digest, cipher, two_orgs}
use dev_ops_copilot.Tenancy.{User, Store}
use dev_ops_copilot.Tenancy.Roles.{can, rank_of, need_of}
use dev_ops_copilot.Tenancy.Orgs.{get_org}
use dev_ops_copilot.Tenancy.Keys.{parse_key, usable_row, resolve_api_key}
use dev_ops_copilot.Tenancy.Keys.Laws.{NoUnderscore}
use dev_ops_copilot.Tenancy.Secrets.{get_integration_secrets}
use dev_ops_copilot.Tenancy.Erasure.{holdings}
use dev_ops_copilot.Tenancy.Auth.{TenantConfig, enter, build_tenant_config, resolve}
use dev_ops_copilot.Api.{Request}
use dev_ops_copilot.Api.Access.{
  require_auth, require_perm, bearer_token, is_exempt, resolve_token, scoped,
}
use dev_ops_copilot.Api.Access.Laws.{NoColon, scoped_isolates, Credential, require_auth_sound}
use dev_ops_copilot.Api.Admin.{
  Draw, create_api_key, add_to_org, revoke_key, administer_all, change_plan, Asked, administer,
}
use dev_ops_copilot.Api.Admin.Pace.{Paced, administer_all-Paced}
use dev_ops_copilot.Api.Admin.Isolation.{administer_all-isolates}
use dev_ops_copilot.Api.Onboarding.{Fresh, signup}
use dev_ops_copilot.Api.Onboarding.Laws.{Opened, signup-Opened}

scoped_isolates_example : (acme_config.org_id ≡ "o1") × (◌≡◌ {A = String} "t1" "t1")
unfolding scoped NoColon
scoped_isolates_example =
    scoped_isolates acme_config acme_config "key:k1" "key:k2" "t1" "t1" (refl, (refl, tt))
      (refl, (refl, tt)) refl

abbrev request : Request
request = record {
  method = "POST";
  path = "/chat";
  authorization = some "Bearer dcp_ab12_s3cret";
  content_length = some 40;
  forwarded_for = none;
  client_host = some "10.0.0.7";
}

abbrev nobody : String → Option String
nobody token = none

require_auth_sound_example :
    (cfg : TenantConfig) × ((enter acme_config "key:k1").current_tenant ≡ some cfg)
    × Credential digest cipher "kek" nobody "2026-02-01"
        (bearer_token request.authorization)
        two_orgs
        cfg.org_id
        cfg.role
    × (can cfg.role "run_investigation" ≡ true)
unfolding require_auth require_perm can rank_of need_of is_exempt bearer_token resolve_token resolve
    resolve_api_key usable_row parse_key get_org build_tenant_config starts_with strip drop_chars
    get_integration_secrets take_chars
require_auth_sound_example =
    require_auth_sound digest cipher "kek" nobody settings "2026-02-01" "run_investigation" request
      two_orgs (enter acme_config "key:k1") refl refl refl refl

abbrev draw : Draw
draw = record {
  id = "k2";
  prefix = "cd34";
  raw = "t0ken";
  now = "2026-01-05";
  later = "2026-04-05";
}

-- The second active key of two, a member, the revocation of the first key and another plan, asked
-- with two credentials.
abbrev requests : List Asked
requests =
    record { role = "owner"; actor = "key:k1"; request = create_api_key draw "ops" "admin" }
    ∷ record {
      role = "owner";
      actor = "key:k1";
      request = add_to_org "p2" "2026-01-05" "ann@acme.com" "responder";
    }
    ∷ record { role = "admin"; actor = "key:k2"; request = revoke_key "2026-01-06" "k1" }
    ∷ record { role = "admin"; actor = "key:k2"; request = change_plan "team" }
    ∷ []

abbrev one_key : Store
one_key = record two_orgs { api_keys = record { key = acme_key; secret_hash = "s3cret" } ∷ [] }

administer_all-Paced_example :
    Paced digest cipher "kek" "o1" requests one_key
      (administer_all digest cipher "kek" "o1" requests one_key)
administer_all-Paced_example = administer_all-Paced digest cipher "kek" "o1" requests one_key

administer_all-isolates_example :
    (holdings "o2"
        (administer digest cipher "kek" (enter acme_config "key:k1") (change_plan "team") one_key)
      ≡ holdings "o2" one_key)
    × (holdings "o2" (administer_all digest cipher "kek" "o1" requests one_key)
        ≡ holdings "o2" one_key)
administer_all-isolates_example =
    administer_all-isolates digest cipher "kek" "key:k1" acme_config "o2" (str_ne "o2" "o1" refl)
      (str_ne "o1" "" refl) (change_plan "team") requests one_key

abbrev fresh : Fresh
fresh = record { org_id = "o3"; user_id = "p3"; wrapped_dek = ""; key = draw }

signup-Opened_example :
    Opened digest "2026-02-01" two_orgs
      (signup digest settings fresh " Gamma " "Zoe@gamma.io" two_orgs)
unfolding NoUnderscore
signup-Opened_example =
    signup-Opened digest settings fresh " Gamma " "Zoe@gamma.io" "2026-02-01" two_orgs
      (refl, (refl, (refl, (refl, (refl, tt)))), (refl, (refl, (refl, (refl, (refl, tt)))))) refl
      refl refl

abbrev ann : User
ann = record { id = "p1"; email = "ann@acme.com"; created_at = "2026-01-01" }

abbrev with_ann : Store
with_ann = record two_orgs { users = ann ∷ [] }
