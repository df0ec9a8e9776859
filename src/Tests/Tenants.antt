-- ===== src/Tests/Tenants.antt =====
-- The tenant store's theorems at a store with two organisations.
use dev_ops_copilot.Base.{
  ◌&&◌, not, keep, take, length, ◌≡◌, ◌≢◌, refl, inr, String, true, false, some, [], ◌∷◌, string_eq,
  str_ne, none, take, keep,
}
use dev_ops_copilot.Base.Case.{lower_str}
use dev_ops_copilot.Base.Text.{strip}
use dev_ops_copilot.Tenancy.Plans.{within_quota, quota, normalize_plan}
use dev_ops_copilot.Tests.Stores.{acme, beta, acme_key, leaked_key, digest, cipher, two_orgs}
use dev_ops_copilot.Tenancy.{ApiKey, Store}
use dev_ops_copilot.Tenancy.Roles.{rank_of, normalize_role}
use dev_ops_copilot.Tenancy.Orgs.{get_org}
use dev_ops_copilot.Tenancy.Keys.{
  parse_key, usable_row, resolve_api_key, revoke_api_key, issue_api_key,
}
use dev_ops_copilot.Tenancy.Keys.Laws.{
  Resolved, Usable, resolve_api_key_sound, revoke_api_key-final, issue_api_key-resolves,
  NoUnderscore,
}
use dev_ops_copilot.Tenancy.Vault.{decrypt_with, new_wrapped_dek, encrypt, decrypt}
use dev_ops_copilot.Tenancy.Secrets.Rotation.{fresh_dek, rotate_org_dek-keeps}
use dev_ops_copilot.Base.Dict.{Dict}
use dev_ops_copilot.Tenancy.Secrets.{
  rotate_org_dek, get_integration_secrets, dec, wrapped_dek, put_row,
}
use dev_ops_copilot.Tenancy.Usage.{
  record_usage, usage_total, unsynced_usage, over_quota, sort_by_ts, is_unsynced,
}
use dev_ops_copilot.Tenancy.Usage.Laws.{record_usage-idempotent}
use dev_ops_copilot.Tenancy.Usage.Billing.{
  sync_usage_to_stripe, sync_usage_to_stripe-once, plan_from_stripe_event, was_sent, is_accepted,
}
use dev_ops_copilot.Tenancy.Erasure.{
  gdpr_delete_org, holdings, gdpr_delete_org-erases, gdpr_delete_org-isolates,
}

resolve_api_key_sound_example :
    Resolved digest "2026-02-01" "dcp_ab12_s3cret" two_orgs acme
      (record acme_key { last_used_at = "2026-02-01" })
unfolding resolve_api_key usable_row parse_key get_org
resolve_api_key_sound_example =
    resolve_api_key_sound digest "2026-02-01" "dcp_ab12_s3cret" two_orgs acme
      (record acme_key { last_used_at = "2026-02-01" }) refl

abbrev used_key : ApiKey
used_key = record acme_key { last_used_at = "2026-02-02" }

-- The other key of the organisation goes on to work.
revoke_api_key-final_example : used_key.id ≢ leaked_key.id
unfolding resolve_api_key usable_row parse_key get_org revoke_api_key
revoke_api_key-final_example =
    revoke_api_key-final digest "2026-02-01" "2026-02-02" "dcp_ab12_s3cret" leaked_key.id "o1"
      two_orgs acme used_key (str_ne "2026-02-01" "" refl) refl (inr refl)

issue_api_key-resolves_example : Usable digest "2026-02-01" beta (
    issue_api_key digest "k2" "cd34" "t0ken" "2026-01-05" "2026-04-05" 90 "o2" "ops" "admin"
      two_orgs)
unfolding get_org NoUnderscore
issue_api_key-resolves_example =
    issue_api_key-resolves digest "k2" "cd34" "t0ken" "2026-01-05" "2026-04-05" 90 "o2" "ops"
      "admin" two_orgs beta "2026-02-01" refl (refl, (refl, (refl, (refl, tt))))
      (refl, (refl, (refl, (refl, (refl, tt))))) refl (inr refl)

abbrev with_secret : Store
with_secret = put_row "o1" "GITHUB_TOKEN" "2026-01-03" "tok" two_orgs

abbrev secrets : Dict String String
secrets = ("GITHUB_TOKEN", "tok") ∷ []

rotate_org_dek-keeps_example :
    (s' : Store) × (rotate_org_dek cipher "kek" "o1" "w2" with_secret ≡ some (s', true))
    × (wrapped_dek "o1" s' ≡ fresh_dek cipher "kek" "w2" "o1")
    × (get_integration_secrets cipher "kek" "o1" s' ≡ some secrets)
unfolding get_integration_secrets wrapped_dek dec decrypt_with decrypt new_wrapped_dek encrypt
rotate_org_dek-keeps_example =
    rotate_org_dek-keeps cipher "kek" "w2" "o1" secrets with_secret (str_ne "w2" "" refl)
      (str_ne "w" "" refl) (refl, tt) refl

record_usage-idempotent_example :
    record_usage "u3" "2026-01-06" "o1" "investigation" 1 "o1:investigation:r2"
      (record_usage "u2" "2026-01-05" "o1" "investigation" 1 "o1:investigation:r2" two_orgs)
    ≡ record_usage "u2" "2026-01-05" "o1" "investigation" 1 "o1:investigation:r2" two_orgs
record_usage-idempotent_example =
    record_usage-idempotent "u2" "2026-01-05" "o1" "investigation" 1 "o1:investigation:r2" "u3"
      "2026-01-06" "o1" "investigation" 1 two_orgs (str_ne "o1:investigation:r2" "" refl) refl

abbrev org_1 : String
org_1 = "o1"

abbrev investigation : String
investigation = "investigation"

abbrev no_bound : String
no_bound = ""

sync_usage_to_stripe-once_example :
    (unsynced_usage "investigation" 500
        (sync_usage_to_stripe (λ _. true) "investigations" 500 two_orgs).0
      ≡ take 500 (
          sort_by_ts (
            keep
              (λ r.
                is_unsynced "investigation" r
                && not (
                    was_sent
                      (λ _. true)
                      "investigations"
                      two_orgs
                      (unsynced_usage "investigation" 500 two_orgs)
                      r.id))
              two_orgs.usage)))
    × ((sync_usage_to_stripe (λ _. true) "investigations" 500 two_orgs).1
        ≡ length (
            keep
              (is_accepted (λ _. true) "investigations" two_orgs)
              (unsynced_usage "investigation" 500 two_orgs)))
sync_usage_to_stripe-once_example =
    sync_usage_to_stripe-once (λ _. true) "investigations" 500 two_orgs "investigation" 500

gdpr_delete_org-erases_example :
    ((gdpr_delete_org "o1" two_orgs).1 ≡ true)
    × (holdings "o1" (gdpr_delete_org "o1" two_orgs).0 ≡ ([], [], [], [], []))
gdpr_delete_org-erases_example = gdpr_delete_org-erases "o1" two_orgs refl

gdpr_delete_org-isolates_example :
    holdings "o2" (gdpr_delete_org "o1" two_orgs).0 ≡ holdings "o2" two_orgs
gdpr_delete_org-isolates_example =
    gdpr_delete_org-isolates "o1" "o2" two_orgs (str_ne "o2" "o1" refl)

normalize_role_two : normalize_role " Admin\n" ≡ "admin"
unfolding normalize_role rank_of lower_str strip
normalize_role_two = refl

unknown_role : normalize_role "root" ≡ "viewer"
unfolding normalize_role rank_of lower_str strip
unknown_role = refl

full_seats : within_quota "free" "seats" 3 ≡ false
unfolding within_quota quota normalize_plan lower_str strip
full_seats = refl

no_limit : within_quota "Enterprise " "seats" 1000 ≡ true
unfolding within_quota quota normalize_plan lower_str strip
no_limit = refl

expired_key : (resolve_api_key digest "2026-04-01" "dcp_ab12_s3cret" two_orgs).1 ≡ none
unfolding resolve_api_key usable_row parse_key get_org
expired_key = refl

wrong_scheme : parse_key "sk_ab12_s3cret" ≡ none
unfolding parse_key
wrong_scheme = refl

cancelled_plan :
    plan_from_stripe_event
      (record { event_type = "customer.subscription.deleted"; org_id = " o1 "; plan = "team" })
    ≡ some ("o1", "free")
unfolding plan_from_stripe_event strip lower_str
cancelled_plan = refl

synced_once : (sync_usage_to_stripe (λ _. true) "investigations" 500 two_orgs).1 ≡ 1
unfolding sync_usage_to_stripe unsynced_usage get_org
synced_once = refl

spent_quota : over_quota (some ("o1", "free")) "2026-01-01" two_orgs ≡ false
unfolding over_quota usage_total within_quota quota normalize_plan lower_str strip
spent_quota = refl
