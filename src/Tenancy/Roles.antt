-- ===== src/Tenancy/Roles.antt =====
-- Roles and permissions (app/tenancy/models.py).
use dev_ops_copilot.Base.{
  ℕ, ◌≤◌, ◌≡◌, refl, String, Bool, true, false, Option, none, some, [], ◌∷◌, leb, string_eq, arith,
  is_some, if◌then◌else◌, Bool-cases, inl, inr,
}
use dev_ops_copilot.Base.Dict.{Dict, lookup}
use dev_ops_copilot.Base.Text.{strip}
use dev_ops_copilot.Base.Case.{lower_str}

-- `ROLE_RANK`
abbrev pub role_rank : Dict String ℕ
role_rank = ("viewer", 0) ∷ ("responder", 1) ∷ ("admin", 2) ∷ ("owner", 3) ∷ []

-- `_PERMISSIONS`, with the rank of the role that it names.
abbrev pub permissions : Dict String ℕ
permissions =
    ("view", 0)
    ∷ ("run_investigation", 1)
    ∷ ("approve_action", 1)
    ∷ ("manage_integrations", 2)
    ∷ ("manage_members", 2)
    ∷ ("manage_api_keys", 2)
    ∷ ("manage_billing", 3)
    ∷ ("delete_org", 3)
    ∷ []

unfoldable pub rank_of : String → Option ℕ
rank_of role = lookup role role_rank

unfoldable pub need_of : String → Option ℕ
need_of action = lookup action permissions

-- `ROLE_RANK.get(role, -1) >= ROLE_RANK[need]`, and false where there is no `need`.
abbrev pub reaches : Option ℕ → Option ℕ → Bool
reaches none rank = false
reaches (some need) none = false
reaches (some need) (some rank) = leb need rank

unfoldable pub can : String → String → Bool
can role action = reaches (need_of action) (rank_of role)

unfoldable pub normalize_role : String → String
normalize_role role = let r = lower_str (strip role) in if is_some (rank_of r) then r else "viewer"

-- A role may do whatever a lower-ranked role may.
pub can_mono :
    (low high action : String) (i j : ℕ)
    → rank_of low ≡ some i
    → rank_of high ≡ some j
    → i ≤ j
    → can low action ≡ true
    → can high action ≡ true
unfolding can
can_mono low high action i j hi hj le h = ground arith

viewer-known : is_some (rank_of "viewer") ≡ true
unfolding rank_of
viewer-known = refl

-- A normalized role is one of the table's: a stored role always has a rank.
pub normalize_role-known : (role : String) → is_some (rank_of (normalize_role role)) ≡ true
unfolding normalize_role
normalize_role-known role = elim (Bool-cases (is_some (rank_of (lower_str (strip role))))) [
  | inl known ↦ rw known known
  | inr unknown ↦ rw unknown viewer-known
]
