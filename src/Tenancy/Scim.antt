-- ===== src/Tenancy/Scim.antt =====
-- SCIM payloads (app/tenancy/scim.py). A payload is by what the module asks of it: the texts under
-- its keys, "" where they are missing or null, and `none` for values that are no texts.
use dev_ops_copilot.Base.{
  ℕ, String, Bool, true, false, List, [], ◌∷◌, ◌||◌, any_of, length, ◌==◌, string_eq, if◌then◌else◌,
}
use dev_ops_copilot.Base.Text.{strip}
use dev_ops_copilot.Base.Case.{lower_str}

-- The field `active` of a payload or of an operation's value.
pub data Active : Type 0 where
  missing : Active
  is_bool : Bool → Active
  other : (truthy : Bool) → Active

-- `payload["emails"]`: no list, an empty one, or one whose first element is an object with a value,
-- or something else.
pub data Emails : Type 0 where
  no_emails : Emails
  first_value : String → Emails
  first_odd : Emails

pub record Payload : Type 0 where
  pub user_name : String
  pub emails : Emails
  pub active : Active
  pub external_id : String

pub record ScimUser : Type 0 where
  pub email : String
  pub active : Bool
  pub external_id : String

abbrev pub email_of : Emails → String
email_of no_emails = ""
email_of (first_value v) = lower_str (strip v)
email_of first_odd = ""

-- `bool(payload.get("active", True))`
abbrev pub active_of : Active → Bool
active_of missing = true
active_of (is_bool b) = b
active_of (other b) = b

unfoldable pub parse_scim_user : Payload → ScimUser
parse_scim_user p =
    let name = lower_str (strip p.user_name) in
    record {
      email = (if name == "" then email_of p.emails else name);
      active = active_of p.active;
      external_id = p.external_id;
    }

-- The resource that is rendered: its schema, the name under which the address stands twice, and the
-- roles.
pub record Resource : Type 0 where
  pub id : String
  pub user_name : String
  pub active : Bool
  pub emails : List String
  pub roles : List String

unfoldable pub to_scim_user : String → String → Bool → String → Resource
to_scim_user user_id email active role = record {
  id = user_id;
  user_name = email;
  active = active;
  emails = email ∷ [];
  roles = (if role == "" then [] else role ∷ []);
}

pub record ListResponse : Type 0 where
  pub total_results : ℕ
  pub resources : List Resource
  pub start_index : ℕ
  pub items_per_page : ℕ

unfoldable pub scim_list : List Resource → ListResponse
scim_list rs = record {
  total_results = length rs;
  resources = rs;
  start_index = 1;
  items_per_page = length rs;
}

-- The value of an operation of a PATCH: a Boolean, an object with a field `active`, or another.
pub data OpValue : Type 0 where
  bool_value : Bool → OpValue
  object : Active → OpValue
  other_value : OpValue

abbrev pub sets_inactive : Active → Bool
sets_inactive (is_bool false) = true
sets_inactive _ = false

abbrev pub op_deprovisions : OpValue → Bool
op_deprovisions (bool_value b) = if b then false else true
op_deprovisions (object a) = sets_inactive a
op_deprovisions other_value = false

unfoldable pub is_deprovision : Active → List OpValue → Bool
is_deprovision active operations = sets_inactive active || any_of op_deprovisions operations
