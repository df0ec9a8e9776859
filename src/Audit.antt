-- ===== src/Audit.antt =====
-- The hash-chained audit trail (app/audit.py). An entry is its fields other than `prev_hash` and
-- `hash`, and those two where it has them. `sha256` is the digest, in hexadecimal, and `dumps` the
-- JSON text of a dict with its keys sorted.
pub mod Chain
pub mod Overflow
use dev_ops_copilot.Base.{
  ℕ, ◌+◌, ◌-◌, ◌<>◌, String, Bool, true, false, Option, none, some, List, [], ◌∷◌, ◌++◌, ◌&&◌, not,
  ltb, length, drop, keep, eqb, ◌==◌, string_eq, if◌then◌else◌,
}
use dev_ops_copilot.Base.Dict.{Dict, get_or}
use dev_ops_copilot.Base.Value.{Value, text, to_str}
use dev_ops_copilot.Base.Text.{starts_with}
use mathlib.Core.List.{reverse}

pub record Entry : Type 0 where
  pub body : Dict String Value
  pub prev_hash : Option String
  pub hash : Option String

-- The module's buffer and the running hash.
pub record Trail : Type 0 where
  pub buffer : List Entry
  pub last_hash : String

-- `clear`
abbrev pub cleared : Trail
cleared = record { buffer = []; last_hash = "" }

-- `deque(maxlen=2000)`
abbrev pub buffer_size : ℕ
buffer_size = 2000

-- `deque.append`: the oldest entry goes once there are too many.
unfoldable pub append_bounded : List Entry → Entry → List Entry
append_bounded buffer e =
    let entries = buffer ++ e ∷ [] in
    if ltb buffer_size (length entries) then drop 1 entries else entries

-- `{"valid": …, "count": …}`, with where the chain breaks.
pub data Verdict : Type 0 where
  valid : ℕ → Verdict
  broken : ℕ → ℕ → Verdict

abbrev pub is_valid : Verdict → Bool
is_valid (valid _) = true
is_valid (broken _ _) = false

-- `e.get(field) == s`
abbrev pub field_is : Option String → String → Bool
field_is none s = false
field_is (some t) s = t == s

-- `e["hash"]`, once the entry has one.
abbrev pub hash_or_empty : Option String → String
hash_or_empty none = ""
hash_or_empty (some h) = h

-- `str(e.get("event", "")).startswith(event_prefix)`
abbrev is_named : String → Entry → Bool
is_named event_prefix e = starts_with event_prefix (to_str (get_or "event" (text "" none) e.body))

-- `recent`, for a limit that is not negative; `items[-0:]` is every item.
unfoldable pub recent : ℕ → String → Trail → List Entry
recent limit event_prefix t =
    let items = if event_prefix == "" then t.buffer else keep (is_named event_prefix) t.buffer in
    reverse (if eqb limit 0 then items else drop (length items - limit) items)

module _ (sha256 : String → String) (dumps : Dict String Value → String) where
  -- `_chain_hash`
  unfoldable pub chain_hash : Dict String Value → String → String
  chain_hash body prev_hash = sha256 (dumps body <> prev_hash)

  unfoldable pub chained_entry : Dict String Value → String → Entry
  unfolding chain_hash
  chained_entry body prev = record {
    body = body;
    prev_hash = some prev;
    hash = some (chain_hash body prev);
  }

  -- `record`, for the body that the event's name, time, tenant and fields make.
  unfoldable pub record_event : Dict String Value → Trail → Trail
  unfolding chained_entry append_bounded
  record_event body t = record {
    buffer = append_bounded t.buffer (chained_entry body t.last_hash);
    last_hash = chain_hash body t.last_hash;
  }

  unfoldable pub link_ok : String → Entry → Bool
  unfolding chain_hash
  link_ok prev e = field_is e.hash (chain_hash e.body prev) && field_is e.prev_hash prev

  -- The loop of `verify_chain` from the `i`-th entry on.
  unfoldable pub verify_from : ℕ → ℕ → String → List Entry → Verdict
  unfolding link_ok
  verify_from count i prev [] = valid count
  verify_from count i prev (e ∷ es) =
      let rest = verify_from count (i + 1) (hash_or_empty e.hash) es in
      if link_ok prev e then rest else broken i count

  unfoldable pub verify_chain : List Entry → Verdict
  unfolding verify_from
  verify_chain items = verify_from (length items) 0 "" items
