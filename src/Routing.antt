-- ===== src/Routing.antt =====
-- Model routing (app/routing.py). The two regular expressions run in Python's `re`, and are
-- parameters: whether they are found in a text.
use dev_ops_copilot.Base.{String, Bool, true, false, ◌&&◌, if◌then◌else◌}

pub data Difficulty : Type 0 where
  simple complex : Difficulty

module _ (is_incident is_informational : String → Bool) where
  unfoldable pub classify_difficulty : String → Difficulty
  classify_difficulty text =
      if is_incident text then complex else if is_informational text then simple else complex

  unfoldable pub use_fast_model : String → Bool → Bool
  unfolding classify_difficulty
  use_fast_model request routing_enabled =
      routing_enabled && (elim (classify_difficulty request) [ simple ↦ true | complex ↦ false ])
