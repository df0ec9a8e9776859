-- ===== src/Base/Value.antt =====
-- The values of a tool call's arguments, by what the source asks of them.
use Prim.Native.String.{String}
use mathlib.Core.Bool.{Bool, true, false}
use mathlib.Core.Option.{Option, none, some}
use dev_ops_copilot.Base.Tests.{if◌then◌else◌, eqb}
use dev_ops_copilot.Base.Equality.{◌==◌, string_eq}
use dev_ops_copilot.Base.Int.{ℤ, pos, negsuc, show_ℤ}

-- A JSON value. What is neither null, a Boolean, an integer nor a text (a float, a list, an
-- object) is carried by its rendering under `str`, its conversion under `int`, `none` where that
-- raises, and its truth value. A text carries its conversion too.
pub data Value : Type 0 where
  null : Value
  boolean : Bool → Value
  int : ℤ → Value
  text : String → Option ℤ → Value
  other : String → Option ℤ → Bool → Value

-- `int(v)`; `none` is a `TypeError` or a `ValueError`.
abbrev pub to_int : Value → Option ℤ
to_int null = none
to_int (boolean true) = some (pos 1)
to_int (boolean false) = some (pos 0)
to_int (int n) = some n
to_int (text s n) = n
to_int (other s n b) = n

-- `str(v)`
unfoldable pub to_str : Value → String
unfolding show_ℤ
to_str null = "None"
to_str (boolean true) = "True"
to_str (boolean false) = "False"
to_str (int n) = show_ℤ n
to_str (text s n) = s
to_str (other s n b) = s

-- `bool(v)`
abbrev pub truthy : Value → Bool
truthy null = false
truthy (boolean b) = b
truthy (int n) = elim n [ pos k ↦ if eqb k 0 then false else true | negsuc k ↦ true ]
truthy (text s n) = if s == "" then false else true
truthy (other s n b) = b
