-- ===== src/Base/Json.antt =====
-- JSON values, as `json.loads` returns them, and the object that a model's reply holds.
use Prim.Native.Char.{code}
use Prim.Native.String.{String}
use mathlib.Core.Bool.{Bool, true, false}
use mathlib.Core.Path.{◌≡◌, refl}
use mathlib.Core.Option.{Option, none, some}
use mathlib.Core.List.{List, [], ◌∷◌}
use dev_ops_copilot.Base.Tests.{if◌then◌else◌, eqb}
use dev_ops_copilot.Base.Equality.{◌==◌, string_eq}

-- A number is its text, with whether it is other than zero.
mutual
  pub data Json : Type 0 where
    null : Json
    boolean : Bool → Json
    number : String → (nonzero : Bool) → Json
    text : String → Json
    array : Items → Json
    object : Fields → Json

  pub data Items : Type 0 where
    nil : Items
    cons : Json → Items → Items

  pub data Fields : Type 0 where
    end : Fields
    field : String → Json → Fields → Fields

-- The elements of an array.
abbrev pub elements : Items → List Json
elements nil = []
elements (cons v vs) = v ∷ elements vs

-- `data.get(key)`
abbrev pub get : String → Fields → Option Json
get key end = none
get key (field k v fs) = if key == k then some v else get key fs

-- `bool(v)`
abbrev pub is_true : Json → Bool
is_true null = false
is_true (boolean b) = b
is_true (number s nonzero) = nonzero
is_true (text s) = if s == "" then false else true
is_true (array nil) = false
is_true (array (cons v vs)) = true
is_true (object end) = false
is_true (object (field k v fs)) = true

-- What Python makes of a value that is not a text: `str(v)`, and `json.dumps(v, default=str)`.
pub record Printer : Type 0 where
  pub str : Json → String
  pub dumps : Json → String

abbrev pub str_of : Printer → Json → String
str_of p (text s) = s
str_of p v = p.str v

-- `str(data.get(key, ""))`
abbrev pub str_or_empty : Printer → Option Json → String
str_or_empty p none = ""
str_or_empty p (some v) = str_of p v

-- From the first opening brace on.
abbrev from_brace : String → String
from_brace String.[] = String.[]
from_brace (String.◌∷◌ c s) =
    let rest = from_brace s in if eqb (code c) 123 then String.◌∷◌ c s else rest

-- Up to the last closing brace, where there is one.
abbrev upto_brace : String → Option String
upto_brace String.[] = none
upto_brace (String.◌∷◌ c s) = elim (upto_brace s) [
  | some p ↦ some (String.◌∷◌ c p)
  | none ↦ if eqb (code c) 125 then some (String.◌∷◌ c String.[]) else none
]

-- `text[text.find("{") : text.rfind("}") + 1]`, where the first stands before the second.
unfoldable pub braced : String → Option String
braced s = upto_brace (from_brace s)

abbrev pub fields_of : Option Json → Option Fields
fields_of (some (object fs)) = some fs
fields_of _ = none

abbrev pub loaded : (String → Option Json) → Option String → Option Fields
loaded loads none = none
loaded loads (some s) = fields_of (loads s)

-- The object in a reply, with `loads` for `json.loads`, `none` where that raises.
unfoldable pub reply_object : (String → Option Json) → String → Option Fields
unfolding braced
reply_object loads reply = loaded loads (braced reply)

braced_test : braced "so } {\"a\": {}} ." ≡ some "{\"a\": {}}"
unfolding braced
braced_test = refl
