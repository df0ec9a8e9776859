-- ===== src/Base/Case.antt =====
-- `str.lower`, on the ASCII letters; other characters stay.
use Prim.Native.Char.{Char, code, char, nul, IsScalar}
use Prim.Native.String.{String, compare as compare_str}
use mathlib.Core.Bool.{Bool, true, false, ◌&&◌}
use Prim.Native.Nat.{ℕ, ◌+◌, compare, Ordering, ◌-◌}
use mathlib.Core.Path.{◌≡◌, refl}
use dev_ops_copilot.Base.Tests.{if◌then◌else◌, leb}
use dev_ops_copilot.Base.Text.{is_upper}

low_scalar : (n : ℕ) (o : Ordering) → compare n 55296 ≡ o → Char
low_scalar n Ordering.lt e = char n (rw (e, IsScalar) tt)
low_scalar n Ordering.eq e = nul
low_scalar n Ordering.gt e = nul

abbrev lower_char : Char → Char
lower_char c =
    if is_upper (code c) then low_scalar (code c + 32) (compare (code c + 32) 55296) refl else c

unfoldable pub lower_str : String → String
unfolding low_scalar
lower_str String.[] = String.[]
lower_str (String.◌∷◌ c s) = String.◌∷◌ (lower_char c) (lower_str s)

abbrev upper_char : Char → Char
upper_char c =
    if leb b'a' (code c) && leb (code c) b'z'
    then low_scalar (code c - 32) (compare (code c - 32) 55296) refl
    else c

-- `str.upper`, on the ASCII letters; other characters stay.
unfoldable pub upper_str : String → String
unfolding low_scalar
upper_str String.[] = String.[]
upper_str (String.◌∷◌ c s) = String.◌∷◌ (upper_char c) (upper_str s)

test_lower : lower_str "ResPONDER é" ≡ "responder é"
unfolding lower_str
test_lower = refl

-- `a <= b` on texts.
abbrev pub le_str : String → String → Bool
le_str a b = elim (compare_str a b) [ Ordering.gt ↦ false | _ ↦ true ]
