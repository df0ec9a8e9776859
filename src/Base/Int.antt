-- ===== src/Base/Int.antt =====
-- Signed integers over the native numbers, and their decimal print.
use Prim.Native.Nat.{ℕ, zero, suc, ◌/◌, ◌%◌}
use Prim.Native.String.{String, ◌++◌ as ◌<>◌}
use mathlib.Core.Path.{◌≡◌, refl}
use dev_ops_copilot.Base.Tests.{if◌then◌else◌, ltb, eqb}

-- `negsuc n` is -(n + 1).
pub data ℤ : Type 0 where
  pos : ℕ → ℤ
  negsuc : ℕ → ℤ

abbrev digit : ℕ → String
digit d =
    if eqb d 0
    then "0"
    else if eqb d 1
    then "1"
    else if eqb d 2
    then "2"
    else if eqb d 3
    then "3"
    else if eqb d 4
    then "4"
    else if eqb d 5
    then "5"
    else if eqb d 6
    then "6"
    else if eqb d 7
    then "7"
    else if eqb d 8
    then "8"
    else "9"

-- The fuel bounds the number of digits; `n + 1` digits are more than `n` has.
show_fuel : ℕ → ℕ → String
show_fuel zero n = ""
show_fuel (suc f) n =
    let front = show_fuel f (n / 10) in if ltb n 10 then digit n else front <> digit (n % 10)

unfoldable pub show_ℕ : ℕ → String
unfolding show_fuel
show_ℕ n = show_fuel (suc n) n

unfoldable pub show_ℤ : ℤ → String
unfolding show_ℕ
show_ℤ (pos n) = show_ℕ n
show_ℤ (negsuc n) = "-" <> show_ℕ (suc n)

show_negative : show_ℤ (pos 120) ≡ "120"
unfolding show_ℤ
show_negative = refl
