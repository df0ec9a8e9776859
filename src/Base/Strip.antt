-- ===== src/Base/Strip.antt =====
-- `text.strip()` once more changes nothing, and a text that is short enough is not cut.
use Prim.Native.Char.{Char, code}
use Prim.Native.Nat.{ℕ, zero, suc, ◌≤◌}
use Prim.Native.String.{String}
use mathlib.Core.Bool.{false}
use mathlib.Core.Path.{◌≡◌, refl, ap, ◌∙◌}
use mathlib.Core.Logic.{inl, inr, ◌⊎◌}
use native.Mathlib.Omega.{arith}
use dev_ops_copilot.Base.Tests.{Bool-cases}
use dev_ops_copilot.Base.Lists.{length}
use dev_ops_copilot.Base.Text.{is_space, lstrip, reverse_onto, strip, codes, take_chars}

-- The text begins, and ends, with a character that is no white space.
abbrev StartsInk : String → Type 0
StartsInk String.[] = ⊥
StartsInk (String.◌∷◌ c s) = is_space (code c) ≡ false

abbrev EndsInk : String → Type 0
EndsInk String.[] = ⊥
EndsInk (String.◌∷◌ c String.[]) = is_space (code c) ≡ false
EndsInk (String.◌∷◌ c (String.◌∷◌ d s)) = EndsInk (String.◌∷◌ d s)

EndsInk-cons : (c : Char) (s : String) → EndsInk s → EndsInk (String.◌∷◌ c s)
EndsInk-cons c String.[] e = absurd e
EndsInk-cons c (String.◌∷◌ d s) e = e

lstrip-StartsInk : (s : String) → StartsInk s → lstrip s ≡ s
unfolding lstrip
lstrip-StartsInk String.[] h = absurd h
lstrip-StartsInk (String.◌∷◌ c s) h = rw h refl

lstrip-cases : (s : String) → (lstrip s ≡ String.[]) ⊎ StartsInk (lstrip s)
unfolding lstrip
lstrip-cases String.[] = inl refl
lstrip-cases (String.◌∷◌ c s) = elim (Bool-cases (is_space (code c))) [
  | inl space ↦ rw space (lstrip-cases s)
  | inr ink ↦ rw ink (inr ink)
]

lstrip-EndsInk : (s : String) → EndsInk s → EndsInk (lstrip s)
unfolding lstrip
lstrip-EndsInk String.[] h = absurd h
lstrip-EndsInk (String.◌∷◌ c String.[]) h = rw h h
lstrip-EndsInk (String.◌∷◌ c (String.◌∷◌ d s)) h = elim (Bool-cases (is_space (code c))) [
  | inl space ↦ rw space (lstrip-EndsInk (String.◌∷◌ d s) h)
  | inr ink ↦ rw ink h
]

reverse-EndsInk : (acc s : String) → EndsInk acc → EndsInk (reverse_onto acc s)
unfolding reverse_onto
reverse-EndsInk acc String.[] h = h
reverse-EndsInk acc (String.◌∷◌ c s) h = reverse-EndsInk (String.◌∷◌ c acc) s (EndsInk-cons c acc h)

reverse-StartsInk : (acc s : String) → EndsInk s → StartsInk (reverse_onto acc s)
unfolding reverse_onto
reverse-StartsInk acc String.[] h = absurd h
reverse-StartsInk acc (String.◌∷◌ c String.[]) h = h
reverse-StartsInk acc (String.◌∷◌ c (String.◌∷◌ d s)) h =
    reverse-StartsInk (String.◌∷◌ c acc) (String.◌∷◌ d s) h

abbrev append : String → String → String
append String.[] t = t
append (String.◌∷◌ c s) t = String.◌∷◌ c (append s t)

append-nil : (s : String) → append s String.[] ≡ s
append-nil String.[] = refl
append-nil (String.◌∷◌ c s) = ap (String.◌∷◌ c) (append-nil s)

reverse_onto-reverse :
    (acc acc' s : String)
    → reverse_onto acc (reverse_onto acc' s) ≡ reverse_onto (append s acc) acc'
unfolding reverse_onto
reverse_onto-reverse acc acc' String.[] = refl
reverse_onto-reverse acc acc' (String.◌∷◌ c s) = reverse_onto-reverse acc (String.◌∷◌ c acc') s

reversed_twice : (s : String) → reverse_onto String.[] (reverse_onto String.[] s) ≡ s
unfolding reverse_onto
reversed_twice s = reverse_onto-reverse String.[] String.[] s ∙ append-nil s

lstrip_idem : (s : String) → lstrip (lstrip s) ≡ lstrip s
unfolding lstrip
lstrip_idem s = elim (lstrip-cases s) [
  | inl blank ↦ rw blank refl
  | inr ink ↦ lstrip-StartsInk (lstrip s) ink
]

abbrev strip_end : String → String
strip_end s = reverse_onto String.[] (lstrip (reverse_onto String.[] s))

-- A text that begins with ink still does once the white space behind is gone.
strip_end-StartsInk : (s : String) → StartsInk s → StartsInk (strip_end s)
unfolding reverse_onto
strip_end-StartsInk String.[] h = absurd h
strip_end-StartsInk (String.◌∷◌ c s) h =
    reverse-StartsInk String.[] (lstrip (reverse_onto (String.◌∷◌ c String.[]) s)) (
      lstrip-EndsInk (reverse_onto (String.◌∷◌ c String.[]) s)
        (reverse-EndsInk (String.◌∷◌ c String.[]) s h))

strip_end_idem : (s : String) → strip_end (strip_end s) ≡ strip_end s
strip_end_idem s =
    ap (λ u. reverse_onto String.[] (lstrip u)) (reversed_twice (lstrip (reverse_onto String.[] s)))
    ∙ ap (reverse_onto String.[]) (lstrip_idem (reverse_onto String.[] s))

pub strip_idem : (s : String) → strip (strip s) ≡ strip s
unfolding strip lstrip reverse_onto
strip_idem s = elim (lstrip-cases s) [
  | inl blank ↦ rw blank refl
  | inr ink ↦
      ap strip_end (lstrip-StartsInk (strip_end (lstrip s)) (strip_end-StartsInk (lstrip s) ink))
      ∙ strip_end_idem (lstrip s)
]

pub take_chars-short : (n : ℕ) (s : String) → length (codes s) ≤ n → take_chars n s ≡ s
unfolding take_chars
take_chars-short zero String.[] h = refl
take_chars-short (suc n) String.[] h = refl
take_chars-short zero (String.◌∷◌ c s) h = absurd (omega (arith, h))
take_chars-short (suc n) (String.◌∷◌ c s) h =
    ap (String.◌∷◌ c) (take_chars-short n s (omega (arith, h)))
