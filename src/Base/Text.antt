-- ===== src/Base/Text.antt =====
-- Texts as lists of code points, and the tokens of app/graph/nodes.py.
use Prim.Native.Nat.{ℕ, zero, suc, ◌+◌}
use Prim.Native.Char.{code}
use Prim.Native.String.{String}
use mathlib.Core.Bool.{Bool, ◌&&◌, ◌||◌, true, false}
use mathlib.Core.Path.{◌≡◌, refl}
use mathlib.Core.List.{List, [], ◌∷◌, reverse}
use dev_ops_copilot.Base.Tests.{if◌then◌else◌, leb, eqb}
use dev_ops_copilot.Base.Equality.{Eq, contains}
use dev_ops_copilot.Base.Lists.{length}

abbrev pub codes : String → List ℕ
codes String.[] = []
codes (String.◌∷◌ c s) = code c ∷ codes s

abbrev pub is_upper : ℕ → Bool
is_upper c = leb b'A' c && leb c b'Z'

-- `str.lower` on the ASCII letters; other characters stay.
abbrev pub lower : ℕ → ℕ
lower c = if is_upper c then c + 32 else c

abbrev pub is_alnum : ℕ → Bool
is_alnum c = (leb b'a' c && leb c b'z') || (leb b'0' c && leb c b'9')

-- The maximal runs of characters in a class, each `least` characters long at least: what
-- `re.findall(r"[class]{least,}", text)` returns. `run` holds the current run, reversed.
unfoldable pub runs : (ℕ → Bool) → ℕ → List ℕ → List ℕ → List (List ℕ)
runs class least run [] = if leb least (length run) then reverse run ∷ [] else []
runs class least run (c ∷ cs) =
    let rest = runs class least [] cs in
    let longer = runs class least (c ∷ run) cs in
    if class c then longer else if leb least (length run) then reverse run ∷ rest else rest

-- The distinct elements, in the order of their first occurrence: a set's elements.
unfoldable pub distinct {ℓ} : {A : Type ℓ} ⦃e : Eq A⦄ → List A → List A → List A
distinct seen [] = []
distinct seen (x ∷ xs) =
    let rest = distinct (x ∷ seen) xs in
    let skipped = distinct seen xs in if contains seen x then skipped else x ∷ rest

-- The white space that `str.strip` removes, as far as it is ASCII.
abbrev pub is_space : ℕ → Bool
is_space c = eqb c 32 || (leb 9 c && leb c 13) || (leb 28 c && leb c 31)

-- `not text.strip()`
abbrev pub is_blank : String → Bool
is_blank String.[] = true
is_blank (String.◌∷◌ c s) = is_space (code c) && is_blank s

unfoldable pub lstrip : String → String
lstrip String.[] = String.[]
lstrip (String.◌∷◌ c s) = if is_space (code c) then lstrip s else String.◌∷◌ c s

unfoldable pub reverse_onto : String → String → String
reverse_onto acc String.[] = acc
reverse_onto acc (String.◌∷◌ c s) = reverse_onto (String.◌∷◌ c acc) s

-- `text.strip()`
unfoldable pub strip : String → String
unfolding lstrip reverse_onto
strip s = reverse_onto String.[] (lstrip (reverse_onto String.[] (lstrip s)))

-- `text[:n]`, by characters.
unfoldable pub take_chars : ℕ → String → String
take_chars zero s = String.[]
take_chars (suc n) String.[] = String.[]
take_chars (suc n) (String.◌∷◌ c s) = String.◌∷◌ c (take_chars n s)

-- `text[n:]`, by characters.
unfoldable pub drop_chars : ℕ → String → String
drop_chars zero s = s
drop_chars (suc n) String.[] = String.[]
drop_chars (suc n) (String.◌∷◌ c s) = drop_chars n s

-- `text.startswith(prefix)`, with the prefix first.
unfoldable pub starts_with : String → String → Bool
starts_with String.[] s = true
starts_with (String.◌∷◌ p ps) String.[] = false
starts_with (String.◌∷◌ p ps) (String.◌∷◌ c s) = eqb (code p) (code c) && starts_with ps s

-- `sub in text`
abbrev pub has_text : String → String → Bool
has_text sub String.[] = starts_with sub String.[]
has_text sub (String.◌∷◌ c s) = starts_with sub (String.◌∷◌ c s) || has_text sub s

-- `text.upper().startswith(word)`, for a word given in lower case.
unfoldable pub starts_with_word : List ℕ → List ℕ → Bool
starts_with_word [] cs = true
starts_with_word (w ∷ ws) [] = false
starts_with_word (w ∷ ws) (c ∷ cs) = eqb w (lower c) && starts_with_word ws cs

-- The line breaks of `str.splitlines`.
abbrev is_break : ℕ → Bool
is_break c =
    (leb 10 c && leb c 13) || (leb 28 c && leb c 30) || eqb c 133 || eqb c 8232 || eqb c 8233

abbrev add_line : String → List String → List String
add_line line lines = if is_blank line then lines else strip line ∷ lines

lines_from : String → String → List String
unfolding strip
lines_from line String.[] = add_line (reverse_onto String.[] line) []
lines_from line (String.◌∷◌ c s) =
    let next = lines_from String.[] s in
    let longer = lines_from (String.◌∷◌ c line) s in
    if is_break (code c) then add_line (reverse_onto String.[] line) next else longer

-- `[ln.strip() for ln in text.splitlines() if ln.strip()]`
unfoldable pub stripped_lines : String → List String
unfolding lines_from
stripped_lines s = lines_from String.[] s

stripped_lines_two : stripped_lines " a b \n\n c" ≡ "a b" ∷ "c" ∷ []
unfolding stripped_lines
stripped_lines_two = refl
