-- ===== src/Report/Corroboration.antt =====
-- `_verify_grounding` (app/graph/nodes.py): the cited evidence is checked against what the tools
-- returned. `salient_tokens` stands on the ASCII characters of a text.
use dev_ops_copilot.Base.{
  ℕ, ◌+◌, ◌*◌, String, Bool, true, false, some, List, [], ◌∷◌, ◌++◌, ◌&&◌, ◌||◌, map, not, ltb, leb,
  eqb, length, take, keep, contains, Eq, nat_eq, ◌↔◌, ◌≡◌, refl, arith, if◌then◌else◌,
}
use dev_ops_copilot.Base.Text.{codes, lower, is_alnum, runs, distinct}
use dev_ops_copilot.Policy.{low}
use dev_ops_copilot.Report.{Report, evidence_of}

abbrev pub Token : Type 0
Token = List ℕ

abbrev token_beq : Token → Token → Bool
token_beq [] [] = true
token_beq [] (_ ∷ _) = false
token_beq (_ ∷ _) [] = false
token_beq (c ∷ s) (d ∷ t) = eqb c d && token_beq s t

pub token_beq_iff : (s t : Token) → (token_beq s t ≡ true) ↔ (s ≡ t)
token_beq_iff [] [] = (λ _. refl, λ _. refl)
token_beq_iff [] (_ ∷ _) = ground arith
token_beq_iff (_ ∷ _) [] = ground arith
token_beq_iff (c ∷ s) (d ∷ t) = ground (arith, token_beq_iff s t)

instance abbrev pub token_eq : Eq Token
token_eq = record { beq = token_beq; beq_iff = token_beq_iff }

-- `_GROUND_STOP`
abbrev ground_stop : List Token
ground_stop = map codes (
    "the" ∷ "and" ∷ "for" ∷ "with" ∷ "that" ∷ "this" ∷ "from" ∷ "into" ∷ "was" ∷ "were" ∷ "has"
    ∷ "have" ∷ "not" ∷ "but" ∷ "its" ∷ "are" ∷ "out" ∷ "due" ∷ "see" ∷ "via" ∷ [])

abbrev is_token_char : ℕ → Bool
is_token_char c = is_alnum c || (eqb c b'_' || (eqb c b'.' || (eqb c b'/' || eqb c b':')))

-- `_salient_tokens`: a set, as the list of its elements.
unfoldable pub salient_tokens : String → List Token
unfolding runs distinct
salient_tokens text =
    keep (λ t. not (contains ground_stop t))
      (distinct [] (runs is_token_char 3 [] (map lower (codes text))))

-- `len(toks & digest_tokens)`
abbrev pub shared : List Token → List Token → ℕ
shared toks digest = length (keep (contains digest) toks)

-- `overlap >= 0.4`, for `len(toks & digest_tokens) / len(toks)`.
abbrev pub is_grounded : List Token → List Token → Bool
is_grounded digest toks = leb (2 * length toks) (5 * shared toks digest)

-- The items that the loop counts as grounded, and those that it does not. Items without tokens
-- are in neither.
unfoldable pub split_items : List Token → List String → List String × List String
unfolding salient_tokens
split_items digest [] = ([], [])
split_items digest (ev ∷ items) =
    let (good, bad) = split_items digest items in
    elim (salient_tokens ev) [
      | [] ↦ (good, bad)
      | t ∷ ts ↦ if is_grounded digest (t ∷ ts) then (ev ∷ good, bad) else (good, ev ∷ bad)
    ]

abbrev pub need_corroboration : String
need_corroboration =
    "Cited evidence is not corroborated by the observed tool output — re-verify each claim against logs/metrics/traces."

-- Half of the checked items or more are not grounded, of two or more.
abbrev pub is_poor : ℕ → ℕ → Bool
is_poor good bad = leb 2 (good + bad) && ltb (2 * good) (good + bad)

abbrev pub finish : Report → List String → List String → Report
finish r good bad =
    let checked = record r {
      grounding = some (record {
        checked = length good + length bad;
        grounded = length good;
        ungrounded_examples = take 3 bad;
      });
    } in
    if is_poor (length good) (length bad)
    then record checked {
      calibrated_confidence = some low;
      abstained = true;
      needs = r.needs ++ need_corroboration ∷ [];
    }
    else checked

abbrev pub cited : Report → List String
cited r = r.evidence ++ evidence_of r.hypotheses

abbrev pub unchecked : Report → Report
unchecked r = record r {
  grounding = some (record { checked = 0; grounded = 0; ungrounded_examples = [] });
}

unfoldable pub verify_grounding : Report → String → Report
unfolding split_items
verify_grounding r evidence_digest = elim (salient_tokens evidence_digest) [
  | [] ↦ unchecked r
  | d ∷ ds ↦ elim (cited r) [
    | [] ↦ unchecked r
    | i ∷ is ↦ let (good, bad) = split_items (d ∷ ds) (i ∷ is) in finish r good bad
  ]
]
