-- ===== src/Report/Parse/Bounds.antt =====
-- The shape of every report that comes out of a reply, whatever the reply is.
use Prim.Native.Char.{Char}
use dev_ops_copilot.Base.{
  ℕ, zero, suc, ◌≤◌, ◌<◌, ◌≡◌, ◌≢◌, refl, String, false, Option, none, some, List, [], ◌∷◌, ◌==◌,
  string_eq, length, All, arith, Bool-cases, Option-cases, inl, inr, str_ne,
}
use dev_ops_copilot.Base.Text.{codes, take_chars, strip, is_blank}
use dev_ops_copilot.Base.Json.{
  Json, null, boolean, number, text, array, object, Fields, elements, get, Printer, reply_object,
}
use dev_ops_copilot.Report.{Report, Hypothesis}
use dev_ops_copilot.Report.Parse.{
  coerce_items, coerce_str_list, item_text, hypothesis_of, hypotheses_among, cause_of, listed,
  fallback_report, normalize_report, parse_report, text_or_empty, cut, non_empty, or_text,
}

-- A text of at least one and at most `most` characters.
abbrev pub IsFilled : ℕ → String → Type 0
IsFilled most s = (s ≢ "") × (length (codes s) ≤ most)

abbrev pub IsList : ℕ → ℕ → List String → Type 0
IsList limit most xs = (length xs ≤ limit) × All (IsFilled most) xs

cons-ne : (c : Char) (s : String) → String.◌∷◌ c s ≢ ""
cons-ne c s e = cc

take_chars-le : (n : ℕ) (s : String) → length (codes (take_chars n s)) ≤ n
unfolding take_chars
take_chars-le zero s = omega arith
take_chars-le (suc n) String.[] = omega arith
take_chars-le (suc n) (String.◌∷◌ c s) = omega (arith, take_chars-le n s)

take_chars-ne : (n : ℕ) (s : String) → 0 < n → s ≢ "" → take_chars n s ≢ ""
unfolding take_chars
take_chars-ne zero s pos ne = absurd (omega arith)
take_chars-ne (suc n) String.[] pos ne = λ e. ne refl
take_chars-ne (suc n) (String.◌∷◌ c s) pos ne = cons-ne c (take_chars n s)

cut-IsFilled : (n : ℕ) (s : String) → 0 < n → (s == "") ≡ false → IsFilled n (take_chars n s)
cut-IsFilled n s pos ne = (take_chars-ne n s pos (str_ne s "" ne), take_chars-le n s)

abbrev pub IsHypothesis : Hypothesis → Type 0
IsHypothesis h = IsFilled 400 h.cause × IsList 8 400 h.evidence

abbrev pub IsCause : Option String → Type 0
IsCause none = Unit
IsCause (some s) = IsFilled 400 s

-- The sizes of a report's parts, and that none of its texts is empty.
pub record IsReport (r : Report) : Type 0 where
  pub summary_filled : IsFilled 1500 r.summary
  pub cause_filled : IsCause r.root_cause
  pub services_listed : IsList 12 80 r.affected_services
  pub hypotheses_few : length r.hypotheses ≤ 10
  pub hypotheses_filled : All IsHypothesis r.hypotheses
  pub evidence_listed : IsList 20 400 r.evidence
  pub actions_listed : IsList 12 400 r.recommended_actions

or_text-IsFilled :
    (most : ℕ) (fallback s : String)
    → IsFilled most fallback
    → 0 < most
    → IsFilled most (or_text fallback (take_chars most s))
or_text-IsFilled most fallback s f pos = elim (Bool-cases (take_chars most s == "")) [
  | inl empty ↦ rw empty f
  | inr given ↦ rw given (str_ne (take_chars most s) "" given, take_chars-le most s)
]

no_summary-IsFilled : IsFilled 1500 "(no summary produced)"
no_summary-IsFilled = (str_ne "(no summary produced)" "" refl, omega arith)

cut-IsCause : (s : String) → IsCause (cut 400 (non_empty s))
cut-IsCause s = elim (Bool-cases (s == "")) [
  | inl empty ↦ rw empty tt
  | inr given ↦ rw given (cut-IsFilled 400 s (omega arith) given)
]

module _ (p : Printer) where
  coerce_items-IsList :
      (most limit : ℕ) (vs : List Json)
      → 0 < most
      → IsList limit most (coerce_items p most limit vs)
  coerce_items-IsList most zero vs pos = (omega arith, tt)
  coerce_items-IsList most (suc n) [] pos = (omega arith, tt)
  coerce_items-IsList most (suc n) (v ∷ vs) pos = elim (Bool-cases (strip (item_text p v) == "")) [
    | inl blank ↦ rw blank (coerce_items-IsList most (suc n) vs pos)
    | inr given ↦
        let (few, filled) = coerce_items-IsList most n vs pos in
        rw given (omega (arith, few), (cut-IsFilled most _ pos given, filled))
  ]

  coerce_str_list-IsList :
      (limit most : ℕ) (v : Option Json)
      → 0 < most
      → IsList limit most (coerce_str_list p limit most v)
  unfolding coerce_str_list
  coerce_str_list-IsList limit most (some (text s)) pos =
      coerce_items-IsList most limit (text s ∷ []) pos
  coerce_str_list-IsList limit most (some (array vs)) pos =
      coerce_items-IsList most limit (elements vs) pos
  coerce_str_list-IsList limit most none pos = (omega arith, tt)
  coerce_str_list-IsList limit most (some null) pos = (omega arith, tt)
  coerce_str_list-IsList limit most (some (boolean b)) pos = (omega arith, tt)
  coerce_str_list-IsList limit most (some (number s b)) pos = (omega arith, tt)
  coerce_str_list-IsList limit most (some (object fs)) pos = (omega arith, tt)

  hypothesis_of-IsHypothesis :
      (v : Json) → (cause_of p v == "") ≡ false → IsHypothesis (hypothesis_of p v)
  hypothesis_of-IsHypothesis (object fs) given = (
    cut-IsFilled 400 _ (omega arith) given,
    coerce_str_list-IsList 8 400 (get "evidence" fs) (omega arith),
  )
  hypothesis_of-IsHypothesis null given = cc
  hypothesis_of-IsHypothesis (boolean b) given = cc
  hypothesis_of-IsHypothesis (number s b) given = cc
  hypothesis_of-IsHypothesis (text s) given = cc
  hypothesis_of-IsHypothesis (array vs) given = cc

  hypotheses_among-All :
      (n : ℕ) (vs : List Json)
      → (length (hypotheses_among p n vs) ≤ n) × All IsHypothesis (hypotheses_among p n vs)
  hypotheses_among-All zero vs = (omega arith, tt)
  hypotheses_among-All (suc n) [] = (omega arith, tt)
  hypotheses_among-All (suc n) (v ∷ vs) = elim (Bool-cases (cause_of p v == "")) [
    | inl blank ↦ rw blank (hypotheses_among-All (suc n) vs)
    | inr given ↦
        let (few, filled) = hypotheses_among-All n vs in
        rw given (omega (arith, few), (hypothesis_of-IsHypothesis v given, filled))
  ]

  normalize_report-IsReport :
      (fs : Fields) (fallback_summary : String) → IsReport (normalize_report p fs fallback_summary)
  unfolding normalize_report
  normalize_report-IsReport fs fallback_summary = record {
    summary_filled = or_text-IsFilled 1500 _ _ no_summary-IsFilled (omega arith);
    cause_filled = cut-IsCause (text_or_empty (get "root_cause" fs));
    services_listed = coerce_str_list-IsList 12 80 (get "affected_services" fs) (omega arith);
    hypotheses_few = (hypotheses_among-All 10 (listed p (get "hypotheses" fs))).0;
    hypotheses_filled = (hypotheses_among-All 10 (listed p (get "hypotheses" fs))).1;
    evidence_listed = coerce_str_list-IsList 20 400 (get "evidence" fs) (omega arith);
    actions_listed = coerce_str_list-IsList 12 400 (get "recommended_actions" fs) (omega arith);
  }

  fallback_report-IsReport :
      (fallback_summary : String) → IsReport (fallback_report p fallback_summary)
  fallback_report-IsReport fallback_summary = record {
    summary_filled = or_text-IsFilled 1500 _ _ no_summary-IsFilled (omega arith);
    cause_filled = tt;
    services_listed = (omega arith, tt);
    hypotheses_few = omega arith;
    hypotheses_filled = tt;
    evidence_listed = (omega arith, tt);
    actions_listed = (omega arith, tt);
  }

  -- Whatever the model replies and whatever the JSON parser makes of it, the report has a summary
  -- of at least one and at most 1500 characters; a root cause, if any, of at most 400 and not empty;
  -- at most 10 hypotheses, each with such a cause and at most 8 pieces of evidence; and at most 12
  -- services, 20 pieces of evidence and 12 actions, none of them empty or longer than its limit.
  pub parse_report-IsReport :
      (loads : String → Option Json) (reply fallback_summary : String)
      → IsReport (parse_report p loads reply fallback_summary)
  unfolding parse_report
  parse_report-IsReport loads reply fallback_summary = elim (Bool-cases (is_blank reply)) [
    | inl blank ↦ rw blank (fallback_report-IsReport fallback_summary)
    | inr given ↦ elim (Option-cases (reply_object loads reply)) [
      | inl nothing ↦ rw (given, nothing) (fallback_report-IsReport fallback_summary)
      | inr (fs, found) ↦ rw (given, found) (normalize_report-IsReport fs fallback_summary)
    ]
  ]
