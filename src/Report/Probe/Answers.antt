-- ===== src/Report/Probe/Answers.antt =====
-- The answers to the probes, put to the hypotheses that they are about.
use dev_ops_copilot.Base.{
  ℕ, zero, suc, ◌+◌, ◌≡◌, refl, ◌∙◌, ap, Bool, true, false, Option, none, some, List, [], ◌∷◌, ◌&&◌,
  if◌then◌else◌, keep, arith, Bool-cases, inl, inr, length, is_some, take, ◌<◌, ◌==◌, string_eq,
  nat_eq, sym, subst,
}
use dev_ops_copilot.Base.Dict.{Dict, lookup}
use dev_ops_copilot.Report.{Hypothesis, Verdict, validated, invalidated, inconclusive}
use dev_ops_copilot.Report.Probe.{
  Score, Probed, enrich, probe_all, targets, competing_hypotheses, Yield, yield_first,
  is_contending, attach,
}

-- Whether a verdict leaves a hypothesis in the competition.
abbrev pub competes : Verdict → Bool
competes validated = true
competes inconclusive = true
competes invalidated = false

-- A hypothesis with the answer to its probe, `none` where it was not probed.
abbrev pub with_answer : Hypothesis → Option Score → Probed
with_answer h none = record {
  hypothesis = h;
  probe_support = none;
  probe_verdict = none;
  probe_rationale = none;
}
with_answer h (some s) = record {
  hypothesis = h;
  probe_support = some s.support;
  probe_verdict = some s.verdict;
  probe_rationale = (if s.rationale == "" then none else some s.rationale);
}

abbrev pub score_of : Option (Score × ℕ) → Option Score
score_of none = none
score_of (some (score, tokens)) = some score

-- The hypotheses in the order of the report, the first competing ones with their answers, as many
-- as the number says.
abbrev pub annotated : (Hypothesis → Option (Score × ℕ)) → ℕ → List Hypothesis → List Probed
annotated probe n [] = []
annotated probe zero (h ∷ hs) = with_answer h none ∷ annotated probe zero hs
annotated probe (suc n) (h ∷ hs) =
    let next = annotated probe n hs in
    let skipped = annotated probe (suc n) hs in
    if competes h.verdict
    then with_answer h (score_of (probe h)) ∷ next
    else with_answer h none ∷ skipped

abbrev pub rivals : List Hypothesis → List Hypothesis
rivals hs = keep (λ h. competes h.verdict) hs

-- No call raises.
abbrev pub all_answer : (Hypothesis → Option (Score × ℕ)) → List Hypothesis → Bool
all_answer probe [] = true
all_answer probe (h ∷ hs) = is_some (probe h) && all_answer probe hs

abbrev pub tokens_of : Option (Score × ℕ) → ℕ
tokens_of none = 0
tokens_of (some (score, tokens)) = tokens

abbrev pub all_tokens : (Hypothesis → Option (Score × ℕ)) → List Hypothesis → ℕ
all_tokens probe [] = 0
all_tokens probe (h ∷ hs) = tokens_of (probe h) + all_tokens probe hs

attach-with_answer : (h : Hypothesis) (o : Option Score) → attach h o ≡ with_answer h o
attach-with_answer h none = refl
attach-with_answer h (some s) = refl

pub competing-rivals : (hs : List Hypothesis) → competing_hypotheses hs ≡ rivals hs
unfolding competing_hypotheses
competing-rivals hs = refl

module _ (probe : Hypothesis → Option (Score × ℕ)) where
  first-lookup :
      (i j : ℕ) (o : Option (Score × ℕ)) (more : Yield)
      → i < j
      → lookup i more.0 ≡ none
      → lookup i (yield_first j o more).0 ≡ none
  first-lookup i j none more lt h = refl
  first-lookup i j (some (score, tokens)) more lt h =
      let other : (i == j) ≡ false = ground (arith, lt) in rw other h

  later-lookup :
      (n i j : ℕ) (hs : List Hypothesis)
      → i < j
      → lookup i (probe_all probe (targets n j hs)).0 ≡ none
  later-lookup zero i j hs lt = refl
  later-lookup (suc n) i j [] lt = refl
  later-lookup (suc n) i j (h ∷ hs) lt = elim (Bool-cases (is_contending h)) [
    | inl runs ↦ rw runs (
        first-lookup i j (probe h) (probe_all probe (targets n (j + 1) hs)) lt
          (later-lookup n i (j + 1) hs (omega (arith, lt))))
    | inr out ↦ rw out (later-lookup (suc n) i (j + 1) hs (omega (arith, lt)))
  ]

  enrich-skip :
      (i j : ℕ) (score : Score) (d : Dict ℕ Score) (hs : List Hypothesis)
      → i < j
      → enrich ((i, score) ∷ d) j hs ≡ enrich d j hs
  enrich-skip i j score d [] lt = refl
  enrich-skip i j score d (h ∷ hs) lt =
      let other : (j == i) ≡ false = ground (arith, lt) in
      rw (other, enrich-skip i (j + 1) score d hs (omega (arith, lt))) refl

  pub enrich-none : (j : ℕ) (hs : List Hypothesis) → enrich [] j hs ≡ annotated probe 0 hs
  enrich-none j [] = refl
  enrich-none j (h ∷ hs) = ap (λ r. with_answer h none ∷ r) (enrich-none (j + 1) hs)

  -- All calls return exactly if each answers, and then the scores, put to their hypotheses, are the
  -- answers.
  abbrev pub Yields : ℕ → ℕ → List Hypothesis → Yield → Type 0
  Yields n i hs y =
      (y.2 ≡ all_answer probe (take n (rivals hs)))
      × (y.2 ≡ true
          → (enrich y.0 i hs ≡ annotated probe n hs)
            × (length y.0 ≡ length (take n (rivals hs)))
            × (y.1 ≡ all_tokens probe (take n (rivals hs))))

  enrich-first :
      (i : ℕ) (score : Score) (d : Dict ℕ Score) (h : Hypothesis) (hs : List Hypothesis)
      → enrich ((i, score) ∷ d) i (h ∷ hs) ≡ with_answer h (some score) ∷ enrich d (i + 1) hs
  enrich-first i score d h hs =
      let same : (i == i) ≡ true = ground arith in
      rw same
        (ap (λ r. with_answer h (some score) ∷ r) (enrich-skip i (i + 1) score d hs (omega arith)))

  -- The answer of the first competing hypothesis goes to it.
  yield_first-Yields :
      (n i : ℕ) (h : Hypothesis) (hs : List Hypothesis) (o : Option (Score × ℕ)) (more : Yield)
      → competes h.verdict ≡ true
      → probe h ≡ o
      → Yields n (i + 1) hs more
      → Yields (suc n) i (h ∷ hs) (yield_first i o more)
  yield_first-Yields n i h hs none more runs silent (answer, rest) =
      rw (runs, silent) (refl, λ e. cc)
  yield_first-Yields n i h hs (some (score, tokens)) more runs there (answer, rest) =
      rw (runs, there)
        (
          answer,
          λ e.
              let (hypotheses, few, sum) = rest e in
              (
                enrich-first i score more.0 h hs
                    ∙ ap (λ r. with_answer h (some score) ∷ r) hypotheses,
                ap suc few,
                ap (λ m. tokens + m) sum,
              ),
        )

  -- A hypothesis out of the competition stays as it is.
  skip-Yields :
      (n i : ℕ) (h : Hypothesis) (hs : List Hypothesis) (y : Yield)
      → competes h.verdict ≡ false
      → lookup i y.0 ≡ none
      → Yields (suc n) (i + 1) hs y
      → Yields (suc n) i (h ∷ hs) y
  skip-Yields n i h hs y out missing (answer, rest) = rw out (
    answer,
    λ e.
        let (hypotheses, few, sum) = rest e in
        (rw missing (ap (λ r. with_answer h none ∷ r) hypotheses), few, sum),
  )

  targets-first :
      (n i : ℕ) (h : Hypothesis) (hs : List Hypothesis)
      → competes h.verdict ≡ true
      → targets (suc n) i (h ∷ hs) ≡ (i, h) ∷ targets n (i + 1) hs
  targets-first n i h hs runs = rw runs refl

  targets-skip :
      (n i : ℕ) (h : Hypothesis) (hs : List Hypothesis)
      → competes h.verdict ≡ false
      → targets (suc n) i (h ∷ hs) ≡ targets (suc n) (i + 1) hs
  targets-skip n i h hs out = rw out refl

  pub probe_all-Yields :
      (n i : ℕ) (hs : List Hypothesis) → Yields n i hs (probe_all probe (targets n i hs))
  probe_all-Yields zero i hs = (refl, λ e. (enrich-none i hs, refl, refl))
  probe_all-Yields (suc n) i [] = (refl, λ e. (refl, refl, refl))
  probe_all-Yields (suc n) i (h ∷ hs) = elim (Bool-cases (competes h.verdict)) [
    | inl runs ↦
        subst (λ ts. Yields (suc n) i (h ∷ hs) (probe_all probe ts))
          (sym (targets-first n i h hs runs))
          (yield_first-Yields n i h hs (probe h) (probe_all probe (targets n (i + 1) hs)) runs refl
            (probe_all-Yields n (i + 1) hs))
    | inr out ↦
        subst (λ ts. Yields (suc n) i (h ∷ hs) (probe_all probe ts))
          (sym (targets-skip n i h hs out))
          (skip-Yields n i h hs (probe_all probe (targets (suc n) (i + 1) hs)) out
            (later-lookup (suc n) i (i + 1) hs (omega arith)) (probe_all-Yields (suc n) (i + 1) hs))
  ]
