-- ===== src/Report/Probe/Ranking.antt =====
-- The ranking that the probes give: the same hypotheses, the most supported first, ties in order.
use dev_ops_copilot.Base.{
  ℕ, ◌≤◌, ◌≡◌, Bool, true, false, Option, List, [], ◌∷◌, ◌&&◌, not, keep, All, length, take, ◌<◌,
  nat_eq,
}
use dev_ops_copilot.Report.{Hypothesis}
use dev_ops_copilot.Report.Probe.Answers.{annotated, rivals, all_answer, all_tokens}
use dev_ops_copilot.Report.Probe.{Score, Probed, behind, Probes}

-- The most supported first: no hypothesis stands behind a later one.
abbrev pub IsRanked : List Probed → Type 0
IsRanked [] = Unit
IsRanked (x ∷ xs) = All (λ y. behind x.probe_support y.probe_support ≡ false) xs × IsRanked xs

-- The two supports are the same, so that neither stands behind the other.
abbrev pub ties : Option ℕ → Probed → Bool
ties s x = not (behind s x.probe_support) && not (behind x.probe_support s)

module _ (probe : Hypothesis → Option (Score × ℕ)) where
  -- What is promised where enough hypotheses compete and each call returns: the ranking of the
  -- answers, over the first 4 of them.
  abbrev RanksAnswers : List Hypothesis → Probes → Type 0
  RanksAnswers hs r =
      IsRanked r.hypotheses
      × ((s : Option ℕ) → keep (ties s) r.hypotheses ≡ keep (ties s) (annotated probe 4 hs))
      × (r.probed ≡ length (take 4 (rivals hs)))
      × (r.tokens ≡ all_tokens probe (take 4 (rivals hs)))

  -- What is promised of the outcome, by whether two hypotheses compete and each call returns.
  abbrev pub Ranks : List Hypothesis → Probes → Type 0
  Ranks hs r =
      (2 ≤ length (rivals hs) → all_answer probe (take 4 (rivals hs)) ≡ true → RanksAnswers hs r)
      × (length (rivals hs) < 2 → (r.hypotheses ≡ annotated probe 0 hs) × (r.probed ≡ 0))
      × (all_answer probe (take 4 (rivals hs)) ≡ false
          → (r.hypotheses ≡ annotated probe 0 hs) × (r.probed ≡ 0))
