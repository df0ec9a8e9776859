-- ===== src/Report/Probe.antt =====
-- The probes of competing hypotheses (app/graph/nodes.py: _parse_probe, _competing_hypotheses,
-- _merge_probe_scores, _probe_hypotheses). A support is in thousandths, to which the source rounds.
pub mod Answers
pub mod Ranking
use dev_ops_copilot.Base.{
  ℕ, zero, suc, ◌+◌, min, String, Bool, true, false, Option, none, some, List, [], ◌∷◌, not, ltb,
  leb, ◌==◌, string_eq, if◌then◌else◌, keep, length, take, nat_eq,
}
use dev_ops_copilot.Base.Dict.{Dict, get_or, lookup}
use dev_ops_copilot.Base.Int.{ℤ, pos, negsuc}
use dev_ops_copilot.Base.Text.{strip, take_chars}
use dev_ops_copilot.Base.Json.{Json, Fields, end, get, Printer, str_or_empty, reply_object}
use dev_ops_copilot.Report.{Hypothesis, Verdict, validated, invalidated, inconclusive}
use dev_ops_copilot.Report.Parse.{word, verdicts}

pub record Score : Type 0 where
  pub support : ℕ
  pub verdict : Verdict
  pub rationale : String

-- `max(0.0, min(1.0, support))`
abbrev clamped : ℤ → ℕ
clamped (pos n) = min 1000 n
clamped (negsuc n) = 0

-- `float(value or 0)` in thousandths, rounded, or 0 where it raises.
abbrev converted : (Json → Option ℤ) → Option Json → ℤ
converted to_float none = pos 0
converted to_float (some v) = elim (to_float v) [ none ↦ pos 0 | some n ↦ n ]

abbrev fields_or_none : Option Fields → Fields
fields_or_none none = end
fields_or_none (some fs) = fs

module _ (p : Printer) (to_float : Json → Option ℤ) (loads : String → Option Json) where
  unfoldable pub parse_probe : String → Score
  unfolding reply_object
  parse_probe reply =
      let fs = fields_or_none (reply_object loads reply) in
      record {
        support = clamped (converted to_float (get "support" fs));
        verdict = get_or (word p "verdict" fs) inconclusive verdicts;
        rationale = take_chars 300 (strip (str_or_empty p (get "rationale" fs)));
      }

-- A hypothesis with the keys that a probe adds.
pub record Probed : Type 0 where
  pub hypothesis : Hypothesis
  pub probe_support : Option ℕ
  pub probe_verdict : Option Verdict
  pub probe_rationale : Option String

abbrev pub is_contending : Hypothesis → Bool
is_contending h = elim h.verdict [ invalidated ↦ false | _ ↦ true ]

unfoldable pub competing_hypotheses : List Hypothesis → List Hypothesis
competing_hypotheses hs = keep is_contending hs

abbrev given : String → Option String
given s = if s == "" then none else some s

abbrev pub attach : Hypothesis → Option Score → Probed
attach h none = record {
  hypothesis = h;
  probe_support = none;
  probe_verdict = none;
  probe_rationale = none;
}
attach h (some s) = record {
  hypothesis = h;
  probe_support = some s.support;
  probe_verdict = some s.verdict;
  probe_rationale = given s.rationale;
}

-- `enriched`, from the `i`-th hypothesis on.
abbrev pub enrich : Dict ℕ Score → ℕ → List Hypothesis → List Probed
enrich scores i [] = []
enrich scores i (h ∷ hs) = attach h (lookup i scores) ∷ enrich scores (i + 1) hs

-- The first stands strictly behind the second: less supported, or not probed.
abbrev pub behind : Option ℕ → Option ℕ → Bool
behind none none = false
behind none (some n) = true
behind (some m) none = false
behind (some m) (some n) = ltb m n

abbrev pub insert_probed : Probed → List Probed → List Probed
insert_probed x [] = x ∷ []
insert_probed x (y ∷ ys) =
    let later = insert_probed x ys in
    if behind x.probe_support y.probe_support then y ∷ later else x ∷ y ∷ ys

-- A stable sort, the most supported first.
abbrev pub sort_probed : List Probed → List Probed
sort_probed [] = []
sort_probed (x ∷ xs) = insert_probed x (sort_probed xs)

unfoldable pub merge_probe_scores : List Hypothesis → Dict ℕ Score → List Probed
merge_probe_scores hs scores = sort_probed (enrich scores 0 hs)

-- The first hypotheses that compete, at most as many as the number says, each with its index.
abbrev pub targets : ℕ → ℕ → List Hypothesis → List (ℕ × Hypothesis)
targets zero i hs = []
targets (suc n) i [] = []
targets (suc n) i (h ∷ hs) =
    let next = targets n (i + 1) hs in
    let skipped = targets (suc n) (i + 1) hs in if is_contending h then (i, h) ∷ next else skipped

abbrev pub Yield : Type 0
Yield = Dict ℕ Score × ℕ × Bool

abbrev pub yield_first : ℕ → Option (Score × ℕ) → Yield → Yield
yield_first i none more = ([], 0, false)
yield_first i (some (score, tokens)) more = ((i, score) ∷ more.0, tokens + more.1, more.2)

-- What the pool yields before a call raises, if one does: the scores, the tokens, and whether all
-- calls returned.
abbrev pub probe_all : (Hypothesis → Option (Score × ℕ)) → List (ℕ × Hypothesis) → Yield
probe_all probe [] = ([], 0, true)
probe_all probe ((i, h) ∷ rest) = yield_first i (probe h) (probe_all probe rest)

pub record Probes : Type 0 where
  pub hypotheses : List Probed
  pub tokens : ℕ
  pub probed : ℕ

abbrev unprobed : List Hypothesis → ℕ → Probes
unprobed hs tokens = record { hypotheses = enrich [] 0 hs; tokens = tokens; probed = 0 }

abbrev merged : List Hypothesis → Dict ℕ Score × ℕ × Bool → Probes
merged hs (scores, tokens, false) = unprobed hs tokens
merged hs (scores, tokens, true) = record {
  hypotheses = merge_probe_scores hs scores;
  tokens = tokens;
  probed = length scores;
}

-- `_MAX_PROBE_WORKERS`
abbrev pub max_probe_workers : ℕ
max_probe_workers = 4

-- `probe` is a call of the model and the parse of its reply, `none` where it raises.
unfoldable pub probe_hypotheses : (Hypothesis → Option (Score × ℕ)) → List Hypothesis → Probes
unfolding merge_probe_scores competing_hypotheses
probe_hypotheses probe hs =
    if ltb (length (competing_hypotheses hs)) 2
    then unprobed hs 0
    else merged hs (probe_all probe (targets max_probe_workers 0 hs))
