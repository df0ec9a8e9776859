-- ===== src/Report/Laws.antt =====
-- The laws of the deterministic passes over the report (app/graph/nodes.py).
use dev_ops_copilot.Base.{
  ℕ, ◌≡◌, refl, ◌≢◌, ◌↔◌, String, Bool, true, false, some, List, [], ◌∷◌, ◌++◌, arith, Bool-cases,
  inl, inr, ap, length, ◌&&◌,
}
use mathlib.Core.Option.{some-injective}
use dev_ops_copilot.Policy.{low}
use dev_ops_copilot.Report.{Report, ReviewVerdict, is_given, Critique, upheld, weakened, refuted}
use dev_ops_copilot.Report.Calibration.{
  calibrate, total_evidence, has_validated, has_root_cause, abstains, level_for, needs_for,
}
use dev_ops_copilot.Report.Corroboration.{
  verify_grounding, salient_tokens, split_items, Token, finish, unchecked, cited, is_poor,
}
use dev_ops_copilot.Report.Node.{Panel, finish_report}
use dev_ops_copilot.Report.Review.{apply_critique, current}

-- One function of the three numbers that the calibration reads.
abstains_lem :
    (n : ℕ) (valid cause : Bool)
    → ((abstains n valid cause ≡ true) ↔ (level_for n valid cause ≡ low))
      × ((abstains n valid cause ≡ true) ↔ (needs_for n valid cause ≢ []))
abstains_lem n true true = ground arith
abstains_lem n true false = ground arith
abstains_lem n false true = ground arith
abstains_lem n false false = ground arith

-- A calibrated report abstains exactly when its confidence is low, and names what it lacks exactly
-- when it abstains.
pub calibrate-abstained :
    (r : Report)
    → (((calibrate r).abstained ≡ true) ↔ ((calibrate r).calibrated_confidence ≡ some low))
      × (((calibrate r).abstained ≡ true) ↔ ((calibrate r).needs ≢ []))
unfolding calibrate
calibrate-abstained r =
    let (level, needs) = abstains_lem (total_evidence r) (has_validated r) (has_root_cause r) in
    ((λ h. ap some (level.0 h), λ h. level.1 (some-injective _ _ h)), needs)

-- A report that abstains shows low confidence and says what it lacks.
pub record IsCautious (r : Report) : Type 0 where
  pub shows_low : r.abstained ≡ true → r.calibrated_confidence ≡ some low
  pub names_needs : r.abstained ≡ true → r.needs ≢ []

calibrate-IsCautious : (r : Report) → IsCautious (calibrate r)
calibrate-IsCautious r =
    let (shows, names) = calibrate-abstained r in
    record { shows_low = shows.0; names_needs = names.0 }

append-ne-nil {ℓ} : {A : Type ℓ} (xs : List A) (y : A) → xs ++ y ∷ [] ≢ []
append-ne-nil [] y = ground arith
append-ne-nil (x ∷ xs) y = ground arith

finish-IsCautious :
    (r : Report) (good bad : List String) → IsCautious r → IsCautious (finish r good bad)
finish-IsCautious r good bad h = elim (Bool-cases (is_poor (length good) (length bad))) [
  | inl e ↦ rw e (record { shows_low = λ _. refl; names_needs = λ _. append-ne-nil r.needs _ })
  | inr e ↦ rw e (record { shows_low = h.shows_low; names_needs = h.names_needs })
]

verify_grounding-IsCautious :
    (r : Report) (digest : String) → IsCautious r → IsCautious (verify_grounding r digest)
unfolding verify_grounding
verify_grounding-IsCautious r digest h = go (salient_tokens digest) refl (cited r) refl
  where
    skipped : IsCautious (unchecked r)
    skipped = record { shows_low = h.shows_low; names_needs = h.names_needs }

    go :
        (ds : List Token)
        → salient_tokens digest ≡ ds
        → (is : List String) → cited r ≡ is
        → IsCautious (verify_grounding r digest)
    go [] e is f = rw (e, verify_grounding) skipped
    go (d ∷ ds) e [] f = rw (e, f, verify_grounding) skipped
    go (d ∷ ds) e (i ∷ is) f =
        rw (e, f, verify_grounding)
          (finish-IsCautious r (split_items (d ∷ ds) (i ∷ is)).0 (split_items (d ∷ ds) (i ∷ is)).1
            h)

apply_critique-IsCautious :
    (r : Report) (c : Critique) → IsCautious r → IsCautious (apply_critique r c)
unfolding apply_critique
apply_critique-IsCautious r c h = go c.verdict refl
  where
    go : (v : ReviewVerdict) → c.verdict ≡ v → IsCautious (apply_critique r c)
    go refuted e =
        rw (e, apply_critique)
          (record { shows_low = λ _. refl; names_needs = λ _. append-ne-nil r.needs _ })
    go weakened e =
        rw (e, apply_critique)
          (record {
            shows_low = λ a. rw (h.shows_low a, current) refl;
            names_needs = h.names_needs;
          })
    go upheld e =
        rw (e, apply_critique) (record { shows_low = h.shows_low; names_needs = h.names_needs })

finish_report-IsCautious :
    (on : Bool) (p : Panel) (r : Report) (digest : String)
    → IsCautious (finish_report on p r digest)
unfolding finish_report
finish_report-IsCautious on p r digest =
    elim (Bool-cases (on && is_given (verify_grounding (calibrate r) digest).root_cause)) [
      | inl e ↦ rw e (apply_critique-IsCautious _ _ grounded)
      | inr e ↦ rw e grounded
    ]
  where
    grounded : IsCautious (verify_grounding (calibrate r) digest)
    grounded = verify_grounding-IsCautious (calibrate r) digest (calibrate-IsCautious r)

-- A finished report that abstains shows low confidence and says what it lacks, whatever the two
-- reviewers reply and whether or not the review is enabled.
pub finish_report-abstains :
    (on : Bool) (p : Panel) (r : Report) (digest : String)
    → (finish_report on p r digest).abstained ≡ true
    → ((finish_report on p r digest).calibrated_confidence ≡ some low)
      × ((finish_report on p r digest).needs ≢ [])
finish_report-abstains on p r digest h =
    let cautious = finish_report-IsCautious on p r digest in
    (cautious.shows_low h, cautious.names_needs h)
