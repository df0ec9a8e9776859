-- ===== src/Report/Judging.antt =====
-- The laws of the judge of the adversarial review (app/graph/nodes.py: _judge_critique).
use dev_ops_copilot.Base.{
  ℕ, zero, suc, ◌≡◌, refl, ◌↔◌, Bool, true, false, Option, none, some, List, [], ◌∷◌, arith, any_of,
  get_elem?, Bool-cases, inl, inr,
}
use dev_ops_copilot.Report.{Objection, Rebuttal, refuted}
use dev_ops_copilot.Report.Review.{standing, judge_critique, is_high}

abbrev pub rebuts : Option Rebuttal → Bool
rebuts none = false
rebuts (some r) = r.rebutted

-- The objection at index `i` meets no rebuttal at its own index, and satisfies the test.
abbrev pub StandsAt : (Objection → Bool) → List Objection → List Rebuttal → ℕ → Type 0
StandsAt p os rs i =
    (o : Objection) × (get_elem? os i ≡ some o) × (rebuts (get_elem? rs i) ≡ false) × (p o ≡ true)

standing_sound :
    (p : Objection → Bool) (os : List Objection) (rs : List Rebuttal)
    → any_of p (standing os rs) ≡ true
    → (i : ℕ) × StandsAt p os rs i
unfolding standing
standing_sound p [] rs h = cc
standing_sound p (o ∷ os) [] h = elim (Bool-cases (p o)) [
  | inl e ↦ (0, (o, refl, refl, e))
  | inr e ↦
      let (i, (o', at, unmet, yes_)) = standing_sound p os [] (rw e at h) in
      (suc i, (o', at, unmet, yes_))
]
standing_sound p (o ∷ os) (r ∷ rs) h = elim (Bool-cases r.rebutted) [
  | inl met ↦ let (i, s) = standing_sound p os rs (rw met at h) in (suc i, s)
  | inr unmet ↦ elim (Bool-cases (p o)) [
    | inl e ↦ (0, (o, refl, unmet, e))
    | inr e ↦ let (i, s) = standing_sound p os rs (rw (unmet, e) at h) in (suc i, s)
  ]
]

standing_complete :
    (p : Objection → Bool) (os : List Objection) (rs : List Rebuttal) (i : ℕ)
    → StandsAt p os rs i
    → any_of p (standing os rs) ≡ true
unfolding standing
standing_complete p [] rs i (o, at, unmet, e) = cc
standing_complete p (o ∷ os) [] zero (o', at, unmet, e) = ground arith
standing_complete p (o ∷ os) (r ∷ rs) zero (o', at, unmet, e) = ground arith
standing_complete p (o ∷ os) [] (suc i) (o', at, unmet, e) =
    ground (arith, standing_complete p os [] i (o', at, refl, e))
standing_complete p (o ∷ os) (r ∷ rs) (suc i) s = ground (arith, standing_complete p os rs i s)

judge_refuted :
    (os : List Objection) (rs : List Rebuttal)
    → ((judge_critique os rs).verdict ≡ refuted) ↔ (any_of is_high (standing os rs) ≡ true)
unfolding judge_critique
judge_refuted os rs = ground arith

-- The judge refutes the root cause exactly when an objection of high severity has no rebuttal at
-- its own index that rebuts it.
pub judge_critique-refuted :
    (os : List Objection) (rs : List Rebuttal)
    → ((judge_critique os rs).verdict ≡ refuted) ↔ ((i : ℕ) × StandsAt is_high os rs i)
judge_critique-refuted os rs = (
  λ h. standing_sound is_high os rs ((judge_refuted os rs).0 h),
  λ (i, s). (judge_refuted os rs).1 (standing_complete is_high os rs i s),
)
