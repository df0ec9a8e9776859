-- ===== src/IncidentMemory/Distinct.antt =====
-- The learned corpus has one record for each failure mode.
use dev_ops_copilot.Base.{
  ℕ, ◌≤◌, ◌≡◌, refl, ◌∙◌, ap, String, Bool, true, false, List, [], ◌∷◌, ◌++◌, ◌||◌, contains,
  length, ◌==◌, string_eq, All, arith, Bool-cases, inl, inr, contains-append, str_eq_iff,
}
use dev_ops_copilot.Base.Case.{lower_str}
use dev_ops_copilot.Base.Text.{strip, codes}
use dev_ops_copilot.Base.Strip.{strip_idem, take_chars-short}
use dev_ops_copilot.Report.{Report}
use dev_ops_copilot.IncidentMemory.{
  Incident, or_empty, build_record, cause_key, keys, learn_from_report,
}

abbrev pub IsDistinct : List String → Type 0
IsDistinct [] = Unit
IsDistinct (x ∷ xs) = (contains xs x ≡ false) × IsDistinct xs

snoc-IsDistinct :
    (xs : List String) (y : String)
    → contains xs y ≡ false
    → IsDistinct xs
    → IsDistinct (xs ++ y ∷ [])
snoc-IsDistinct [] y new h = (refl, tt)
snoc-IsDistinct (x ∷ xs) y new (first, h) = elim (Bool-cases (y == x)) [
  | inl same ↦ let broken : true ≡ false = rw same at new in cc
  | inr other ↦
      let later : contains xs y ≡ false = rw other at new in
      let apart : (x == y) ≡ false = ground (arith, str_eq_iff x y, str_eq_iff y x, other) in
      (rw (contains-append, first, apart) refl, snoc-IsDistinct xs y later h)
]

keys-snoc :
    (rs : List Incident) (r : Incident)
    → keys (rs ++ r ∷ []) ≡ keys rs ++ cause_key r.root_cause ∷ []
keys-snoc [] r = refl
keys-snoc (s ∷ rs) r = ap (λ ks. cause_key s.root_cause ∷ ks) (keys-snoc rs r)

-- The cause of a report is at most as long as a record keeps.
abbrev pub Fits : Report → Type 0
Fits r = length (codes (strip (or_empty r.root_cause))) ≤ 400

built_key :
    (request : String) (r : Report) (date : String) (seq : ℕ)
    → Fits r
    → cause_key (build_record request r date seq).root_cause ≡ cause_key (or_empty r.root_cause)
unfolding build_record
built_key request r date seq fits =
    ap cause_key (take_chars-short 400 (strip (or_empty r.root_cause)) fits)
    ∙ ap lower_str (strip_idem (or_empty r.root_cause))

learn_from_report-IsDistinct :
    (enabled writable : Bool) (request : String) (r : Report) (date : String)
    (learned : List Incident)
    → Fits r
    → IsDistinct (keys learned)
    → IsDistinct (keys (learn_from_report enabled writable request r date learned).0)
unfolding learn_from_report
learn_from_report-IsDistinct false writable request r date learned fits h = h
learn_from_report-IsDistinct true writable request r date learned fits h =
    elim (Bool-cases (r.abstained || strip (or_empty r.root_cause) == "")) [
      | inl unsure ↦ rw unsure h
      | inr sure ↦ elim (Bool-cases (contains (keys learned) (cause_key (or_empty r.root_cause)))) [
        | inl known ↦ rw (sure, known) h
        | inr new ↦ elim (Bool-cases writable) [
          | inr lost ↦ rw (sure, new, lost) h
          | inl written ↦
              let rec = build_record request r date (length learned) in
              rw (sure, new, written)
                (rw (keys-snoc, built_key request r date (length learned) fits)
                  (snoc-IsDistinct (keys learned) (cause_key (or_empty r.root_cause)) new h))
        ]
      ]
    ]

-- What one investigation brings: the setting, whether the file can be written, the request, the
-- report and the date.
abbrev pub Finished : Type 0
Finished = Bool × Bool × String × Report × String

unfoldable pub learn_all : List Finished → List Incident → List Incident
learn_all [] learned = learned
learn_all ((enabled, writable, request, r, date) ∷ fs) learned =
    learn_all fs (learn_from_report enabled writable request r date learned).0

-- However many investigations are learned from, with root causes of at most 400 characters: no two
-- records have the same root cause, up to case and the white space around it, if none had at first.
pub learn_all-IsDistinct :
    (fs : List Finished) (learned : List Incident)
    → All (λ (_, _, _, r, _). Fits r) fs
    → IsDistinct (keys learned)
    → IsDistinct (keys (learn_all fs learned))
unfolding learn_all
learn_all-IsDistinct [] learned fits h = h
learn_all-IsDistinct ((enabled, writable, request, r, date) ∷ fs) learned (first, fits) h =
    learn_all-IsDistinct fs _ fits
      (learn_from_report-IsDistinct enabled writable request r date learned first h)
