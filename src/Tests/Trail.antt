-- ===== src/Tests/Trail.antt =====
-- The audit trail's theorems at two events.
use text.Mathlib.TextLemmas.{append_cancel_left, append_inj, append-eq-nil_iff}
use dev_ops_copilot.Base.{
  ℕ, zero, suc, str_ne, string_eq, ◌≡◌, ◌≢◌, refl, ◌<>◌, ap, String, List, [], ◌∷◌, length, arith,
  suc,
}
use dev_ops_copilot.Base.Dict.{Dict}
use dev_ops_copilot.Base.Value.{Value, int}
use dev_ops_copilot.Base.Int.{pos}
use dev_ops_copilot.Audit.{
  Entry, cleared, buffer_size, valid, broken, verify_chain, chained_entry, chain_hash, record_event,
  append_bounded,
}
use dev_ops_copilot.Audit.Chain.{texts, verify_chain-detects_edits}
use dev_ops_copilot.Audit.Overflow.{record_all, verify_chain-records, verify_chain-overflow}

abbrev Body : Type 0
Body = Dict String Value

-- A digest that loses nothing, and a text of a body that shows whether it is empty.
abbrev digest : String → String
digest s = "#" <> s

abbrev dumps : Body → String
dumps [] = "0"
dumps (_ ∷ _) = "1"

digest-ne-nil : (s : String) → digest s ≢ ""
digest-ne-nil s e = str_ne "#" "" refl ((append-eq-nil_iff {p = "#"} {q = s}).0 e).0

digest-inj : (s t : String) → digest s ≡ digest t → s ≡ t
digest-inj s t e = append_cancel_left "#" s t e

dumps_delimited :
    (b c : Body) (p q : String) → dumps b <> p ≡ dumps c <> q → (dumps b ≡ dumps c) × (p ≡ q)
dumps_delimited [] [] p q e = (refl, append_cancel_left "0" p q e)
dumps_delimited [] (_ ∷ _) p q e = absurd (str_ne "0" "1" refl (append_inj e refl).0)
dumps_delimited (_ ∷ _) [] p q e = absurd (str_ne "1" "0" refl (append_inj e refl).0)
dumps_delimited (_ ∷ _) (_ ∷ _) p q e = (refl, append_cancel_left "1" p q e)

abbrev bodies : List Body
bodies = [] ∷ (("event", int (pos 1)) ∷ []) ∷ []

-- So many events.
abbrev repeated : ℕ → List Body
repeated zero = []
repeated (suc n) = [] ∷ repeated n

length-repeated : (n : ℕ) → length (repeated n) ≡ n
length-repeated zero = refl
length-repeated (suc n) = ap suc (length-repeated n)

abbrev many : ℕ
many = 2001

verify_chain-records_example :
    verify_chain digest dumps (record_all digest dumps digest-ne-nil bodies cleared).buffer
    ≡ valid (length bodies)
verify_chain-records_example = verify_chain-records digest dumps digest-ne-nil bodies (omega arith)

verify_chain-overflow_example :
    verify_chain digest dumps (record_all digest dumps digest-ne-nil (repeated many) cleared).buffer
    ≡ broken 0 buffer_size
verify_chain-overflow_example =
    verify_chain-overflow digest dumps digest-ne-nil (repeated many)
      (omega (arith, length-repeated many))

abbrev trail : List Entry
trail = (record_all digest dumps digest-ne-nil bodies cleared).buffer

-- The same entries with other names for the event, which this text of a body does not show.
abbrev renamed : List Entry
renamed =
    (record_all digest dumps digest-ne-nil ([] ∷ (("kind", int (pos 2)) ∷ []) ∷ []) cleared).buffer

verify_chain-detects_edits_example : texts digest dumps trail ≡ texts digest dumps renamed
unfolding verify_chain record_all record_event chained_entry chain_hash append_bounded
verify_chain-detects_edits_example =
    verify_chain-detects_edits digest dumps digest-inj dumps_delimited trail renamed refl refl refl
      refl
