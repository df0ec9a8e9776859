-- ===== src/Tenancy/Usage/Laws.antt =====
-- The laws of the ledger (app/tenancy/store.py, app/metering.py).
use dev_ops_copilot.Base.{
  ℕ, ◌+◌, ◌≡◌, ◌≢◌, refl, String, Bool, true, false, List, [], ◌∷◌, ◌++◌, ◌&&◌, ◌||◌, not, any_of,
  any_of-append, ◌==◌, string_eq, str_eq_iff, eq_refl, arith, Bool-cases, inl, inr, if◌then◌else◌,
}
use dev_ops_copilot.Base.Case.{le_str}
use dev_ops_copilot.Tenancy.{UsageRow, Store}
use dev_ops_copilot.Tenancy.Usage.{conflicts, record_usage, counted, sum_where, usage_total}

sum_where-append :
    (p : UsageRow → Bool) (xs ys : List UsageRow)
    → sum_where p (xs ++ ys) ≡ sum_where p xs + sum_where p ys
sum_where-append p [] ys = omega arith
sum_where-append p (x ∷ xs) ys = omega (arith, sum_where-append p xs ys)

any_of-key :
    (id id' event_key : String) (rows : List UsageRow)
    → any_of (conflicts id event_key) rows ≡ true
    → any_of (λ r. r.id == id) rows ≡ false
    → any_of (conflicts id' event_key) rows ≡ true
any_of-key id id' event_key [] h fresh = h
any_of-key id id' event_key (r ∷ rows) h fresh = ground (arith, any_of-key id id' event_key rows)

-- A retried or replayed event is recorded once: with a key, recording it again, under whatever id,
-- time and amount, changes nothing, provided that the first recording drew a free id.
pub record_usage-idempotent :
    (id now org_id kind : String) (amount : ℕ) (event_key : String)
    (id' now' org_id' kind' : String) (amount' : ℕ) (s : Store)
    → event_key ≢ ""
    → any_of (λ r. r.id == id) s.usage ≡ false
    → record_usage id' now' org_id' kind' amount' event_key
        (record_usage id now org_id kind amount event_key s)
      ≡ record_usage id now org_id kind amount event_key s
unfolding record_usage
record_usage-idempotent id now org_id kind amount event_key id' now' org_id' kind' amount' s ne
      fresh =
    elim (Bool-cases (any_of (conflicts id event_key) s.usage)) [
      | inl there ↦ rw (there, any_of-key id id' event_key s.usage there fresh) refl
      | inr new ↦
          rw new
            (rw (any_of-append (conflicts id' event_key) s.usage, eq_refl event_key, again) refl)
    ]
  where
    again :
        (any_of (conflicts id' event_key) s.usage
          || (((id == id') || (not (event_key == "") && true)) || false))
        ≡ true
    again = ground (arith, str_eq_iff event_key "")

-- What a recording adds to a total: the amount, if the event is new and counts towards it, and
-- nothing else; in particular nothing to another organisation's or another kind's total.
pub record_usage-total :
    (id now org_id kind : String) (amount : ℕ) (event_key : String) (s : Store)
    (of_org of_kind since : String)
    → usage_total of_org of_kind since (record_usage id now org_id kind amount event_key s)
      ≡ usage_total of_org of_kind since s
        + (if not (any_of (conflicts id event_key) s.usage)
              && (org_id == of_org)
              && (kind == of_kind)
              && ((since == "") || le_str since now)
            then amount
            else 0)
unfolding record_usage usage_total
record_usage-total id now org_id kind amount event_key s of_org of_kind since =
    elim (Bool-cases (any_of (conflicts id event_key) s.usage)) [
      | inl there ↦ rw there (omega arith)
      | inr new ↦ rw (new, sum_where-append (counted of_org of_kind since) s.usage) (omega arith)
    ]
