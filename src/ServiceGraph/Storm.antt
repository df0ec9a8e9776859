-- ===== src/ServiceGraph/Storm.antt =====
-- The root cause of an incident storm (app/correlation.py: rank_root_causes, correlate_storm).
pub mod Root
use dev_ops_copilot.Base.{
  ℕ, String, Bool, true, false, Option, none, some, List, [], ◌∷◌, ◌&&◌, ◌||◌, not, keep, map,
  length, contains, ltb, eqb, ◌==◌, string_eq, if◌then◌else◌,
}
use dev_ops_copilot.Base.Case.{le_str}
use dev_ops_copilot.Base.Text.{distinct}
use dev_ops_copilot.ServiceGraph.{Edge, downstream_set}
use dev_ops_copilot.ServiceGraph.Blast.{sorted}

pub record Ranked : Type 0 where
  pub service : String
  pub explains : List String
  pub depends_on_failing : List String

-- `list(dict.fromkeys(s for s in failing_services if s))`
unfoldable pub failing_set : List String → List String
unfolding distinct
failing_set services = distinct [] (keep (λ s. not (s == "")) services)

abbrev pub or_nothing : Option (List String) → List String
or_nothing none = []
or_nothing (some r) = r

-- `downstream[s]`; the search always returns.
unfoldable pub downstream_of : List Edge → String → List String
unfolding downstream_set
downstream_of edges s = or_nothing (downstream_set edges s)

abbrev pub is_explained : List Edge → String → String → Bool
is_explained edges svc other = not (other == svc) && contains (downstream_of edges other) svc

abbrev pub rank_service : List Edge → List String → String → Ranked
rank_service edges failing svc = record {
  service = svc;
  explains = sorted (keep (is_explained edges svc) failing);
  depends_on_failing = sorted (keep (contains failing) (downstream_of edges svc));
}

-- The sort key: the most explained first, then the fewest dependencies, then the name.
abbrev pub ranks_before : Ranked → Ranked → Bool
ranks_before a b =
    ltb (length b.explains) (length a.explains)
    || (eqb (length a.explains) (length b.explains)
        && (ltb (length a.depends_on_failing) (length b.depends_on_failing)
            || (eqb (length a.depends_on_failing) (length b.depends_on_failing)
                && le_str a.service b.service)))

abbrev pub insert_ranked : Ranked → List Ranked → List Ranked
insert_ranked a [] = a ∷ []
insert_ranked a (b ∷ bs) =
    let later = insert_ranked a bs in if ranks_before a b then a ∷ b ∷ bs else b ∷ later

abbrev pub sort_ranked : List Ranked → List Ranked
sort_ranked [] = []
sort_ranked (a ∷ bs) = insert_ranked a (sort_ranked bs)

unfoldable pub rank_root_causes : List String → List Edge → List Ranked
rank_root_causes services edges =
    sort_ranked (map (rank_service edges (failing_set services)) (failing_set services))

-- The candidate among the ranked services.
abbrev pub root_of : List Ranked → Option String
root_of [] = none
root_of (top ∷ []) = some top.service
root_of (top ∷ _ ∷ _) = if ltb 0 (length top.explains) then some top.service else none

-- `correlate_storm`, as the likely root and the ranking.
unfoldable pub correlate_storm : List String → List Edge → Option String × List Ranked
unfolding rank_root_causes
correlate_storm services edges =
    let ranked = rank_root_causes services edges in (root_of ranked, ranked)
