-- ===== src/ServiceGraph/Storm/Root.antt =====
-- The laws of the ranking and of the likely root (app/correlation.py: rank_root_causes,
-- correlate_storm).
use dev_ops_copilot.Base.{
  ◌≤◌, ◌<◌, ◌≡◌, Option, none, some, ◌≢◌, ◌↔◌, String, true, List, [], ◌∷◌, map, length, contains,
  All, string_eq, ◌⊎◌,
}
use mathlib.Core.List.{Permᴰ}
use mathlib.Core.List.Permᴰ
use dev_ops_copilot.ServiceGraph.{Edge}
use dev_ops_copilot.ServiceGraph.Reach.{Reaches}
use dev_ops_copilot.ServiceGraph.Storm.{Ranked, failing_set}

-- A service explains exactly the other failing services that depend on it.
abbrev pub ExplainsCallers : List Edge → List String → Ranked → Type 0
ExplainsCallers edges failing r =
    (other : String)
    → (contains r.explains other ≡ true)
      ↔ ((contains failing other ≡ true) × (other ≢ r.service) × Reaches edges other r.service)

-- Its dependencies are exactly the failing services that it calls, over one call or more.
abbrev pub DependsOnCallees : List Edge → List String → Ranked → Type 0
DependsOnCallees edges failing r =
    (other : String)
    → (contains r.depends_on_failing other ≡ true)
      ↔ ((contains failing other ≡ true) × Reaches edges r.service other)

-- The first explains more than the second, or as much with no more dependencies.
abbrev Precedes : Ranked → Ranked → Type 0
Precedes a b =
    (length b.explains ≤ length a.explains)
    × (length b.explains ≡ length a.explains
        → length a.depends_on_failing ≤ length b.depends_on_failing)

-- No service after one explains more, or as much with fewer dependencies.
abbrev pub MostFirst : List Ranked → Type 0
MostFirst [] = Unit
MostFirst (a ∷ bs) = All (λ b. Precedes a b) bs × MostFirst bs

abbrev pub services_of : List Ranked → List String
services_of rs = map (λ (r : Ranked). r.service) rs

-- What the likely root is in a ranking: its first service, if that explains another or is alone, and
-- otherwise none, as no service explains another and there is not just one.
abbrev pub IsRoot : Option String → List Ranked → Type 0
IsRoot none rs = All (λ r. length r.explains ≡ 0) rs × (length rs ≢ 1)
IsRoot (some t) rs =
    (top : Ranked) × (rest : List Ranked) × (rs ≡ top ∷ rest)
    × (t ≡ top.service)
    × ((0 < length top.explains) ⊎ (rest ≡ []))

-- What is promised of the correlation of a storm.
abbrev pub Explained : List String → List Edge → Option String × List Ranked → Type 0
Explained services edges (root, ranked) =
    Permᴰ (failing_set services) (services_of ranked)
    × All
        (λ r.
          ExplainsCallers edges (failing_set services) r
          × DependsOnCallees edges (failing_set services) r)
        ranked
    × MostFirst ranked
    × IsRoot root ranked
