-- ===== src/ServiceGraph/Blast.antt =====
-- The blast radius of a failing service and the edges that traces give
-- (app/mcp/servers/traces/server.py: deps_from_traces, blast_radius).
use dev_ops_copilot.Base.{
  ◌≡◌, refl, ◌∙◌, sym, ◌↔◌, String, Bool, true, Option, none, some, List, [], ◌∷◌, ◌&&◌, ◌||◌,
  contains, ◌==◌, string_eq, str_eq_iff, arith, if◌then◌else◌,
}
use dev_ops_copilot.Base.Case.{le_str}
use dev_ops_copilot.Base.Dict.{Dict, lookup, insert}
use dev_ops_copilot.ServiceGraph.{Edge, adjacent, downstream_set}
use dev_ops_copilot.ServiceGraph.Reach.{Reaches, direct, further, downstream_set-Reaches}

-- What the edges are read from; a missing parent is the empty text.
pub record Span : Type 0 where
  pub span_id : String
  pub service : String
  pub parent : String

abbrev pub Trace : Type 0
Trace = List Span

abbrev note_spans : List Span → Dict String String → Dict String String
note_spans [] d = d
note_spans (sp ∷ spans) d = note_spans spans (insert sp.span_id sp.service d)

-- `span_service`
abbrev pub span_service : List Trace → Dict String String → Dict String String
span_service [] d = d
span_service (tr ∷ traces) d = span_service traces (note_spans tr d)

abbrev edge_of : Dict String String → Span → List Edge
edge_of services sp = if sp.parent == "" then [] else elim (lookup sp.parent services) [
  | none ↦ []
  | some caller ↦ if caller == sp.service then [] else (caller, sp.service) ∷ []
]

abbrev same_edge : Edge → Edge → Bool
same_edge (a, b) (c, d) = (a == c) && (b == d)

-- `a <= b` on pairs of texts.
abbrev le_edge : Edge → Edge → Bool
le_edge (a, b) (c, d) = if a == c then le_str b d else le_str a c

-- A sorted insertion into a list without repetitions.
abbrev insert_edge : Edge → List Edge → List Edge
insert_edge e [] = e ∷ []
insert_edge e (d ∷ ds) =
    let later = insert_edge e ds in
    if same_edge e d then d ∷ ds else if le_edge e d then e ∷ d ∷ ds else d ∷ later

abbrev add_edges : List Edge → List Edge → List Edge
add_edges [] edges = edges
add_edges (e ∷ es) edges = insert_edge e (add_edges es edges)

abbrev add_spans : Dict String String → List Span → List Edge → List Edge
add_spans services [] edges = edges
add_spans services (sp ∷ spans) edges =
    add_edges (edge_of services sp) (add_spans services spans edges)

abbrev add_traces : Dict String String → List Trace → List Edge
add_traces services [] = []
add_traces services (tr ∷ traces) = add_spans services tr (add_traces services traces)

-- The sorted set of the edges between different services.
unfoldable pub deps_from_traces : List Trace → List Edge
deps_from_traces traces = add_traces (span_service traces []) traces

abbrev insert_name : String → List String → List String
insert_name x [] = x ∷ []
insert_name x (y ∷ ys) =
    let later = insert_name x ys in if le_str x y then x ∷ y ∷ ys else y ∷ later

-- `sorted`
abbrev pub sorted : List String → List String
sorted [] = []
sorted (x ∷ xs) = insert_name x (sorted xs)

abbrev pub swapped : List Edge → List Edge
swapped [] = []
swapped ((caller, callee) ∷ edges) = (callee, caller) ∷ swapped edges

pub record BlastRadius : Type 0 where
  pub failing_service : String
  pub affected_upstream : List String
  pub downstream_dependencies : List String

abbrev blast_of : String → Option (List String) → Option (List String) → Option BlastRadius
blast_of service (some up) (some down) = some (record {
  failing_service = service;
  affected_upstream = sorted up;
  downstream_dependencies = sorted down;
})
blast_of service _ _ = none

-- `blast_radius`; `none` would be a search without enough fuel.
unfoldable pub blast_radius : List Edge → String → Option BlastRadius
blast_radius edges service =
    blast_of service (downstream_set (swapped edges) service) (downstream_set edges service)

contains-insert_name :
    (x y : String) (ys : List String) → contains (insert_name x ys) y ≡ (y == x || contains ys y)
contains-insert_name x y [] = refl
contains-insert_name x y (z ∷ ys) = ground (arith, contains-insert_name x y ys)

pub contains-sorted : (xs : List String) (y : String) → contains (sorted xs) y ≡ contains xs y
contains-sorted [] y = refl
contains-sorted (x ∷ xs) y =
    contains-insert_name x y (sorted xs) ∙ ground (arith, contains-sorted xs y)

adjacent-swapped :
    (edges : List Edge) (a b : String)
    → contains (adjacent (swapped edges) a) b ≡ contains (adjacent edges b) a
adjacent-swapped [] a b = refl
adjacent-swapped ((caller, callee) ∷ edges) a b = ground (
  arith,
  str_eq_iff callee a,
  str_eq_iff a callee,
  str_eq_iff caller b,
  str_eq_iff b caller,
  adjacent-swapped edges a b,
)

prepend :
    (edges : List Edge) (a b c : String)
    → contains (adjacent edges a) b ≡ true
    → Reaches edges b c
    → Reaches edges a c
prepend edges a b c k (direct d h) = further b d (direct b k) h
prepend edges a b c k (further d e before h) = further d e (prepend edges a b d k before) h

Reaches-reverse :
    (edges : List Edge) (s x : String) → Reaches (swapped edges) s x → Reaches edges x s
Reaches-reverse edges s x (direct b k) = direct s (sym (adjacent-swapped edges s b) ∙ k)
Reaches-reverse edges s x (further b c before k) =
    prepend edges c b s (sym (adjacent-swapped edges b c) ∙ k) (Reaches-reverse edges s b before)

Reaches-swapped :
    (edges : List Edge) (x s : String) → Reaches edges x s → Reaches (swapped edges) s x
Reaches-swapped edges x s (direct b k) = direct x (adjacent-swapped edges b x ∙ k)
Reaches-swapped edges x s (further b c before k) =
    prepend (swapped edges) c b x (adjacent-swapped edges c b ∙ k)
      (Reaches-swapped edges x b before)

-- The blast radius is always computed. A service is affected upstream exactly when it depends on
-- the failing one, over one call or more, and a downstream dependency exactly when the failing one
-- depends on it.
pub blast_radius-Reaches :
    (edges : List Edge) (service : String)
    → (b : BlastRadius) × (blast_radius edges service ≡ some b)
      × ((x : String)
          → ((contains b.affected_upstream x ≡ true) ↔ Reaches edges x service)
            × ((contains b.downstream_dependencies x ≡ true) ↔ Reaches edges service x))
unfolding blast_radius
blast_radius-Reaches edges service =
    let (up, found_up, is_up) = downstream_set-Reaches (swapped edges) service in
    let (down, found_down, is_down) = downstream_set-Reaches edges service in
    (
      record {
        failing_service = service;
        affected_upstream = sorted up;
        downstream_dependencies = sorted down;
      },
      rw (found_up, found_down) refl,
      λ x. (
        (
          (λ h. Reaches-reverse edges service x ((is_up x).0 (sym (contains-sorted up x) ∙ h))),
          (λ r. contains-sorted up x ∙ (is_up x).1 (Reaches-swapped edges x service r)),
        ),
        (
          (λ h. (is_down x).0 (sym (contains-sorted down x) ∙ h)),
          (λ r. contains-sorted down x ∙ (is_down x).1 r),
        ),
      ),
    )
