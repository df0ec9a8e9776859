-- ===== src/ServiceGraph.antt =====
-- The service dependency graph: the breadth-first search that app/correlation.py and
-- app/mcp/servers/traces/server.py share in shape. An edge is a caller with its callee. The queue's
-- loop has fuel, `search_fuel`.
pub mod Reach
pub mod Blast
pub mod Clusters
pub mod Storm
use dev_ops_copilot.Base.{
  ℕ, zero, suc, ◌+◌, String, Bool, true, false, Option, none, some, List, [], ◌∷◌, ◌++◌, length,
  contains, ◌==◌, string_eq, if◌then◌else◌,
}

abbrev pub Edge : Type 0
Edge = String × String

-- `adj.get(node, [])`: the callees of a node, in the order of the edges.
abbrev pub adjacent : List Edge → String → List String
adjacent [] node = []
adjacent ((caller, callee) ∷ edges) node =
    let rest = adjacent edges node in if caller == node then callee ∷ rest else rest

-- The loop over the queue, with the nodes seen.
unfoldable pub bfs : ℕ → List Edge → List String → List String → Option (List String)
bfs fuel edges seen [] = some seen
bfs zero edges seen (node ∷ q) = none
bfs (suc fuel) edges seen (node ∷ q) =
    let skipped = bfs fuel edges seen q in
    let visited = bfs fuel edges (node ∷ seen) (q ++ adjacent edges node) in
    if contains seen node then skipped else visited

abbrev pub search_fuel : List Edge → String → ℕ
search_fuel edges start = length (adjacent edges start) + length edges

-- `_downstream_set`
unfoldable pub downstream_set : List Edge → String → Option (List String)
unfolding bfs
downstream_set edges start = bfs (search_fuel edges start) edges [] (adjacent edges start)
