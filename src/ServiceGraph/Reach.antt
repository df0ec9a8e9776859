-- ===== src/ServiceGraph/Reach.antt =====
-- Reachability and the search (app/correlation.py: _downstream_set).
use dev_ops_copilot.Base.{
  ℕ, zero, suc, ◌+◌, ◌≤◌, ◌≡◌, refl, sym, ap, ◌∙◌, inl, inr, ◌↔◌, String, Bool, true, false, Option,
  some, List, [], ◌∷◌, ◌++◌, length, length-append, contains, contains-append, ◌==◌, string_eq,
  str_eq_iff, eq_refl, arith, Bool-cases, subst, if◌then◌else◌,
}
use mathlib.Core.List.{append-nil}
use dev_ops_copilot.ServiceGraph.{Edge, adjacent, bfs, search_fuel, downstream_set}

-- One node depends on another: over one edge or more.
pub data Reaches (edges : List Edge) (start : String) : String → Type 0 where
  direct : (b : String) → contains (adjacent edges start) b ≡ true → Reaches edges start b
  further :
      (b c : String)
      → Reaches edges start b
      → contains (adjacent edges b) c ≡ true
      → Reaches edges start c

-- The edges whose caller is still to be visited.
abbrev unvisited : List String → List Edge → ℕ
unvisited seen [] = 0
unvisited seen ((caller, callee) ∷ edges) =
    (if contains seen caller then 0 else 1) + unvisited seen edges

unvisited-nil : (edges : List Edge) → unvisited [] edges ≡ length edges
unvisited-nil [] = refl
unvisited-nil (e ∷ edges) = omega (arith, unvisited-nil edges)

unvisited-visit :
    (seen : List String) (node : String) (edges : List Edge)
    → contains seen node ≡ false
    → length (adjacent edges node) + unvisited (node ∷ seen) edges ≡ unvisited seen edges
unvisited-visit seen node [] h = refl
unvisited-visit seen node ((caller, callee) ∷ edges) h = elim (Bool-cases (caller == node)) [
  | inl same ↦
      (let fresh = ap (contains seen) ((str_eq_iff caller node).0 same) ∙ h in
        rw (same, fresh) (omega (arith, unvisited-visit seen node edges h)))
  | inr other ↦ rw other (omega (arith, unvisited-visit seen node edges h))
]

module _ (edges : List Edge) (start : String) where
  abbrev AllReached : List String → Type 0
  AllReached xs = (x : String) → contains xs x ≡ true → Reaches edges start x

  -- The start's neighbours, and those of the nodes seen, are seen or queued.
  abbrev Closed : List String → List String → Type 0
  Closed seen q =
      (b c : String)
      → contains seen b ≡ true
      → contains (adjacent edges b) c ≡ true
      → contains (seen ++ q) c ≡ true

  abbrev Covered : List String → Type 0
  Covered xs = (c : String) → contains (adjacent edges start) c ≡ true → contains xs c ≡ true

  AllReached-visit :
      (seen q : List String) (node : String)
      → AllReached (seen ++ node ∷ q)
      → AllReached ((node ∷ seen) ++ (q ++ adjacent edges node))
  AllReached-visit seen q node h x k = elim (Bool-cases (contains (seen ++ node ∷ q) x)) [
    | inl old ↦ h x old
    | inr new ↦
        further node x (h node (ground (arith, contains-append seen (node ∷ q) node, eq_refl node)))
          (ground (
            arith,
            contains-append seen (node ∷ q) x,
            contains-append seen (q ++ adjacent edges node) x,
            contains-append q (adjacent edges node) x,
          ))
  ]

  contains-skip :
      (seen q : List String) (node c : String)
      → contains seen node ≡ true
      → contains (seen ++ node ∷ q) c ≡ true
      → contains (seen ++ q) c ≡ true
  contains-skip seen q node c there k = contains-append seen q c ∙ elim (Bool-cases (c == node)) [
    | inl same ↦
        (let seen_c = ap (contains seen) ((str_eq_iff c node).0 same) ∙ there in ground arith)
    | inr other ↦ ground (arith, contains-append seen (node ∷ q) c)
  ]

  contains-unskip :
      (seen q : List String) (node c : String)
      → contains (seen ++ q) c ≡ true
      → contains (seen ++ node ∷ q) c ≡ true
  contains-unskip seen q node c k =
      ground (arith, contains-append seen (node ∷ q) c, contains-append seen q c)

  Closed-skip :
      (seen q : List String) (node : String)
      → contains seen node ≡ true
      → Closed seen (node ∷ q)
      → Closed seen q
  Closed-skip seen q node there h b c kb kc = contains-skip seen q node c there (h b c kb kc)

  Closed-visit :
      (seen q : List String) (node : String)
      → Closed seen (node ∷ q)
      → Closed (node ∷ seen) (q ++ adjacent edges node)
  Closed-visit seen q node h b c kb kc = ground (
    arith,
    contains-append seen (node ∷ q) c,
    contains-append seen (q ++ adjacent edges node) c,
    contains-append q (adjacent edges node) c,
    from_seen,
    from_node (b == node) refl,
  )
    where
      from_seen : contains seen b ≡ true → contains (seen ++ node ∷ q) c ≡ true
      from_seen ks = h b c ks kc

      from_node : (t : Bool) → (b == node) ≡ t → t ≡ true → contains (adjacent edges node) c ≡ true
      from_node t e k =
          ap (λ n. contains (adjacent edges n) c) (sym ((str_eq_iff b node).0 (e ∙ k))) ∙ kc

  -- What the search returns.
  abbrev Result : Option (List String) → Type 0
  Result o = (r : List String) × (o ≡ some r) × AllReached r × Closed r [] × Covered r

  at_end :
      (seen : List String)
      → AllReached (seen ++ [])
      → Closed seen []
      → Covered (seen ++ [])
      → Result (some seen)
  at_end seen reached closed covered = (
    seen,
    refl,
    subst AllReached (append-nil seen) reached,
    closed,
    subst Covered (append-nil seen) covered,
  )

  bfs_lem :
      (fuel : ℕ) (seen q : List String)
      → length q + unvisited seen edges ≤ fuel
      → AllReached (seen ++ q)
      → Closed seen q
      → Covered (seen ++ q)
      → Result (bfs fuel edges seen q)
  unfolding bfs
  bfs_lem zero seen [] enough reached closed covered = at_end seen reached closed covered
  bfs_lem (suc fuel) seen [] enough reached closed covered = at_end seen reached closed covered
  bfs_lem zero seen (node ∷ q) enough reached closed covered = absurd (omega arith)
  bfs_lem (suc fuel) seen (node ∷ q) enough reached closed covered =
      elim (Bool-cases (contains seen node)) [
        | inl there ↦ rw there (
            bfs_lem fuel seen q (omega arith) (λ x k. reached x (contains-unskip seen q node x k))
              (Closed-skip seen q node there closed)
              (λ c k. contains-skip seen q node c there (covered c k)))
        | inr fresh ↦ rw fresh (
            bfs_lem fuel (node ∷ seen) (q ++ adjacent edges node)
              (omega (
                arith,
                length-append q (adjacent edges node),
                unvisited-visit seen node edges fresh,
              ))
              (AllReached-visit seen q node reached) (Closed-visit seen q node closed)
              (λ c k. ground (
                arith,
                contains-append seen (node ∷ q) c,
                contains-append seen (q ++ adjacent edges node) c,
                contains-append q (adjacent edges node) c,
                covered c k,
              )))
      ]

  reached-found :
      (r : List String)
      → Closed r []
      → Covered r
      → (x : String) → Reaches edges start x
      → contains r x ≡ true
  reached-found r closed covered x (direct b k) = covered b k
  reached-found r closed covered x (further b c before k) =
      ap (λ xs. contains xs c) (sym (append-nil r))
      ∙ closed b c (reached-found r closed covered b before) k

-- The search ends with the fuel it is given, and what it returns is exactly the set of the nodes
-- that the start reaches over one edge or more: on any graph, cycles and repeated edges included.
pub downstream_set-Reaches :
    (edges : List Edge) (start : String)
    → (r : List String) × (downstream_set edges start ≡ some r)
      × ((x : String) → (contains r x ≡ true) ↔ Reaches edges start x)
unfolding downstream_set
downstream_set-Reaches edges start =
    let (r, found, sound, closed, covered) =
      bfs_lem edges start (search_fuel edges start) [] (adjacent edges start)
        (omega (arith, unvisited-nil edges)) (λ x k. direct x k)
        (λ b c kb kc. absurd (ground arith)) (λ c k. k) in
    (r, found, λ x. (sound x, reached-found edges start r closed covered x))
