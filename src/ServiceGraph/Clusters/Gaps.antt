-- ===== src/ServiceGraph/Clusters/Gaps.antt =====
-- The clusters are what the gaps between the alerts say, and they lose no alert.
use dev_ops_copilot.Base.{
  ℕ, ◌+◌, ◌≤◌, ◌<◌, ◌≡◌, refl, ap, ◌∙◌, List, [], ◌∷◌, ◌++◌, leb, All, arith, Bool-cases, inl, inr,
}
use mathlib.Core.List.{append_assoc}
use mathlib.Core.List.{Permᴰ}
use mathlib.Core.List.Permᴰ
use dev_ops_copilot.ServiceGraph.Clusters.{
  Dated, insert_by_time, sort_by_time, cluster_from, clusters_of,
}

module _ {ℓ} {E : Type ℓ} where
  -- Each event comes at most a window after the one before it.
  abbrev Close : ℕ → List (Dated E) → Type 0
  Close window [] = Unit
  Close window (x ∷ []) = Unit
  Close window (x ∷ y ∷ xs) = (y.0 ≤ x.0 + window) × Close window (y ∷ xs)

  abbrev end_of : ℕ → List (Dated E) → ℕ
  end_of t [] = t
  end_of t (x ∷ xs) = end_of x.0 xs

  -- The first cluster begins more than a window after the time.
  abbrev After : ℕ → ℕ → List (List (Dated E)) → Type 0
  After window t [] = Unit
  After window t ([] ∷ cs) = ⊥
  After window t ((x ∷ xs) ∷ cs) = t + window < x.0

  abbrev pub IsSplit : ℕ → List (List (Dated E)) → Type 0
  IsSplit window [] = Unit
  IsSplit window (c ∷ cs) = Close window c × After window (end_of 0 c) cs × IsSplit window cs

  abbrev pub Ascends : List (Dated E) → Type 0
  Ascends [] = Unit
  Ascends (x ∷ xs) = All (λ y. x.0 ≤ y.0) xs × Ascends xs

  abbrev pub flat : List (List (Dated E)) → List (Dated E)
  flat [] = []
  flat (c ∷ cs) = c ++ flat cs

  end_of-snoc : (t : ℕ) (c : List (Dated E)) (x : Dated E) → end_of t (c ++ x ∷ []) ≡ x.0
  end_of-snoc t [] x = refl
  end_of-snoc t (y ∷ ys) x = end_of-snoc y.0 ys x

  Close-snoc :
      (window t : ℕ) (c : List (Dated E)) (x : Dated E)
      → Close window c
      → x.0 ≤ end_of t c + window
      → Close window (c ++ x ∷ [])
  Close-snoc window t [] x h le = tt
  Close-snoc window t (y ∷ []) x h le = (le, tt)
  Close-snoc window t (y ∷ z ∷ ys) x (first, h) le = (first, Close-snoc window y.0 (z ∷ ys) x h le)

  cluster_from-After :
      (window t : ℕ) (x : Dated E) (xs : List (Dated E)) (last : ℕ) (es : List (Dated E))
      → t + window < x.0
      → After window t (cluster_from window (x ∷ xs) last es)
  unfolding cluster_from
  cluster_from-After window t x xs last [] h = h
  cluster_from-After window t x xs last ((u, e) ∷ es) h =
      elim (Bool-cases (leb u (last + window))) [
        | inl near ↦ rw near (cluster_from-After window t x (xs ++ (u, e) ∷ []) u es h)
        | inr far ↦ rw far h
      ]

  cluster_from-IsSplit :
      (window : ℕ) (c : List (Dated E)) (last : ℕ) (es : List (Dated E))
      → Close window c
      → end_of 0 c ≡ last
      → IsSplit window (cluster_from window c last es)
  unfolding cluster_from
  cluster_from-IsSplit window c last [] h e = (h, tt, tt)
  cluster_from-IsSplit window c last ((t, x) ∷ es) h e = elim (Bool-cases (leb t (last + window))) [
    | inl near ↦
        let le : t ≤ end_of 0 c + window = ground (arith, near, e) in
        rw near (
          cluster_from-IsSplit window (c ++ (t, x) ∷ []) t es (Close-snoc window 0 c (t, x) h le)
            (end_of-snoc 0 c (t, x)))
    | inr far ↦
        let gap : end_of 0 c + window < t = ground (arith, far, e) in
        rw far (
          h,
          cluster_from-After window (end_of 0 c) (t, x) [] t es gap,
          cluster_from-IsSplit window ((t, x) ∷ []) t es tt refl,
        )
  ]

  cluster_from-flat :
      (window : ℕ) (c : List (Dated E)) (last : ℕ) (es : List (Dated E))
      → flat (cluster_from window c last es) ≡ c ++ es
  unfolding cluster_from
  cluster_from-flat window c last [] = refl
  cluster_from-flat window c last ((t, x) ∷ es) = elim (Bool-cases (leb t (last + window))) [
    | inl near ↦
        rw near (cluster_from-flat window (c ++ (t, x) ∷ []) t es ∙ append_assoc c ((t, x) ∷ []) es)
    | inr far ↦ rw far (ap (λ r. c ++ r) (cluster_from-flat window ((t, x) ∷ []) t es))
  ]

  insert-Permᴰ : (x : Dated E) (ys : List (Dated E)) → Permᴰ (x ∷ ys) (insert_by_time x ys)
  insert-Permᴰ x [] = Permᴰ.refl (x ∷ [])
  insert-Permᴰ x (y ∷ ys) = elim (Bool-cases (leb x.0 y.0)) [
    | inl early ↦ rw early (Permᴰ.refl (x ∷ y ∷ ys))
    | inr late ↦ rw late (Permᴰ.trans (Permᴰ.swap refl refl) (Permᴰ.cons refl (insert-Permᴰ x ys)))
  ]

  sort-Permᴰ : (xs : List (Dated E)) → Permᴰ xs (sort_by_time xs)
  sort-Permᴰ [] = Permᴰ.nil
  sort-Permᴰ (x ∷ xs) =
      Permᴰ.trans (Permᴰ.cons refl (sort-Permᴰ xs)) (insert-Permᴰ x (sort_by_time xs))

  All-insert :
      (t : ℕ) (x : Dated E) (ys : List (Dated E))
      → t ≤ x.0
      → All (λ y. t ≤ y.0) ys
      → All (λ y. t ≤ y.0) (insert_by_time x ys)
  All-insert t x [] le h = (le, tt)
  All-insert t x (y ∷ ys) le (first, h) = elim (Bool-cases (leb x.0 y.0)) [
    | inl early ↦ rw early (le, (first, h))
    | inr late ↦ rw late (first, All-insert t x ys le h)
  ]

  All-later :
      (t u : ℕ) (ys : List (Dated E)) → t ≤ u → All (λ y. u ≤ y.0) ys → All (λ y. t ≤ y.0) ys
  All-later t u [] le h = tt
  All-later t u (y ∷ ys) le (first, h) = (omega (arith, le, first), All-later t u ys le h)

  insert-Ascends : (x : Dated E) (ys : List (Dated E)) → Ascends ys → Ascends (insert_by_time x ys)
  insert-Ascends x [] h = (tt, tt)
  insert-Ascends x (y ∷ ys) (first, h) = elim (Bool-cases (leb x.0 y.0)) [
    | inl early ↦
        let le : x.0 ≤ y.0 = ground (arith, early) in
        rw early ((le, All-later x.0 y.0 ys le first), (first, h))
    | inr late ↦
        let le : y.0 ≤ x.0 = ground (arith, late) in
        rw late (All-insert y.0 x ys le first, insert-Ascends x ys h)
  ]

  sort-Ascends : (xs : List (Dated E)) → Ascends (sort_by_time xs)
  sort-Ascends [] = tt
  sort-Ascends (x ∷ xs) = insert-Ascends x (sort_by_time xs) (sort-Ascends xs)

  clusters_of-flat : (window : ℕ) (es : List (Dated E)) → flat (clusters_of window es) ≡ es
  clusters_of-flat window [] = refl
  clusters_of-flat window (x ∷ es) = cluster_from-flat window (x ∷ []) x.0 es

  clusters_of-IsSplit : (window : ℕ) (es : List (Dated E)) → IsSplit window (clusters_of window es)
  clusters_of-IsSplit window [] = tt
  clusters_of-IsSplit window (x ∷ es) = cluster_from-IsSplit window (x ∷ []) x.0 es tt refl

  -- The clusters of dated events, one after the other, are the events in ascending order of time,
  -- each once; inside a cluster each event comes at most a window after the one before it, and a
  -- cluster begins more than a window after the end of the cluster before.
  pub clusters_of-gaps :
      (window : ℕ) (es : List (Dated E))
      → Permᴰ es (flat (clusters_of window (sort_by_time es)))
        × Ascends (flat (clusters_of window (sort_by_time es)))
        × IsSplit window (clusters_of window (sort_by_time es))
  clusters_of-gaps window es =
      rw (clusters_of-flat)
        (sort-Permᴰ es, sort-Ascends es, clusters_of-IsSplit window (sort_by_time es))
