-- ===== src/ServiceGraph/Clusters.antt =====
-- Alerts that fire close together in time (app/correlation.py: cluster_by_time). A time is a whole
-- number of one unit, `none` where the source finds none; an event is anything.
pub mod Gaps
use dev_ops_copilot.Base.{
  ℕ, ◌+◌, ◌≤◌, ◌<◌, ◌≡◌, refl, ap, ◌∙◌, sym, Bool, true, false, Option, none, some, List, [], ◌∷◌,
  ◌++◌, leb, if◌then◌else◌, map, All, arith, Bool-cases, inl, inr,
}

abbrev pub Dated {ℓ} : Type ℓ → Type ℓ
Dated E = ℕ × E

abbrev pub dated_of {ℓ} : {E : Type ℓ} → List (Option ℕ × E) → List (Dated E)
dated_of [] = []
dated_of ((none, e) ∷ es) = dated_of es
dated_of ((some t, e) ∷ es) = (t, e) ∷ dated_of es

abbrev pub undated_of {ℓ} : {E : Type ℓ} → List (Option ℕ × E) → List E
undated_of [] = []
undated_of ((none, e) ∷ es) = e ∷ undated_of es
undated_of ((some t, e) ∷ es) = undated_of es

-- A stable sort by time.
abbrev pub insert_by_time {ℓ} : {E : Type ℓ} → Dated E → List (Dated E) → List (Dated E)
insert_by_time x [] = x ∷ []
insert_by_time x (y ∷ ys) =
    let later = insert_by_time x ys in if leb x.0 y.0 then x ∷ y ∷ ys else y ∷ later

abbrev pub sort_by_time {ℓ} : {E : Type ℓ} → List (Dated E) → List (Dated E)
sort_by_time [] = []
sort_by_time (x ∷ xs) = insert_by_time x (sort_by_time xs)

-- The loop, with the last cluster and the time of its last event: an event joins the cluster, or
-- the next one starts.
unfoldable pub cluster_from {ℓ} :
    {E : Type ℓ} → ℕ → List (Dated E) → ℕ → List (Dated E) → List (List (Dated E))
cluster_from window cluster last [] = cluster ∷ []
cluster_from window cluster last ((t, e) ∷ es) =
    let joined = cluster_from window (cluster ++ (t, e) ∷ []) t es in
    let apart = cluster_from window ((t, e) ∷ []) t es in
    if leb t (last + window) then joined else cluster ∷ apart

abbrev pub clusters_of {ℓ} : {E : Type ℓ} → ℕ → List (Dated E) → List (List (Dated E))
clusters_of window [] = []
clusters_of window ((t, e) ∷ es) = cluster_from window ((t, e) ∷ []) t es

abbrev pub events_of {ℓ} : {E : Type ℓ} → List (Dated E) → List E
events_of es = map (λ x. x.1) es

-- `cluster_by_time`
unfoldable pub cluster_by_time {ℓ} : {E : Type ℓ} → ℕ → List (Option ℕ × E) → List (List E)
unfolding cluster_from
cluster_by_time window es =
    map events_of (clusters_of window (sort_by_time (dated_of es)))
    ++ map (λ e. e ∷ []) (undated_of es)
