-- ===== src/Api/Chat/Marks.antt =====
-- The lists of paused threads, of sessions and of marks, and what moves a thread between them.
use dev_ops_copilot.Base.{
  ◌≡◌, ◌≢◌, refl, String, Bool, true, false, List, [], ◌∷◌, ◌++◌, ◌||◌, not, contains,
  if◌then◌else◌, ◌==◌, string_eq, arith, Bool-cases, inl, inr, str_eq_iff, eq_refl, contains-append,
}
use dev_ops_copilot.Api.Sessions.{add, discard}
use dev_ops_copilot.Api.Sessions.Eviction.{contains-keep_prop, discard-keeps}

-- Every paused thread has a session and is marked.
abbrev pub Keeps : (paused sessions awaiting : List String) → Type 0
Keeps ps ss marks =
    (u : String) → contains ps u ≡ true → (contains ss u ≡ true) × (contains marks u ≡ true)

pub contains-add :
    (t u : String) (xs : List String) → contains xs u ≡ true → contains (add t xs) u ≡ true
contains-add t u xs h = elim (Bool-cases (contains xs t)) [
  | inl there ↦ rw there h
  | inr new ↦ rw new (rw (contains-append, h) refl)
]

contains-add_self : (t : String) (xs : List String) → contains (add t xs) t ≡ true
contains-add_self t xs = elim (Bool-cases (contains xs t)) [
  | inl there ↦ rw there there
  | inr new ↦ rw new (rw (contains-append, new, eq_refl t) refl)
]

add-contains :
    (t u : String) (xs : List String) → u ≢ t → contains (add t xs) u ≡ true → contains xs u ≡ true
add-contains t u xs other h = elim (Bool-cases (contains xs t)) [
  | inl there ↦ rw there at h
  | inr new ↦
      let within : contains (xs ++ t ∷ []) u ≡ true = rw new at h in
      let parts : (contains xs u || (contains (t ∷ []) u)) ≡ true = rw contains-append at within in
      ground (arith, parts, str_eq_iff u t)
]

pub discard-gone : (t : String) (xs : List String) → contains (discard t xs) t ≡ false
discard-gone t xs = elim (Bool-cases (contains (discard t xs) t)) [
  | inl there ↦
      let (_, apart) = contains-keep_prop (λ y. not (y == t)) xs t there in
      let broken : not true ≡ true = rw (eq_refl t) at apart in cc
  | inr gone ↦ gone
]

pub apart : (t u : String) (ps : List String) → contains ps t ≡ false → contains ps u ≡ true → u ≢ t
apart t u ps out within e = let broken : contains ps t ≡ true = rw (← e) within in cc

module _ (t : String) where
  pub Keeps-mark : (ps ss marks : List String) → Keeps ps ss marks → Keeps ps ss (add t marks)
  Keeps-mark ps ss marks k u h = ((k u h).0, contains-add t u marks (k u h).1)

  pub Keeps-pause :
      (ps ss marks : List String)
      → Keeps ps ss marks
      → contains ss t ≡ true
      → Keeps (add t ps) ss (add t marks)
  Keeps-pause ps ss marks k has u h = elim (Bool-cases (u == t)) [
    | inl same ↦
        let key : u ≡ t = (str_eq_iff u t).0 same in rw key (has, contains-add_self t marks)
    | inr other ↦
        let away : u ≢ t =
          λ e. let broken : (t == t) ≡ false = rw e at other in ground (arith, broken, eq_refl t) in
        let (s, m) = k u (add-contains t u ps away h) in (s, contains-add t u marks m)
  ]

  pub Keeps-end : (ps ss marks : List String) → Keeps ps ss marks → Keeps (discard t ps) ss marks
  Keeps-end ps ss marks k u h = k u (contains-keep_prop (λ y. not (y == t)) ps u h).0

  pub Keeps-unmark :
      (ps ss marks : List String)
      → contains ps t ≡ false
      → Keeps ps ss marks
      → Keeps ps ss (discard t marks)
  Keeps-unmark ps ss marks out k u h =
      ((k u h).0, discard-keeps t u marks (k u h).1 (apart t u ps out h))

  pub Keeps-drop :
      (ps ss marks : List String)
      → contains ps t ≡ false
      → Keeps ps ss marks
      → Keeps ps (discard t ss) marks
  Keeps-drop ps ss marks out k u h =
      (discard-keeps t u ss (k u h).0 (apart t u ps out h), (k u h).1)

  pub Keeps-raise :
      (b : Bool) (ps ss marks : List String)
      → Keeps ps ss marks
      → Keeps (if b then ps else discard t ps) ss marks
  Keeps-raise true ps ss marks k = k
  Keeps-raise false ps ss marks k = Keeps-end ps ss marks k

  pub raise-out :
      (b : Bool) (ps : List String)
      → contains ps t ≡ false
      → contains (if b then ps else discard t ps) t ≡ false
  raise-out true ps out = out
  raise-out false ps out = discard-gone t ps
