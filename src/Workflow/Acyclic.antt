-- ===== src/Workflow/Acyclic.antt =====
-- What the walk of Graph.antt accepts: its finished names stand in topological order, so every trail
-- through the unbounded steps is short and none comes back.
use ompire.Base.{
  >>=-eq-ok, Bool-cases, List, Option, Option-cases, Result, String, [], all, arith, contains,
  eq_iff, if◌then◌else◌, inl, inr, length, ok, ok-same, refl, some, subst, suc, sym, true, zero, ℕ,
  ◌++◌, ◌+◌, ◌<◌, ◌==◌, ◌∷◌, ◌≡◌, ◌≢◌, ◌≤◌, string_eq, ℕ_eq,
}
use ompire.Workflow.Graph.{Graph, GraphError, names_of, targets_of, walk, walk_all, walk_graph}

-- One move of the graph.
abbrev pub Edge : Graph → String → String → Type 0
Edge g a b = (ts : List String) × (targets_of g a ≡ some ts) × (contains ts b ≡ true)

-- A sequence of k moves, at least one.
pub data Trail (g : Graph) : ℕ → String → String → Type 0 where
  one : {a b : String} → Edge g a b → Trail g 1 a b
  more : {k : ℕ} {a b c : String} → Edge g a b → Trail g k b c → Trail g (suc k) a c

abbrev pub Covered : List String → List String → Type 0
Covered ts ds = (t : String) → contains ts t ≡ true → contains ds t ≡ true

-- Every name in the list has all its targets behind it.
abbrev pub Ordered : Graph → List String → Type 0
Ordered g [] = Unit
Ordered g (n ∷ ds) = ((ts : List String) → targets_of g n ≡ some ts → Covered ts ds) × Ordered g ds

abbrev Call : Type 0
Call = List String → String → Result GraphError (List String)

-- A call keeps the order, finishes its name and forgets none.
abbrev Keeps : Graph → Call → Type 0
Keeps g call =
    (done : List String) (n : String) (done' : List String)
    → call done n ≡ ok done'
    → Ordered g done
    → Ordered g done' × (contains done' n ≡ true) × Covered done done'

cons-Covered :
    (n : String) (ns ds : List String) → contains ds n ≡ true → Covered ns ds → Covered (n ∷ ns) ds
cons-Covered n ns ds h rest t c = elim (Bool-cases (n == t)) [
  | inl e ↦ subst (λ x. contains ds x ≡ true) ((eq_iff n t).0 e) h
  | inr e ↦ rest t (rw e at c)
]

same-value : {A : Type 0} {o : Option A} {a b : A} → o ≡ some a → o ≡ some b → a ≡ b
same-value h h' = cc

walk_all-Keeps :
    (g : Graph) (call : Call)
    → Keeps g call
    → (done ns done' : List String) → walk_all call done ns ≡ ok done'
    → Ordered g done
    → Ordered g done' × Covered ns done' × Covered done done'
walk_all-Keeps g call keep done [] done' h o = (
  subst (Ordered g) (ok-same h) o,
  λ t c. cc,
  λ t c. subst (λ ds. contains ds t ≡ true) (ok-same h) c,
)
walk_all-Keeps g call keep done (n ∷ ns) done' h o =
    let (mid, called, rest) = >>=-eq-ok (call done n) _ h in
    let (o₁, c₁, old₁) = keep done n mid called o in
    let (o₂, all₂, old₂) = walk_all-Keeps g call keep mid ns done' rest o₁ in
    (o₂, cons-Covered n ns done' (old₂ n c₁) all₂, λ t c. old₂ t (old₁ t c))

-- A finished name goes in front of its targets.
finish :
    (g : Graph) (n : String) (ts mid done : List String)
    → targets_of g n ≡ some ts
    → Ordered g mid × Covered ts mid × Covered done mid
    → Ordered g (n ∷ mid) × (contains (n ∷ mid) n ≡ true) × Covered done (n ∷ mid)
finish g n ts mid done e (o, cover, old) = (
  (λ us h. subst (λ vs. Covered vs mid) (same-value e h) cover, o),
  rw ((eq_iff n n).1 refl),
  λ t c. ground (arith, old t c),
)

walk-Keeps : (g : Graph) (k : ℕ) (path : List String) → Keeps g (walk g k path)
unfolding walk
walk-Keeps g zero path done n done' h o = cc
walk-Keeps g (suc k) path done n done' h o = elim (Bool-cases (contains path n)) [
  | inl e ↦ let h' = rw (walk, e) at h in cc
  | inr e ↦ elim (Bool-cases (contains done n)) [
    | inl e' ↦
        let h' = rw (walk, e, e') at h in
        let same = ok-same h' in
        (
          subst (Ordered g) same o,
          subst (λ ds. contains ds n ≡ true) same e',
          λ t c. subst (λ ds. contains ds t ≡ true) same c,
        )
    | inr e' ↦ elim (Option-cases (targets_of g n)) [
      | inl e'' ↦ let h' = rw (walk, e, e', e'') at h in cc
      | inr (ts, e'') ↦
          let (mid, all, last) =
            >>=-eq-ok (walk_all (walk g k (path ++ n ∷ [])) done ts) _
              (rw (walk, e, e', e'') at h) in
          let below = walk-Keeps g k (path ++ n ∷ []) in
          subst (λ ds. Ordered g ds × (contains ds n ≡ true) × Covered done ds) (ok-same last)
            (finish g n ts mid done e'' (walk_all-Keeps g _ below done ts mid all o))
    ]
  ]
]

-- The place of a name from the end of the list, by its oldest entry; 0 for none.
abbrev rank : String → List String → ℕ
rank n [] = 0
rank n (m ∷ ds) =
    let rest = rank n ds in if contains ds n then rest else if m == n then suc (length ds) else 0

rank-bound : (n : String) (ds : List String) → rank n ds ≤ length ds
rank-bound n [] = omega arith
rank-bound n (m ∷ ds) = ground (arith, rank-bound n ds)

-- A move goes down.
rank-falls :
    (g : Graph) (ds : List String) (a b : String)
    → Ordered g ds
    → contains ds a ≡ true
    → Edge g a b
    → (contains ds b ≡ true) × (rank b ds < rank a ds)
rank-falls g [] a b o c h = cc
rank-falls g (n ∷ ds) a b (cover, o) c (ts, e, m) = elim (Bool-cases (contains ds a)) [
  | inl old ↦
      let (c', low) = rank-falls g ds a b o old (ts, e, m) in (ground arith, rw (old, c') low)
  | inr new ↦
      let first : (n == a) ≡ true = ground arith in
      let here = (eq_iff n a).0 first in
      let c' = cover ts (subst (λ x. targets_of g x ≡ some ts) (sym here) e) b m in
      (ground arith, ground (arith, rank-bound b ds))
]

Trail-falls :
    {g : Graph} {k : ℕ} {a b : String} (ds : List String)
    → Trail g k a b
    → Ordered g ds
    → contains ds a ≡ true
    → rank b ds + k ≤ rank a ds
Trail-falls {g = g} {a = a} {b = b} ds (one e) o c = omega (arith, (rank-falls g ds a b o c e).1)
Trail-falls {g = g} {a = a} ds (more {b = m} e t) o c =
    let (c', low) = rank-falls g ds a m o c e in omega (arith, Trail-falls ds t o c', low)

-- A name with targets is a name of the graph.
pub known :
    (g : Graph) (a : String) (ts : List String)
    → targets_of g a ≡ some ts
    → contains (names_of g) a ≡ true
known [] a ts h = cc
known ((m, us) ∷ g) a ts h = ground (arith, known g a ts)

start : {g : Graph} {k : ℕ} {a b : String} → Trail g k a b → contains (names_of g) a ≡ true
start {g = g} {a = a} (one (ts, e, _)) = known g a ts e
start {g = g} {a = a} (more (ts, e, _) _) = known g a ts e

positive : {g : Graph} {k : ℕ} {a b : String} → Trail g k a b → 1 ≤ k
positive (one _) = omega arith
positive (more {k = k} _ _) = omega arith

-- When the walk of a graph ends well, every sequence of moves through the graph is at most as long as
-- the list of the names the walk finished, and none leads from a name back to it.
pub walk_graph-acyclic :
    (g : Graph) (done : List String) (k : ℕ) (a b : String)
    → walk_graph g ≡ ok done
    → Trail g k a b
    → (k ≤ length done) × (a ≢ b)
unfolding walk_graph
walk_graph-acyclic g done k a b h t =
    let (o, cover, _) =
      walk_all-Keeps g _ (walk-Keeps g (suc (length g)) []) [] (names_of g) done h tt in
    let low = Trail-falls done t o (cover a (start t)) in
    (
      omega (arith, low, rank-bound a done),
      λ e.
          let low' = subst (λ x. rank x done + k ≤ rank a done) (sym e) low in
          omega (arith, positive t, low'),
    )
