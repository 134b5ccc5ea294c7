-- ===== src/Workflow/Cycles.antt =====
-- What the walk of Graph.antt refuses: the names in the error are a cycle of the graph, and the fuel
-- it starts with is enough.
use ompire.Base.{
  Bool, Bool-cases, List, Option, Result, Result-cases, String, [], all, ap, arith, contains,
  eq_iff, err, false, get_last?, get_last?-append, head?, inl, inr, is, is_some, length,
  length-append, none, not, ok, refl, select, some, some-same, subst, suc, sym, true, zero, ℕ, ◌&&◌,
  ◌++◌, ◌<◌, ◌==◌, ◌>>=◌, ◌||◌, ◌∙◌, ◌∷◌, ◌≡◌, ◌≤◌, ◌⊎◌, string_eq, ℕ_eq,
}
use ompire.Workflow.Graph.{
  Graph, GraphError, from_name, names_of, targets_of, unbounded_cycle, walk, walk_all, walk_graph,
}
use ompire.Workflow.Acyclic.{Edge, known}

-- Consecutive names are moves.
abbrev pub Chain : Graph → List String → Type 0
Chain g [] = Unit
Chain g (a ∷ []) = Unit
Chain g (a ∷ b ∷ ns) = Edge g a b × Chain g (b ∷ ns)

-- A sequence of moves that ends where it began.
abbrev pub IsCycle : Graph → List String → Type 0
IsCycle g ns = Chain g ns × (head? ns ≡ get_last? ns) × (2 ≤ length ns)

-- Every target is a name of the graph.
abbrev pub Declared : Graph → Type 0
Declared g = (a b : String) → Edge g a b → (ts : List String) × (targets_of g b ≡ some ts)

-- The same as a test of the entries.
abbrev pub all_declared : Graph → Graph → Bool
all_declared g [] = true
all_declared g ((_, ts) ∷ es) = all (λ t. is_some (targets_of g t)) ts && all_declared g es

is_some-value : {A : Type 0} (o : Option A) → is_some o ≡ true → (a : A) × (o ≡ some a)
is_some-value none h = cc
is_some-value (some a) h = (a, refl)

all-contains :
    (p : String → Bool) (ts : List String) (t : String)
    → all p ts ≡ true
    → contains ts t ≡ true
    → p t ≡ true
all-contains p [] t h c = cc
all-contains p (x ∷ xs) t h c = elim (Bool-cases (x == t)) [
  | inl e ↦ subst (λ y. p y ≡ true) ((eq_iff x t).0 e) (ground arith)
  | inr e ↦ all-contains p xs t (ground arith) (rw e at c)
]

entry-declared :
    (g es : Graph) (a : String) (ts : List String)
    → all_declared g es ≡ true
    → targets_of es a ≡ some ts
    → all (λ t. is_some (targets_of g t)) ts ≡ true
entry-declared g [] a ts h e = cc
entry-declared g ((m, us) ∷ es) a ts h e = elim (Bool-cases (m == a)) [
  | inl is ↦
      subst (λ y. all (λ t. is_some (targets_of g t)) y ≡ true) (some-same (rw is at e))
        (ground arith)
  | inr isnt ↦ entry-declared g es a ts (ground arith) (rw isnt at e)
]

all_declared-Declared : (g : Graph) → all_declared g g ≡ true → Declared g
all_declared-Declared g h a b (ts, e, m) =
    is_some-value (targets_of g b)
      (all-contains (λ t. is_some (targets_of g t)) ts b (entry-declared g g a ts h e) m)

Chain-tail : (g : Graph) (a : String) (ns : List String) → Chain g (a ∷ ns) → Chain g ns
Chain-tail g a [] c = tt
Chain-tail g a (b ∷ ns) (_, c) = c

-- A move added at the end.
Chain-snoc :
    (g : Graph) (ns : List String) (a b : String)
    → Chain g (ns ++ a ∷ [])
    → Edge g a b
    → Chain g ((ns ++ a ∷ []) ++ b ∷ [])
Chain-snoc g [] a b c e = (e, tt)
Chain-snoc g (n ∷ []) a b (d, c) e = (d, (e, tt))
Chain-snoc g (n ∷ m ∷ ns) a b (d, c) e = (d, Chain-snoc g (m ∷ ns) a b c e)

from_name-Chain :
    (g : Graph) (n : String) (path : List String)
    → Chain g (path ++ n ∷ [])
    → Chain g (from_name n path ++ n ∷ [])
from_name-Chain g n [] c = tt
from_name-Chain g n (m ∷ ms) c = elim (Bool-cases (m == n)) [
  | inl e ↦ rw e c
  | inr e ↦ rw e (from_name-Chain g n ms (Chain-tail g m (ms ++ n ∷ []) c))
]

from_name-head :
    (n : String) (path rest : List String)
    → contains path n ≡ true
    → (head? (from_name n path ++ rest) ≡ some n) × (1 ≤ length (from_name n path))
from_name-head n [] rest c = cc
from_name-head n (m ∷ ms) rest c = elim (Bool-cases (m == n)) [
  | inl e ↦ rw e (ap some ((eq_iff m n).0 e), omega arith)
  | inr e ↦ rw e (from_name-head n ms rest (rw e at c))
]

-- The names of the graph that the path does not hold.
abbrev left : Graph → List String → ℕ
left g path = length (select (λ n. not (contains path n)) (names_of g))

pub select-le :
    (p q : String → Bool) (xs : List String)
    → ((x : String) → q x ≡ true → p x ≡ true)
    → length (select q xs) ≤ length (select p xs)
select-le p q [] h = omega arith
select-le p q (x ∷ xs) h = elim (Bool-cases (q x)) [
  | inl e ↦ rw (e, h x e) (omega (arith, select-le p q xs h))
  | inr e ↦ ground (arith, select-le p q xs h)
]

pub select-lt :
    (p q : String → Bool) (xs : List String) (n : String)
    → ((x : String) → q x ≡ true → p x ≡ true)
    → contains xs n ≡ true
    → p n ≡ true
    → q n ≡ false
    → length (select q xs) < length (select p xs)
select-lt p q [] n h c on off = cc
select-lt p q (x ∷ xs) n h c on off = elim (Bool-cases (x == n)) [
  | inl e ↦
      let same = sym ((eq_iff x n).0 e) in
      let on' = subst (λ y. p y ≡ true) same on in
      let off' = subst (λ y. q y ≡ false) same off in
      rw (on', off') (omega (arith, select-le p q xs h))
  | inr e ↦
      let rest = select-lt p q xs n h (rw e at c) on off in
      elim (Bool-cases (q x)) [
        | inl kept ↦ rw (kept, h x kept) (omega (arith, rest))
        | inr dropped ↦ ground (arith, rest)
      ]
]

-- The call that refused, of a list of calls.
walk_all-err :
    (call : List String → String → Result GraphError (List String)) (done ns : List String)
    (e : GraphError)
    → walk_all call done ns ≡ err e
    → (d : List String) × (t : String) × (contains ns t ≡ true) × (call d t ≡ err e)
walk_all-err call done [] e h = cc
walk_all-err call done (n ∷ ns) e h = elim (Result-cases (call done n)) [
  | inl (d, here) ↦
      let (d', t, c, h') = walk_all-err call d ns e (rw here at h) in (d', t, ground arith, h')
  | inr (x, here) ↦ (done, n, rw ((eq_iff n n).1 refl), here ∙ (rw here at h))
]

last-err :
    {A B E : Type 0} (m : Result E A) (f : A → B) (e : E)
    → (m >>= λ a. ok (f a)) ≡ err e
    → m ≡ err e
last-err (ok a) f e h = cc
last-err (err e') f e h = cc

contains-snoc :
    (ns : List String) (n x : String) → contains (ns ++ n ∷ []) x ≡ contains ns x || (n == x)
contains-snoc [] n x = ground arith
contains-snoc (m ∷ ms) n x = ground (arith, contains-snoc ms n x)

-- One more name on the path leaves fewer.
left-falls :
    (g : Graph) (path : List String) (n : String)
    → contains (names_of g) n ≡ true
    → contains path n ≡ false
    → left g (path ++ n ∷ []) < left g path
left-falls g path n in_graph new =
    select-lt (λ x. not (contains path x)) (λ x. not (contains (path ++ n ∷ []) x)) (names_of g) n
      (λ x h. ground (arith, contains-snoc path n x)) in_graph (rw new refl)
      (rw (contains-snoc path n n, (eq_iff n n).1 refl) (ground arith))

found-IsCycle :
    (g : Graph) (path : List String) (n : String)
    → Chain g (path ++ n ∷ [])
    → contains path n ≡ true
    → IsCycle g (from_name n path ++ n ∷ [])
found-IsCycle g path n c h =
    let (first, some_name) = from_name-head n path (n ∷ []) h in
    (
      from_name-Chain g n path c,
      first ∙ sym (get_last?-append (from_name n path) n),
      omega (arith, some_name, length-append (from_name n path) (n ∷ [])),
    )

walk-refuses :
    (g : Graph)
    → Declared g
    → (k : ℕ) (path done : List String) (n : String) (ts : List String) (e : GraphError)
    → Chain g (path ++ n ∷ [])
    → targets_of g n ≡ some ts
    → left g path < k
    → walk g k path done n ≡ err e
    → (c : List String) × (e ≡ unbounded_cycle c) × IsCycle g c
unfolding walk
walk-refuses g known_all zero path done n ts e c t enough h = ground arith
walk-refuses g known_all (suc k) path done n ts e c t enough h =
    elim (Bool-cases (contains path n)) [
      | inl on ↦
          let h' = rw (walk, on) at h in
          (from_name n path ++ n ∷ [], cc, found-IsCycle g path n c on)
      | inr off ↦ elim (Bool-cases (contains done n)) [
        | inl finished ↦ let h' = rw (walk, off, finished) at h in cc
        | inr new ↦
            let path' = path ++ n ∷ [] in
            let (d, m, in_ts, h') =
              walk_all-err (walk g k path') done ts e
                (last-err _ _ e (rw (walk, off, new, t) at h)) in
            let (us, found) = known_all n m (ts, t, in_ts) in
            walk-refuses g known_all k path' d m us e (Chain-snoc g path n m c (ts, t, in_ts)) found
              (omega (arith, left-falls g path n (known g n ts t) off, enough)) h'
      ]
    ]

pub select-all : (xs : List String) → length (select (λ x. not (contains [] x)) xs) ≡ length xs
select-all [] = refl
select-all (x ∷ xs) = ap suc (select-all xs)

length-names : (g : Graph) → length (names_of g) ≡ length g
length-names [] = refl
length-names (_ ∷ g) = ap suc (length-names g)

named :
    (g : Graph) (n : String)
    → contains (names_of g) n ≡ true
    → (ts : List String) × (targets_of g n ≡ some ts)
named [] n h = cc
named ((m, ts) ∷ g) n h = elim (Bool-cases (m == n)) [
  | inl e ↦ (ts, rw e refl)
  | inr e ↦ rw e (named g n (rw e at h))
]

-- On a graph whose targets are all names of it, the walk ends without running out of fuel and without
-- a missing key: it finishes, or it refuses with a list of names that is a cycle of the graph.
pub walk_graph-decides :
    (g : Graph)
    → all_declared g g ≡ true
    → ((done : List String) × (walk_graph g ≡ ok done))
      ⊎ ((c : List String) × (walk_graph g ≡ err (unbounded_cycle c)) × IsCycle g c)
unfolding walk_graph
walk_graph-decides g declared = elim (Result-cases (walk_graph g)) [
  | inl (done, h) ↦ inl (done, h)
  | inr (e, h) ↦
      let (d, n, listed, h') = walk_all-err (walk g (suc (length g)) []) [] (names_of g) e h in
      let (ts, t) = named g n listed in
      let (c, same, cycle) =
        walk-refuses g (all_declared-Declared g declared) (suc (length g)) [] d n ts e tt t
          (omega (arith, select-all (names_of g), length-names g)) h' in
      inr (c, h ∙ ap err same, cycle)
]
