-- ===== src/Workflow/Escapes.antt =====
-- `_reachable_from` of Graph.antt: what it returns is closed under every exit, and its fuel is
-- enough.
use mathlib.Core.List.{reverse, reverse_aux}
use ompire.Base.{
  Bool-cases, List, String, [], arith, contains, eq_iff, false, find, if◌then◌else◌, inl, inr,
  length, length-append, ok, refl, some, some-same, subst, suc, sym, true, zero, ℕ, ◌++◌, ◌+◌, ◌==◌,
  ◌||◌, ◌∷◌, ◌≡◌, ◌≤◌, string_eq, ℕ_eq,
}
use ompire.Workflow.Syntax.{Definition, Step, is_named, step_named}
use ompire.Workflow.Graph.{exit_count, exits, reach, reachable_from}

pub contains-append :
    (xs ys : List String) (x : String) → contains (xs ++ ys) x ≡ contains xs x || contains ys x
contains-append [] ys x = refl
contains-append (y ∷ xs) ys x = ground (arith, contains-append xs ys x)

contains-reverse_aux :
    (xs ys : List String) (x : String)
    → contains (reverse_aux xs ys) x ≡ contains xs x || contains ys x
contains-reverse_aux [] ys x = refl
contains-reverse_aux (y ∷ xs) ys x = ground (arith, contains-reverse_aux xs (y ∷ ys) x)

contains-reverse : (xs : List String) (x : String) → contains (reverse xs) x ≡ contains xs x
contains-reverse xs x = ground (arith, contains-reverse_aux xs [] x)

-- Every exit of a name in the list is in the list or on the stack.
abbrev Pending : Definition → (seen stack : List String) → Type 0
Pending d seen stack =
    (a b : String)
    → contains seen a ≡ true
    → contains (exits d (step_named d a)) b ≡ true
    → contains seen b || contains stack b ≡ true

-- A list of names that every exit stays in.
abbrev pub ClosedUnderExits : Definition → List String → Type 0
ClosedUnderExits d r =
    (a b : String)
    → contains r a ≡ true
    → contains (exits d (step_named d a)) b ≡ true
    → contains r b ≡ true

contains-same :
    (xs : List String) (n x : String) → n == x ≡ true → contains xs n ≡ true → contains xs x ≡ true
contains-same xs n x e h = subst (λ y. contains xs y ≡ true) ((eq_iff n x).0 e) h

skip :
    (d : Definition) (seen stack : List String) (n : String)
    → contains seen n ≡ true
    → Pending d seen (n ∷ stack)
    → Pending d seen stack
skip d seen stack n old p a b c e = elim (Bool-cases (n == b)) [
  | inl same ↦ ground (arith, contains-same seen n b same old)
  | inr other ↦ ground (arith, p a b c e)
]

expand :
    (d : Definition) (seen stack : List String) (n : String)
    → Pending d seen (n ∷ stack)
    → Pending d (n ∷ seen) (reverse (exits d (step_named d n)) ++ stack)
expand d seen stack n p a b c e = elim (Bool-cases (n == a)) [
  | inl same ↦
      let e' =
        subst (λ y. contains (exits d (step_named d y)) b ≡ true) (sym ((eq_iff n a).0 same)) e in
      let pushed = contains-append (reverse (exits d (step_named d n))) stack b in
      let turned = contains-reverse (exits d (step_named d n)) b in ground arith
  | inr other ↦
      let pushed = contains-append (reverse (exits d (step_named d n))) stack b in
      ground (arith, p a b (rw other at c) e)
]

finished :
    (d : Definition) (seen r : List String)
    → Pending d seen []
    → seen ≡ r
    → ClosedUnderExits d r × ((x : String) → contains seen x || false ≡ true → contains r x ≡ true)
finished d seen r p e =
    subst
      (λ z.
        ClosedUnderExits d z
        × ((x : String) → contains seen x || false ≡ true → contains z x ≡ true))
      e (λ a b c x. ground (arith, p a b c x), λ x c. ground arith)

pub reach-closed :
    (d : Definition) (k : ℕ) (seen stack r : List String)
    → Pending d seen stack
    → reach d k seen stack ≡ some r
    → ClosedUnderExits d r
      × ((x : String) → contains seen x || contains stack x ≡ true → contains r x ≡ true)
unfolding reach
reach-closed d zero seen [] r p h = finished d seen r p (some-same h)
reach-closed d (suc k) seen [] r p h = finished d seen r p (some-same h)
reach-closed d zero seen (n ∷ stack) r p h = cc
reach-closed d (suc k) seen (n ∷ stack) r p h = elim (Bool-cases (contains seen n)) [
  | inl old ↦
      let (closed, keep) =
        reach-closed d k seen stack r (skip d seen stack n old p) (rw (reach, old) at h) in
      (
        closed,
        λ x c. elim (Bool-cases (n == x)) [
          | inl same ↦ keep x (ground (arith, contains-same seen n x same old))
          | inr other ↦ keep x (rw other at c)
        ],
      )
  | inr new ↦
      let next = reverse (exits d (step_named d n)) ++ stack in
      let (closed, keep) =
        reach-closed d k (n ∷ seen) next r (expand d seen stack n p) (rw (reach, new) at h) in
      (
        closed,
        λ x c.
            let pushed = contains-append (reverse (exits d (step_named d n))) stack x in
            keep x (ground arith),
      )
]

-- The exits of the steps that are not seen yet.
abbrev unseen : Definition → List String → List Step → ℕ
unseen d seen [] = 0
unseen d seen (s ∷ ss) =
    let rest = unseen d seen ss in
    if contains seen s.name then rest else length (exits d (some s)) + rest

unseen-le :
    (d : Definition) (seen : List String) (n : String) (ss : List Step)
    → unseen d (n ∷ seen) ss ≤ unseen d seen ss
unseen-le d seen n [] = omega arith
unseen-le d seen n (s ∷ ss) = ground (arith, unseen-le d seen n ss)

unseen-falls :
    (d : Definition) (seen : List String) (n : String) (ss : List Step)
    → contains seen n ≡ false
    → length (exits d (find (is_named n) ss)) + unseen d (n ∷ seen) ss ≤ unseen d seen ss
unseen-falls d seen n [] new = omega arith
unseen-falls d seen n (s ∷ ss) new = elim (Bool-cases (s.name == n)) [
  | inl e ↦
      let back = (eq_iff n s.name).1 (sym ((eq_iff s.name n).0 e)) in
      let fresh = subst (λ y. contains seen y ≡ false) (sym ((eq_iff s.name n).0 e)) new in
      rw (e, back, fresh) (omega (arith, unseen-le d seen n ss))
  | inr e ↦ rw e (ground (arith, unseen-falls d seen n ss new))
]

unseen-none : (d : Definition) (ss : List Step) → unseen d [] ss ≡ exit_count d ss
unseen-none d [] = refl
unseen-none d (s ∷ ss) = omega (arith, unseen-none d ss)

length-reverse_aux : (xs ys : List String) → length (reverse_aux xs ys) ≡ length xs + length ys
length-reverse_aux [] ys = omega arith
length-reverse_aux (x ∷ xs) ys = omega (arith, length-reverse_aux xs (x ∷ ys))

reach-ends :
    (d : Definition) (k : ℕ) (seen stack : List String)
    → length stack + unseen d seen d.steps ≤ k
    → (r : List String) × (reach d k seen stack ≡ some r)
unfolding reach
reach-ends d zero seen [] enough = (seen, refl)
reach-ends d (suc k) seen [] enough = (seen, refl)
reach-ends d zero seen (n ∷ stack) enough = ground arith
reach-ends d (suc k) seen (n ∷ stack) enough = elim (Bool-cases (contains seen n)) [
  | inl old ↦
      let (r, h) = reach-ends d k seen stack (omega (arith, enough)) in (r, rw (reach, old) h)
  | inr new ↦
      let es = exits d (step_named d n) in
      let (r, h) = reach-ends d k (n ∷ seen) (reverse es ++ stack) (
        omega (
          arith,
          enough,
          length-append (reverse es) stack,
          length-reverse_aux es [],
          unseen-falls d seen n d.steps new,
        )) in
      (r, rw (reach, new) h)
]

-- The names that `_reachable_from` returns for a start: it always returns, the start is among them,
-- and no exit of a step among them leads out of them.
pub reachable_from-closed :
    (d : Definition) (start : String)
    → (r : List String) × (reachable_from d start ≡ ok r)
      × (contains r start ≡ true)
      × ClosedUnderExits d r
unfolding reachable_from
reachable_from-closed d start =
    let (r, h) =
      reach-ends d (suc (exit_count d d.steps)) [] (start ∷ [])
        (omega (arith, unseen-none d d.steps)) in
    let (closed, keep) =
      reach-closed d (suc (exit_count d d.steps)) [] (start ∷ []) r (λ a b c e. cc) h in
    (r, rw h refl, keep start (ground (arith, (eq_iff start start).1 refl)), closed)
