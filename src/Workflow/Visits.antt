-- ===== src/Workflow/Visits.antt =====
-- `_bounded_step` of Engine.antt: in a document that validation accepts, no attempt opens past a
-- declared bound.
use ompire.Base.{
  >>=-eq-ok, Bool, Bool-cases, List, Option, Option-cases, String, [], all, ap, arith, contains,
  eq_iff, false, find, find-holds, for_each, for_each-found, guard, if◌then◌else◌, inl, inr, is,
  leb, leb→le, length, length-append, ltb→lt, none, not, ok, refl, select, select-append, some,
  some-same, subst, suc, sym, then-eq-ok, true, zero, ℕ, ◌++◌, ◌+◌, ◌<◌, ◌==◌, ◌∙◌, ◌∷◌, ◌≡◌, ◌≤◌,
  string_eq, ℕ_eq,
}
use ompire.Workflow.Syntax.{Definition, Step, is_named, step_named}
use ompire.Workflow.Graph.{
  GraphError, check_escape, check_escapes, exits, remaining, successors, validate_graph, walk_graph,
}
use ompire.Workflow.References.{
  ReferenceError, check_exhaustion, check_references, check_selector, check_step, declared_step,
  exhaustion_not_gate, is_gate, step_names,
}
use ompire.Workflow.Cycles.{select-all, select-lt}
use ompire.Workflow.Escapes.{ClosedUnderExits, contains-append, reachable_from-closed}
use ompire.Workflow.History.{HistoryRecord, is_attempt_of}
use ompire.Workflow.Engine.{
  append_step_record, attempts, bounded_loop, bounded_step, breaks, entry_evidence, open_attempt,
}

-- The step is the one that its name stands for.
abbrev pub IsStep : Definition → Step → Type 0
IsStep d s = step_named d s.name ≡ some s

-- The declared bound, if there is one, leaves room for an attempt.
abbrev pub MayOpen : List HistoryRecord → Step → Type 0
MayOpen rs s = (m : ℕ) → s.max_visits ≡ some m → attempts rs s.name < m

-- No step has more attempts than its bound.
abbrev pub WithinBounds : Definition → List HistoryRecord → Type 0
WithinBounds d rs = (s : Step) (m : ℕ) → IsStep d s → s.max_visits ≡ some m → attempts rs s.name ≤ m

-- The steps that the loop has left are out of reach of the current one.
abbrev Behind : Definition → List String → Step → Type 0
Behind d seen s =
    (x : String)
    → contains seen x ≡ true
    → (r : List String) × (contains r x ≡ false) × (contains r s.name ≡ true) × ClosedUnderExits d r

named-by : (d : Definition) (n : String) (s : Step) → step_named d n ≡ some s → s.name ≡ n
unfolding step_named
named-by d n s h = (eq_iff s.name n).0 (find-holds (is_named n) d.steps s h)

pub found-IsStep : (d : Definition) (n : String) (s : Step) → step_named d n ≡ some s → IsStep d s
unfolding step_named
found-IsStep d n s h =
    let same = (eq_iff s.name n).0 (find-holds (is_named n) d.steps s h) in
    subst (λ y. find (is_named y) d.steps ≡ some s) (sym same) h

guard-false : (b : Bool) (e : GraphError) → guard (not b) e ≡ ok tt → b ≡ false
guard-false true e h = cc
guard-false false e h = refl

-- What the second loop of `_validate_graph` has found of a bounded step.
escape :
    (d : Definition) (s : Step) (m : ℕ)
    → check_escapes d ≡ ok tt
    → IsStep d s
    → s.max_visits ≡ some m
    → (t : String) × (r : List String) × (s.on_exhausted ≡ some t)
      × (contains r s.name ≡ false)
      × (contains r t ≡ true)
      × ClosedUnderExits d r
unfolding check_escapes check_escape step_named
escape d s m h found bound =
    let here = for_each-found (check_escape d) (is_named s.name) d.steps s h found in
    elim (Option-cases s.on_exhausted) [
      | inl e ↦ let no_exit = rw (check_escape, bound, e) at here in cc
      | inr (t, e) ↦
          let (r, reached, first, closed) = reachable_from-closed d t in
          let outside = rw (check_escape, bound, e, reached) at here in
          (t, r, e, guard-false _ _ outside, first, closed)
    ]

-- What `_validate_references` has found of a declared step.
exhaustion-checked :
    (d : Definition) (s : Step)
    → check_references d ≡ ok tt
    → IsStep d s
    → check_exhaustion d (step_names d.steps) s ≡ ok tt
unfolding check_references check_step step_named
exhaustion-checked d s h found =
    let here = for_each-found (check_step d) (is_named s.name) d.steps s h found in
    let names = step_names d.steps in
    let rest = then-eq-ok (for_each (check_selector names) s.evidence) _ here in
    (then-eq-ok (check_exhaustion d names s) _ rest.1).0

gate-some : (o : Option Step) → is_gate o ≡ true → (t : Step) × (o ≡ some t)
gate-some none h = cc
gate-some (some t) h = (t, refl)

guard-true : (b : Bool) (e : ReferenceError) → guard b e ≡ ok tt → b ≡ true
guard-true true e h = refl
guard-true false e h = cc

exhaustion-declared :
    (d : Definition) (s : Step) (n : String)
    → check_exhaustion d (step_names d.steps) s ≡ ok tt
    → s.on_exhausted ≡ some n
    → (t : Step) × (step_named d n ≡ some t)
unfolding check_exhaustion
exhaustion-declared d s n h e =
    let both =
      then-eq-ok (declared_step (step_names d.steps) n)
        (guard (is_gate (step_named d n)) (exhaustion_not_gate n))
        (rw (check_exhaustion, e) at h) in
    gate-some (step_named d n) (guard-true _ _ both.1)

MayOpen-of_breaks :
    (rs : List HistoryRecord) (seen : List String) (s : Step)
    → breaks rs seen s ≡ true
    → contains seen s.name ≡ false
    → MayOpen rs s
MayOpen-of_breaks rs seen s b new m e =
    ltb→lt (attempts rs s.name) m (ground (arith, (rw (e, new) at b)))

goes_on :
    (rs : List HistoryRecord) (seen : List String) (s : Step)
    → breaks rs seen s ≡ false
    → (m : ℕ) × (s.max_visits ≡ some m) × (contains seen s.name ≡ false)
goes_on rs seen s b = elim (Option-cases s.max_visits) [
  | inl e ↦ let stays = rw e at b in cc
  | inr (m, e) ↦ (m, e, (ground (arith, (rw e at b))))
]

-- The current step has not been left.
Behind-new :
    (d : Definition) (seen : List String) (s : Step)
    → Behind d seen s
    → contains seen s.name ≡ false
Behind-new d seen s behind = elim (Bool-cases (contains seen s.name)) [
  | inl e ↦ let (r, out, inside, _) = behind s.name e in cc
  | inr e ↦ e
]

-- The escape is an exit.
escape-exits :
    (d : Definition) (s : Step) (t : String)
    → s.on_exhausted ≡ some t
    → contains (exits d (some s)) t ≡ true
escape-exits d s t e =
    rw (contains-append (successors d s) _ t, e, (eq_iff t t).1 refl) (ground arith)

Behind-next :
    (d : Definition) (seen : List String) (s : Step) (t : String) (next : Step) (r : List String)
    → step_named d t ≡ some next
    → contains (exits d (some s)) t ≡ true
    → IsStep d s
    → Behind d seen s
    → contains r s.name ≡ false
    → contains r t ≡ true
    → ClosedUnderExits d r
    → Behind d (s.name ∷ seen) next
Behind-next d seen s t next r target exit found behind outside inside closed x c =
    let same : next.name ≡ t = named-by d t next target in
    elim (Bool-cases (s.name == x)) [
      | inl e ↦ (
        r,
        subst (λ y. contains r y ≡ false) ((eq_iff s.name x).0 e) outside,
        subst (λ y. contains r y ≡ true) (sym same) inside,
        closed,
      )
      | inr e ↦
          let (r', out, current, closed') = behind x (rw e at c) in
          (
            r',
            out,
            subst (λ y. contains r' y ≡ true) (sym same) (closed' s.name t current (rw found exit)),
            closed',
          )
    ]

listed :
    (n : String) (ss : List Step) (s : Step)
    → find (is_named n) ss ≡ some s
    → contains (step_names ss) n ≡ true
listed n [] s h = cc
listed n (x ∷ ss) s h = elim (Bool-cases (is_named n x)) [
  | inl e ↦ ground arith
  | inr e ↦ ground (arith, listed n ss s (rw e at h))
]

leave-falls :
    (d : Definition) (seen : List String) (s : Step)
    → IsStep d s
    → contains seen s.name ≡ false
    → length (select (λ x. not (contains (s.name ∷ seen) x)) (step_names d.steps))
      < length (select (λ x. not (contains seen x)) (step_names d.steps))
unfolding step_named
leave-falls d seen s found new =
    select-lt (λ x. not (contains seen x)) (λ x. not (contains (s.name ∷ seen) x))
      (step_names d.steps) s.name (λ x h. ground arith) (listed s.name d.steps s found)
      (rw new refl) (rw ((eq_iff s.name s.name).1 refl) refl)

turn :
    (d : Definition) (rs : List HistoryRecord) (k : ℕ) (seen : List String) (s : Step) (t : String)
    (next u : Step)
    → breaks rs seen s ≡ false
    → s.on_exhausted ≡ some t
    → step_named d t ≡ some next
    → bounded_loop d rs k (s.name ∷ seen) next ≡ ok u
    → bounded_loop d rs (suc k) seen s ≡ ok u
unfolding bounded_loop
turn d rs k seen s t next u leaves e target h = rw (bounded_loop, leaves, e, target) h

bounded_loop-opens :
    (d : Definition) (rs : List HistoryRecord)
    → check_references d ≡ ok tt
    → check_escapes d ≡ ok tt
    → (k : ℕ) (seen : List String) (s : Step) → IsStep d s
    → Behind d seen s
    → length (select (λ x. not (contains seen x)) (step_names d.steps)) < k
    → (u : Step) × (bounded_loop d rs k seen s ≡ ok u) × IsStep d u × MayOpen rs u
unfolding bounded_loop
bounded_loop-opens d rs refs escapes zero seen s found behind enough = ground arith
bounded_loop-opens d rs refs escapes (suc k) seen s found behind enough =
    elim (Bool-cases (breaks rs seen s)) [
      | inl stays ↦ (
        s,
        rw (bounded_loop, stays) refl,
        found,
        MayOpen-of_breaks rs seen s stays (Behind-new d seen s behind),
      )
      | inr leaves ↦
          let (m, bound, new) = goes_on rs seen s leaves in
          let (t, r, e, outside, inside, closed) = escape d s m escapes found bound in
          let (next, target) = exhaustion-declared d s t (exhaustion-checked d s refs found) e in
          let (u, h, found', room) =
            bounded_loop-opens d rs refs escapes k (s.name ∷ seen) next
              (found-IsStep d t next target)
              (Behind-next d seen s t next r target (escape-exits d s t e) found behind outside
                inside closed)
              (omega (arith, enough, leave-falls d seen s found new)) in
          (u, turn d rs k seen s t next u leaves e target h, found', room)
    ]

length-step_names : (ss : List Step) → length (step_names ss) ≡ length ss
length-step_names [] = refl
length-step_names (s ∷ ss) = ap suc (length-step_names ss)

attempts-snoc :
    (rs : List HistoryRecord) (r : HistoryRecord) (n : String)
    → attempts (rs ++ r ∷ []) n ≡ attempts rs n + (if r.step == n then 1 else 0)
unfolding attempts
attempts-snoc rs r n = ground (
  arith,
  select-append (is_attempt_of n) rs (r ∷ []),
  length-append (select (is_attempt_of n) rs) (select (is_attempt_of n) (r ∷ [])),
)

same-step : (d : Definition) (u s : Step) → IsStep d u → IsStep d s → u.name ≡ s.name → u ≡ s
same-step d u s a b e = some-same (sym a ∙ ap (step_named d) e ∙ b)

one-more :
    (d : Definition) (rs : List HistoryRecord) (r : HistoryRecord) (u : Step)
    → IsStep d u
    → r.step ≡ u.name
    → MayOpen rs u
    → WithinBounds d rs
    → WithinBounds d (rs ++ r ∷ [])
one-more d rs r u found named room within s m is bound = elim (Bool-cases (u.name == s.name)) [
  | inl e ↦
      let same = same-step d u s found is ((eq_iff u.name s.name).0 e) in
      let below = subst (λ y. MayOpen rs y) same room m bound in
      ground (arith, attempts-snoc rs r s.name)
  | inr e ↦
      let apart = subst (λ y. y == s.name ≡ false) (sym named) e in
      rw (attempts-snoc rs r s.name, apart) (omega (arith, within s m is bound))
]

-- In a document that `_validate_references` and `_validate_graph` accept, `_open` of a declared step
-- returns: it appends one attempt, of a declared step whose visit bound leaves room for it. When no
-- step had more attempts than its declared bound before, none has after.
pub open_attempt-within :
    (d : Definition) (rs : List HistoryRecord) (n : String) (s : Step)
    → check_references d ≡ ok tt
    → validate_graph d ≡ ok tt
    → step_named d n ≡ some s
    → WithinBounds d rs
    → (u : Step) × (r : HistoryRecord) × (open_attempt d rs s ≡ ok (u, r, rs ++ r ∷ []))
      × IsStep d u
      × MayOpen rs u
      × (r.step ≡ u.name)
      × WithinBounds d (rs ++ r ∷ [])
unfolding open_attempt bounded_step append_step_record validate_graph
open_attempt-within d rs n s refs graph found within =
    let escapes = (>>=-eq-ok (walk_graph (remaining d)) _ graph).2 in
    let (u, h, found', room) =
      bounded_loop-opens d rs refs escapes (suc (length d.steps)) [] s (found-IsStep d n s found)
        (λ x c. cc) (omega (arith, select-all (step_names d.steps), length-step_names d.steps)) in
    (
      u,
      (append_step_record rs u.name (entry_evidence u rs)).0,
      rw h refl,
      found',
      room,
      refl,
      one-more d rs _ u found' refl room within,
    )

-- The bounds as a test of the declared steps.
abbrev pub within_bounds : List HistoryRecord → List Step → Bool
within_bounds rs ss =
    all (λ s. elim s.max_visits [ none ↦ true | some m ↦ leb (attempts rs s.name) m ]) ss

all-found :
    {A : Type 0} (p q : A → Bool) (xs : List A) (x : A)
    → all p xs ≡ true
    → find q xs ≡ some x
    → p x ≡ true
all-found p q [] x h found = cc
all-found p q (y ∷ ys) x h found = elim (Bool-cases (q y)) [
  | inl e ↦ subst (λ z. p z ≡ true) (some-same (rw e at found)) (ground arith)
  | inr e ↦ all-found p q ys x (ground arith) (rw e at found)
]

pub within_bounds-WithinBounds :
    (d : Definition) (rs : List HistoryRecord) → within_bounds rs d.steps ≡ true → WithinBounds d rs
unfolding step_named
within_bounds-WithinBounds d rs h s m is bound =
    leb→le (attempts rs s.name) m (rw bound at (all-found _ (is_named s.name) d.steps s h is))
