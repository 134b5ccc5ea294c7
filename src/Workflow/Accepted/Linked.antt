-- ===== src/Workflow/Accepted/Linked.antt =====
-- Whole definitions that workflow_definitions.py accepts: what the parser makes sure of, and the gates
-- that the visit bounds lead to.
use ompire.Base.{
  >>=-eq-ok, Bool, In, List, Option, Result, String, [], ap, err, false, for_each, guard, in_head,
  in_tail, none, ok, ok-same, refl, some, subst, then-eq-ok, true, ℕ, ◌>>◌, ◌∷◌, ◌≡◌, string_eq,
  ℕ_eq,
}
use ompire.Json.{Json}
use ompire.Workflow.Syntax.{
  Body, Definition, Gate, Step, agent, capture, command, decision, delivery, gate, review,
  step_named,
}
use ompire.Workflow.References.{
  ReferenceError, check_exhaustion, check_references, check_selector, check_step, declared_step,
  exhaustion_not_gate, is_gate, step_names,
}
use ompire.Workflow.Graph.{validate_graph, validate_named_endings}
use ompire.Workflow.Parse.Definitions.{
  primitive_definition, raised_as, read_definition, reference, routes, unread, validate_references,
  when_since,
}
use ompire.Workflow.Accepted.Whole.{WellFormed, read_definition-WellFormed}

raised_as-eq-ok :
    {E F A : Type 0} (f : E → F) (r : Result E A) (a : A) → raised_as f r ≡ ok a → r ≡ ok a
raised_as-eq-ok f (ok b) a h = ap ok (ok-same h)
raised_as-eq-ok f (err e) a h = cc

for_each-In :
    {E A : Type 0} (f : A → Result E (Unit {0})) (xs : List A) (x : A)
    → for_each f xs ≡ ok tt
    → In x xs
    → f x ≡ ok tt
for_each-In f [] x h i = elim i [ ]
for_each-In f (x ∷ xs) y h in_head = (then-eq-ok (f x) _ h).0
for_each-In f (x ∷ xs) y h (in_tail i) = for_each-In f xs y (then-eq-ok (f x) _ h).1 i

-- The step is a gate.
abbrev pub IsGate : Step → Type 0
IsGate t = (g : Gate) × (t.body ≡ gate g)

body-IsGate : (t : Step) (b : Body) → t.body ≡ b → is_gate (some t) ≡ true → IsGate t
body-IsGate t (gate g) e h = (g, e)
body-IsGate t (agent _) e h = cc (rw e at h)
body-IsGate t (command _) e h = cc (rw e at h)
body-IsGate t (decision _) e h = cc (rw e at h)
body-IsGate t review e h = cc (rw e at h)
body-IsGate t (delivery _) e h = cc (rw e at h)
body-IsGate t (capture _) e h = cc (rw e at h)

is_gate-IsGate : (o : Option Step) → is_gate o ≡ true → (t : Step) × (o ≡ some t) × IsGate t
is_gate-IsGate none h = cc
is_gate-IsGate (some t) h = (t, refl, body-IsGate t t.body refl h)

guard-true : (b : Bool) (e : ReferenceError) → guard b e ≡ ok tt → b ≡ true
guard-true true e h = refl
guard-true false e h = cc

-- A visit bound leads to a gate that the definition declares.
abbrev pub LeadsToGate : Definition → Step → Type 0
LeadsToGate d s =
    (n : String) → s.on_exhausted ≡ some n → (t : Step) × (step_named d n ≡ some t) × IsGate t

check_references-LeadsToGate :
    (d : Definition) (s : Step) → check_references d ≡ ok tt → In s d.steps → LeadsToGate d s
unfolding check_references check_step check_exhaustion
check_references-LeadsToGate d s h i n e =
    let here = for_each-In (check_step d) d.steps s h i in
    let names = step_names d.steps in
    let rest = then-eq-ok (for_each (check_selector names) s.evidence) _ here in
    let checked = (then-eq-ok (check_exhaustion d names s) _ rest.1).0 in
    let both =
      then-eq-ok (declared_step names n) (guard (is_gate (step_named d n)) (exhaustion_not_gate n))
        (rw (check_exhaustion, e) at checked) in
    is_gate-IsGate (step_named d n) (guard-true _ _ both.1)

references-checked : (d : Definition) → validate_references d ≡ ok tt → check_references d ≡ ok tt
unfolding validate_references
references-checked d h =
    let first =
      then-eq-ok
        (raised_as reference (check_references d)
          >> when_since 2 d.format (raised_as routes (validate_named_endings d)))
        _ h in
    raised_as-eq-ok reference (check_references d) tt
      (then-eq-ok (raised_as reference (check_references d)) _ first.0).0

-- Each definition that is accepted is of a supported format, declares its primary session, has between
-- one and 256 steps, no two sessions and no two steps of one name, and a visit bound only for at least
-- one visit and together with a name to go to once it is used up, which is the name of a declared gate.
pub primitive_definition-WellFormed :
    (k : ℕ) (j : Json) (d : Definition)
    → primitive_definition k j ≡ ok d
    → WellFormed d × ((s : Step) → In s d.steps → LeadsToGate d s)
unfolding primitive_definition
primitive_definition-WellFormed k j d h =
    let (d', e, h₁) = >>=-eq-ok (raised_as unread (read_definition k j)) _ h in
    let (linked, h₂) = then-eq-ok (validate_references d') _ h₁ in
    let (graph, last) = then-eq-ok (raised_as routes (validate_graph d')) _ h₂ in
    let sound = references-checked d' linked in
    subst (λ x. WellFormed x × ((s : Step) → In s x.steps → LeadsToGate x s)) (ok-same last)
      (
        read_definition-WellFormed k j d' (raised_as-eq-ok unread (read_definition k j) d' e),
        λ s i. check_references-LeadsToGate d' s sound i,
      )
