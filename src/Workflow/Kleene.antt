-- ===== src/Workflow/Kleene.antt =====
-- The laws of the three-valued predicates of Predicates.antt.
use ompire.Base.{
  Bool, List, Option, [], any, arith, false, if◌then◌else◌, none, not, refl, some, true, ◌∷◌, ◌≡◌,
  string_eq, ℕ_eq,
}
use ompire.Workflow.Syntax.{
  Junction, Predicates, every, junction, negation, no_predicate, predicate, some_of,
}
use ompire.Workflow.History.{Context}
use ompire.Workflow.Predicates.{
  Unresolved, Verdict, decided, decisive, ends_as, evaluate_junction, evaluate_predicate,
  first_reason, is_verdict, negate, unresolved,
}

unfoldable pub verdicts : Predicates → Context → List Verdict
verdicts no_predicate c = []
verdicts (predicate p ps) c = evaluate_predicate p c ∷ verdicts ps c

abbrev pub reason_of : List Verdict → Option Unresolved
reason_of [] = none
reason_of (decided _ ∷ vs) = reason_of vs
reason_of (unresolved u ∷ vs) = some u

-- The strong conjunction and disjunction: a decisive verdict anywhere wins; failing that, the first
-- reason for having no answer.
abbrev pub strong : Bool → List Verdict → Verdict
strong d vs = if any (is_verdict d) vs then decided d else ends_as d (reason_of vs)

abbrev pub negations : Predicates → Predicates
negations no_predicate = no_predicate
negations (predicate p ps) = predicate (negation p) (negations ps)

abbrev keep_reason : Option Unresolved → List Verdict → Option Unresolved
keep_reason none vs = reason_of vs
keep_reason (some u) vs = some u

step-strong :
    (d : Bool) (v : Verdict) (vs : List Verdict) (seen : Option Unresolved) (rest : Verdict)
    → rest ≡ (
        if any (is_verdict d) vs
        then decided d
        else ends_as d (keep_reason (first_reason seen v) vs))
    → (if is_verdict d v then decided d else rest)
      ≡ (if any (is_verdict d) (v ∷ vs) then decided d else ends_as d (keep_reason seen (v ∷ vs)))
step-strong d (decided b) vs none rest h = ground arith
step-strong d (decided b) vs (some u) rest h = ground arith
step-strong true (unresolved x) vs none rest h = h
step-strong false (unresolved x) vs none rest h = h
step-strong true (unresolved x) vs (some u) rest h = h
step-strong false (unresolved x) vs (some u) rest h = h

loop-strong :
    (d : Bool) (ps : Predicates) (c : Context) (seen : Option Unresolved)
    → evaluate_junction d ps c seen ≡ (
        if any (is_verdict d) (verdicts ps c)
        then decided d
        else ends_as d (keep_reason seen (verdicts ps c)))
unfolding evaluate_predicate verdicts
loop-strong d no_predicate c none = refl
loop-strong d no_predicate c (some u) = refl
loop-strong d (predicate p ps) c seen =
    step-strong d (evaluate_predicate p c) (verdicts ps c) seen _
      (loop-strong d ps c (first_reason seen (evaluate_predicate p c)))

-- A junction does not depend on where its loop stops: it has the decisive answer exactly when some
-- operand has it, and otherwise the first operand without an answer leaves it without one.
pub junction-strong :
    (j : Junction) (ps : Predicates) (c : Context)
    → evaluate_predicate (junction j ps) c ≡ strong (decisive j) (verdicts ps c)
unfolding evaluate_predicate
junction-strong j ps c = loop-strong (decisive j) ps c none

step-negate :
    (d : Bool) (v : Verdict) (seen : Option Unresolved) (rest rest' : Option Unresolved → Verdict)
    → ((o : Option Unresolved) → negate (rest o) ≡ rest' o)
    → negate (if is_verdict d v then decided d else rest (first_reason seen v)) ≡ (
        if is_verdict (not d) (negate v)
        then decided (not d)
        else rest' (first_reason seen (negate v)))
step-negate true (decided true) seen rest rest' h = refl
step-negate true (decided false) none rest rest' h = h none
step-negate true (decided false) (some u) rest rest' h = h (some u)
step-negate false (decided true) none rest rest' h = h none
step-negate false (decided true) (some u) rest rest' h = h (some u)
step-negate false (decided false) seen rest rest' h = refl
step-negate true (unresolved x) seen rest rest' h = h (first_reason seen (unresolved x))
step-negate false (unresolved x) seen rest rest' h = h (first_reason seen (unresolved x))

negate-loop :
    (d : Bool) (ps : Predicates) (c : Context) (seen : Option Unresolved)
    → negate (evaluate_junction d ps c seen) ≡ evaluate_junction (not d) (negations ps) c seen
unfolding evaluate_predicate
negate-loop true no_predicate c none = refl
negate-loop false no_predicate c none = refl
negate-loop d no_predicate c (some u) = refl
negate-loop d (predicate p ps) c seen =
    step-negate d (evaluate_predicate p c) seen (evaluate_junction d ps c)
      (evaluate_junction (not d) (negations ps) c) (negate-loop d ps c)

-- De Morgan: denying an `all` or an `any` is the other one of the denied operands, answers and reasons
-- for having none alike.
pub de_morgan :
    (ps : Predicates) (c : Context)
    → (evaluate_predicate (negation (junction every ps)) c
        ≡ evaluate_predicate (junction some_of (negations ps)) c)
      × (evaluate_predicate (negation (junction some_of ps)) c
          ≡ evaluate_predicate (junction every (negations ps)) c)
unfolding evaluate_predicate
de_morgan ps c = (negate-loop false ps c none, negate-loop true ps c none)
