-- ===== src/Workflow/Captures.antt =====
-- The destination of a capture step: the engine follows it, and `_successors` of
-- workflow_definitions.py does not read it.
use mathlib.Core.Option.{map as map_option}
use ompire.Base.{
  Bool-cases, List, Option, Option-cases, String, [], ap, arith, find, for_each, head?, inl, inr,
  map, none, refl, some, suc, zero, ℕ, ◌==◌, ◌∙◌, ◌∷◌, ◌≡◌, string_eq, ℕ_eq,
}
use ompire.Workflow.Syntax.{
  Body, Capture, Definition, Destination, Step, agent, capture, command, decision, delivery,
  following, gate, is_named, review, step_after, step_named,
}
use ompire.Workflow.Engine.{fixed_destination}
use ompire.Workflow.Graph.{
  bounded_names, check_escape, check_escapes, exit_count, exits, name_of, reach, reachable_from,
  remaining, successors, targets_in, unbounded, validate_graph,
}

-- The same step with another destination, when it is a capture.
abbrev pub routed : Destination → Body → Body
routed x (capture c) = capture (record c { next = x })
routed x b = b

abbrev pub with_next : Destination → Step → Step
with_next x s = record s { body = routed x s.body }

-- The same document with every capture routed to one destination.
abbrev pub redirect : Destination → Definition → Definition
redirect x d = record d { steps = map (with_next x) d.steps }

pub find-named :
    (x : Destination) (n : String) (ss : List Step)
    → find (is_named n) (map (with_next x) ss) ≡ map_option (with_next x) (find (is_named n) ss)
find-named x n [] = refl
find-named x n (s ∷ ss) = elim (Bool-cases (s.name == n)) [
  | inl e ↦ rw e refl
  | inr e ↦ rw e (find-named x n ss)
]

head-map :
    (x : Destination) (ss : List Step)
    → head? (map (with_next x) ss) ≡ map_option (with_next x) (head? ss)
head-map x [] = refl
head-map x (s ∷ ss) = refl

pub following-map :
    (x : Destination) (n : String) (ss : List Step)
    → following n (map (with_next x) ss) ≡ map_option (with_next x) (following n ss)
unfolding following
following-map x n [] = refl
following-map x n (s ∷ ss) = ground (arith, head-map x ss, following-map x n ss)

name_of-map : (x : Destination) (o : Option Step) → name_of (map_option (with_next x) o) ≡ name_of o
name_of-map x none = refl
name_of-map x (some s) = refl

behind :
    (x : Destination) (d : Definition) (n : String)
    → name_of (step_after (redirect x d) n) ≡ name_of (step_after d n)
unfolding step_after
behind x d n = ap name_of (following-map x n d.steps) ∙ name_of-map x (following n d.steps)

targets-routed :
    (x : Destination) (ns : List String) (b : Body) → targets_in ns (routed x b) ≡ targets_in ns b
targets-routed x ns (capture c) = refl
targets-routed x ns (agent _) = refl
targets-routed x ns (command _) = refl
targets-routed x ns (decision _) = refl
targets-routed x ns (gate _) = refl
targets-routed x ns review = refl
targets-routed x ns (delivery _) = refl

successors-redirect :
    (x : Destination) (d : Definition) (s : Step)
    → successors (redirect x d) (with_next x s) ≡ successors d s
unfolding successors
successors-redirect x d s =
    targets-routed x _ s.body ∙ ap (λ ns. targets_in ns s.body) (behind x d s.name)

bounded-redirect :
    (x : Destination) (ss : List Step) → bounded_names (map (with_next x) ss) ≡ bounded_names ss
bounded-redirect x [] = refl
bounded-redirect x (s ∷ ss) = rw (bounded-redirect x ss) refl

unbounded-redirect :
    (x : Destination) (d : Definition) (bs : List String) (ss : List Step)
    → unbounded (redirect x d) bs (map (with_next x) ss) ≡ unbounded d bs ss
unbounded-redirect x d bs [] = refl
unbounded-redirect x d bs (s ∷ ss) =
    rw (unbounded-redirect x d bs ss, successors-redirect x d s) refl

remaining-redirect : (x : Destination) (d : Definition) → remaining (redirect x d) ≡ remaining d
unfolding remaining
remaining-redirect x d =
    ap (λ bs. unbounded (redirect x d) bs (map (with_next x) d.steps)) (bounded-redirect x d.steps)
    ∙ unbounded-redirect x d (bounded_names d.steps) d.steps

exits-redirect :
    (x : Destination) (d : Definition) (o : Option Step)
    → exits (redirect x d) (map_option (with_next x) o) ≡ exits d o
exits-redirect x d none = refl
exits-redirect x d (some s) = rw (successors-redirect x d s) refl

count-redirect :
    (x : Destination) (d : Definition) (ss : List Step)
    → exit_count (redirect x d) (map (with_next x) ss) ≡ exit_count d ss
count-redirect x d [] = refl
count-redirect x d (s ∷ ss) = rw (count-redirect x d ss, successors-redirect x d s) refl

reach-redirect :
    (x : Destination) (d : Definition) (k : ℕ) (seen stack : List String)
    → reach (redirect x d) k seen stack ≡ reach d k seen stack
unfolding reach step_named
reach-redirect x d zero seen [] = refl
reach-redirect x d (suc k) seen [] = refl
reach-redirect x d zero seen (n ∷ stack) = refl
reach-redirect x d (suc k) seen (n ∷ stack) =
    let same =
      ap (exits (redirect x d)) (find-named x n d.steps)
      ∙ exits-redirect x d (find (is_named n) d.steps) in
    rw (same, reach-redirect x d k seen stack, reach-redirect x d k (n ∷ seen) _) refl

reachable-redirect :
    (x : Destination) (d : Definition) (n : String)
    → reachable_from (redirect x d) n ≡ reachable_from d n
unfolding reachable_from
reachable-redirect x d n =
    rw (count-redirect x d d.steps, reach-redirect x d (suc (exit_count d d.steps)) [] (n ∷ []))
      refl

escape-redirect :
    (x : Destination) (d : Definition) (s : Step)
    → check_escape (redirect x d) (with_next x s) ≡ check_escape d s
unfolding check_escape
escape-redirect x d s = elim (Option-cases s.on_exhausted) [
  | inl e ↦ rw e refl
  | inr (t, e) ↦ rw (e, reachable-redirect x d t) refl
]

escapes-redirect :
    (x : Destination) (d : Definition) (ss : List Step)
    → for_each (check_escape (redirect x d)) (map (with_next x) ss) ≡ for_each (check_escape d) ss
escapes-redirect x d [] = refl
escapes-redirect x d (s ∷ ss) = rw (escape-redirect x d s, escapes-redirect x d ss) refl

-- Where a capture step says that the run goes on makes no difference to the cycle check: its verdict on
-- a document, errors included, is the one on the document with every capture routed to any other
-- destination. The engine goes where that destination says.
pub validate_graph-ignores_captures :
    (x : Destination) (d : Definition) (s : Step) (c : Capture)
    → s.body ≡ capture c
    → (validate_graph (redirect x d) ≡ validate_graph d)
      × (fixed_destination (with_next x s) ≡ some x)
unfolding validate_graph check_escapes fixed_destination
validate_graph-ignores_captures x d s c e =
    (rw (remaining-redirect x d, escapes-redirect x d d.steps) refl, rw e refl)
