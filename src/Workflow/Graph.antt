-- ===== src/Workflow/Graph.antt =====
-- The graph of a workflow document, workflow_definitions.py: `_successors`, `_falls_through`,
-- `_validate_named_endings`, `_validate_graph` and `_reachable_from`.
--
-- The parser has refused two steps of one name before any of these runs, so a dictionary keyed by
-- step name is a list of pairs here. A set of names is a list of names.
use mathlib.Core.List.{reverse}
use ompire.Base.{
  Bool, List, Option, Result, String, [], contains, err, false, for_each, guard, if◌then◌else◌,
  is_some, length, none, not, ok, or_fail, select, some, suc, true, zero, ℕ, ◌++◌, ◌+◌, ◌==◌, ◌>>=◌,
  ◌>>◌, ◌||◌, ◌∷◌, string_eq, ℕ_eq,
}
use ompire.Workflow.Syntax.{
  Body, DecisionCase, Definition, Destination, GateChoice, Step, complete, decision, delivery, gate,
  pause, step_after, step_named, to_step,
}

pub data GraphError : Type 0 where
  unbounded_cycle : List String → GraphError
  key_error : String → GraphError
  escape_returns : (step target : String) → GraphError
  falls_off : String → GraphError
  no_escape : String → GraphError
  out_of_fuel : GraphError

-- The step destinations of a list, in order.
abbrev pub targets : List Destination → List String
targets [] = []
targets (to_step n ∷ ds) = n ∷ targets ds
targets (complete _ ∷ ds) = targets ds
targets (pause ∷ ds) = targets ds

abbrev pub case_nexts : List DecisionCase → List Destination
case_nexts [] = []
case_nexts (c ∷ cs) = c.next ∷ case_nexts cs

abbrev pub choice_nexts : List GateChoice → List Destination
choice_nexts [] = []
choice_nexts (c ∷ cs) = c.next ∷ choice_nexts cs

abbrev pub name_of : Option Step → List String
name_of none = []
name_of (some s) = s.name ∷ []

abbrev pub is_empty {ℓ} : {A : Type ℓ} → List A → Bool
is_empty [] = true
is_empty (_ ∷ _) = false

-- The targets that a body declares; of a body that declares no destination, the step behind.
abbrev pub targets_in : List String → Body → List String
targets_in next (decision b) = targets (case_nexts b.cases ++ b.otherwise ∷ [])
targets_in next (gate g) = if is_empty g.choices then next else targets (choice_nexts g.choices)
targets_in next (delivery b) = targets (b.next ∷ [])
targets_in next _ = next

-- _successors
unfoldable pub successors : Definition → Step → List String
successors d s = targets_in (name_of (step_after d s.name)) s.body

-- _falls_through
unfoldable pub falls_through : Step → Bool
falls_through s = elim s.body [
  | decision _ ↦ false
  | gate g ↦ is_empty g.choices
  | delivery _ ↦ false
  | _ ↦ true
]

-- The steps of `_validate_named_endings`: one that falls through has a step behind it.
abbrev pub named_endings : Definition → List Step → Result GraphError (Unit {0})
named_endings d [] = ok tt
named_endings d (s ∷ ss) =
    guard (not (falls_through s) || is_some (step_after d s.name)) (falls_off s.name)
    >> named_endings d ss

unfoldable pub validate_named_endings : Definition → Result GraphError (Unit {0})
validate_named_endings d = named_endings d d.steps

abbrev pub is_bounded : Step → Bool
is_bounded s = is_some s.max_visits

-- The names of the bounded steps.
abbrev pub bounded_names : List Step → List String
bounded_names [] = []
bounded_names (s ∷ ss) = let rest = bounded_names ss in if is_bounded s then s.name ∷ rest else rest

abbrev pub Graph : Type 0
Graph = List (String × List String)

-- `remaining`: the unbounded steps, each with its successors that are not bounded.
abbrev pub unbounded : Definition → List String → List Step → Graph
unbounded d bs [] = []
unbounded d bs (s ∷ ss) =
    let rest = unbounded d bs ss in
    if contains bs s.name
    then rest
    else (s.name, select (λ t. not (contains bs t)) (successors d s)) ∷ rest

unfoldable pub remaining : Definition → Graph
remaining d = unbounded d (bounded_names d.steps) d.steps

abbrev pub targets_of : Graph → String → Option (List String)
targets_of [] n = none
targets_of ((m, ts) ∷ g) n = if m == n then some ts else targets_of g n

abbrev pub names_of : Graph → List String
names_of [] = []
names_of ((m, _) ∷ g) = m ∷ names_of g

-- `path[path.index(name):]`
abbrev pub from_name : String → List String → List String
from_name n [] = []
from_name n (m ∷ ms) = if m == n then m ∷ ms else from_name n ms

-- One call for each name of a list, the set of done names passed on.
abbrev pub walk_all :
    (List String → String → Result GraphError (List String))
    → List String
    → List String
    → Result GraphError (List String)
walk_all call done [] = ok done
walk_all call done (n ∷ ns) = call done n >>= λ done'. walk_all call done' ns

-- `walk(name, path)`. The set `visiting` holds exactly the names of `path`: a call adds its name to
-- both and takes it out of both on its return. `done` is what the calls so far have finished, newest
-- first. The fuel is the depth of the recursion that is left.
unfoldable pub walk :
    Graph → ℕ → (path done : List String) → String → Result GraphError (List String)
walk g zero path done n = err out_of_fuel
walk g (suc k) path done n = elim (contains path n) [
  | true ↦ err (unbounded_cycle (from_name n path ++ n ∷ []))
  | false ↦ elim (contains done n) [
    | true ↦ ok done
    | false ↦ elim (targets_of g n) [
      | none ↦ err (key_error n)
      | some ts ↦ walk_all (walk g k (path ++ n ∷ [])) done ts >>= λ done'. ok (n ∷ done')
    ]
  ]
]

-- `for name in remaining: walk(name, [])`
unfoldable pub walk_graph : Graph → Result GraphError (List String)
unfolding walk
walk_graph g = walk_all (walk g (suc (length g)) []) [] (names_of g)

-- The successors of a popped name with its exhaustion target.
abbrev pub exits : Definition → Option Step → List String
exits d none = []
exits d (some s) = successors d s ++ elim s.on_exhausted [ none ↦ [] | some t ↦ t ∷ [] ]

-- _reachable_from: the top of the stack is the head of the list. `stack.extend` puts the last target
-- on top, so what is pushed stands reversed.
unfoldable pub reach : Definition → ℕ → (seen stack : List String) → Option (List String)
unfolding step_named successors
reach d k seen [] = some seen
reach d zero seen (n ∷ stack) = none
reach d (suc k) seen (n ∷ stack) =
    if contains seen n
    then reach d k seen stack
    else reach d k (n ∷ seen) (reverse (exits d (step_named d n)) ++ stack)

-- One more than the number of exits that the document declares: what the loop can ever pop.
abbrev pub exit_count : Definition → List Step → ℕ
exit_count d [] = 0
exit_count d (s ∷ ss) = length (exits d (some s)) + exit_count d ss

unfoldable pub reachable_from : Definition → String → Result GraphError (List String)
unfolding reach
reachable_from d start = or_fail (reach d (suc (exit_count d d.steps)) [] (start ∷ [])) out_of_fuel

-- The second loop of `_validate_graph`: the escape of a bounded step does not come back to it.
unfoldable pub check_escape : Definition → Step → Result GraphError (Unit {0})
unfolding reachable_from
check_escape d s = if not (is_bounded s) then ok tt else elim s.on_exhausted [
  | none ↦ err (no_escape s.name)
  | some t ↦
      reachable_from d t >>= λ seen. guard (not (contains seen s.name)) (escape_returns s.name t)
]

unfoldable pub check_escapes : Definition → Result GraphError (Unit {0})
unfolding check_escape
check_escapes d = for_each (check_escape d) d.steps

-- _validate_graph
unfoldable pub validate_graph : Definition → Result GraphError (Unit {0})
unfolding remaining walk_graph check_escapes
validate_graph d = walk_graph (remaining d) >>= λ _. check_escapes d
