-- ===== src/Workflow/Decisions.antt =====
-- Decision steps of the engine, `_run_decision_step` and `_decision_result` of workflows.py.
use ompire.Base.{List, String, [], if◌then◌else◌, none, some, suc, ℕ, ◌==◌, ◌∷◌, string_eq, ℕ_eq}
use ompire.Json.{Json, end, field, obj, str}
use ompire.Workflow.Syntax.{DecisionBody, DecisionCase, Destination, complete, pause, to_step}
use ompire.Workflow.History.{Context}
use ompire.Workflow.Predicates.{Unresolved, decided, evaluate_predicate, unresolved}

-- A `_StepResult` of a decision: a pause of the run, with its cause, or a route with its outcome.
pub data DecisionResult : Type 0 where
  case_unresolved : ℕ → Unresolved → DecisionResult
  no_route : DecisionResult
  route : Destination → Json → DecisionResult

-- COMPLETE
abbrev pub complete_route : String
complete_route = "__complete__"

unfoldable pub decision_result : Destination → DecisionResult
decision_result pause = no_route
decision_result (to_step n) = route (to_step n) (obj (field "route" (str n) end))
decision_result (complete none) =
    route (complete none) (obj (field "route" (str complete_route) end))
decision_result (complete (some r)) =
    route (complete (some r)) (
      obj
        (field "route" (str complete_route) (if r == "" then end else field "result" (str r) end)))

-- The loop over the cases, from the case of that index.
unfoldable pub first_case : ℕ → List DecisionCase → Destination → Context → DecisionResult
unfolding decision_result
first_case i [] otherwise c = decision_result otherwise
first_case i (x ∷ xs) otherwise c =
    let rest = first_case (suc i) xs otherwise c in
    elim (evaluate_predicate x.when c) [
      | unresolved u ↦ case_unresolved i u
      | decided b ↦ if b then decision_result x.next else rest
    ]

unfoldable pub run_decision_step : DecisionBody → Context → DecisionResult
unfolding first_case
run_decision_step b c = first_case 0 b.cases b.otherwise c
