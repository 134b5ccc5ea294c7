-- ===== src/Workflow/Tests.antt =====
-- The laws of the workflow modules on the documents and histories of Samples.antt.
use ompire.Base.{
  In, List, String, [], contains, err, none, ok, refl, some, true, ℕ, ◌++◌, ◌∷◌, ◌≡◌, ◌≢◌, ◌≤◌, ◌⊎◌,
  string_eq, ℕ_eq,
}
use ompire.Base.Int.{ℤ_eq}
use ompire.Workflow.Syntax.{
  Step, every, gate, junction, negation, some_of, step_after, step_named, to_step,
}
use ompire.Workflow.References.{
  check_body, check_capture, check_destination, check_exhaustion, check_gate, check_gate_result,
  check_predicate, check_producer, check_references, check_selector, check_step, check_text,
  check_value, declared_step,
}
use ompire.Workflow.Delivery.{
  as_delivery, as_gate, check_entries, check_next, check_owned, entry_edges, grant_choices,
  is_review, members_of, own_members, validate_delivery, validate_gate, validate_gates,
  validate_grant,
}
use ompire.Workflow.Graph.{
  check_escape, check_escapes, falls_through, reach, reachable_from, remaining, successors,
  unbounded_cycle, validate_graph, walk_graph,
}
use ompire.Workflow.History.{
  HistoryRecord, bind_selector, evidence_views, floor_of, latest_attempt_seq, newest,
  resolve_evidence, select_evidence,
}
use ompire.Workflow.Engine.{
  append_step_record, attempts, bounded_step, destination_step, entry_evidence, fixed_destination,
  open_attempt, opens_after,
}
use ompire.Workflow.Acyclic.{one, walk_graph-acyclic}
use ompire.Workflow.Cycles.{IsCycle, walk_graph-decides}
use ompire.Workflow.Visits.{
  IsStep, MayOpen, WithinBounds, open_attempt-within, within_bounds-WithinBounds,
}
use ompire.Workflow.Captures.{redirect, validate_graph-ignores_captures, with_next}
use ompire.Workflow.Values.{evaluate_value}
use ompire.Workflow.Predicates.{decisive, evaluate_predicate}
use ompire.Workflow.Kleene.{de_morgan, junction-strong, negations, strong, verdicts}
use ompire.Workflow.Decisions.{run_decision_step}
use ompire.Workflow.Routes.{Decides, run_decision_step-Decides}
use ompire.Workflow.Frozen.{Selectable, evidence_views-frozen, select_evidence-newest}
use ompire.Workflow.Escapes.{ClosedUnderExits, reachable_from-closed}
use ompire.Workflow.Edges.{Entry}
use ompire.Workflow.Entries.{validate_delivery-entries}
use ompire.Base.{
  In, List, String, [], contains, err, none, ok, refl, some, true, ℕ, ◌++◌, ◌∷◌, ◌≡◌, ◌≢◌, ◌≤◌, ◌⊎◌,
  string_eq, ℕ_eq,
}
use ompire.Workflow.Grants.{AuthorizedBy, validate_delivery-AuthorizedBy}
use ompire.Workflow.CaptureEntries.{validate_delivery-ignores_captures}
use ompire.Workflow.Samples.{
  approve, at_fourth, attempt, check_passed, export, export_first, export_step, exporting, fix,
  give_up, newest_test, retry, ring, run_tests, shipping, sign, signing, step_of, two_rounds, wants,
}

-- Opens the model for the tests of this file.
all_open : ℕ
unfolding validate_graph check_references bounded_step open_attempt walk_graph remaining successors
    step_named step_after falls_through check_step check_selector check_exhaustion check_body
    check_destination check_text check_value check_predicate check_gate check_gate_result
    check_capture check_producer declared_step reachable_from reach check_escape check_escapes
    fixed_destination evaluate_predicate evaluate_value run_decision_step entry_evidence
    validate_delivery validate_gates validate_gate grant_choices validate_grant members_of
    own_members check_next check_owned check_entries entry_edges as_delivery as_gate is_review
    resolve_evidence bind_selector append_step_record attempts select_evidence newest floor_of
    latest_attempt_seq
all_open = 0

test_retry_graph : walk_graph (remaining retry) ≡ ok ("give_up" ∷ "test" ∷ "decide" ∷ [])
unfolding all_open
test_retry_graph = refl

test_refs : check_references retry ≡ ok tt
unfolding all_open
test_refs = refl

test_retry : validate_graph retry ≡ ok tt
unfolding all_open
test_retry = refl

test_bound : bounded_step retry two_rounds fix ≡ ok (step_of "give_up" none none [] (gate give_up))
unfolding all_open
test_bound = refl

walk_graph-acyclic_example : (1 ≤ 3) × ◌≢◌ {A = String} "test" "decide"
unfolding all_open
walk_graph-acyclic_example =
    walk_graph-acyclic (remaining retry) ("give_up" ∷ "test" ∷ "decide" ∷ []) 1 "test" "decide"
      test_retry_graph (one ("decide" ∷ [], refl, refl))

walk_graph-decides_example :
    ((done : List String) × (walk_graph ring ≡ ok done))
    ⊎ ((c : List String) × (walk_graph ring ≡ err (unbounded_cycle c)) × IsCycle ring c)
walk_graph-decides_example = walk_graph-decides ring refl

open_attempt-within_example :
    (u : Step) × (r : HistoryRecord) × (open_attempt retry two_rounds fix
      ≡ ok (u, r, two_rounds ++ r ∷ []))
    × IsStep retry u
    × MayOpen two_rounds u
    × (r.step ≡ u.name)
    × WithinBounds retry (two_rounds ++ r ∷ [])
unfolding all_open
open_attempt-within_example =
    open_attempt-within retry two_rounds "fix" fix test_refs test_retry refl
      (within_bounds-WithinBounds retry two_rounds refl)

validate_graph-ignores_captures_example :
    (validate_graph (redirect (to_step "make") exporting) ≡ validate_graph exporting)
    × (fixed_destination (with_next (to_step "make") export_step) ≡ some (to_step "make"))
validate_graph-ignores_captures_example =
    validate_graph-ignores_captures (to_step "make") exporting export_step export refl

-- The cycle from the capture back to the step before it, accepted, and the step that opens after it.
test_accepted : validate_graph (redirect (to_step "make") exporting) ≡ ok tt
unfolding all_open
test_accepted = refl

test_references : check_references (redirect (to_step "make") exporting) ≡ ok tt
unfolding all_open
test_references = refl

test_reopened :
    opens_after exporting [] (with_next (to_step "make") export_step)
    ≡ ok (some (step_of "make" none none [] run_tests))
unfolding all_open opens_after destination_step
test_reopened = refl

junction-strong_example :
    evaluate_predicate (junction every wants) at_fourth
    ≡ strong (decisive every) (verdicts wants at_fourth)
junction-strong_example = junction-strong every wants at_fourth

de_morgan_example :
    (evaluate_predicate (negation (junction every wants)) at_fourth
      ≡ evaluate_predicate (junction some_of (negations wants)) at_fourth)
    × (evaluate_predicate (negation (junction some_of wants)) at_fourth
        ≡ evaluate_predicate (junction every (negations wants)) at_fourth)
de_morgan_example = de_morgan wants at_fourth

run_decision_step-Decides_example :
    Decides check_passed.cases check_passed.otherwise at_fourth
      (run_decision_step check_passed at_fourth)
run_decision_step-Decides_example = run_decision_step-Decides check_passed at_fourth

select_evidence-newest_example :
    Selectable newest_test two_rounds (attempt 5 "test")
    × ((x : HistoryRecord) → Selectable newest_test two_rounds x → x.seq ≤ 5)
unfolding all_open
select_evidence-newest_example =
    select_evidence-newest newest_test two_rounds (attempt 5 "test") refl

evidence_views-frozen_example :
    evidence_views
      (resolve_evidence (newest_test ∷ []) two_rounds).0
      (append_step_record two_rounds "test" none).1
    ≡ evidence_views (resolve_evidence (newest_test ∷ []) two_rounds).0 two_rounds
evidence_views-frozen_example = evidence_views-frozen (newest_test ∷ []) two_rounds "test" none

shipping_accepted : validate_delivery shipping ≡ ok tt
unfolding all_open
shipping_accepted = refl

validate_delivery-entries_example : ¬ Entry shipping approve "sign"
unfolding all_open
validate_delivery-entries_example =
    validate_delivery-entries shipping approve sign signing shipping_accepted refl refl refl refl

validate_delivery-AuthorizedBy_example :
    (s : Step) × In s shipping.steps × AuthorizedBy shipping "sign" s
unfolding all_open
validate_delivery-AuthorizedBy_example =
    validate_delivery-AuthorizedBy shipping sign signing shipping_accepted refl refl

validate_delivery-ignores_captures_example :
    (validate_delivery (redirect (to_step "sign") shipping) ≡ validate_delivery shipping)
    × (fixed_destination (with_next (to_step "sign") export_first) ≡ some (to_step "sign"))
validate_delivery-ignores_captures_example =
    validate_delivery-ignores_captures (to_step "sign") shipping export_first
      (record export { next = to_step "look" }) refl

-- The capture routed into the chain passes every check, and the signing step opens after it.
test_unsigned_entry :
    (check_references (redirect (to_step "sign") shipping) ≡ ok tt)
    × (validate_graph (redirect (to_step "sign") shipping) ≡ ok tt)
unfolding all_open
test_unsigned_entry = (refl, refl)

reachable_from-closed_example :
    (r : List String) × (reachable_from retry "give_up" ≡ ok r)
    × (contains r "give_up" ≡ true)
    × ClosedUnderExits retry r
reachable_from-closed_example = reachable_from-closed retry "give_up"
