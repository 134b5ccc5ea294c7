-- ===== src/Workflow/Samples.antt =====
-- Documents and histories for the tests of the workflow modules.
use ompire.Base.{List, Option, String, [], false, none, some, true, ℕ, ◌∷◌, string_eq, ℕ_eq}
use ompire.Base.Int.{pos, ℤ_eq}
use ompire.Json.{null}
use ompire.Workflow.Syntax.{
  Body, Capture, DecisionBody, Definition, DeliveryBody, EvidenceSelector, Gate, Predicate,
  Predicates, Step, TextDocument, capture, command, commit, compare, complete, decision, delivery,
  document, eq, exists, gate, input, latest, literal, no_part, no_predicate, predicate, review,
  squash, to_step,
}
use ompire.Workflow.Graph.{Graph}
use ompire.Workflow.History.{Context, HistoryRecord}

abbrev pub no_text : TextDocument
no_text = document "" no_part

abbrev pub run_tests : Body
run_tests = command (record {
  argv = "make" ∷ [];
  timeout = record { numerator = pos 60; scale = 0 };
  idempotent = true;
})

abbrev pub step_of : String → Option ℕ → Option String → List EvidenceSelector → Body → Step
step_of n m x es b = record { name = n; max_visits = m; on_exhausted = x; evidence = es; body = b }

abbrev pub passed : Predicate
passed = exists (latest ("test" ∷ []) none true)

abbrev pub check_passed : DecisionBody
check_passed = record {
  cases = record { when = passed; next = complete (some "fixed") } ∷ [];
  otherwise = to_step "fix";
}

abbrev pub give_up : Gate
give_up = record {
  message = no_text;
  choices =
      record {
        id = "stop";
        label = "Stop";
        feedback_required = false;
        next = complete (some "abandoned");
        authorize = none;
        requires_result_acceptance = false;
      }
      ∷ [];
  delivery = none;
  result = none;
}

abbrev pub newest_test : EvidenceSelector
newest_test = record {
  name = "result";
  steps = "test" ∷ [];
  after = some "fix";
  with_outcome = false;
  required = true;
}

-- fix, test, decide, back to fix twice at most.
abbrev pub retry : Definition
retry = record {
  format = 2;
  name = "retry";
  sessions = [];
  primary = "main";
  steps =
      step_of "fix" (some 2) (some "give_up") [] run_tests
      ∷ step_of "test" none none [] run_tests
      ∷ step_of "decide" none none (newest_test ∷ []) (decision check_passed)
      ∷ step_of "give_up" none none [] (gate give_up)
      ∷ [];
  composition = none;
  environment = none;
}

abbrev pub fix : Step
fix = step_of "fix" (some 2) (some "give_up") [] run_tests

abbrev pub attempt : ℕ → String → HistoryRecord
attempt i n = record { seq = i; step = n; status = "ok"; outcome = none; evidence = none }

abbrev pub two_rounds : List HistoryRecord
two_rounds =
    attempt 1 "fix"
    ∷ attempt 2 "test"
    ∷ attempt 3 "decide"
    ∷ attempt 4 "fix"
    ∷ attempt 5 "test"
    ∷ attempt 6 "decide"
    ∷ []

-- Two steps that route to each other, without a bound.
abbrev pub ring : Graph
ring = ("a", "b" ∷ []) ∷ ("b", "a" ∷ []) ∷ []

abbrev pub export : Capture
export = record { producer = "made"; paths = no_text ∷ []; allowlist = []; next = to_step "done" }

abbrev pub made : EvidenceSelector
made = record {
  name = "made";
  steps = "make" ∷ [];
  after = none;
  with_outcome = true;
  required = true;
}

abbrev pub export_step : Step
export_step = step_of "export" none none (made ∷ []) (capture export)

-- A capture that goes on to a gate.
abbrev pub exporting : Definition
exporting = record retry {
  steps =
      step_of "make" none none [] run_tests
      ∷ export_step
      ∷ step_of "done" none none [] (gate give_up)
      ∷ [];
}

abbrev pub at_fourth : Context
at_fourth = record { inputs = []; records = two_rounds; evidence = [] }

abbrev pub wants : Predicates
wants = predicate passed (predicate (compare eq (input "branch") (literal null)) no_predicate)

abbrev pub approval : Gate
approval = record {
  message = no_text;
  choices =
      record {
        id = "ship";
        label = "Ship";
        feedback_required = false;
        next = to_step "sign";
        authorize = some (record { steps = "sign" ∷ [] });
        requires_result_acceptance = false;
      }
      ∷ record {
        id = "stop";
        label = "Stop";
        feedback_required = false;
        next = complete (some "kept");
        authorize = none;
        requires_result_acceptance = false;
      }
      ∷ [];
  delivery = some (record { review = "reviewed"; metadata = none });
  result = none;
}

abbrev pub reviewed : EvidenceSelector
reviewed = record {
  name = "reviewed";
  steps = "look" ∷ [];
  after = none;
  with_outcome = true;
  required = true;
}

abbrev pub signing : DeliveryBody
signing = record {
  action = commit;
  approval = "approve";
  next = complete (some "signed");
  mode = some squash;
  previous = none;
}

abbrev pub export_first : Step
export_first =
    step_of "export" none none (made ∷ []) (capture (record export { next = to_step "look" }))

abbrev pub sign : Step
sign = step_of "sign" none none [] (delivery signing)

abbrev pub approve : Step
approve = step_of "approve" none none (reviewed ∷ []) (gate approval)

-- make, export, look at it, ask, sign.
abbrev pub shipping : Definition
shipping = record retry {
  format = 5;
  steps =
      step_of "make" none none [] run_tests
      ∷ export_first
      ∷ step_of "look" none none [] review
      ∷ approve
      ∷ sign
      ∷ [];
}
