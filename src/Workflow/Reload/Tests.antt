-- ===== src/Workflow/Reload/Tests.antt =====
-- Runs of the readers of workflow_definitions.py, and the laws at concrete inputs.
use ompire.Base.{In, [], false, none, ok, refl, some, true, ◌∷◌, ◌≡◌, string_eq, ℕ_eq}
use ompire.Json.{Json, arr, bool, cons, end, field, int, nil, obj, str}
use ompire.Workflow.Syntax.{
  Definition, Step, TextDocument, as_text, command, complete, conditional, constant, decision,
  document, exists, gate, input, insert, no_part, part, pause, text,
}
use ompire.Workflow.Parse.Slug.{is_slug, slug_from}
use ompire.Workflow.Parse.Newline.{is_slug-newline, one_line, with_newline}
use ompire.Workflow.Parse.Values.{parse_value, value_of, value_op}
use ompire.Workflow.Parse.Predicates.{
  comparison_named, parse_predicate, predicate_from, predicate_of, predicate_op,
}
use ompire.Workflow.Parse.Texts.{empty_text, parse_part, parse_text, part_of}
use ompire.Workflow.Print.Texts.{text_document}
use ompire.Workflow.Accepted.Whole.{WellFormed}
use ompire.Workflow.Accepted.Linked.{LeadsToGate, primitive_definition-WellFormed}
use ompire.Workflow.Parse.Definitions.{primitive_definition}
use ompire.Workflow.Print.Definitions.{canonical_document}
use ompire.Workflow.Reload.Definitions.{primitive_definition-reload}
use ompire.Workflow.Print.Gates.{items_of}
use ompire.Workflow.Print.Contracts.{fields_of}
use ompire.Workflow.Print.Routes.{destination_document}
use ompire.Base.Int.{pos, ℤ_eq}
use ompire.Workflow.Reload.Texts.{parse_text-reload}

abbrev prompt_value : Json
prompt_value = obj (field "op" (str "input") (field "name" (str "task.prompt") end))

-- A text with no separator, a part that leaves out its format, and a part that leaves out its `else`.
abbrev written : Json
written = obj (
    field "parts"
      (arr (
        cons (obj (field "value" prompt_value end)) (
          cons
            (obj (
              field "if" (obj (field "op" (str "exists") (field "value" prompt_value end))) (
                field "then"
                  (obj (field "parts" (arr (cons (obj (field "text" (str "again") end)) nil)) end))
                  end)))
            nil)))
      end)

abbrev read : TextDocument
read = document "" (
    part (insert (input "task.prompt") as_text) (
      part
        (conditional (exists (input "task.prompt")) (document "" (part (text "again") no_part))
          empty_text)
        no_part))

parse_text_written : parse_text 6 4 written ≡ ok read
unfolding parse_text parse_part part_of parse_predicate predicate_from predicate_of predicate_op
    comparison_named parse_value value_of value_op
parse_text_written = refl

parse_text_again : parse_text 6 4 (text_document read) ≡ ok read
parse_text_again = parse_text-reload 6 4 written read parse_text_written

plain_name : is_slug "fix-2" ≡ true
unfolding is_slug slug_from
plain_name = refl

plain_line : one_line "fix-2" ≡ true
unfolding one_line
plain_line = refl

is_slug-newline_example : is_slug (with_newline "fix-2") ≡ true
is_slug-newline_example = is_slug-newline "fix-2" plain_name plain_line

two_words : is_slug "fix it" ≡ false
unfolding is_slug slug_from
two_words = refl

one_dash : is_slug "fix-" ≡ false
unfolding is_slug slug_from
one_dash = refl

-- A definition of format 2, with its defaults left out.
abbrev command_written : Json
command_written = obj (
    field "name" (str "check") (
      field "kind" (str "command") (
        field "argv" (arr (cons (str "make") nil))
          (field "timeout" (int (pos 5)) (field "idempotent" (bool true) end)))))

abbrev decision_written : Json
decision_written = obj (
    field "name" (str "route") (
      field "kind" (str "decision") (
        field "cases"
          (arr (
            cons
              (obj (
                field "when" (bool true) (
                  field "next"
                    (obj (field "complete" (bool true) (field "result" (str "done") end))) end)))
              nil))
          (field "otherwise" (obj (field "pause" (bool true) end)) end))))

abbrev definition_written : Json
definition_written = obj (
    field "format" (int (pos 2)) (
      field "name" (str "quick-fix") (
        field "sessions" (arr (cons (str "main") nil)) (
          field "primary" (str "main")
            (field "steps" (arr (cons command_written (cons decision_written nil))) end)))))

abbrev definition_read : Definition
definition_read = record {
  format = 2;
  name = "quick-fix";
  sessions = "main" ∷ [];
  primary = "main";
  steps =
      record {
        name = "check";
        max_visits = none;
        on_exhausted = none;
        evidence = [];
        body = command (record {
          argv = "make" ∷ [];
          timeout = record { numerator = pos 5; scale = 0 };
          idempotent = true;
        });
      }
      ∷ record {
        name = "route";
        max_visits = none;
        on_exhausted = none;
        evidence = [];
        body = decision (record {
          cases = record { when = constant true; next = complete (some "done") } ∷ [];
          otherwise = pause;
        });
      }
      ∷ [];
  composition = none;
  environment = none;
}

definition_reads : primitive_definition 4 definition_written ≡ ok definition_read
unfolding primitive_definition is_slug
definition_reads = refl

primitive_definition-reload_example :
    primitive_definition 4 (canonical_document definition_read) ≡ ok definition_read
primitive_definition-reload_example =
    primitive_definition-reload 4 definition_written definition_read definition_reads

-- A check that may run twice, and a gate to stop at.
abbrev definition_bounded : Definition
definition_bounded = record {
  format = 2;
  name = "bounded";
  sessions = "main" ∷ [];
  primary = "main";
  steps =
      record {
        name = "check";
        max_visits = some 2;
        on_exhausted = some "ask";
        evidence = [];
        body = command (record {
          argv = "make" ∷ [];
          timeout = record { numerator = pos 5; scale = 0 };
          idempotent = true;
        });
      }
      ∷ record {
        name = "ask";
        max_visits = none;
        on_exhausted = none;
        evidence = [];
        body = gate (record {
          message = document "" (part (text "Give up?") no_part);
          choices =
              record {
                id = "stop";
                label = "Stop";
                feedback_required = false;
                next = complete (some "stopped");
                authorize = none;
                requires_result_acceptance = false;
              }
              ∷ [];
          delivery = none;
          result = none;
        });
      }
      ∷ [];
  composition = none;
  environment = none;
}

bounded_accepted :
    primitive_definition 6 (canonical_document definition_bounded) ≡ ok definition_bounded
unfolding primitive_definition is_slug canonical_document items_of fields_of text_document
    destination_document
bounded_accepted = refl

primitive_definition-WellFormed_example :
    WellFormed definition_bounded
    × ((s : Step) → In s definition_bounded.steps → LeadsToGate definition_bounded s)
primitive_definition-WellFormed_example =
    primitive_definition-WellFormed 6 (canonical_document definition_bounded) definition_bounded
      bounded_accepted
