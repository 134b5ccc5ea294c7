-- ===== src/Workflow/Print/Definitions.antt =====
-- `_step_document` and `canonical_document` of workflow_definitions.py, without the composition of
-- format 5. The format is printed as the number that it is equal to.
use ompire.Base.{Option, String, none, some, ℕ, string_eq, ℕ_eq}
use ompire.Json.{Fields, Json, arr, end, field, obj, str, text_items}
use ompire.Workflow.Syntax.{
  Body, Definition, Step, agent, capture, command, decision, delivery, gate, review,
}
use ompire.Workflow.Print.Routes.{or_null, step_route, whole}
use ompire.Workflow.Print.Contracts.{evidence_document}
use ompire.Workflow.Print.Gates.{items_of}
use ompire.Workflow.Print.Steps.{
  agent_document, capture_document, command_document, common_document, decision_document,
  delivery_document, gate_document,
}

-- The fields of a step, with its bound and its evidence as they are printed.
unfoldable pub body_document : ℕ → String → Json → Json → Json → Body → Fields
body_document v n most exhaustion selectors (agent a) =
    common_document v n "agent" most exhaustion selectors (agent_document v a)
body_document v n most exhaustion selectors (command c) =
    common_document v n "command" most exhaustion selectors (command_document c)
body_document v n most exhaustion selectors (decision d) =
    common_document v n "decision" most exhaustion selectors (decision_document v d)
body_document v n most exhaustion selectors (gate g) =
    common_document v n "gate" most exhaustion selectors (gate_document v g)
body_document v n most exhaustion selectors review =
    common_document v n "review" most exhaustion selectors end
body_document v n most exhaustion selectors (capture c) =
    common_document v n "capture" most exhaustion selectors (capture_document v c)
body_document v n most exhaustion selectors (delivery d) = delivery_document v n d

-- _step_document
unfoldable pub step_document : ℕ → Step → Json
unfolding body_document
step_document v s = obj (
    body_document v s.name (or_null whole s.max_visits) (or_null step_route s.on_exhausted)
      (evidence_document s.evidence) s.body)

abbrev pub environment_field : Option String → Fields
environment_field none = end
environment_field (some e) = field "environment" (str e) end

-- canonical_document
unfoldable pub canonical_document : Definition → Json
unfolding step_document
canonical_document d = obj (
    field "format" (whole d.format) (
      field "name" (str d.name) (
        field "sessions" (arr (text_items d.sessions)) (
          field "primary" (str d.primary) (
            field "steps" (arr (items_of (step_document d.format) d.steps))
              (environment_field d.environment))))))
