-- ===== src/Workflow/Print/Steps.antt =====
-- `_step_document` of workflow_definitions.py: what each class of step adds to the common fields.
use ompire.Base.{String, if◌then◌else◌, ℕ, ◌==◌, string_eq, ℕ_eq}
use ompire.Json.{Fields, Json, arr, bool, end, field, float, obj, str, text_items}
use ompire.Workflow.Syntax.{
  Agent, Capture, Command, DecisionBody, DecisionCase, DeliveryAction, DeliveryBody, DeliveryMode,
  Gate, commit, pr, push, retain, squash,
}
use ompire.Workflow.Parse.Steps.{is_commit}
use ompire.Workflow.Print.Texts.{predicate_document, text_document}
use ompire.Workflow.Print.Routes.{destination_document, or_null}
use ompire.Workflow.Print.Contracts.{outcome_document}
use ompire.Workflow.Print.Gates.{
  choice_document, field_since, gate_delivery_document, items_of, result_document,
}

-- The fields that every step but a delivery has, before its own.
abbrev pub common_document : ℕ → String → String → Json → Json → Json → Fields → Fields
common_document version n kind visits exhausted selectors own = field "name" (str n) (
    field "kind" (str kind) (
      field "max_visits" visits
        (field "on_exhausted" exhausted (field_since 2 version "evidence" selectors own))))

abbrev pub agent_document : ℕ → Agent → Fields
agent_document version a = field "session" (str a.session) (
    field "role" (str a.role) (
      field "prompt" (text_document a.prompt) (
        field "when" (predicate_document a.when) (
          if version == 1
          then field "expects_outcome" (bool a.expects_outcome) end
          else field "outcome" (or_null outcome_document a.outcome) end))))

abbrev pub command_document : Command → Fields
command_document c =
    field "argv" (arr (text_items c.argv))
      (field "timeout" (float c.timeout) (field "idempotent" (bool c.idempotent) end))

abbrev pub case_document : ℕ → DecisionCase → Json
case_document version c = obj (
    field "when" (predicate_document c.when)
      (field "next" (destination_document version c.next) end))

abbrev pub decision_document : ℕ → DecisionBody → Fields
decision_document version d =
    field "cases" (arr (items_of (case_document version) d.cases))
      (field "otherwise" (destination_document version d.otherwise) end)

abbrev pub capture_document : ℕ → Capture → Fields
capture_document version c = field "producer" (str c.producer) (
    field "paths" (arr (items_of text_document c.paths)) (
      field "allowlist" (arr (text_items c.allowlist))
        (field "next" (destination_document version c.next) end)))

abbrev pub action_text : DeliveryAction → String
action_text commit = "commit"
action_text push = "push"
action_text pr = "pr"

abbrev pub mode_word : DeliveryMode → String
mode_word squash = "squash"
mode_word retain = "retain"

abbrev pub mode_json : DeliveryMode → Json
mode_json m = str (mode_word m)

abbrev pub last_field : DeliveryBody → Fields
last_field d =
    if is_commit d.action
    then field "mode" (or_null mode_json d.mode) end
    else field "previous" (or_null str d.previous) end

abbrev pub delivery_document : ℕ → String → DeliveryBody → Fields
delivery_document version n d = field "name" (str n) (
    field "kind" (str "delivery") (
      field "action" (str (action_text d.action)) (
        field "approval" (str d.approval)
          (field "next" (destination_document version d.next) (last_field d)))))

abbrev pub gate_document : ℕ → Gate → Fields
gate_document version g = field "message" (text_document g.message) (
    field_since 2 version "choices" (arr (items_of (choice_document version) g.choices)) (
      field_since 3 version "delivery" (or_null gate_delivery_document g.delivery)
        (field_since 4 version "result" (or_null result_document g.result) end)))
