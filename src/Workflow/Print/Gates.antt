-- ===== src/Workflow/Print/Gates.antt =====
-- The parts of a gate in its canonical document, workflow_definitions.py: `_gate_delivery_document`,
-- `_grant_document` and the choices of `_step_document`.
use ompire.Base.{List, String, [], if◌then◌else◌, leb, ℕ, ◌∷◌, string_eq, ℕ_eq}
use ompire.Json.{Fields, Items, Json, arr, bool, cons, end, field, nil, obj, str, text_items}
use ompire.Workflow.Syntax.{DeliveryGrant, DeliveryMetadata, GateChoice, GateDelivery, GateResult}
use ompire.Workflow.Print.Texts.{text_document}
use ompire.Workflow.Print.Routes.{destination_document, or_null}

-- An item for each of a list.
unfoldable pub items_of {ℓ} : {A : Type ℓ} → (A → Json) → List A → Items
items_of print [] = nil
items_of print (a ∷ rest) = cons (print a) (items_of print rest)

-- A field that a format has from a version on.
abbrev pub field_since : ℕ → ℕ → String → Json → Fields → Fields
field_since first_format version k j rest =
    if leb first_format version then field k j rest else rest

abbrev pub result_document : GateResult → Json
result_document r = obj (field "evidence" (str r.evidence) end)

abbrev pub metadata_document : DeliveryMetadata → Json
metadata_document m = obj (
    field "message" (or_null text_document m.message) (
      field "pr_title" (or_null text_document m.pr_title)
        (field "pr_body" (or_null text_document m.pr_body) end)))

-- _gate_delivery_document, for a binding that is there
abbrev pub gate_delivery_document : GateDelivery → Json
gate_delivery_document d =
    obj
      (field "review" (str d.review) (field "metadata" (or_null metadata_document d.metadata) end))

-- _grant_document, for a grant that is there
abbrev pub grant_document : DeliveryGrant → Json
grant_document g = obj (field "steps" (arr (text_items g.steps)) end)

abbrev pub choice_document : ℕ → GateChoice → Json
choice_document version c = obj (
    field "id" (str c.id) (
      field "label" (str c.label) (
        field "feedback_required" (bool c.feedback_required) (
          field "next" (destination_document version c.next) (
            field_since 3 version "authorize" (or_null grant_document c.authorize) (
              field_since 4 version "requires_result_acceptance" (bool c.requires_result_acceptance)
                end))))))
