-- ===== src/Workflow/Print/Contracts.antt =====
-- `_outcome_document` and `_evidence_document` of workflow_definitions.py. The names in a contract that
-- was read are distinct, so that no entry of the document replaces another.
use ompire.Base.{List, String, [], ◌∷◌, string_eq, ℕ_eq}
use ompire.Json.{Fields, Json, arr, bool, end, field, obj, str, text_items, text_or_null}
use ompire.Workflow.Syntax.{EvidenceSelector, OutcomeContract, ResultContract}
use ompire.Workflow.Print.Texts.{type_text}

-- An entry for each item.
unfoldable pub fields_of {ℓ} : {A : Type ℓ} → (A → String) → (A → Json) → List A → Fields
fields_of key print [] = end
fields_of key print (a ∷ rest) = field (key a) (print a) (fields_of key print rest)

abbrev pub contract_document : ResultContract → Json
contract_document c =
    obj (field "required" (obj (fields_of (λ e. e.0) (λ e. str (type_text e.1)) c.required)) end)

abbrev pub contract_name : ResultContract → String
contract_name c = c.name

-- _outcome_document, for an outcome that is declared
abbrev pub outcome_document : OutcomeContract → Json
outcome_document o =
    obj (field "results" (obj (fields_of contract_name contract_document o.results)) end)

abbrev pub selector_document : EvidenceSelector → Json
selector_document s = obj (
    field "steps" (arr (text_items s.steps)) (
      field "after" (text_or_null s.after)
        (field "with_outcome" (bool s.with_outcome) (field "required" (bool s.required) end))))

abbrev pub selector_name : EvidenceSelector → String
selector_name s = s.name

-- _evidence_document
abbrev pub evidence_document : List EvidenceSelector → Json
evidence_document ss = obj (fields_of selector_name selector_document ss)
