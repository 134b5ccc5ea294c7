-- ===== src/Workflow/Parse/Contracts.antt =====
-- `_parse_outcome` and `_parse_evidence` of workflow_definitions.py.
use ompire.Base.{
  Bool, List, Option, String, [], err, false, guard, if◌then◌else◌, leb, none, ok, or_fail, some,
  true, ℕ, ◌>>=◌, ◌>>◌, ◌∷◌, string_eq, ℕ_eq,
}
use ompire.Json.{Fields, Json, end, field, get_field, obj}
use ompire.Workflow.Syntax.{EvidenceSelector, JsonType, OutcomeContract, ResultContract, null_type}
use ompire.Workflow.Parse.Slug.{is_slug}
use ompire.Workflow.Parse.Fields.{
  Parsed, flag, mapping, nonempty_texts, optional_text, reject_unknown, required, text_value,
  too_many, wrong,
}
use ompire.Workflow.Parse.Predicates.{type_named}
use ompire.Workflow.Parse.Routes.{is_null, optional}
use ompire.Workflow.Parse.Sorting.{count_fields, sorted}

-- MAX_RESULTS
abbrev pub max_results : ℕ
max_results = 16

-- MAX_REQUIRED_FIELDS
abbrev pub max_required_fields : ℕ
max_required_fields = 32

-- MAX_EVIDENCE
abbrev pub max_evidence : ℕ
max_evidence = 16

-- A loop over the entries of a mapping, the results in order.
unfoldable pub each_field {ℓ} : {A : Type ℓ} → (String → Json → Parsed A) → Fields → Parsed (List A)
each_field parse end = ok []
each_field parse (field k j fs) = parse k j >>= λ a. each_field parse fs >>= λ rest. ok (a ∷ rest)

-- `declared in REQUIRED_TYPES`
abbrev pub not_null : Option JsonType → Option JsonType
not_null (some null_type) = none
not_null o = o

unfoldable pub required_type : String → Json → Parsed (String × JsonType)
unfolding type_named
required_type k j = do
  s ← or_fail (text_value j) (wrong k)
  t ← or_fail (not_null (type_named s)) (wrong k)
  ok (k, t)

-- `contract.get("required", {})`
abbrev pub required_field : Option Json → Parsed Fields
required_field none = ok end
required_field (some (obj fs)) = ok fs
required_field (some _) = err (wrong "required")

-- One declared result.
unfoldable pub contract_of : String → Json → Parsed ResultContract
unfolding required_type each_field
contract_of n j = do
  guard (is_slug n) (wrong n)
  fs ← mapping j
  reject_unknown fs ("required" ∷ [])
  raw ← required_field (get_field "required" fs)
  guard (leb (count_fields raw) max_required_fields) too_many
  types ← each_field required_type (sorted raw)
  ok (record { name = n; required = types })

abbrev pub has_fields : Fields → Bool
has_fields end = false
has_fields (field _ _ _) = true

abbrev pub results_field : Option Json → Parsed Fields
results_field (some (obj fs)) = guard (has_fields fs) (wrong "results") >> ok fs
results_field _ = err (wrong "results")

unfoldable pub outcome_contract : Json → Parsed OutcomeContract
unfolding contract_of each_field sorted
outcome_contract j = do
  fs ← mapping j
  reject_unknown fs ("results" ∷ [])
  raw ← results_field (get_field "results" fs)
  guard (leb (count_fields raw) max_results) too_many
  results ← each_field contract_of (sorted raw)
  ok (record { results = results })

-- _parse_outcome
unfoldable pub parse_outcome : Json → Parsed (Option OutcomeContract)
unfolding optional outcome_contract
parse_outcome j = optional outcome_contract (some j)

-- One evidence selector.
unfoldable pub selector_of : String → Json → Parsed EvidenceSelector
selector_of alias j = do
  guard (is_slug alias) (wrong alias)
  fs ← mapping j
  reject_unknown fs ("steps" ∷ "after" ∷ "with_outcome" ∷ "required" ∷ [])
  steps ← nonempty_texts fs "steps"
  after ← optional_text fs "after"
  with_outcome ← flag fs "with_outcome" true
  required ← flag fs "required" true
  ok (record {
    name = alias;
    steps = steps;
    after = after;
    with_outcome = with_outcome;
    required = required;
  })

unfoldable pub selectors_of : Json → Parsed (List EvidenceSelector)
unfolding selector_of each_field sorted
selectors_of j = do
  fs ← mapping j
  guard (leb (count_fields fs) max_evidence) too_many
  each_field selector_of (sorted fs)

-- _parse_evidence
unfoldable pub parse_evidence : Option Json → Parsed (List EvidenceSelector)
unfolding selectors_of
parse_evidence none = ok []
parse_evidence (some j) = if is_null j then ok [] else selectors_of j
