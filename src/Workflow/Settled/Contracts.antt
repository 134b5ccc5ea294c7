-- ===== src/Workflow/Settled/Contracts.antt =====
-- The fuel that outcome contracts and evidence need, workflow_definitions.py.
use ompire.Base.{
  Bool-cases, Option, String, [], contains, inl, inr, leb, none, or_fail, refl, some, true, ◌∷◌,
  ◌≡◌, string_eq, ℕ_eq,
}
use ompire.Json.{Json, arr, bool, float, get_field, int, null, obj, str}
use ompire.Workflow.Parse.Slug.{is_slug}
use ompire.Workflow.Parse.Fields.{
  all_keys, flag, mapping, nonempty, nonempty_texts, optional_text, text_value, wrong,
}
use ompire.Workflow.Parse.Depth.{
  bind-settled, flag-settled, guard-settled, mapping-settled, nonempty-settled, or_fail-settled,
  settled, text_option-settled, texts_of-settled,
}
use ompire.Workflow.Parse.Predicates.{type_named}
use ompire.Workflow.Parse.Routes.{is_null}
use ompire.Workflow.Parse.Sorting.{count_fields, sorted}
use ompire.Workflow.Parse.Contracts.{
  contract_of, each_field, has_fields, max_evidence, max_required_fields, max_results, not_null,
  outcome_contract, parse_evidence, parse_outcome, required_field, required_type, results_field,
  selector_of, selectors_of,
}
use ompire.Workflow.Settled.Routes.{each_field-settled, optional-settled}

required_type-settled : (k : String) (j : Json) → settled (required_type k j) ≡ true
unfolding required_type
required_type-settled k j =
    bind-settled (or_fail (text_value j) (wrong k)) _
      (or_fail-settled (text_value j) (wrong k) refl)
      λ s _.
        bind-settled (or_fail (not_null (type_named s)) (wrong k)) _
          (or_fail-settled (not_null (type_named s)) (wrong k) refl) λ t _. refl

required_field-settled : (o : Option Json) → settled (required_field o) ≡ true
required_field-settled none = refl
required_field-settled (some null) = refl
required_field-settled (some (bool _)) = refl
required_field-settled (some (int _)) = refl
required_field-settled (some (float _)) = refl
required_field-settled (some (str _)) = refl
required_field-settled (some (arr _)) = refl
required_field-settled (some (obj _)) = refl

contract_of-settled : (n : String) (j : Json) → settled (contract_of n j) ≡ true
unfolding contract_of
contract_of-settled n j = guard-settled (is_slug n) _ _ refl (
    bind-settled (mapping j) _ (mapping-settled j) λ fs _.
      guard-settled (all_keys (contains ("required" ∷ [])) fs) _ _ refl (
        bind-settled (required_field (get_field "required" fs)) _
          (required_field-settled (get_field "required" fs))
          λ raw _. guard-settled (leb (count_fields raw) max_required_fields) _ _ refl (
            bind-settled (each_field required_type (sorted raw)) _
              (each_field-settled required_type (sorted raw) required_type-settled)
              λ types _. refl)))

results_field-settled : (o : Option Json) → settled (results_field o) ≡ true
results_field-settled none = refl
results_field-settled (some null) = refl
results_field-settled (some (bool _)) = refl
results_field-settled (some (int _)) = refl
results_field-settled (some (float _)) = refl
results_field-settled (some (str _)) = refl
results_field-settled (some (arr _)) = refl
results_field-settled (some (obj fs)) = guard-settled (has_fields fs) _ _ refl refl

outcome_contract-settled : (j : Json) → settled (outcome_contract j) ≡ true
unfolding outcome_contract
outcome_contract-settled j = bind-settled (mapping j) _ (mapping-settled j) λ fs _.
    guard-settled (all_keys (contains ("results" ∷ [])) fs) _ _ refl (
      bind-settled (results_field (get_field "results" fs)) _
        (results_field-settled (get_field "results" fs))
        λ raw _. guard-settled (leb (count_fields raw) max_results) _ _ refl (
          bind-settled (each_field contract_of (sorted raw)) _
            (each_field-settled contract_of (sorted raw) contract_of-settled) λ results _. refl))

pub parse_outcome-settled : (j : Json) → settled (parse_outcome j) ≡ true
unfolding parse_outcome
parse_outcome-settled j =
    optional-settled outcome_contract (some j) λ i _. outcome_contract-settled i

selector_of-settled : (n : String) (j : Json) → settled (selector_of n j) ≡ true
unfolding selector_of
selector_of-settled n j = guard-settled (is_slug n) _ _ refl (
    bind-settled (mapping j) _ (mapping-settled j) λ fs _.
      guard-settled (all_keys (contains ("steps" ∷ "after" ∷ "with_outcome" ∷ "required" ∷ [])) fs)
        _ _ refl
        (bind-settled (nonempty_texts fs "steps") _
          (bind-settled (nonempty fs "steps") _ (nonempty-settled fs "steps")
            λ js _. texts_of-settled "steps" js)
          λ steps _.
            bind-settled (optional_text fs "after") _
              (text_option-settled "after" (get_field "after" fs))
              λ after _.
                bind-settled (flag fs "with_outcome" true) _ (flag-settled fs "with_outcome" true)
                  λ b _.
                    bind-settled (flag fs "required" true) _ (flag-settled fs "required" true)
                      λ c _. refl))

pub parse_evidence-settled : (o : Option Json) → settled (parse_evidence o) ≡ true
unfolding parse_evidence selectors_of
parse_evidence-settled none = refl
parse_evidence-settled (some j) = elim (Bool-cases (is_null j)) [
  | inl e ↦ rw e refl
  | inr e ↦ rw e (
      bind-settled (mapping j) _ (mapping-settled j) λ fs _.
        guard-settled (leb (count_fields fs) max_evidence) _ _ refl
          (each_field-settled selector_of (sorted fs) selector_of-settled))
]
