-- ===== src/Workflow/Reload/Contracts.antt =====
-- Outcome contracts and evidence selectors, read back from their canonical document.
use ompire.Base.{
  >>=-eq-ok, Bool, Bool-cases, List, Option, String, [], ap, arith, contains, guard-then-eq-ok, inl,
  inr, leb, none, ok, ok-same, or_fail-bind-eq-ok, refl, some, some-same, subst, suc, true, ◌∙◌,
  ◌∷◌, ◌≡◌, string_eq, ℕ_eq,
}
use ompire.Json.{
  Fields, Json, arr, bool, end, field, float, get_field, int, null, obj, str, text_items,
}
use ompire.Workflow.Syntax.{
  EvidenceSelector, JsonType, array, boolean, integer, null_type, number, object, string,
}
use ompire.Workflow.Parse.Slug.{is_slug}
use ompire.Workflow.Parse.Predicates.{type_named}
use ompire.Workflow.Parse.Routes.{is_null}
use ompire.Workflow.Parse.Fields.{
  Parsed, all_keys, flag, is_full, mapping, nonempty_texts, optional_text, required, text_value,
  texts_of,
}
use ompire.Workflow.Parse.Sorting.{
  IsSorted, before_all, count_fields, sorted, sorted-IsSorted, sorted-again, sorted-count, text_le,
}
use ompire.Workflow.Parse.Contracts.{
  contract_of, each_field, has_fields, max_evidence, max_required_fields, max_results, not_null,
  outcome_contract, parse_evidence, parse_outcome, required_field, required_type, results_field,
  selector_of, selectors_of,
}
use ompire.Workflow.Print.Texts.{type_text}
use ompire.Workflow.Print.Routes.{or_null}
use ompire.Workflow.Print.Contracts.{
  contract_document, contract_name, evidence_document, fields_of, outcome_document,
  selector_document, selector_name,
}
use ompire.Workflow.Reload.Values.{Reloads, text_option-reload, texts-full}
use ompire.Workflow.Reload.Predicates.{type_named-text}
use ompire.Workflow.Reload.Routes.{optional-reload}

-- What a reader of entries gives is read back under its own key.
abbrev EntryReloads {ℓ} :
    {A : Type ℓ} → (String → Json → Parsed A) → (A → String) → (A → Json) → Type ℓ
EntryReloads {A = A} parse key print =
    (k : String) (j : Json) (a : A) → parse k j ≡ ok a → (key a ≡ k) × (parse k (print a) ≡ ok a)

-- The entries that print the items have the keys of the entries that were read.
before_all-fields_of {ℓ} :
    {A : Type ℓ} (parse : String → Json → Parsed A) (key : A → String) (print : A → Json)
    (l : String) (fs : Fields) (items : List A)
    → EntryReloads parse key print
    → each_field parse fs ≡ ok items
    → before_all l (fields_of key print items) ≡ before_all l fs
unfolding each_field fields_of
before_all-fields_of parse key print l end items again h =
    subst (λ x. before_all l (fields_of key print x) ≡ true) (ok-same h) refl
before_all-fields_of parse key print l (field k j fs) items again h =
    let (a, e, h₁) = >>=-eq-ok (parse k j) _ h in
    let (rest, e', last) = >>=-eq-ok (each_field parse fs) _ h₁ in
    subst (λ x. before_all l (fields_of key print x) ≡ text_le l k) (ok-same last)
      (ap (text_le l) (again k j a e).0)

each_field-reload {ℓ} :
    {A : Type ℓ} (parse : String → Json → Parsed A) (key : A → String) (print : A → Json)
    (fs : Fields) (items : List A)
    → EntryReloads parse key print
    → each_field parse fs ≡ ok items
    → (each_field parse (fields_of key print items) ≡ ok items)
      × (count_fields (fields_of key print items) ≡ count_fields fs)
      × (IsSorted fs → IsSorted (fields_of key print items))
unfolding each_field fields_of IsSorted
each_field-reload parse key print end items again h =
    subst
      (λ x.
        (each_field parse (fields_of key print x) ≡ ok x)
        × (count_fields (fields_of key print x) ≡ 0)
        × (Unit {0} → IsSorted (fields_of key print x)))
      (ok-same h) (refl, refl, λ _. tt)
each_field-reload parse key print (field k j fs) items again h =
    let (a, e, h₁) = >>=-eq-ok (parse k j) _ h in
    let (rest, e', last) = >>=-eq-ok (each_field parse fs) _ h₁ in
    let (same, counted, order) = each_field-reload parse key print fs rest again e' in
    let (k_same, a_again) = again k j a e in
    subst
      (λ x.
        (each_field parse (fields_of key print x) ≡ ok x)
        × (count_fields (fields_of key print x) ≡ suc (count_fields fs))
        × ((before_all k fs ≡ true) × IsSorted fs → IsSorted (fields_of key print x)))
      (ok-same last)
      (
        rw (k_same, a_again, same) refl,
        ap suc counted,
        λ h. (rw k_same (before_all-fields_of parse key print k fs rest again e' ∙ h.0), order h.1),
      )

-- The items of a mapping in the order of its keys: what prints them is in that order.
sorted-reload {ℓ} :
    {A : Type ℓ} (parse : String → Json → Parsed A) (key : A → String) (print : A → Json)
    (fs : Fields) (items : List A)
    → EntryReloads parse key print
    → each_field parse (sorted fs) ≡ ok items
    → (each_field parse (sorted (fields_of key print items)) ≡ ok items)
      × (count_fields (fields_of key print items) ≡ count_fields fs)
sorted-reload parse key print fs items again h =
    let (same, counted, order) = each_field-reload parse key print (sorted fs) items again h in
    (
      ap (each_field parse) (sorted-again (fields_of key print items) (order (sorted-IsSorted fs)))
          ∙ same,
      counted ∙ sorted-count fs,
    )

not_null-some :
    (o : Option JsonType) (t : JsonType) → not_null o ≡ some t → not_null (some t) ≡ some t
not_null-some none t h = cc
not_null-some (some null_type) t h = cc
not_null-some (some boolean) t h = subst (λ x. not_null (some x) ≡ some x) (some-same h) refl
not_null-some (some integer) t h = subst (λ x. not_null (some x) ≡ some x) (some-same h) refl
not_null-some (some number) t h = subst (λ x. not_null (some x) ≡ some x) (some-same h) refl
not_null-some (some string) t h = subst (λ x. not_null (some x) ≡ some x) (some-same h) refl
not_null-some (some array) t h = subst (λ x. not_null (some x) ≡ some x) (some-same h) refl
not_null-some (some object) t h = subst (λ x. not_null (some x) ≡ some x) (some-same h) refl

required_type-reload : EntryReloads required_type (λ e. e.0) (λ e. str (type_text e.1))
unfolding required_type
required_type-reload k j a h =
    let (s, _, h₁) = or_fail-bind-eq-ok (text_value j) _ _ h in
    let (t, e, last) = or_fail-bind-eq-ok (not_null (type_named s)) _ _ h₁ in
    subst (λ x. (x.0 ≡ k) × (required_type k (str (type_text x.1)) ≡ ok x)) (ok-same last)
      (refl, rw (type_named-text t, not_null-some (type_named s) t e) refl)

contract_of-again :
    (k : String) (types : List (String × JsonType))
    → is_slug k ≡ true
    → leb (count_fields (fields_of (λ x. x.0) (λ x. str (type_text x.1)) types)) max_required_fields
      ≡ true
    → each_field required_type (sorted (fields_of (λ x. x.0) (λ x. str (type_text x.1)) types))
      ≡ ok types
    → contract_of k (contract_document (record { name = k; required = types }))
      ≡ ok (record { name = k; required = types })
unfolding contract_of
contract_of-again k types fits few same = rw (fits, few, same) refl

contract_of-reload : EntryReloads contract_of contract_name contract_document
unfolding contract_of
contract_of-reload k j a h =
    let (fits, h₁) = guard-then-eq-ok (is_slug k) _ _ h in
    let (fs, _, h₂) = >>=-eq-ok (mapping j) _ h₁ in
    let (_, h₃) = guard-then-eq-ok (all_keys (contains ("required" ∷ [])) fs) _ _ h₂ in
    let (raw, _, h₄) = >>=-eq-ok (required_field (get_field "required" fs)) _ h₃ in
    let (few, h₅) = guard-then-eq-ok (leb (count_fields raw) max_required_fields) _ _ h₄ in
    let (types, e, last) = >>=-eq-ok (each_field required_type (sorted raw)) _ h₅ in
    let (same, counted) =
      sorted-reload required_type (λ x. x.0) (λ x. str (type_text x.1)) raw types
        required_type-reload e in
    subst (λ x. (contract_name x ≡ k) × (contract_of k (contract_document x) ≡ ok x)) (ok-same last)
      (refl, contract_of-again k types fits (rw counted few) same)

has_fields-count :
    (fs gs : Fields) → count_fields fs ≡ count_fields gs → has_fields fs ≡ has_fields gs
has_fields-count end end h = refl
has_fields-count end (field _ _ gs) h = absurd (omega arith)
has_fields-count (field _ _ fs) end h = absurd (omega arith)
has_fields-count (field _ _ fs) (field _ _ gs) h = refl

results_field-full :
    (o : Option Json) (fs : Fields) → results_field o ≡ ok fs → has_fields fs ≡ true
results_field-full (some (obj gs)) fs h =
    let (full, last) = guard-then-eq-ok (has_fields gs) _ _ h in
    subst (λ x. has_fields x ≡ true) (ok-same last) full
results_field-full none fs h = cc
results_field-full (some null) fs h = cc
results_field-full (some (bool _)) fs h = cc
results_field-full (some (int _)) fs h = cc
results_field-full (some (float _)) fs h = cc
results_field-full (some (str _)) fs h = cc
results_field-full (some (arr _)) fs h = cc

outcome_contract-reload : Reloads outcome_contract outcome_document
unfolding outcome_contract
outcome_contract-reload j a h =
    let (fs, _, h₁) = >>=-eq-ok (mapping j) _ h in
    let (_, h₂) = guard-then-eq-ok (all_keys (contains ("results" ∷ [])) fs) _ _ h₁ in
    let (raw, found, h₃) = >>=-eq-ok (results_field (get_field "results" fs)) _ h₂ in
    let (few, h₄) = guard-then-eq-ok (leb (count_fields raw) max_results) _ _ h₃ in
    let (results, e, last) = >>=-eq-ok (each_field contract_of (sorted raw)) _ h₄ in
    let (same, counted) =
      sorted-reload contract_of contract_name contract_document raw results contract_of-reload e in
    let full =
      has_fields-count (fields_of contract_name contract_document results) raw counted
      ∙ results_field-full (get_field "results" fs) raw found in
    subst (λ x. outcome_contract (outcome_document x) ≡ ok x) (ok-same last)
      (rw (full, counted, few, same) refl)

-- The results that an agent step declares, `null` included, are read back.
pub parse_outcome-reload : Reloads parse_outcome (or_null outcome_document)
unfolding parse_outcome
parse_outcome-reload j o h =
    optional-reload outcome_contract outcome_document (some j) o outcome_contract-reload (λ _. refl)
      h

selector_of-again :
    (k : String) (steps : List String) (after : Option String) (with_outcome required : Bool)
    → is_slug k ≡ true
    → is_full (text_items steps) ≡ true
    → texts_of "steps" (text_items steps) ≡ ok steps
    → selector_of k (
        selector_document (record {
          name = k;
          steps = steps;
          after = after;
          with_outcome = with_outcome;
          required = required;
        }))
      ≡ ok (record {
        name = k;
        steps = steps;
        after = after;
        with_outcome = with_outcome;
        required = required;
      })
unfolding selector_of
selector_of-again k steps after with_outcome required fits full again =
    rw (fits, full, again, text_option-reload "after" after) refl

selector_of-reload : EntryReloads selector_of selector_name selector_document
unfolding selector_of
selector_of-reload k j a h =
    let (fits, h₁) = guard-then-eq-ok (is_slug k) _ _ h in
    let (fs, _, h₂) = >>=-eq-ok (mapping j) _ h₁ in
    let (_, h₃) =
      guard-then-eq-ok
        (all_keys (contains ("steps" ∷ "after" ∷ "with_outcome" ∷ "required" ∷ [])) fs) _ _ h₂ in
    let (steps, e, h₄) = >>=-eq-ok (nonempty_texts fs "steps") _ h₃ in
    let (after, _, h₅) = >>=-eq-ok (optional_text fs "after") _ h₄ in
    let (with_outcome, _, h₆) = >>=-eq-ok (flag fs "with_outcome" true) _ h₅ in
    let (required, _, last) = >>=-eq-ok (flag fs "required" true) _ h₆ in
    let (full, again) = texts-full fs "steps" steps e in
    subst (λ x. (selector_name x ≡ k) × (selector_of k (selector_document x) ≡ ok x)) (ok-same last)
      (refl, selector_of-again k steps after with_outcome required fits full again)

no_selector : parse_evidence (some (evidence_document [])) ≡ ok []
unfolding parse_evidence selectors_of each_field fields_of sorted
no_selector = refl

-- The evidence selectors of a step are read back.
pub parse_evidence-reload :
    (o : Option Json) (ss : List EvidenceSelector)
    → parse_evidence o ≡ ok ss
    → parse_evidence (some (evidence_document ss)) ≡ ok ss
unfolding parse_evidence selectors_of
parse_evidence-reload none ss h =
    subst (λ x. parse_evidence (some (evidence_document x)) ≡ ok x) (ok-same h) no_selector
parse_evidence-reload (some j) ss h = elim (Bool-cases (is_null j)) [
  | inl e ↦
      subst (λ x. parse_evidence (some (evidence_document x)) ≡ ok x) (ok-same (rw e at h))
        no_selector
  | inr e ↦
      let (fs, _, h₁) = >>=-eq-ok (mapping j) _ (rw e at h) in
      let (few, last) = guard-then-eq-ok (leb (count_fields fs) max_evidence) _ _ h₁ in
      let (same, counted) =
        sorted-reload selector_of selector_name selector_document fs ss selector_of-reload last in
      rw (counted, few) same
]
