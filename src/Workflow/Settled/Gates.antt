-- ===== src/Workflow/Settled/Gates.antt =====
-- The fuel that the parts of a gate need, workflow_definitions.py.
use ompire.Base.{
  List, Option, String, [], arith, contains, false, leb, not, or_fail, refl, true, ℕ, ◌∷◌, ◌≡◌, ◌≤◌,
  string_eq, ℕ_eq,
}
use ompire.Json.{Fields, Json, get_field}
use ompire.Workflow.Parse.Slug.{is_blank}
use ompire.Workflow.Parse.Fields.{
  all_keys, flag, list_option, mapping, nonempty, require_slug, require_text, required, text_value,
  wrong,
}
use ompire.Workflow.Parse.Depth.{
  Settles, bind-settled, fields_depth, flag-settled, get_field-depth, guard-settled, items_depth,
  list_option-settled, mapping-settled, nonempty-settled, or_fail-settled, require_slug-settled,
  require_text-settled, settled,
}
use ompire.Workflow.Parse.Texts.{parse_text}
use ompire.Workflow.Parse.Routes.{optional, parse_destination}
use ompire.Workflow.Parse.Gates.{
  choice_fields, choice_id, choice_of, count_items, each_named, grant_step, max_choices, own_name,
  parse_choices, parse_gate_delivery, parse_gate_result, parse_grant, parse_metadata,
}
use ompire.Workflow.Settled.Texts.{parse_text-settled}
use ompire.Workflow.Settled.Routes.{
  each_named-settled, mapping-within, optional-settled, parse_destination-settled,
}

pub parse_gate_result-settled : (j : Json) → settled (parse_gate_result j) ≡ true
unfolding parse_gate_result
parse_gate_result-settled j = bind-settled (mapping j) _ (mapping-settled j) λ fs _.
    guard-settled (all_keys (contains ("evidence" ∷ [])) fs) _ _ refl
      (bind-settled (require_slug fs "evidence") _ (require_slug-settled fs "evidence") λ n _. refl)

text_field-settled :
    (k version : ℕ) (fs : Fields) (key : String)
    → fields_depth fs ≤ k
    → settled (optional (parse_text k version) (get_field key fs)) ≡ true
text_field-settled k version fs key d =
    optional-settled (parse_text k version) (get_field key fs)
      λ j e. let within = get_field-depth key fs j e in parse_text-settled k version j (omega arith)

parse_metadata-settled : (k version : ℕ) → Settles k (parse_metadata k version)
unfolding parse_metadata
parse_metadata-settled k version j d = bind-settled (mapping j) _ (mapping-settled j) λ fs e.
    let within = mapping-within k j fs e d in
    guard-settled (all_keys (contains ("message" ∷ "pr_title" ∷ "pr_body" ∷ [])) fs) _ _ refl (
      bind-settled (optional (parse_text k version) (get_field "message" fs)) _
        (text_field-settled k version fs "message" within)
        λ a _.
          bind-settled (optional (parse_text k version) (get_field "pr_title" fs)) _
            (text_field-settled k version fs "pr_title" within)
            λ b _.
              bind-settled (optional (parse_text k version) (get_field "pr_body" fs)) _
                (text_field-settled k version fs "pr_body" within) λ c _. refl)

pub parse_gate_delivery-settled : (k version : ℕ) → Settles k (parse_gate_delivery k version)
unfolding parse_gate_delivery
parse_gate_delivery-settled k version j d = bind-settled (mapping j) _ (mapping-settled j) λ fs e.
    guard-settled (all_keys (contains ("review" ∷ "metadata" ∷ [])) fs) _ _ refl (
      bind-settled (require_slug fs "review") _ (require_slug-settled fs "review") λ r _.
        bind-settled (optional (parse_metadata k version) (get_field "metadata" fs)) _
          (optional-settled (parse_metadata k version) (get_field "metadata" fs) λ i e'.
            let within = mapping-within k j fs e d in
            let inside = get_field-depth "metadata" fs i e' in
            parse_metadata-settled k version i (omega arith))
          λ m _. refl)

grant_step-settled : (seen : List String) (j : Json) → settled (grant_step seen j) ≡ true
grant_step-settled seen j =
    bind-settled (or_fail (text_value j) (wrong "steps")) _ (or_fail-settled (text_value j) _ refl)
      λ s _. guard-settled (not (contains seen s)) _ _ refl refl

parse_grant-settled : (j : Json) → settled (parse_grant j) ≡ true
unfolding parse_grant
parse_grant-settled j = bind-settled (mapping j) _ (mapping-settled j) λ fs _.
    guard-settled (all_keys (contains ("steps" ∷ [])) fs) _ _ refl (
      bind-settled (nonempty fs "steps") _ (nonempty-settled fs "steps") λ raw _.
        guard-settled (leb (count_items raw) 3) _ _ refl (
          bind-settled (each_named grant_step own_name [] raw) _
            (each_named-settled (items_depth raw) grant_step own_name [] raw
              (λ seen i _. grant_step-settled seen i) (omega arith))
            λ steps _. refl))

choice_of-settled :
    (version : ℕ) (seen : List String) (j : Json) → settled (choice_of version seen j) ≡ true
unfolding choice_of
choice_of-settled version seen j = bind-settled (mapping j) _ (mapping-settled j) λ fs _.
    guard-settled (all_keys (contains (choice_fields version)) fs) _ _ refl (
      bind-settled (require_slug fs "id") _ (require_slug-settled fs "id") λ i _.
        guard-settled (not (contains seen i)) _ _ refl (
          bind-settled (require_text fs "label") _ (require_text-settled fs "label") λ label _.
            guard-settled (not (is_blank label)) _ _ refl (
              bind-settled (flag fs "feedback_required" false) _
                (flag-settled fs "feedback_required" false)
                λ a _.
                  bind-settled (flag fs "requires_result_acceptance" false) _
                    (flag-settled fs "requires_result_acceptance" false)
                    λ b _.
                      bind-settled (required fs "next") _
                        (or_fail-settled (get_field "next" fs) _ refl)
                        λ to _.
                          bind-settled (parse_destination version false to) _
                            (parse_destination-settled version false to)
                            λ next _.
                              bind-settled (optional parse_grant (get_field "authorize" fs)) _
                                (optional-settled parse_grant (get_field "authorize" fs)
                                  λ g _. parse_grant-settled g)
                                λ granted _. refl)))

pub parse_choices-settled :
    (version : ℕ) (o : Option Json) → settled (parse_choices version o) ≡ true
unfolding parse_choices
parse_choices-settled version o =
    bind-settled (list_option "choices" o) _ (list_option-settled "choices" o) λ raw _.
      guard-settled (leb (count_items raw) max_choices) _ _ refl (
        each_named-settled (items_depth raw) (choice_of version) choice_id [] raw
          (λ seen i _. choice_of-settled version seen i) (omega arith))
