-- ===== src/Workflow/Settled/Values.antt =====
-- The fuel that the reader of value expressions needs.
use ompire.Base.{
  [], arith, contains, false, not, or_fail, refl, suc, true, zero, ℕ, ◌==◌, ◌∷◌, ◌≡◌, ◌≤◌,
  string_eq, ℕ_eq,
}
use ompire.Json.{Fields, Items, Json, cons, get_field, nil}
use ompire.Workflow.Syntax.{Value}
use ompire.Workflow.Parse.Fields.{
  Parsed, all_keys, flag, nonempty, nonempty_texts, optional_text, require_slug, require_text,
  required, wrong,
}
use ompire.Workflow.Parse.Depth.{
  Settles, bind-settled, depth, fields_depth, flag-settled, guard-settled, items_depth, no_fuel,
  nonempty-depth, nonempty-settled, op-settled, or_fail-settled, require_slug-settled,
  require_text-settled, required-depth, settled, text_option-settled, texts_of-settled,
}
use ompire.Workflow.Parse.Values.{
  ValueOp, as_key, coalesce_op, count_op, evidence_op, get_op, input_names, input_op, is_json_data,
  keys_of, latest_op, literal_op, parse_value, value_of, value_op, values_of,
}

keys_of-settled : (js : Items) → settled (keys_of js) ≡ true
keys_of-settled nil = refl
keys_of-settled (cons j js) =
    bind-settled (or_fail (as_key j) (wrong "keys")) _
      (or_fail-settled (as_key j) (wrong "keys") refl)
      λ k _. bind-settled (keys_of js) _ (keys_of-settled js) λ ks _. refl

values_of-settled :
    (k : ℕ) (parse : Json → Parsed Value) (js : Items)
    → Settles k parse
    → items_depth js ≤ k
    → settled (values_of parse js) ≡ true
unfolding depth
values_of-settled k parse nil settles d = refl
values_of-settled k parse (cons j js) settles d =
    bind-settled (parse j) _ (settles j (omega arith)) λ v _.
      bind-settled (values_of parse js) _ (values_of-settled k parse js settles (omega arith))
        λ vs _. refl

value_of-settled :
    (k format : ℕ) (parse : Json → Parsed Value) (fs : Fields) (o : ValueOp)
    → Settles k parse
    → fields_depth fs ≤ k
    → settled (value_of format parse fs o) ≡ true
unfolding value_of
value_of-settled k format parse fs literal_op settles d =
    guard-settled (all_keys (contains ("op" ∷ "value" ∷ [])) fs) _ _ refl (
      bind-settled (required fs "value") _ (or_fail-settled (get_field "value" fs) _ refl)
        λ j _. guard-settled (is_json_data 0 j) _ _ refl refl)
value_of-settled k format parse fs input_op settles d =
    guard-settled (all_keys (contains ("op" ∷ "name" ∷ [])) fs) _ _ refl (
      bind-settled (require_text fs "name") _ (require_text-settled fs "name")
        λ n _. guard-settled (contains input_names n) _ _ refl refl)
value_of-settled k format parse fs latest_op settles d = guard-settled (format == 1) _ _ refl (
    guard-settled (all_keys (contains ("op" ∷ "steps" ∷ "after" ∷ "with_outcome" ∷ [])) fs) _ _ refl
      (bind-settled (nonempty_texts fs "steps") _
        (bind-settled (nonempty fs "steps") _ (nonempty-settled fs "steps")
          λ js _. texts_of-settled "steps" js)
        λ steps _.
          bind-settled (optional_text fs "after") _
            (text_option-settled "after" (get_field "after" fs))
            λ after _.
              bind-settled (flag fs "with_outcome" false) _ (flag-settled fs "with_outcome" false)
                λ b _. refl))
value_of-settled k format parse fs evidence_op settles d =
    guard-settled (not (format == 1)) _ _ refl (
      guard-settled (all_keys (contains ("op" ∷ "name" ∷ [])) fs) _ _ refl
        (bind-settled (require_slug fs "name") _ (require_slug-settled fs "name") λ n _. refl))
value_of-settled k format parse fs get_op settles d =
    guard-settled (all_keys (contains ("op" ∷ "value" ∷ "keys" ∷ [])) fs) _ _ refl (
      bind-settled (required fs "value") _ (or_fail-settled (get_field "value" fs) _ refl) λ j e.
        bind-settled (nonempty fs "keys") _ (nonempty-settled fs "keys") λ raw _.
          bind-settled (keys_of raw) _ (keys_of-settled raw) λ ks _.
            let within = required-depth fs "value" j e in
            bind-settled (parse j) _ (settles j (omega arith)) λ v _. refl)
value_of-settled k format parse fs count_op settles d =
    guard-settled (all_keys (contains ("op" ∷ "step" ∷ [])) fs) _ _ refl
      (bind-settled (require_text fs "step") _ (require_text-settled fs "step") λ n _. refl)
value_of-settled k format parse fs coalesce_op settles d =
    guard-settled (all_keys (contains ("op" ∷ "values" ∷ [])) fs) _ _ refl (
      bind-settled (nonempty fs "values") _ (nonempty-settled fs "values") λ raw e.
        let within = nonempty-depth fs "values" raw e in
        bind-settled (values_of parse raw) _ (values_of-settled k parse raw settles (omega arith))
          λ vs _. refl)

pub parse_value-settled : (k format : ℕ) → Settles k (parse_value k format)
unfolding parse_value
parse_value-settled zero format j d = elim (no_fuel j d) [ ]
parse_value-settled (suc k) format j d =
    op-settled k j value_op (value_of format (parse_value k format))
      (λ fs o within.
        value_of-settled k format (parse_value k format) fs o (parse_value-settled k format) within)
      d
