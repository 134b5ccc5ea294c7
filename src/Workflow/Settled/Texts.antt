-- ===== src/Workflow/Settled/Texts.antt =====
-- The fuel that the reader of text documents needs.
use ompire.Base.{
  Bool-cases, Option, String, [], ap, arith, contains, inl, inr, none, ok, ok-same, or_fail, refl,
  some, suc, true, zero, ℕ, ◌==◌, ◌∷◌, ◌≡◌, ◌≤◌, string_eq, ℕ_eq,
}
use ompire.Json.{Fields, Items, Json, arr, bool, cons, float, get_field, int, nil, null, obj, str}
use ompire.Workflow.Syntax.{TextDocument}
use ompire.Workflow.Parse.Fields.{
  Parsed, all_keys, has, mapping, not_one_of, require_text, required, text_value, wrong,
}
use ompire.Workflow.Parse.Depth.{
  Settles, bind-settled, depth, fields_depth, get_field-depth, guard-settled, items_depth,
  mapping-depth, mapping-settled, no_fuel, or_fail-settled, require_text-settled, required-depth,
  settled,
}
use ompire.Workflow.Parse.Values.{parse_value}
use ompire.Workflow.Parse.Predicates.{parse_predicate}
use ompire.Workflow.Settled.Values.{parse_value-settled}
use ompire.Workflow.Parse.Texts.{
  Which, else_of, first, format_named, format_of, one_of, parse_part, parse_text, part_of,
  parts_field, parts_of, second, separator_of, third,
}
use ompire.Workflow.Settled.Predicates.{parse_predicate-settled}

separator_of-settled : (o : Option Json) → settled (separator_of o) ≡ true
separator_of-settled none = refl
separator_of-settled (some j) = or_fail-settled (text_value j) (wrong "separator") refl

parts_field-settled : (o : Option Json) → settled (parts_field o) ≡ true
parts_field-settled none = refl
parts_field-settled (some null) = refl
parts_field-settled (some (bool _)) = refl
parts_field-settled (some (int _)) = refl
parts_field-settled (some (float _)) = refl
parts_field-settled (some (str _)) = refl
parts_field-settled (some (arr _)) = refl
parts_field-settled (some (obj _)) = refl

parts_field-found : (o : Option Json) (js : Items) → parts_field o ≡ ok js → o ≡ some (arr js)
parts_field-found none js h = cc
parts_field-found (some null) js h = cc
parts_field-found (some (bool _)) js h = cc
parts_field-found (some (int _)) js h = cc
parts_field-found (some (float _)) js h = cc
parts_field-found (some (str _)) js h = cc
parts_field-found (some (arr js')) js h = ap (λ x. some (arr x)) (ok-same h)
parts_field-found (some (obj _)) js h = cc

format_named-settled : (s : String) → settled (format_named s) ≡ true
format_named-settled s = elim (Bool-cases (s == "text")) [
  | inl e ↦ rw e refl
  | inr e ↦ elim (Bool-cases (s == "json")) [ inl e' ↦ rw (e, e') refl | inr e' ↦ rw (e, e') refl ]
]

format_of-settled : (o : Option Json) → settled (format_of o) ≡ true
format_of-settled none = refl
format_of-settled (some null) = refl
format_of-settled (some (bool _)) = refl
format_of-settled (some (int _)) = refl
format_of-settled (some (float _)) = refl
format_of-settled (some (str s)) = format_named-settled s
format_of-settled (some (arr _)) = refl
format_of-settled (some (obj _)) = refl

else_of-settled :
    (k : ℕ) (parse : Json → Parsed TextDocument) (o : Option Json)
    → Settles k parse
    → ((j : Json) → o ≡ some j → depth j ≤ k)
    → settled (else_of parse o) ≡ true
else_of-settled k parse none settles within = refl
else_of-settled k parse (some j) settles within = settles j (within j refl)

part_of-settled :
    (k format : ℕ) (parse : Json → Parsed TextDocument) (fs : Fields) (w : Which)
    → Settles k parse
    → fields_depth fs ≤ k
    → settled (part_of (parse_value k format) (parse_predicate k format) parse fs w) ≡ true
unfolding part_of
part_of-settled k format parse fs first settles d =
    guard-settled (all_keys (contains ("text" ∷ [])) fs) _ _ refl
      (bind-settled (require_text fs "text") _ (require_text-settled fs "text") λ s _. refl)
part_of-settled k format parse fs second settles d =
    guard-settled (all_keys (contains ("value" ∷ "format" ∷ [])) fs) _ _ refl (
      bind-settled (format_of (get_field "format" fs)) _ (format_of-settled (get_field "format" fs))
        λ f _.
          bind-settled (required fs "value") _ (or_fail-settled (get_field "value" fs) _ refl)
            λ j e.
              let within = required-depth fs "value" j e in
              bind-settled (parse_value k format j) _ (parse_value-settled k format j (omega arith))
                λ v _. refl)
part_of-settled k format parse fs third settles d =
    guard-settled (all_keys (contains ("if" ∷ "then" ∷ "else" ∷ [])) fs) _ _ refl (
      bind-settled (required fs "then") _ (or_fail-settled (get_field "then" fs) _ refl) λ t e.
        bind-settled (required fs "if") _ (or_fail-settled (get_field "if" fs) _ refl) λ c e'.
          let in_then = required-depth fs "then" t e in
          let in_if = required-depth fs "if" c e' in
          bind-settled (parse_predicate k format c) _
            (parse_predicate-settled k format c (omega arith))
            λ p _. bind-settled (parse t) _ (settles t (omega arith)) λ then_text _.
              bind-settled (else_of parse (get_field "else" fs)) _
                (else_of-settled k parse (get_field "else" fs) settles
                  λ j found. let in_else = get_field-depth "else" fs j found in omega arith)
                λ else_text _. refl)

part_reader-settled :
    (k format : ℕ) (parse : Json → Parsed TextDocument) (j : Json)
    → Settles k parse
    → depth j ≤ k
    → settled (parse_part (parse_value k format) (parse_predicate k format) parse j) ≡ true
unfolding parse_part
part_reader-settled k format parse j settles d =
    bind-settled (mapping j) _ (mapping-settled j) λ fs e.
      bind-settled (or_fail (one_of (has "text" fs) (has "value" fs) (has "if" fs)) not_one_of) _
        (or_fail-settled (one_of (has "text" fs) (has "value" fs) (has "if" fs)) not_one_of refl)
        λ w _.
          let within = mapping-depth k j fs e (omega arith) in
          part_of-settled k format parse fs w settles within

parts_of-settled :
    (k format : ℕ) (parse : Json → Parsed TextDocument) (js : Items)
    → Settles k parse
    → items_depth js ≤ k
    → settled (parts_of (parse_part (parse_value k format) (parse_predicate k format) parse) js)
      ≡ true
unfolding depth
parts_of-settled k format parse nil settles d = refl
parts_of-settled k format parse (cons j js) settles d =
    bind-settled (parse_part (parse_value k format) (parse_predicate k format) parse j) _
      (part_reader-settled k format parse j settles (omega arith))
      λ p _.
        bind-settled
          (parts_of (parse_part (parse_value k format) (parse_predicate k format) parse) js) _
          (parts_of-settled k format parse js settles (omega arith)) λ ps _. refl

-- A reader of text documents that is given the depth of the document as fuel never runs out of it: it
-- returns the text document or an error of the document. So do the readers of the expressions and
-- predicates in it.
pub parse_text-settled : (k format : ℕ) → Settles k (parse_text k format)
unfolding parse_text depth
parse_text-settled zero format j d = elim (no_fuel j d) [ ]
parse_text-settled (suc k) format j d = bind-settled (mapping j) _ (mapping-settled j) λ fs e.
    guard-settled (all_keys (contains ("separator" ∷ "parts" ∷ [])) fs) _ _ refl (
      bind-settled (separator_of (get_field "separator" fs)) _
        (separator_of-settled (get_field "separator" fs))
        λ separator _.
          bind-settled (parts_field (get_field "parts" fs)) _
            (parts_field-settled (get_field "parts" fs))
            λ raw e'.
              let in_mapping = mapping-depth k j fs e d in
              let in_field =
                get_field-depth "parts" fs (arr raw)
                  (parts_field-found (get_field "parts" fs) raw e') in
              bind-settled
                (parts_of
                  (parse_part (parse_value k format) (parse_predicate k format)
                    (parse_text k format))
                  raw)
                _
                (parts_of-settled k format (parse_text k format) raw (parse_text-settled k format)
                  (omega arith))
                λ parts _. refl)
