-- ===== src/Workflow/Settled/Predicates.antt =====
-- The fuel that the reader of predicates needs.
use ompire.Base.{
  [], arith, contains, or_fail, refl, suc, true, zero, ℕ, ◌∷◌, ◌≡◌, ◌≤◌, string_eq, ℕ_eq,
}
use ompire.Json.{Fields, Items, Json, arr, bool, cons, float, get_field, int, nil, null, obj, str}
use ompire.Workflow.Syntax.{Predicate, Value}
use ompire.Workflow.Parse.Fields.{Parsed, all_keys, nonempty, require_text, required, wrong}
use ompire.Workflow.Parse.Depth.{
  Settles, bind-settled, depth, fields_depth, guard-settled, items_depth, no_fuel, nonempty-depth,
  nonempty-settled, op-settled, or_fail-settled, require_text-settled, required-depth, settled,
}
use ompire.Workflow.Parse.Values.{parse_value}
use ompire.Workflow.Parse.Predicates.{
  PredicateOp, compare_op, exists_op, is_type_op, junction_op, not_op, parse_predicate,
  predicate_from, predicate_of, predicate_op, predicates_of, type_named,
}
use ompire.Workflow.Settled.Values.{parse_value-settled}

predicates_of-settled :
    (k : ℕ) (parse : Json → Parsed Predicate) (js : Items)
    → Settles k parse
    → items_depth js ≤ k
    → settled (predicates_of parse js) ≡ true
unfolding depth
predicates_of-settled k parse nil settles d = refl
predicates_of-settled k parse (cons j js) settles d =
    bind-settled (parse j) _ (settles j (omega arith)) λ p _.
      bind-settled (predicates_of parse js) _
        (predicates_of-settled k parse js settles (omega arith)) λ ps _. refl

predicate_of-settled :
    (k : ℕ) (parse_v : Json → Parsed Value) (parse : Json → Parsed Predicate) (fs : Fields)
    (o : PredicateOp)
    → Settles k parse_v
    → Settles k parse
    → fields_depth fs ≤ k
    → settled (predicate_of parse_v parse fs o) ≡ true
unfolding predicate_of
predicate_of-settled k parse_v parse fs (compare_op c) settles_v settles d =
    guard-settled (all_keys (contains ("op" ∷ "left" ∷ "right" ∷ [])) fs) _ _ refl (
      bind-settled (required fs "left") _ (or_fail-settled (get_field "left" fs) _ refl) λ l e.
        bind-settled (required fs "right") _ (or_fail-settled (get_field "right" fs) _ refl) λ r e'.
          let in_left = required-depth fs "left" l e in
          let in_right = required-depth fs "right" r e' in
          bind-settled (parse_v l) _ (settles_v l (omega arith))
            λ a _. bind-settled (parse_v r) _ (settles_v r (omega arith)) λ b _. refl)
predicate_of-settled k parse_v parse fs exists_op settles_v settles d =
    guard-settled (all_keys (contains ("op" ∷ "value" ∷ [])) fs) _ _ refl (
      bind-settled (required fs "value") _ (or_fail-settled (get_field "value" fs) _ refl) λ j e.
        let within = required-depth fs "value" j e in
        bind-settled (parse_v j) _ (settles_v j (omega arith)) λ v _. refl)
predicate_of-settled k parse_v parse fs is_type_op settles_v settles d =
    guard-settled (all_keys (contains ("op" ∷ "value" ∷ "type" ∷ [])) fs) _ _ refl (
      bind-settled (required fs "value") _ (or_fail-settled (get_field "value" fs) _ refl) λ j e.
        bind-settled (require_text fs "type") _ (require_text-settled fs "type") λ s _.
          bind-settled (or_fail (type_named s) (wrong "type")) _
            (or_fail-settled (type_named s) (wrong "type") refl)
            λ t _.
              let within = required-depth fs "value" j e in
              bind-settled (parse_v j) _ (settles_v j (omega arith)) λ v _. refl)
predicate_of-settled k parse_v parse fs (junction_op o) settles_v settles d =
    guard-settled (all_keys (contains ("op" ∷ "of" ∷ [])) fs) _ _ refl (
      bind-settled (nonempty fs "of") _ (nonempty-settled fs "of") λ raw e.
        let within = nonempty-depth fs "of" raw e in
        bind-settled (predicates_of parse raw) _
          (predicates_of-settled k parse raw settles (omega arith)) λ ps _. refl)
predicate_of-settled k parse_v parse fs not_op settles_v settles d =
    guard-settled (all_keys (contains ("op" ∷ "of" ∷ [])) fs) _ _ refl (
      bind-settled (required fs "of") _ (or_fail-settled (get_field "of" fs) _ refl) λ j e.
        let within = required-depth fs "of" j e in
        bind-settled (parse j) _ (settles j (omega arith)) λ p _. refl)

pub parse_predicate-settled : (k format : ℕ) → Settles k (parse_predicate k format)
unfolding parse_predicate predicate_from
parse_predicate-settled zero format j d = elim (no_fuel j d) [ ]
parse_predicate-settled (suc k) format (bool b) d = refl
parse_predicate-settled (suc k) format (obj fs) d =
    op-settled k (obj fs) predicate_op
      (predicate_of (parse_value k format) (parse_predicate k format))
      (λ gs o within.
        predicate_of-settled k (parse_value k format) (parse_predicate k format) gs o
          (parse_value-settled k format) (parse_predicate-settled k format) within)
      d
parse_predicate-settled (suc k) format null d = refl
parse_predicate-settled (suc k) format (int _) d = refl
parse_predicate-settled (suc k) format (float _) d = refl
parse_predicate-settled (suc k) format (str _) d = refl
parse_predicate-settled (suc k) format (arr _) d = refl
