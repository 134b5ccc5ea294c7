-- ===== src/Workflow/Parse/Predicates.antt =====
-- `_parse_predicate` of workflow_definitions.py.
use ompire.Base.{
  Option, String, [], err, if◌then◌else◌, none, ok, or_fail, some, suc, zero, ℕ, ◌==◌, ◌>>=◌, ◌>>◌,
  ◌∷◌, string_eq, ℕ_eq,
}
use ompire.Json.{Fields, Items, Json, bool, cons, get_field, nil}
use ompire.Workflow.Syntax.{
  Comparison, JsonType, Junction, Predicate, Predicates, Value, array, boolean, compare, constant,
  eq, every, exists, gt, gte, integer, is_type, junction, lt, lte, ne, negation, no_predicate,
  null_type, number, object, predicate, some_of, string,
}
use ompire.Workflow.Parse.Fields.{
  Parsed, mapping, nonempty, out_of_fuel, reject_unknown, require_text, required, text_value,
  unknown_operation, wrong,
}
use ompire.Workflow.Parse.Values.{parse_value}

-- `op in COMPARISONS`
unfoldable pub comparison_named : String → Option Comparison
comparison_named s =
    if s == "eq"
    then some eq
    else if s == "ne"
    then some ne
    else if s == "lt"
    then some lt
    else if s == "lte"
    then some lte
    else if s == "gt"
    then some gt
    else if s == "gte"
    then some gte
    else none

-- `json_type in JSON_TYPES`
unfoldable pub type_named : String → Option JsonType
type_named s =
    if s == "null"
    then some null_type
    else if s == "boolean"
    then some boolean
    else if s == "integer"
    then some integer
    else if s == "number"
    then some number
    else if s == "string"
    then some string
    else if s == "array"
    then some array
    else if s == "object"
    then some object
    else none

-- The operations of a predicate.
pub data PredicateOp : Type 0 where
  compare_op : Comparison → PredicateOp
  exists_op is_type_op not_op : PredicateOp
  junction_op : Junction → PredicateOp

abbrev pub other_op : String → Option PredicateOp
other_op s =
    if s == "exists"
    then some exists_op
    else if s == "is_type"
    then some is_type_op
    else if s == "all"
    then some (junction_op every)
    else if s == "any"
    then some (junction_op some_of)
    else if s == "not"
    then some not_op
    else none

unfoldable pub predicate_op : String → Option PredicateOp
unfolding comparison_named
predicate_op s = elim (comparison_named s) [ some c ↦ some (compare_op c) | none ↦ other_op s ]

-- A call for each item, the results in order.
abbrev pub predicates_of : (Json → Parsed Predicate) → Items → Parsed Predicates
predicates_of parse nil = ok no_predicate
predicates_of parse (cons j js) =
    parse j >>= λ p. predicates_of parse js >>= λ ps. ok (predicate p ps)

-- The body of `_parse_predicate` once the operation is known, with the calls as arguments.
unfoldable pub predicate_of :
    (Json → Parsed Value) → (Json → Parsed Predicate) → Fields → PredicateOp → Parsed Predicate
unfolding type_named
predicate_of parse_v parse fs (compare_op c) = do
  reject_unknown fs ("op" ∷ "left" ∷ "right" ∷ [])
  l ← required fs "left"
  r ← required fs "right"
  left ← parse_v l
  right ← parse_v r
  ok (compare c left right)
predicate_of parse_v parse fs exists_op = do
  reject_unknown fs ("op" ∷ "value" ∷ [])
  j ← required fs "value"
  v ← parse_v j
  ok (exists v)
predicate_of parse_v parse fs is_type_op = do
  reject_unknown fs ("op" ∷ "value" ∷ "type" ∷ [])
  j ← required fs "value"
  s ← require_text fs "type"
  t ← or_fail (type_named s) (wrong "type")
  v ← parse_v j
  ok (is_type v t)
predicate_of parse_v parse fs (junction_op o) = do
  reject_unknown fs ("op" ∷ "of" ∷ [])
  raw ← nonempty fs "of"
  ps ← predicates_of parse raw
  ok (junction o ps)
predicate_of parse_v parse fs not_op = do
  reject_unknown fs ("op" ∷ "of" ∷ [])
  j ← required fs "of"
  p ← parse j
  ok (negation p)

-- Past the test for a literal.
unfoldable pub predicate_from :
    (Json → Parsed Value) → (Json → Parsed Predicate) → Json → Parsed Predicate
unfolding predicate_of predicate_op
predicate_from parse_v parse (bool b) = ok (constant b)
predicate_from parse_v parse j = do
  fs ← mapping j
  op ← or_fail (get_field "op" fs) (wrong "op")
  s ← or_fail (text_value op) (wrong "op")
  o ← or_fail (predicate_op s) (unknown_operation s)
  predicate_of parse_v parse fs o

-- _parse_predicate. The fuel is the depth of the nesting that is left.
unfoldable pub parse_predicate : ℕ → ℕ → Json → Parsed Predicate
unfolding parse_value predicate_from
parse_predicate zero format j = err out_of_fuel
parse_predicate (suc k) format j =
    predicate_from (parse_value k format) (parse_predicate k format) j
