-- ===== src/Workflow/Parse/Values.antt =====
-- `_parse_value` of workflow_definitions.py.
use ompire.Base.{
  Bool, List, Option, String, [], contains, err, false, guard, if◌then◌else◌, leb, none, not, ok,
  or_fail, some, suc, true, zero, ℕ, ◌&&◌, ◌==◌, ◌>>=◌, ◌>>◌, ◌∷◌, string_eq, ℕ_eq,
}
use ompire.Base.Int.{ℤ_eq}
use ompire.Json.{Fields, Items, Json, arr, cons, end, field, get_field, int, nil, obj, str}
use ompire.Workflow.Syntax.{
  Key, Value, Values, coalesce, count, evidence, get, index, input, latest, literal, name, no_value,
  value,
}
use ompire.Workflow.Parse.Fields.{
  Parsed, flag, mapping, nonempty, nonempty_texts, optional_text, out_of_fuel, reject_unknown,
  require_slug, require_text, required, text_value, unknown_operation, wrong,
}

-- MAX_DEPTH
abbrev pub max_depth : ℕ
max_depth = 32

-- _is_json_data, at a depth: no container stands deeper than the limit.
unfoldable mutual
  pub is_json_data : ℕ → Json → Bool
  is_json_data d (arr js) = leb d max_depth && items_are_data (suc d) js
  is_json_data d (obj fs) = leb d max_depth && fields_are_data (suc d) fs
  is_json_data d _ = leb d max_depth

  pub items_are_data : ℕ → Items → Bool
  items_are_data d nil = true
  items_are_data d (cons j js) = is_json_data d j && items_are_data d js

  pub fields_are_data : ℕ → Fields → Bool
  fields_are_data d end = true
  fields_are_data d (field _ j fs) = is_json_data d j && fields_are_data d fs

-- INPUT_NAMES
abbrev pub input_names : List String
input_names = "task.prompt" ∷ "task.slug" ∷ "task.branch" ∷ "workspace.preamble" ∷ []

-- The operations of a value expression.
pub data ValueOp : Type 0 where
  literal_op input_op latest_op evidence_op get_op count_op coalesce_op : ValueOp

unfoldable pub value_op : String → Option ValueOp
value_op s =
    if s == "latest"
    then some latest_op
    else if s == "evidence"
    then some evidence_op
    else if s == "literal"
    then some literal_op
    else if s == "input"
    then some input_op
    else if s == "get"
    then some get_op
    else if s == "count"
    then some count_op
    else if s == "coalesce"
    then some coalesce_op
    else none

-- A key of a `get`: a text or an integer, which a boolean is not.
abbrev pub as_key : Json → Option Key
as_key (str s) = some (name s)
as_key (int i) = some (index i)
as_key _ = none

abbrev pub keys_of : Items → Parsed (List Key)
keys_of nil = ok []
keys_of (cons j js) = or_fail (as_key j) (wrong "keys") >>= λ k. keys_of js >>= λ ks. ok (k ∷ ks)

-- A call for each item, the results in order.
abbrev pub values_of : (Json → Parsed Value) → Items → Parsed Values
values_of parse nil = ok no_value
values_of parse (cons j js) = parse j >>= λ v. values_of parse js >>= λ vs. ok (value v vs)

-- The body of `_parse_value` once the operation is known; the format is a number and the recursive
-- call an argument.
unfoldable pub value_of : ℕ → (Json → Parsed Value) → Fields → ValueOp → Parsed Value
unfolding is_json_data
value_of format parse fs literal_op = do
  reject_unknown fs ("op" ∷ "value" ∷ [])
  j ← required fs "value"
  guard (is_json_data 0 j) (wrong "value")
  ok (literal j)
value_of format parse fs input_op = do
  reject_unknown fs ("op" ∷ "name" ∷ [])
  n ← require_text fs "name"
  guard (contains input_names n) (wrong "name")
  ok (input n)
value_of format parse fs latest_op = do
  guard (format == 1) (unknown_operation "latest")
  reject_unknown fs ("op" ∷ "steps" ∷ "after" ∷ "with_outcome" ∷ [])
  steps ← nonempty_texts fs "steps"
  after ← optional_text fs "after"
  with_outcome ← flag fs "with_outcome" false
  ok (latest steps after with_outcome)
value_of format parse fs evidence_op = do
  guard (not (format == 1)) (unknown_operation "evidence")
  reject_unknown fs ("op" ∷ "name" ∷ [])
  n ← require_slug fs "name"
  ok (evidence n)
value_of format parse fs get_op = do
  reject_unknown fs ("op" ∷ "value" ∷ "keys" ∷ [])
  j ← required fs "value"
  raw ← nonempty fs "keys"
  keys ← keys_of raw
  v ← parse j
  ok (get v keys)
value_of format parse fs count_op = do
  reject_unknown fs ("op" ∷ "step" ∷ [])
  n ← require_text fs "step"
  ok (count n)
value_of format parse fs coalesce_op = do
  reject_unknown fs ("op" ∷ "values" ∷ [])
  raw ← nonempty fs "values"
  vs ← values_of parse raw
  ok (coalesce vs)

-- _parse_value. The fuel is the depth of the nesting that is left.
unfoldable pub parse_value : ℕ → ℕ → Json → Parsed Value
unfolding value_of value_op
parse_value zero format j = err out_of_fuel
parse_value (suc k) format j = do
  fs ← mapping j
  op ← or_fail (get_field "op" fs) (wrong "op")
  s ← or_fail (text_value op) (wrong "op")
  o ← or_fail (value_op s) (unknown_operation s)
  value_of format (parse_value k format) fs o
