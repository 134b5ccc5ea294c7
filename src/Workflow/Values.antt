-- ===== src/Workflow/Values.antt =====
-- The evaluation of expressions, `evaluate_value` of workflow_definitions.py. MISSING is none; a JSON
-- null is a value.
use mathlib.Core.Option.{map as map_option}
use ompire.Base.{
  Bool, List, Option, String, [], false, if◌then◌else◌, length, ltb, none, select, some, suc, true,
  zero, ℕ, ◌-◌, ◌==◌, ◌∷◌, string_eq, ℕ_eq,
}
use ompire.Base.Int.{negsuc, pos, ℤ, ℤ_eq}
use ompire.Json.{
  Items, Json, arr, cons, end, field, get_field, int, json_or_null, nil, null, obj, str,
}
use ompire.Workflow.Syntax.{
  Key, Value, Values, coalesce, count, evidence, get, index, input, latest, literal, name, no_value,
  value,
}
use ompire.Workflow.History.{Context, HistoryRecord, is_attempt_of, newest}

-- `mapping.get(key)`
abbrev pub lookup {ℓ} : {A : Type ℓ} → String → List (String × A) → Option A
lookup k [] = none
lookup k ((j, a) ∷ m) = if j == k then some a else lookup k m

abbrev pub join_option {ℓ} : {A : Type ℓ} → Option (Option A) → Option A
join_option none = none
join_option (some o) = o

abbrev pub size : Items → ℕ
size nil = 0
size (cons _ js) = suc (size js)

abbrev pub item : ℕ → Items → Option Json
item n nil = none
item zero (cons j js) = some j
item (suc n) (cons j js) = item n js

-- `current[key]` of a list where -len <= key < len
abbrev pub item_at : ℤ → Items → Option Json
item_at (pos n) js = item n js
item_at (negsuc n) js = if ltb n (size js) then item (size js - suc n) js else none

-- One key: MISSING and null have no members.
unfoldable pub get_key : Option Json → Key → Option Json
get_key (some (arr js)) (index i) = item_at i js
get_key (some (obj fs)) (name k) = get_field k fs
get_key _ _ = none

unfoldable pub get_keys : Option Json → List Key → Option Json
unfolding get_key
get_keys j [] = j
get_keys j (k ∷ ks) = get_keys (get_key j k) ks

-- What a `latest` expression yields of its record.
unfoldable pub latest_view : HistoryRecord → Json
latest_view r = obj (
    field "step" (str r.step) (
      field "seq" (int (pos r.seq))
        (field "status" (str r.status) (field "outcome" (json_or_null r.outcome) end))))

-- `value is not MISSING and value is not None`
abbrev pub is_present : Option Json → Bool
is_present none = false
is_present (some null) = false
is_present (some _) = true

unfoldable mutual
  unfolding latest_view newest get_keys

  pub evaluate_value : Value → Context → Option Json
  evaluate_value (literal j) c = some j
  evaluate_value (input n) c = map_option str (lookup n c.inputs)
  evaluate_value (evidence n) c = join_option (lookup n c.evidence)
  evaluate_value (latest steps after with_outcome) c =
      map_option latest_view (newest steps after with_outcome c.records)
  evaluate_value (get v ks) c = get_keys (evaluate_value v c) ks
  evaluate_value (count n) c = some (int (pos (length (select (is_attempt_of n) c.records))))
  evaluate_value (coalesce vs) c = first_present vs c

  pub first_present : Values → Context → Option Json
  first_present no_value c = none
  first_present (value v vs) c =
      let rest = first_present vs c in
      let j = evaluate_value v c in if is_present j then j else rest
