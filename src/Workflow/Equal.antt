-- ===== src/Workflow/Equal.antt =====
-- Types, equality and order of JSON values, workflow_definitions.py: `_json_type_of`, `_json_equal` and
-- the order tests of `evaluate_predicate`. A float is finite.
use Prim.Native.String.{compare as text_order}
use Prim.Native.Nat.{Ordering}
use mathlib.Core.Option.{map as map_option}
use ompire.Base.{
  Bool, Option, String, false, if◌then◌else◌, is_some, none, not, some, true, ◌&&◌, ◌==◌, ◌^◌,
  string_eq, ℕ_eq,
}
use ompire.Base.Int.{int_eq, int_lt, scale_up, ℤ_eq}
use ompire.Json.{
  Dyadic, Fields, Items, Json, arr, bool, cons, end, field, float, get_field, int, nil, null, obj,
  str,
}
use ompire.Workflow.Syntax.{
  Comparison, JsonType, array, boolean, eq, gt, gte, integer, lt, lte, ne, null_type, number,
  object, string,
}

-- _json_type_of
abbrev pub json_type_of : Json → JsonType
json_type_of null = null_type
json_type_of (bool _) = boolean
json_type_of (int _) = integer
json_type_of (float _) = number
json_type_of (str _) = string
json_type_of (arr _) = array
json_type_of (obj _) = object

-- The value of a number, as a fraction over a power of two.
abbrev pub as_dyadic : Json → Option Dyadic
as_dyadic (int i) = some (record { numerator = i; scale = 0 })
as_dyadic (float f) = some f
as_dyadic _ = none

unfoldable pub dyadic_lt : Dyadic → Dyadic → Bool
dyadic_lt a b = int_lt (scale_up a.numerator (2 ^ b.scale)) (scale_up b.numerator (2 ^ a.scale))

unfoldable pub dyadic_eq : Dyadic → Dyadic → Bool
dyadic_eq a b = int_eq (scale_up a.numerator (2 ^ b.scale)) (scale_up b.numerator (2 ^ a.scale))

abbrev pub is_some_in : Fields → String → Bool
is_some_in fs k = is_some (get_field k fs)

-- `set(left) <= set(right)` of dictionaries.
abbrev pub keys_in : Fields → Fields → Bool
keys_in end gs = true
keys_in (field k _ fs) gs = is_some_in gs k && keys_in fs gs

-- _json_equal
unfoldable mutual
  unfolding dyadic_eq

  pub json_equal : Json → Json → Bool
  json_equal null null = true
  json_equal (bool a) (bool b) = if a then b else not b
  json_equal (int a) (int b) = int_eq a b
  json_equal (int a) (float b) = dyadic_eq (record { numerator = a; scale = 0 }) b
  json_equal (float a) (int b) = dyadic_eq a (record { numerator = b; scale = 0 })
  json_equal (float a) (float b) = dyadic_eq a b
  json_equal (str a) (str b) = a == b
  json_equal (arr a) (arr b) = items_equal a b
  json_equal (obj a) (obj b) = (keys_in a b && keys_in b a) && fields_equal a b
  json_equal _ _ = false

  pub items_equal : Items → Items → Bool
  items_equal nil nil = true
  items_equal (cons a xs) (cons b ys) = json_equal a b && items_equal xs ys
  items_equal _ _ = false

  -- Every entry on the left has its equal on the right.
  pub fields_equal : Fields → Fields → Bool
  fields_equal end gs = true
  fields_equal (field k a fs) gs =
      let rest = fields_equal fs gs in
      elim (get_field k gs) [ none ↦ false | some b ↦ json_equal a b && rest ]

abbrev pub text_lt : String → String → Bool
text_lt a b = elim (text_order a b) [ Ordering.lt ↦ true | _ ↦ false ]

-- `left < right` where Python orders the two: texts, and numbers of any type.
abbrev pub ordered_lt : Json → Json → Option Bool
ordered_lt (str a) (str b) = some (text_lt a b)
ordered_lt (int a) (int b) = some (int_lt a b)
ordered_lt (int a) (float b) = some (dyadic_lt (record { numerator = a; scale = 0 }) b)
ordered_lt (float a) (int b) = some (dyadic_lt a (record { numerator = b; scale = 0 }))
ordered_lt (float a) (float b) = some (dyadic_lt a b)
ordered_lt _ _ = none

-- `left <= right` is `not right < left` on both orders.
unfoldable pub order_test : Comparison → Json → Json → Option Bool
order_test lt l r = ordered_lt l r
order_test lte l r = map_option not (ordered_lt r l)
order_test gt l r = ordered_lt r l
order_test gte l r = map_option not (ordered_lt l r)
order_test eq l r = some (json_equal l r)
order_test ne l r = some (not (json_equal l r))
