-- ===== src/Workflow/Print/Values.antt =====
-- `_value_document` of workflow_definitions.py.
use ompire.Base.{List, [], ◌∷◌, string_eq, ℕ_eq}
use ompire.Base.Int.{ℤ_eq}
use ompire.Json.{
  Items, Json, arr, bool, cons, end, field, int, nil, obj, str, text_items, text_or_null,
}
use ompire.Workflow.Syntax.{
  Key, Value, Values, coalesce, count, evidence, get, index, input, latest, literal, name, no_value,
  value,
}

abbrev pub key_document : Key → Json
key_document (name s) = str s
key_document (index i) = int i

abbrev pub key_items : List Key → Items
key_items [] = nil
key_items (k ∷ ks) = cons (key_document k) (key_items ks)

unfoldable mutual
  pub value_document : Value → Json
  value_document (literal j) = obj (field "op" (str "literal") (field "value" j end))
  value_document (input n) = obj (field "op" (str "input") (field "name" (str n) end))
  value_document (latest steps after with_outcome) = obj (
      field "op" (str "latest") (
        field "steps" (arr (text_items steps))
          (field "after" (text_or_null after) (field "with_outcome" (bool with_outcome) end))))
  value_document (evidence n) = obj (field "op" (str "evidence") (field "name" (str n) end))
  value_document (get v ks) = obj (
      field "op" (str "get")
        (field "value" (value_document v) (field "keys" (arr (key_items ks)) end)))
  value_document (count n) = obj (field "op" (str "count") (field "step" (str n) end))
  value_document (coalesce vs) =
      obj (field "op" (str "coalesce") (field "values" (arr (value_items vs)) end))

  pub value_items : Values → Items
  value_items no_value = nil
  value_items (value v vs) = cons (value_document v) (value_items vs)
