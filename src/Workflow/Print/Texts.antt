-- ===== src/Workflow/Print/Texts.antt =====
-- `_predicate_document` and `_text_document` of workflow_definitions.py.
use ompire.Base.{String, string_eq, ℕ_eq}
use ompire.Json.{Items, Json, arr, bool, cons, end, field, nil, obj, str}
use ompire.Workflow.Syntax.{
  Comparison, Format, JsonType, Junction, Part, Parts, Predicate, Predicates, TextDocument, array,
  as_json, as_text, boolean, compare, conditional, constant, document, eq, every, exists, gt, gte,
  insert, integer, is_type, junction, lt, lte, ne, negation, no_part, no_predicate, null_type,
  number, object, part, predicate, some_of, string, text,
}
use ompire.Workflow.Print.Values.{value_document}

abbrev pub comparison_text : Comparison → String
comparison_text eq = "eq"
comparison_text ne = "ne"
comparison_text lt = "lt"
comparison_text lte = "lte"
comparison_text gt = "gt"
comparison_text gte = "gte"

abbrev pub type_text : JsonType → String
type_text null_type = "null"
type_text boolean = "boolean"
type_text integer = "integer"
type_text number = "number"
type_text string = "string"
type_text array = "array"
type_text object = "object"

abbrev pub junction_text : Junction → String
junction_text every = "all"
junction_text some_of = "any"

abbrev pub format_text : Format → String
format_text as_text = "text"
format_text as_json = "json"

unfoldable mutual
  unfolding value_document

  pub predicate_document : Predicate → Json
  predicate_document (compare c l r) = obj (
      field "op" (str (comparison_text c))
        (field "left" (value_document l) (field "right" (value_document r) end)))
  predicate_document (exists v) =
      obj (field "op" (str "exists") (field "value" (value_document v) end))
  predicate_document (is_type v t) = obj (
      field "op" (str "is_type")
        (field "value" (value_document v) (field "type" (str (type_text t)) end)))
  predicate_document (junction o ps) =
      obj (field "op" (str (junction_text o)) (field "of" (arr (predicate_items ps)) end))
  predicate_document (negation p) =
      obj (field "op" (str "not") (field "of" (predicate_document p) end))
  predicate_document (constant b) = bool b

  pub predicate_items : Predicates → Items
  predicate_items no_predicate = nil
  predicate_items (predicate p ps) = cons (predicate_document p) (predicate_items ps)

unfoldable mutual
  unfolding value_document predicate_document

  pub text_document : TextDocument → Json
  text_document (document separator parts) =
      obj (field "separator" (str separator) (field "parts" (arr (part_items parts)) end))

  pub part_items : Parts → Items
  part_items no_part = nil
  part_items (part p ps) = cons (part_document p) (part_items ps)

  pub part_document : Part → Json
  part_document (text s) = obj (field "text" (str s) end)
  part_document (insert v f) =
      obj (field "value" (value_document v) (field "format" (str (format_text f)) end))
  part_document (conditional when then_text else_text) = obj (
      field "if" (predicate_document when)
        (field "then" (text_document then_text) (field "else" (text_document else_text) end)))
