-- ===== src/Workflow/Parse/Texts.antt =====
-- `_parse_text` and `_parse_part` of workflow_definitions.py.
use ompire.Base.{
  Bool, Option, String, [], err, false, if◌then◌else◌, none, ok, or_fail, some, suc, true, zero, ℕ,
  ◌==◌, ◌>>=◌, ◌>>◌, ◌∷◌, string_eq, ℕ_eq,
}
use ompire.Json.{Fields, Items, Json, arr, cons, get_field, nil, null, str}
use ompire.Workflow.Syntax.{
  Format, Part, Parts, Predicate, TextDocument, Value, as_json, as_text, conditional, document,
  insert, no_part, part, text,
}
use ompire.Workflow.Parse.Fields.{
  Parsed, has, mapping, missing, not_one_of, out_of_fuel, reject_unknown, require_text, required,
  text_value, wrong,
}
use ompire.Workflow.Parse.Values.{parse_value}
use ompire.Workflow.Parse.Predicates.{parse_predicate}

-- EMPTY_TEXT
abbrev pub empty_text : TextDocument
empty_text = document "" no_part

-- `data.get("separator", "")`, which has to be a text.
abbrev pub separator_of : Option Json → Parsed String
separator_of none = ok ""
separator_of (some j) = or_fail (text_value j) (wrong "separator")

-- `data.get("parts")`: there, not null, and a list, which may be empty.
abbrev pub parts_field : Option Json → Parsed Items
parts_field none = err (missing "parts")
parts_field (some null) = err (missing "parts")
parts_field (some (arr js)) = ok js
parts_field (some _) = err (wrong "parts")

-- `value_format in VALUE_FORMATS`, with "text" for an absent one.
abbrev pub format_named : String → Parsed Format
format_named s =
    if s == "text" then ok as_text else if s == "json" then ok as_json else err (wrong "format")

abbrev pub format_of : Option Json → Parsed Format
format_of none = ok as_text
format_of (some (str s)) = format_named s
format_of (some _) = err (wrong "format")

-- The one of three keys that a mapping has.
pub data Which : Type 0 where
  first second third : Which

abbrev pub one_of : Bool → Bool → Bool → Option Which
one_of true false false = some first
one_of false true false = some second
one_of false false true = some third
one_of _ _ _ = none

-- An `else` that is absent is the empty text.
abbrev pub else_of : (Json → Parsed TextDocument) → Option Json → Parsed TextDocument
else_of parse none = ok empty_text
else_of parse (some j) = parse j

-- `_parse_part` once the kind of the part is known, with the calls as arguments.
unfoldable pub part_of :
    (Json → Parsed Value)
    → (Json → Parsed Predicate)
    → (Json → Parsed TextDocument)
    → Fields
    → Which
    → Parsed Part
part_of parse_v parse_p parse fs first = do
  reject_unknown fs ("text" ∷ [])
  s ← require_text fs "text"
  ok (text s)
part_of parse_v parse_p parse fs second = do
  reject_unknown fs ("value" ∷ "format" ∷ [])
  f ← format_of (get_field "format" fs)
  j ← required fs "value"
  v ← parse_v j
  ok (insert v f)
part_of parse_v parse_p parse fs third = do
  reject_unknown fs ("if" ∷ "then" ∷ "else" ∷ [])
  t ← required fs "then"
  c ← required fs "if"
  when ← parse_p c
  then_text ← parse t
  else_text ← else_of parse (get_field "else" fs)
  ok (conditional when then_text else_text)

-- _parse_part
unfoldable pub parse_part :
    (Json → Parsed Value)
    → (Json → Parsed Predicate)
    → (Json → Parsed TextDocument)
    → Json
    → Parsed Part
unfolding part_of
parse_part parse_v parse_p parse j = do
  fs ← mapping j
  w ← or_fail (one_of (has "text" fs) (has "value" fs) (has "if" fs)) not_one_of
  part_of parse_v parse_p parse fs w

abbrev pub parts_of : (Json → Parsed Part) → Items → Parsed Parts
parts_of parse nil = ok no_part
parts_of parse (cons j js) = parse j >>= λ p. parts_of parse js >>= λ ps. ok (part p ps)

-- _parse_text. The fuel is the number of text documents that may still stand inside one another, and
-- the depth that is left to the expressions.
unfoldable pub parse_text : ℕ → ℕ → Json → Parsed TextDocument
unfolding parse_value parse_predicate parse_part
parse_text zero format j = err out_of_fuel
parse_text (suc k) format j = do
  fs ← mapping j
  reject_unknown fs ("separator" ∷ "parts" ∷ [])
  separator ← separator_of (get_field "separator" fs)
  raw ← parts_field (get_field "parts" fs)
  parts ←
      parts_of (parse_part (parse_value k format) (parse_predicate k format) (parse_text k format))
        raw
  ok (document separator parts)
