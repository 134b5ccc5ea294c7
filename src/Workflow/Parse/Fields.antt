-- ===== src/Workflow/Parse/Fields.antt =====
-- Reading the fields of a mapping, workflow_definitions.py: `_require_mapping`, `_reject_unknown`,
-- `_require_str`, `_require_slug` and the reads that the parsers share. The location of an error in the
-- document is not part of it here.
use ompire.Base.{
  Bool, List, Option, Result, String, [], contains, err, false, guard, is_some, none, ok, or_fail,
  some, true, ◌&&◌, ◌>>=◌, ◌>>◌, ◌∷◌, string_eq, ℕ_eq,
}
use ompire.Json.{Fields, Items, Json, arr, bool, cons, end, field, get_field, nil, null, obj, str}
use ompire.Workflow.Parse.Slug.{is_slug}

-- What the readers raise: a WorkflowDocumentError, and for `too_large` the OverflowError of float().
pub data ParseError : Type 0 where
  not_a_mapping unknown_field : ParseError
  missing wrong : (key : String) → ParseError
  unknown_operation : String → ParseError
  not_one_of unpaired_bound too_many too_large : ParseError
  duplicate reserved : String → ParseError
  unsupported_format : Json → ParseError
  out_of_fuel : ParseError

abbrev pub Parsed {ℓ} : Type ℓ → Type ℓ
Parsed A = Result ParseError A

-- _require_mapping
abbrev pub mapping : Json → Parsed Fields
mapping (obj fs) = ok fs
mapping _ = err not_a_mapping

abbrev pub all_keys : (String → Bool) → Fields → Bool
all_keys p end = true
all_keys p (field k _ fs) = p k && all_keys p fs

-- _reject_unknown
abbrev pub reject_unknown : Fields → List String → Parsed (Unit {0})
reject_unknown fs allowed = guard (all_keys (contains allowed) fs) unknown_field

abbrev pub text_value : Json → Option String
text_value (str s) = some s
text_value _ = none

abbrev pub bool_value : Json → Option Bool
bool_value (bool b) = some b
bool_value _ = none

-- `if key not in data: raise`
abbrev pub required : Fields → String → Parsed Json
required fs k = or_fail (get_field k fs) (missing k)

-- _require_str
abbrev pub require_text : Fields → String → Parsed String
require_text fs k = required fs k >>= λ j. or_fail (text_value j) (wrong k)

-- _require_slug
abbrev pub require_slug : Fields → String → Parsed String
require_slug fs k = require_text fs k >>= λ s. guard (is_slug s) (wrong k) >> ok s

-- A key that is absent or null is none; else it is a text.
unfoldable pub text_option : String → Option Json → Parsed (Option String)
text_option k none = ok none
text_option k (some null) = ok none
text_option k (some (str s)) = ok (some s)
text_option k (some _) = err (wrong k)

abbrev pub optional_text : Fields → String → Parsed (Option String)
optional_text fs k = text_option k (get_field k fs)

-- `data.get(key, default)`, which has to be a boolean.
abbrev pub flag_option : String → Bool → Option Json → Parsed Bool
flag_option k default none = ok default
flag_option k default (some (bool b)) = ok b
flag_option k default (some _) = err (wrong k)

abbrev pub flag : Fields → String → Bool → Parsed Bool
flag fs k default = flag_option k default (get_field k fs)

abbrev pub is_full : Items → Bool
is_full nil = false
is_full (cons _ _) = true

-- A list that is there and not empty.
abbrev pub list_option : String → Option Json → Parsed Items
list_option k (some (arr js)) = guard (is_full js) (wrong k) >> ok js
list_option k _ = err (wrong k)

abbrev pub nonempty : Fields → String → Parsed Items
nonempty fs k = list_option k (get_field k fs)

-- The items, each a text.
abbrev pub texts_of : String → Items → Parsed (List String)
texts_of k nil = ok []
texts_of k (cons j js) =
    or_fail (text_value j) (wrong k) >>= λ s. texts_of k js >>= λ ss. ok (s ∷ ss)

abbrev pub nonempty_texts : Fields → String → Parsed (List String)
nonempty_texts fs k = nonempty fs k >>= texts_of k

-- Present keys of three: the parts and the destinations are told apart by the one they have.
abbrev pub has : String → Fields → Bool
has k fs = is_some (get_field k fs)
