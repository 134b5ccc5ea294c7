-- ===== src/Json.antt =====
-- JSON data, as Python's `json` reads it (daemon/src/ompire_daemon/workflow_definitions.py,
-- `_json_type_of`). A float is finite, hence a dyadic rational: the numerator over 2 ^ scale.
use ompire.Base.Int.{ℤ}
use ompire.Base.{
  Bool, List, Option, String, [], if◌then◌else◌, none, some, ℕ, ◌==◌, ◌∷◌, string_eq, ℕ_eq,
}

pub record Dyadic : Type 0 where
  pub numerator : ℤ
  pub scale : ℕ

mutual
  pub data Json : Type 0 where
    null : Json
    bool : Bool → Json
    int : ℤ → Json
    float : Dyadic → Json
    str : String → Json
    arr : Items → Json
    obj : Fields → Json

  pub data Items : Type 0 where
    nil : Items
    cons : Json → Items → Items

  -- The entries of a dict, in their order.
  pub data Fields : Type 0 where
    end : Fields
    field : String → Json → Fields → Fields

-- `fields.get(key)`
abbrev pub get_field : String → Fields → Option Json
get_field k end = none
get_field k (field j v fs) = if j == k then some v else get_field k fs

-- `list(texts)` as a JSON array.
abbrev pub text_items : List String → Items
text_items [] = nil
text_items (t ∷ ts) = cons (str t) (text_items ts)

-- A nullable text column as JSON.
abbrev pub text_or_null : Option String → Json
text_or_null none = null
text_or_null (some t) = str t

-- A nullable JSON column.
abbrev pub json_or_null : Option Json → Json
json_or_null none = null
json_or_null (some j) = j
