-- ===== src/Workflow/Print/Routes.antt =====
-- `_destination_document`, and the visit bound of `_step_document`, of workflow_definitions.py.
use ompire.Base.{Option, String, if◌then◌else◌, none, some, true, ℕ, ◌==◌, string_eq, ℕ_eq}
use ompire.Base.Int.{pos, ℤ_eq}
use ompire.Json.{Json, bool, end, field, int, null, obj, str, text_or_null}
use ompire.Workflow.Syntax.{Destination, complete, pause, to_step}

-- `None if value is None else document(value)`
abbrev pub or_null {ℓ} : {A : Type ℓ} → (A → Json) → Option A → Json
or_null print none = null
or_null print (some a) = print a

abbrev pub step_route : String → Json
step_route s = obj (field "step" (str s) end)

unfoldable pub destination_document : ℕ → Destination → Json
destination_document version (to_step s) = step_route s
destination_document version (complete r) =
    if version == 1
    then obj (field "complete" (bool true) end)
    else obj (field "complete" (bool true) (field "result" (text_or_null r) end))
destination_document version pause = obj (field "pause" (bool true) end)

abbrev pub whole : ℕ → Json
whole n = int (pos n)
