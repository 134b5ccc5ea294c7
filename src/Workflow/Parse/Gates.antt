-- ===== src/Workflow/Parse/Gates.antt =====
-- The parts of a gate, workflow_definitions.py: `_parse_gate_result`, `_parse_gate_delivery`,
-- `_parse_grant` and `_parse_choices`.
use ompire.Base.{
  List, Option, String, [], contains, false, guard, if◌then◌else◌, leb, not, ok, or_fail, suc, ℕ,
  ◌++◌, ◌>>=◌, ◌>>◌, ◌∷◌, string_eq, ℕ_eq,
}
use ompire.Json.{Items, Json, cons, get_field, nil}
use ompire.Workflow.Syntax.{DeliveryGrant, DeliveryMetadata, GateChoice, GateDelivery, GateResult}
use ompire.Workflow.Parse.Slug.{is_blank}
use ompire.Workflow.Parse.Fields.{
  Parsed, duplicate, flag, list_option, mapping, nonempty, reject_unknown, require_slug,
  require_text, required, text_value, too_many, wrong,
}
use ompire.Workflow.Parse.Texts.{parse_text}
use ompire.Workflow.Parse.Routes.{optional, parse_destination}

-- A loop over a list whose body sees the names of the items before, the results in order.
unfoldable pub each_named {ℓ} :
    {A : Type ℓ}
    → (List String → Json → Parsed A)
    → (A → String)
    → List String
    → Items
    → Parsed (List A)
each_named parse key seen nil = ok []
each_named parse key seen (cons j js) =
    parse seen j >>= λ a. each_named parse key (seen ++ key a ∷ []) js >>= λ rest. ok (a ∷ rest)

-- The number of items.
abbrev pub count_items : Items → ℕ
count_items nil = 0
count_items (cons _ js) = suc (count_items js)

-- A field that a format has from a version on.
abbrev pub since : ℕ → ℕ → String → List String → List String
since first_format version k rest = if leb first_format version then k ∷ rest else rest

-- MAX_CHOICES
abbrev pub max_choices : ℕ
max_choices = 8

-- _parse_gate_result
unfoldable pub parse_gate_result : Json → Parsed GateResult
parse_gate_result j = do
  fs ← mapping j
  reject_unknown fs ("evidence" ∷ [])
  n ← require_slug fs "evidence"
  ok (record { evidence = n })

-- The metadata of `_parse_gate_delivery`; the fuel is that of its texts.
unfoldable pub parse_metadata : ℕ → ℕ → Json → Parsed DeliveryMetadata
unfolding optional parse_text
parse_metadata k version j = do
  fs ← mapping j
  reject_unknown fs ("message" ∷ "pr_title" ∷ "pr_body" ∷ [])
  message ← optional (parse_text k version) (get_field "message" fs)
  title ← optional (parse_text k version) (get_field "pr_title" fs)
  body ← optional (parse_text k version) (get_field "pr_body" fs)
  ok (record { message = message; pr_title = title; pr_body = body })

-- _parse_gate_delivery
unfoldable pub parse_gate_delivery : ℕ → ℕ → Json → Parsed GateDelivery
unfolding optional parse_metadata
parse_gate_delivery k version j = do
  fs ← mapping j
  reject_unknown fs ("review" ∷ "metadata" ∷ [])
  r ← require_slug fs "review"
  metadata ← optional (parse_metadata k version) (get_field "metadata" fs)
  ok (record { review = r; metadata = metadata })

-- A delivery step of a chain, which runs once.
abbrev pub grant_step : List String → Json → Parsed String
grant_step seen j = or_fail (text_value j) (wrong "steps") >>= λ s.
    guard (not (contains seen s)) (duplicate s) >> ok s

abbrev pub own_name : String → String
own_name s = s

-- _parse_grant
unfoldable pub parse_grant : Json → Parsed DeliveryGrant
unfolding each_named
parse_grant j = do
  fs ← mapping j
  reject_unknown fs ("steps" ∷ [])
  raw ← nonempty fs "steps"
  guard (leb (count_items raw) 3) too_many
  steps ← each_named grant_step own_name [] raw
  ok (record { steps = steps })

abbrev pub choice_fields : ℕ → List String
choice_fields version =
    "id"
    ∷ "label"
    ∷ "feedback_required"
    ∷ "next"
    ∷ since 3 version "authorize" (since 4 version "requires_result_acceptance" [])

-- One answer of a gate.
unfoldable pub choice_of : ℕ → List String → Json → Parsed GateChoice
unfolding is_blank parse_destination optional parse_grant
choice_of version seen j = do
  fs ← mapping j
  reject_unknown fs (choice_fields version)
  i ← require_slug fs "id"
  guard (not (contains seen i)) (duplicate i)
  label ← require_text fs "label"
  guard (not (is_blank label)) (wrong "label")
  feedback ← flag fs "feedback_required" false
  acceptance ← flag fs "requires_result_acceptance" false
  to ← required fs "next"
  next ← parse_destination version false to
  authorize ← optional parse_grant (get_field "authorize" fs)
  ok (record {
    id = i;
    label = label;
    feedback_required = feedback;
    next = next;
    authorize = authorize;
    requires_result_acceptance = acceptance;
  })

abbrev pub choice_id : GateChoice → String
choice_id c = c.id

-- _parse_choices
unfoldable pub parse_choices : ℕ → Option Json → Parsed (List GateChoice)
unfolding each_named choice_of
parse_choices version o = do
  raw ← list_option "choices" o
  guard (leb (count_items raw) max_choices) too_many
  each_named (choice_of version) choice_id [] raw
