-- ===== src/Workflow/Parse/Definitions.antt =====
-- `_parse_step` and `_primitive_definition_from_document` of workflow_definitions.py.
use ompire.Base.{
  Bool, List, Option, Result, String, [], contains, err, false, find, guard, if◌then◌else◌, leb,
  none, not, ok, or_fail, some, true, ℕ, ◌&&◌, ◌*◌, ◌==◌, ◌>>=◌, ◌>>◌, ◌^◌, ◌∷◌, string_eq, ℕ_eq,
}
use ompire.Base.Int.{int_eq, pos, ℤ_eq}
use ompire.Json.{Fields, Json, bool, float, get_field, int}
use ompire.Workflow.Syntax.{
  Body, Definition, Step, agent, capture, command, decision, delivery, gate, review,
}
use ompire.Workflow.Graph.{GraphError, validate_graph, validate_named_endings}
use ompire.Workflow.References.{ReferenceError, check_references}
use ompire.Workflow.Delivery.{DeliveryError, validate_delivery}
use ompire.Workflow.Parse.Slug.{is_environment, is_slug}
use ompire.Workflow.Parse.Fields.{
  ParseError, Parsed, duplicate, mapping, nonempty, reject_unknown, require_slug, require_text,
  required, reserved, text_value, too_many, unsupported_format, wrong,
}
use ompire.Workflow.Parse.Routes.{parse_bound}
use ompire.Workflow.Parse.Contracts.{parse_evidence}
use ompire.Workflow.Parse.Gates.{count_items, each_named, own_name}
use ompire.Workflow.Parse.Steps.{
  agent_of, capture_of, command_of, common_fields, decision_of, delivery_of, gate_of,
}

-- STEP_KINDS
pub data StepKind : Type 0 where
  an_agent a_command a_decision a_gate a_review a_delivery a_capture : StepKind

unfoldable pub kind_named : String → Option StepKind
kind_named s =
    if s == "agent"
    then some an_agent
    else if s == "command"
    then some a_command
    else if s == "decision"
    then some a_decision
    else if s == "gate"
    then some a_gate
    else if s == "review"
    then some a_review
    else if s == "delivery"
    then some a_delivery
    else if s == "capture"
    then some a_capture
    else none

-- FORMAT_STEP_KINDS
abbrev pub admits : ℕ → StepKind → Bool
admits version a_review = leb 3 version
admits version a_delivery = leb 3 version
admits version a_capture = leb 4 version
admits version _ = true

-- What the class of a step adds, by its kind.
unfoldable pub body_of : ℕ → ℕ → Fields → StepKind → Parsed Body
unfolding agent_of command_of decision_of capture_of delivery_of gate_of
body_of k version fs an_agent = agent_of k version fs >>= λ a. ok (agent a)
body_of k version fs a_command = command_of version fs >>= λ c. ok (command c)
body_of k version fs a_decision = decision_of k version fs >>= λ d. ok (decision d)
body_of k version fs a_gate = gate_of k version fs >>= λ g. ok (gate g)
body_of k version fs a_review = reject_unknown fs (common_fields version) >> ok review
body_of k version fs a_delivery = delivery_of version fs >>= λ d. ok (delivery d)
body_of k version fs a_capture = capture_of k version fs >>= λ c. ok (capture c)

-- _parse_step; the fuel is that of the texts and predicates in it.
unfoldable pub parse_step : ℕ → ℕ → Json → Parsed Step
unfolding kind_named parse_bound parse_evidence body_of
parse_step k version j = do
  fs ← mapping j
  n ← require_slug fs "name"
  s ← require_text fs "kind"
  kind ← or_fail (kind_named s) (wrong "kind")
  guard (admits version kind) (wrong "kind")
  (most, exhaustion) ← parse_bound version fs
  selectors ← if version == 1 then ok [] else parse_evidence (get_field "evidence" fs)
  body ← body_of k version fs kind
  ok (record {
    name = n;
    max_visits = most;
    on_exhausted = exhaustion;
    evidence = selectors;
    body = body;
  })

-- RESERVED_NAMES
abbrev pub reserved_names : List String
reserved_names = "judge" ∷ []

-- MAX_STEPS
abbrev pub max_steps : ℕ
max_steps = 256

-- One session name, after those before it.
unfoldable pub session_of : List String → Json → Parsed String
session_of seen j = do
  s ← or_fail (text_value j) (wrong "sessions")
  guard (is_slug s) (wrong "sessions")
  guard (not (contains reserved_names s)) (reserved s)
  guard (not (contains seen s)) (duplicate s)
  ok s

abbrev pub step_name : Step → String
step_name s = s.name

-- One step, after the names before it.
unfoldable pub listed_step : ℕ → ℕ → List String → Json → Parsed Step
unfolding parse_step
listed_step k version seen j = do
  s ← parse_step k version j
  guard (not (contains reserved_names s.name)) (reserved s.name)
  guard (not (contains seen s.name)) (duplicate s.name)
  ok s

-- _parse_environment
abbrev pub environment_of : Option Json → Parsed (Option String)
environment_of none = ok none
environment_of (some j) = or_fail (text_value j) (wrong "environment") >>= λ s.
    guard (is_environment s) (wrong "environment") >> ok (some s)

-- The number that a format is equal to, as Python compares: a boolean is 0 or 1, and a float may be whole.
abbrev pub is_format : ℕ → Json → Bool
is_format n (int i) = int_eq i (pos n)
is_format n (bool b) = b && n == 1
is_format n (float d) = int_eq d.numerator (pos (n * 2 ^ d.scale))
is_format n _ = false

-- `version in SUPPORTED_FORMATS`
abbrev pub supported_formats : List ℕ
supported_formats = 1 ∷ 2 ∷ 3 ∷ 4 ∷ 5 ∷ []

abbrev pub format_version : Json → Parsed ℕ
format_version j = or_fail (find (λ n. is_format n j) supported_formats) (unsupported_format j)

abbrev pub document_fields : List String
document_fields = "format" ∷ "name" ∷ "sessions" ∷ "primary" ∷ "steps" ∷ "environment" ∷ []

-- `_primitive_definition_from_document`, up to the checks of the whole definition.
unfoldable pub read_definition : ℕ → Json → Parsed Definition
unfolding is_environment each_named session_of listed_step
read_definition k j = do
  fs ← mapping j
  reject_unknown fs document_fields
  vj ← required fs "format"
  version ← format_version vj
  n ← require_slug fs "name"
  environment ← environment_of (get_field "environment" fs)
  names ← nonempty fs "sessions"
  sessions ← each_named session_of own_name [] names
  primary ← require_text fs "primary"
  guard (contains sessions primary) (wrong "primary")
  raw ← nonempty fs "steps"
  guard (leb (count_items raw) max_steps) too_many
  steps ← each_named (listed_step k version) step_name [] raw
  ok (record {
    format = version;
    name = n;
    sessions = sessions;
    primary = primary;
    steps = steps;
    composition = none;
    environment = environment;
  })

-- The document cannot be read, or what it says does not fit together.
pub data DefinitionError : Type 0 where
  unread : ParseError → DefinitionError
  reference : ReferenceError → DefinitionError
  routes : GraphError → DefinitionError
  chain : DeliveryError → DefinitionError

abbrev pub raised_as {ℓ} : {E F : Type 0} {A : Type ℓ} → (E → F) → Result E A → Result F A
raised_as f (ok a) = ok a
raised_as f (err e) = err (f e)

abbrev pub when_since :
    ℕ → ℕ → Result DefinitionError (Unit {0}) → Result DefinitionError (Unit {0})
when_since first_format version check = if leb first_format version then check else ok tt

-- _validate_references
unfoldable pub validate_references : Definition → Result DefinitionError (Unit {0})
unfolding check_references validate_named_endings validate_delivery
validate_references d =
    raised_as reference (check_references d)
    >> when_since 2 d.format (raised_as routes (validate_named_endings d))
    >> when_since 3 d.format (raised_as chain (validate_delivery d))

-- _primitive_definition_from_document
unfoldable pub primitive_definition : ℕ → Json → Result DefinitionError Definition
unfolding read_definition validate_references validate_graph
primitive_definition k j = raised_as unread (read_definition k j) >>= λ d.
    validate_references d >> (raised_as routes (validate_graph d) >> ok d)
