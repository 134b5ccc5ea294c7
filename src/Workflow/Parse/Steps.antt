-- ===== src/Workflow/Parse/Steps.antt =====
-- `_parse_step` of workflow_definitions.py, one reader for each class of step.
use ompire.Base.{
  Bool, List, Option, String, [], contains, err, false, guard, if◌then◌else◌, leb, ltb, nat_eq,
  none, not, ok, or_fail, some, suc, true, zero, ℕ, ◌%◌, ◌&&◌, ◌*◌, ◌++◌, ◌+◌, ◌==◌, ◌>>=◌, ◌>>◌,
  ◌^◌, ◌||◌, ◌∷◌, string_eq, ℕ_eq,
}
use ompire.Base.Int.{negsuc, pos, pos_part, ℤ_eq}
use Prim.Native.Nat.{◌/◌}
use ompire.Json.{Dyadic, Fields, Items, Json, cons, float, get_field, int, nil}
use ompire.Workflow.Syntax.{
  Agent, Capture, Command, DecisionBody, DecisionCase, DeliveryAction, DeliveryBody, DeliveryMode,
  Gate, Predicate, commit, constant, pr, push, retain, squash,
}
use ompire.Workflow.Parse.Slug.{is_capture_root}
use ompire.Workflow.Parse.Fields.{
  Parsed, duplicate, flag, mapping, nonempty, nonempty_texts, reject_unknown, require_slug,
  require_text, required, text_value, too_large, too_many, wrong,
}
use ompire.Workflow.Parse.Predicates.{parse_predicate}
use ompire.Workflow.Parse.Texts.{parse_text}
use ompire.Workflow.Parse.Routes.{is_true, optional, parse_destination}
use ompire.Workflow.Parse.Contracts.{parse_outcome}
use ompire.Workflow.Parse.Gates.{
  count_items, parse_choices, parse_gate_delivery, parse_gate_result, since,
}

-- A loop over a list, the results in order.
unfoldable pub each_of {ℓ} : {A : Type ℓ} → (Json → Parsed A) → Items → Parsed (List A)
each_of parse nil = ok []
each_of parse (cons j js) = parse j >>= λ a. each_of parse js >>= λ rest. ok (a ∷ rest)

-- _COMMON_STEP_FIELDS, and the evidence of the later formats
abbrev pub common_fields : ℕ → List String
common_fields version =
    "name" ∷ "kind" ∷ "max_visits" ∷ "on_exhausted" ∷ since 2 version "evidence" []

-- MODEL_ROLES
abbrev pub model_roles : List String
model_roles = "default" ∷ "smol" ∷ "slow" ∷ "plan" ∷ []

-- `data.get("role", DEFAULT_ROLE)`
abbrev pub role_of : Option Json → Parsed String
role_of none = ok "default"
role_of (some j) = or_fail (text_value j) (wrong "role") >>= λ s.
    guard (contains model_roles s) (wrong "role") >> ok s

abbrev pub when_of : (Json → Parsed Predicate) → Option Json → Parsed Predicate
when_of parse none = ok (constant true)
when_of parse (some j) = parse j

abbrev pub agent_fields : ℕ → List String
agent_fields version =
    common_fields version
    ++ ("session"
        ∷ "role"
        ∷ "prompt"
        ∷ "when"
        ∷ (if version == 1 then "expects_outcome" ∷ [] else "outcome" ∷ []))

unfoldable pub agent_of : ℕ → ℕ → Fields → Parsed Agent
unfolding parse_outcome parse_text parse_predicate
agent_of k version fs = do
  reject_unknown fs (agent_fields version)
  role ← role_of (get_field "role" fs)
  expects ← if version == 1 then flag fs "expects_outcome" false else ok false
  outcome ← if version == 1 then ok none else (required fs "outcome" >>= parse_outcome)
  written ← required fs "prompt"
  session ← require_text fs "session"
  prompt ← parse_text k version written
  when ← when_of (parse_predicate k version) (get_field "when" fs)
  ok (record {
    session = session;
    role = role;
    prompt = prompt;
    expects_outcome = expects;
    when = when;
    outcome = outcome;
  })

-- The least shift that leaves at most 53 bits, if it is at most the fuel. With a fuel of 1100 a
-- number that needs more is shifted by 1100, and stays too large for a float.
abbrev pub shift_for : ℕ → ℕ → ℕ
shift_for zero n = 0
shift_for (suc k) n = let rest = shift_for k (n / 2) in if ltb n (2 ^ 53) then 0 else suc rest

-- To the nearest multiple of 2 ^ e, to the even one in the middle.
abbrev pub round_at : ℕ → ℕ → ℕ
round_at zero n = n
round_at (suc e) n =
    let q = n / 2 ^ suc e in
    let r = n % 2 ^ suc e in
    if ltb (2 ^ e) r || (nat_eq r (2 ^ e) && nat_eq (q % 2) 1)
    then (q + 1) * 2 ^ suc e
    else q * 2 ^ suc e

-- `float(n)`: none where Python raises OverflowError, which is no error of the document; the reader
-- of a timeout gives `too_large` there.
unfoldable pub float_of : ℕ → Option ℕ
float_of n =
    let rounded = round_at (shift_for 1100 n) n in
    if ltb rounded (2 ^ 1024) then some rounded else none

-- A positive number of seconds.
abbrev pub is_positive : Dyadic → Bool
is_positive d = leb 1 (pos_part d.numerator)

abbrev pub checked : Dyadic → Parsed Dyadic
checked d = guard (is_positive d) (wrong "timeout") >> ok d

abbrev pub timeout_of : Option Json → Parsed Dyadic
timeout_of none = ok (record { numerator = pos 600; scale = 0 })
timeout_of (some (float d)) = checked d
timeout_of (some (int (pos n))) =
    or_fail (float_of n) too_large >>= λ m. checked (record { numerator = pos m; scale = 0 })
timeout_of (some (int (negsuc n))) =
    or_fail (float_of (suc n)) too_large >>= λ _. err (wrong "timeout")
timeout_of (some _) = err (wrong "timeout")

abbrev pub is_set : Option Json → Bool
is_set none = false
is_set (some j) = is_true j

unfoldable pub command_of : ℕ → Fields → Parsed Command
unfolding float_of
command_of version fs = do
  reject_unknown fs (common_fields version ++ ("argv" ∷ "timeout" ∷ "idempotent" ∷ []))
  argv ← nonempty_texts fs "argv"
  timeout ← timeout_of (get_field "timeout" fs)
  guard (is_set (get_field "idempotent" fs)) (wrong "idempotent")
  ok (record { argv = argv; timeout = timeout; idempotent = true })

unfoldable pub case_of : ℕ → ℕ → Json → Parsed DecisionCase
unfolding parse_predicate parse_destination
case_of k version j = do
  fs ← mapping j
  reject_unknown fs ("when" ∷ "next" ∷ [])
  wj ← required fs "when"
  nj ← required fs "next"
  when ← parse_predicate k version wj
  next ← parse_destination version true nj
  ok (record { when = when; next = next })

unfoldable pub decision_of : ℕ → ℕ → Fields → Parsed DecisionBody
unfolding each_of case_of parse_destination
decision_of k version fs = do
  reject_unknown fs (common_fields version ++ ("cases" ∷ "otherwise" ∷ []))
  raw ← nonempty fs "cases"
  cases ← each_of (case_of k version) raw
  oj ← required fs "otherwise"
  otherwise ← parse_destination version true oj
  ok (record { cases = cases; otherwise = otherwise })

-- MAX_CAPTURE_PATHS, MAX_CAPTURE_ALLOWLISTS
abbrev pub max_capture : ℕ
max_capture = 128

-- `len(set(texts)) == len(texts)`
abbrev pub all_distinct : List String → Bool
all_distinct [] = true
all_distinct (s ∷ ss) = not (contains ss s) && all_distinct ss

-- _parse_capture_root
unfoldable pub capture_root : Json → Parsed String
unfolding is_capture_root
capture_root j = or_fail (text_value j) (wrong "allowlist") >>= λ s.
    guard (is_capture_root s) (wrong "allowlist") >> ok s

unfoldable pub capture_of : ℕ → ℕ → Fields → Parsed Capture
unfolding each_of capture_root parse_text parse_destination
capture_of k version fs = do
  reject_unknown fs (common_fields version ++ ("producer" ∷ "paths" ∷ "allowlist" ∷ "next" ∷ []))
  producer ← require_slug fs "producer"
  raw ← nonempty fs "paths"
  guard (leb (count_items raw) max_capture) too_many
  roots ← nonempty fs "allowlist"
  guard (leb (count_items roots) max_capture) too_many
  allowlist ← each_of capture_root roots
  guard (all_distinct allowlist) (duplicate "allowlist")
  nj ← required fs "next"
  paths ← each_of (parse_text k version) raw
  next ← parse_destination version true nj
  ok (record { producer = producer; paths = paths; allowlist = allowlist; next = next })

-- `action in DELIVERY_ACTIONS`
abbrev pub action_named : String → Option DeliveryAction
action_named s =
    if s == "commit"
    then some commit
    else if s == "push"
    then some push
    else if s == "pr"
    then some pr
    else none

-- `mode in DELIVERY_MODES`
abbrev pub mode_named : String → Option DeliveryMode
mode_named s = if s == "squash" then some squash else if s == "retain" then some retain else none

abbrev pub is_commit : DeliveryAction → Bool
is_commit commit = true
is_commit _ = false

abbrev pub delivery_fields : DeliveryAction → List String
delivery_fields a =
    "name"
    ∷ "kind"
    ∷ "action"
    ∷ "approval"
    ∷ "next"
    ∷ (if is_commit a then "mode" ∷ [] else "previous" ∷ [])

-- The mode of a commit, or the action before another one.
abbrev pub mode_and_previous :
    DeliveryAction → Fields → Parsed (Option DeliveryMode × Option String)
mode_and_previous a fs =
    if is_commit a
    then (require_text fs "mode" >>= λ s.
        or_fail (mode_named s) (wrong "mode") >>= λ m. ok (some m, none))
    else (require_text fs "previous" >>= λ s. ok (none, some s))

unfoldable pub delivery_of : ℕ → Fields → Parsed DeliveryBody
unfolding parse_destination
delivery_of version fs = do
  s ← require_text fs "action"
  action ← or_fail (action_named s) (wrong "action")
  reject_unknown fs (delivery_fields action)
  (mode, previous) ← mode_and_previous action fs
  nj ← required fs "next"
  approval ← require_text fs "approval"
  next ← parse_destination version false nj
  ok (record {
    action = action;
    approval = approval;
    next = next;
    mode = mode;
    previous = previous;
  })

abbrev pub gate_fields : ℕ → List String
gate_fields version =
    common_fields version
    ++ ("message"
        ∷ since 2 version "choices" (since 3 version "delivery" (since 4 version "result" [])))

unfoldable pub gate_of : ℕ → ℕ → Fields → Parsed Gate
unfolding parse_text parse_choices optional parse_gate_delivery parse_gate_result
gate_of k version fs = do
  reject_unknown fs (gate_fields version)
  mj ← required fs "message"
  message ← parse_text k version mj
  choices ← if version == 1 then ok [] else parse_choices version (get_field "choices" fs)
  binding ← optional (parse_gate_delivery k version) (get_field "delivery" fs)
  result ← optional parse_gate_result (get_field "result" fs)
  ok (record { message = message; choices = choices; delivery = binding; result = result })
