-- ===== src/Workflow/Syntax.antt =====
-- The typed workflow document of workflow_definitions.py: expressions, predicates, text
-- documents, steps and the definition itself. A tuple of expressions is a list of its own in the
-- recursive block. A name is a text.
use ompire.Base.{
  Bool, List, Option, String, [], false, find, head?, if◌then◌else◌, none, some, true, ℕ, ◌==◌, ◌∷◌,
  string_eq, ℕ_eq,
}
use ompire.Base.Int.{ℤ, ℤ_eq}
use ompire.Json.{Dyadic, Json}

-- A key of `GetValue`: a name in an object, or a place in an array (negative from the end).
pub data Key : Type 0 where
  name : String → Key
  index : ℤ → Key

mutual
  pub data Value : Type 0 where
    literal : Json → Value
    input : String → Value
    latest : (steps : List String) → (after : Option String) → (with_outcome : Bool) → Value
    evidence : String → Value
    get : Value → List Key → Value
    count : String → Value
    coalesce : Values → Value

  pub data Values : Type 0 where
    no_value : Values
    value : Value → Values → Values

-- JSON_TYPES
pub data JsonType : Type 0 where
  null_type boolean integer number string array object : JsonType

abbrev pub type_eq : JsonType → JsonType → Bool
type_eq null_type null_type = true
type_eq boolean boolean = true
type_eq integer integer = true
type_eq number number = true
type_eq string string = true
type_eq array array = true
type_eq object object = true
type_eq _ _ = false

-- COMPARISONS
pub data Comparison : Type 0 where
  eq ne lt lte gt gte : Comparison

pub data Junction : Type 0 where
  every some_of : Junction

mutual
  pub data Predicate : Type 0 where
    compare : Comparison → Value → Value → Predicate
    exists : Value → Predicate
    is_type : Value → JsonType → Predicate
    junction : Junction → Predicates → Predicate
    negation : Predicate → Predicate
    constant : Bool → Predicate

  pub data Predicates : Type 0 where
    no_predicate : Predicates
    predicate : Predicate → Predicates → Predicates

pub data Format : Type 0 where
  as_text as_json : Format

mutual
  pub data TextDocument : Type 0 where
    document : (separator : String) → Parts → TextDocument

  pub data Parts : Type 0 where
    no_part : Parts
    part : Part → Parts → Parts

  pub data Part : Type 0 where
    text : String → Part
    insert : Value → Format → Part
    conditional : Predicate → TextDocument → TextDocument → Part

pub data Destination : Type 0 where
  to_step : String → Destination
  complete : Option String → Destination
  pause : Destination

pub record DecisionCase : Type 0 where
  pub when : Predicate
  pub next : Destination

pub record ResultContract : Type 0 where
  pub name : String
  pub required : List (String × JsonType)

pub record OutcomeContract : Type 0 where
  pub results : List ResultContract

unfoldable pub result_named : OutcomeContract → String → Option ResultContract
result_named c n = find (λ r. r.name == n) c.results

pub record EvidenceSelector : Type 0 where
  pub name : String
  pub steps : List String
  pub after : Option String
  pub with_outcome : Bool
  pub required : Bool

pub record DeliveryMetadata : Type 0 where
  pub message : Option TextDocument
  pub pr_title : Option TextDocument
  pub pr_body : Option TextDocument

pub record GateDelivery : Type 0 where
  pub review : String
  pub metadata : Option DeliveryMetadata

pub record GateResult : Type 0 where
  pub evidence : String

pub record DeliveryGrant : Type 0 where
  pub steps : List String

pub record GateChoice : Type 0 where
  pub id : String
  pub label : String
  pub feedback_required : Bool
  pub next : Destination
  pub authorize : Option DeliveryGrant
  pub requires_result_acceptance : Bool

pub record Agent : Type 0 where
  pub session : String
  pub role : String
  pub prompt : TextDocument
  pub expects_outcome : Bool
  pub when : Predicate
  pub outcome : Option OutcomeContract

pub record Command : Type 0 where
  pub argv : List String
  pub timeout : Dyadic
  pub idempotent : Bool

pub record DecisionBody : Type 0 where
  pub cases : List DecisionCase
  pub otherwise : Destination

pub record Gate : Type 0 where
  pub message : TextDocument
  pub choices : List GateChoice
  pub delivery : Option GateDelivery
  pub result : Option GateResult

pub record Capture : Type 0 where
  pub producer : String
  pub paths : List TextDocument
  pub allowlist : List String
  pub next : Destination

-- DELIVERY_ACTIONS
pub data DeliveryAction : Type 0 where
  commit push pr : DeliveryAction

pub data DeliveryMode : Type 0 where
  squash retain : DeliveryMode

pub record DeliveryBody : Type 0 where
  pub action : DeliveryAction
  pub approval : String
  pub next : Destination
  pub mode : Option DeliveryMode
  pub previous : Option String

-- The classes of steps: what a class adds to the fields that all steps have.
pub data Body : Type 0 where
  agent : Agent → Body
  command : Command → Body
  decision : DecisionBody → Body
  gate : Gate → Body
  review : Body
  capture : Capture → Body
  delivery : DeliveryBody → Body

pub record Step : Type 0 where
  pub name : String
  pub max_visits : Option ℕ
  pub on_exhausted : Option String
  pub evidence : List EvidenceSelector
  pub body : Body

pub record Definition : Type 0 where
  pub format : ℕ
  pub name : String
  pub sessions : List String
  pub primary : String
  pub steps : List Step
  pub composition : Option String
  pub environment : Option String

abbrev pub is_named : String → Step → Bool
is_named n s = s.name == n

unfoldable pub step_named : Definition → String → Option Step
step_named d n = find (is_named n) d.steps

-- The step behind the first step of that name.
unfoldable pub following : String → List Step → Option Step
following n [] = none
following n (s ∷ ss) = if is_named n s then head? ss else following n ss

unfoldable pub step_after : Definition → String → Option Step
unfolding following
step_after d n = following n d.steps

unfoldable pub choice_named : Gate → String → Option GateChoice
choice_named g i = find (λ c. c.id == i) g.choices

-- The chain that one answer authorizes.
unfoldable pub grant_for : Definition → String → String → Option DeliveryGrant
unfolding step_named choice_named
grant_for d gate_name choice_id = elim (step_named d gate_name) [
  | none ↦ none
  | some s ↦ elim s.body [
    | gate g ↦ elim (choice_named g choice_id) [ none ↦ none | some c ↦ c.authorize ]
    | _ ↦ none
  ]
]
