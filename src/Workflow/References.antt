-- ===== src/Workflow/References.antt =====
-- The loop of `_validate_references`, workflow_definitions.py: every name in the document is one that
-- the document declares. A location in the document is not part of an error here.
use ompire.Base.{
  Bool, List, Option, Result, String, [], any, contains, err, false, find, for_each, guard, is_some,
  none, not, ok, or_fail, some, true, ◌&&◌, ◌==◌, ◌>>=◌, ◌>>◌, ◌||◌, ◌∷◌, string_eq, ℕ_eq,
}
use ompire.Workflow.Syntax.{
  Capture, Definition, Destination, EvidenceSelector, Gate, GateDelivery, GateResult, Part, Parts,
  Predicate, Predicates, Step, TextDocument, Value, Values, agent, capture, coalesce, command,
  compare, complete, conditional, constant, count, decision, delivery, document, evidence, exists,
  gate, get, input, insert, is_type, junction, latest, literal, negation, no_part, no_predicate,
  no_value, part, pause, predicate, step_named, text, to_step, value,
}

pub data ReferenceError : Type 0 where
  undeclared_step undeclared_evidence undeclared_session : String → ReferenceError
  exhaustion_not_gate : String → ReferenceError
  producer_undeclared producer_not_binding : String → ReferenceError
  not_producer no_outcome not_capture : String → ReferenceError
  acceptance_without_result : String → ReferenceError
  result_and_delivery : ReferenceError
  result_undeclared result_optional : String → ReferenceError
  acceptance_everywhere : ReferenceError

abbrev pub Checked : Type 0
Checked = Result ReferenceError (Unit {0})

abbrev pub step_names : List Step → List String
step_names [] = []
step_names (s ∷ ss) = s.name ∷ step_names ss

unfoldable pub declared_step : List String → String → Checked
declared_step names n = guard (contains names n) (undeclared_step n)

abbrev pub declared_option : List String → Option String → Checked
declared_option names none = ok tt
declared_option names (some n) = declared_step names n

-- check_value
unfoldable mutual
  unfolding declared_step

  pub check_value : (names aliases : List String) → Value → Checked
  check_value names aliases (literal _) = ok tt
  check_value names aliases (input _) = ok tt
  check_value names aliases (latest steps after _) =
      for_each (declared_step names) steps >> declared_option names after
  check_value names aliases (evidence n) = guard (contains aliases n) (undeclared_evidence n)
  check_value names aliases (get v _) = check_value names aliases v
  check_value names aliases (count n) = declared_step names n
  check_value names aliases (coalesce vs) = check_values names aliases vs

  pub check_values : (names aliases : List String) → Values → Checked
  check_values names aliases no_value = ok tt
  check_values names aliases (value v vs) =
      check_value names aliases v >> check_values names aliases vs

-- check_predicate
unfoldable mutual
  unfolding check_value

  pub check_predicate : (names aliases : List String) → Predicate → Checked
  check_predicate names aliases (compare _ l r) =
      check_value names aliases l >> check_value names aliases r
  check_predicate names aliases (exists v) = check_value names aliases v
  check_predicate names aliases (is_type v _) = check_value names aliases v
  check_predicate names aliases (junction _ ps) = check_predicates names aliases ps
  check_predicate names aliases (negation p) = check_predicate names aliases p
  check_predicate names aliases (constant _) = ok tt

  pub check_predicates : (names aliases : List String) → Predicates → Checked
  check_predicates names aliases no_predicate = ok tt
  check_predicates names aliases (predicate p ps) =
      check_predicate names aliases p >> check_predicates names aliases ps

-- check_text
unfoldable mutual
  unfolding check_value check_predicate

  pub check_text : (names aliases : List String) → TextDocument → Checked
  check_text names aliases (document _ ps) = check_parts names aliases ps

  pub check_parts : (names aliases : List String) → Parts → Checked
  check_parts names aliases no_part = ok tt
  check_parts names aliases (part p ps) = check_part names aliases p >> check_parts names aliases ps

  pub check_part : (names aliases : List String) → Part → Checked
  check_part names aliases (text _) = ok tt
  check_part names aliases (insert v _) = check_value names aliases v
  check_part names aliases (conditional w t o) =
      check_predicate names aliases w >> (check_text names aliases t >> check_text names aliases o)

-- check_destination
unfoldable pub check_destination : List String → Destination → Checked
unfolding declared_step
check_destination names (to_step n) = declared_step names n
check_destination names (complete _) = ok tt
check_destination names pause = ok tt

unfoldable pub check_selector : List String → EvidenceSelector → Checked
unfolding declared_step
check_selector names s = for_each (declared_step names) s.steps >> declared_option names s.after

abbrev pub is_gate : Option Step → Bool
is_gate none = false
is_gate (some s) = elim s.body [ gate _ ↦ true | _ ↦ false ]

abbrev pub is_capture : Option Step → Bool
is_capture none = false
is_capture (some s) = elim s.body [ capture _ ↦ true | _ ↦ false ]

unfoldable pub check_exhaustion : Definition → List String → Step → Checked
unfolding declared_step step_named
check_exhaustion d names s = elim s.on_exhausted [
  | none ↦ ok tt
  | some n ↦ declared_step names n >> guard (is_gate (step_named d n)) (exhaustion_not_gate n)
]

-- The source of a capture's producer: an agent with an outcome, or a command.
unfoldable pub check_producer : Definition → String → Checked
unfolding step_named
check_producer d n = elim (step_named d n) [
  | none ↦ err (not_producer n)
  | some s ↦ elim s.body [
    | agent a ↦ guard (is_some a.outcome) (no_outcome n)
    | command _ ↦ ok tt
    | _ ↦ err (not_producer n)
  ]
]

abbrev pub selector_named : String → List EvidenceSelector → Option EvidenceSelector
selector_named n ss = find (λ e. e.name == n) ss

unfoldable pub check_capture : Definition → (names aliases : List String) → Step → Capture → Checked
unfolding check_text check_producer check_destination
check_capture d names aliases s c =
    for_each (check_text names aliases) c.paths
    >> (or_fail (selector_named c.producer s.evidence) (producer_undeclared c.producer) >>= λ e.
        guard (e.required && e.with_outcome) (producer_not_binding e.name)
        >> (for_each (check_producer d) e.steps >> check_destination names c.next))

unfoldable pub check_gate_result : Definition → Step → Gate → GateResult → Checked
unfolding step_named
check_gate_result d s g r =
    guard (not (is_some g.delivery)) result_and_delivery
    >> (or_fail (selector_named r.evidence s.evidence) (result_undeclared r.evidence) >>= λ e.
        guard e.required (result_optional e.name)
        >> (for_each (λ n. guard (is_capture (step_named d n)) (not_capture n)) e.steps
            >> guard (any (λ c. not c.requires_result_acceptance) g.choices) acceptance_everywhere))

abbrev pub check_text_option : (names aliases : List String) → Option TextDocument → Checked
check_text_option names aliases none = ok tt
check_text_option names aliases (some t) = check_text names aliases t

abbrev pub check_metadata : (names aliases : List String) → Option GateDelivery → Checked
check_metadata names aliases none = ok tt
check_metadata names aliases (some b) = elim b.metadata [
  | none ↦ ok tt
  | some m ↦
      check_text_option names aliases m.message
      >> (check_text_option names aliases m.pr_title >> check_text_option names aliases m.pr_body)
]

unfoldable pub check_gate : Definition → (names aliases : List String) → Step → Gate → Checked
unfolding check_text check_destination check_gate_result
check_gate d names aliases s g =
    check_text names aliases g.message
    >> (for_each
          (λ c.
            check_destination names c.next
            >> guard (not c.requires_result_acceptance || is_some g.result)
                (acceptance_without_result c.id))
          g.choices
        >> ((elim g.result [ none ↦ ok tt | some r ↦ check_gate_result d s g r ])
            >> check_metadata names aliases g.delivery))

abbrev pub aliases_of : List EvidenceSelector → List String
aliases_of [] = []
aliases_of (e ∷ es) = e.name ∷ aliases_of es

unfoldable pub check_body : Definition → (names aliases : List String) → Step → Checked
unfolding check_text check_predicate check_destination check_capture check_gate
check_body d names aliases s = elim s.body [
  | agent a ↦
      guard (contains d.sessions a.session) (undeclared_session a.session)
      >> (check_text names aliases a.prompt >> check_predicate names aliases a.when)
  | decision b ↦
      for_each (λ c. check_predicate names aliases c.when >> check_destination names c.next) b.cases
      >> check_destination names b.otherwise
  | capture c ↦ check_capture d names aliases s c
  | gate g ↦ check_gate d names aliases s g
  | delivery b ↦ check_destination names b.next
  | _ ↦ ok tt
]

unfoldable pub check_step : Definition → Step → Checked
unfolding check_selector check_exhaustion check_body
check_step d s =
    let names = step_names d.steps in
    for_each (check_selector names) s.evidence
    >> (check_exhaustion d names s >> check_body d names (aliases_of s.evidence) s)

unfoldable pub check_references : Definition → Checked
unfolding check_step
check_references d = for_each (check_step d) d.steps
