-- ===== src/Workflow/Delivery.antt =====
-- The delivery rules of format 3, workflow_definitions.py: `_validate_delivery`, `_validate_grant` and
-- `_validate_delivery_entries`. A location in the document is not part of an error here, and a step or
-- an alias is found by its name, which the parser has seen to be unique.
use ompire.Base.{
  Bool, List, Option, Result, String, [], any, false, for_each, guard, if◌then◌else◌, is_some, none,
  not, ok, or_fail, some, suc, true, ℕ, ◌&&◌, ◌++◌, ◌==◌, ◌>>=◌, ◌>>◌, ◌||◌, ◌∷◌, string_eq, ℕ_eq,
}
use ompire.Workflow.Syntax.{
  Definition, DeliveryAction, DeliveryBody, DeliveryGrant, Destination, Gate, GateChoice, Step,
  commit, complete, decision, delivery, gate, pause, pr, push, review, step_after, step_named,
  to_step,
}
use ompire.Workflow.Graph.{case_nexts, falls_through, targets}
use ompire.Workflow.References.{is_gate, selector_named}

pub data DeliveryError : Type 0 where
  unbound_choice binding_unused every_choice_authorizes : String → DeliveryError
  review_undeclared review_optional not_review : String → DeliveryError
  not_delivery already_granted never_granted approval_not_gate : String → DeliveryError
  not_a_chain : List DeliveryAction → DeliveryError
  not_routed_to_head : String → DeliveryError
  other_approval wrong_predecessor not_continued not_ended : String → DeliveryError
  routed_into_chain falls_into_chain : String → DeliveryError

-- `owned`: the granted steps, each with the gate, the choice and the place of its grant.
abbrev pub Owned : Type 0
Owned = List (String × (String × String × ℕ))

abbrev pub is_owned : Owned → String → Bool
is_owned [] n = false
is_owned ((m, _) ∷ os) n = m == n || is_owned os n

-- `isinstance(step, DeliveryStep)`, with the fields of the class.
unfoldable pub as_delivery : Option Step → Option DeliveryBody
as_delivery none = none
as_delivery (some s) = elim s.body [ delivery b ↦ some b | _ ↦ none ]

-- `isinstance(step, GateStep)`
unfoldable pub as_gate : Step → Option Gate
as_gate s = elim s.body [ gate g ↦ some g | _ ↦ none ]

unfoldable pub is_review : Option Step → Bool
is_review none = false
is_review (some s) = elim s.body [ review ↦ true | _ ↦ false ]

abbrev pub Members : Type 0
Members = List (String × DeliveryBody)

-- The first loop of `_validate_grant`.
unfoldable pub members_of : Definition → Owned → List String → Result DeliveryError Members
unfolding step_named
members_of d owned [] = ok []
members_of d owned (n ∷ ns) = do
  b ← or_fail (as_delivery (step_named d n)) (not_delivery n)
  guard (not (is_owned owned n)) (already_granted n)
  rest ← members_of d owned ns
  ok ((n, b) ∷ rest)

abbrev pub actions_in : Members → List DeliveryAction
actions_in [] = []
actions_in ((_, b) ∷ ms) = b.action ∷ actions_in ms

-- DELIVERY_CHAINS
abbrev pub is_chain : List DeliveryAction → Bool
is_chain (commit ∷ []) = true
is_chain (commit ∷ push ∷ []) = true
is_chain (commit ∷ push ∷ pr ∷ []) = true
is_chain _ = false

abbrev pub routes_to : Destination → String → Bool
routes_to (to_step m) n = m == n
routes_to (complete _) n = false
routes_to pause n = false

abbrev pub ends : Destination → Bool
ends (to_step _) = false
ends (complete _) = true
ends pause = false

abbrev pub head_routed : Destination → Members → Bool
head_routed x [] = false
head_routed x ((n, _) ∷ ms) = routes_to x n

-- `member.previous == expected_previous`
abbrev pub has_previous : Option String → Option String → Bool
has_previous none none = true
has_previous (some a) (some b) = a == b
has_previous _ _ = false

-- What a member's `next` has to be: the following member, or an ending of the run.
unfoldable pub check_next : String → DeliveryBody → Members → Result DeliveryError (Unit {0})
check_next n b ((m, _) ∷ _) = guard (routes_to b.next m) (not_continued n)
check_next n b [] = guard (ends b.next) (not_ended n)

-- The last loop of `_validate_grant`, from a place of the chain and the member before it.
unfoldable pub own_members :
    (gate choice : String) → ℕ → Option String → Members → Owned → Result DeliveryError Owned
unfolding check_next
own_members g c i before [] owned = ok owned
own_members g c i before ((n, b) ∷ ms) owned = do
  guard (b.approval == g) (other_approval n)
  guard (has_previous b.previous before) (wrong_predecessor n)
  check_next n b ms
  own_members g c (suc i) (some n) ms ((n, (g, c, i)) ∷ owned)

-- _validate_grant
unfoldable pub validate_grant :
    Definition → String → GateChoice → DeliveryGrant → Owned → Result DeliveryError Owned
unfolding members_of own_members
validate_grant d g c grant owned = do
  ms ← members_of d owned grant.steps
  guard (is_chain (actions_in ms)) (not_a_chain (actions_in ms))
  guard (head_routed c.next ms) (not_routed_to_head c.id)
  own_members g c.id 0 none ms owned

unfoldable pub grant_choices :
    Definition → String → List GateChoice → Owned → Result DeliveryError Owned
unfolding validate_grant
grant_choices d g [] owned = ok owned
grant_choices d g (c ∷ cs) owned = elim c.authorize [
  | none ↦ grant_choices d g cs owned
  | some grant ↦ validate_grant d g c grant owned >>= λ owned'. grant_choices d g cs owned'
]

abbrev pub authorizes : GateChoice → Bool
authorizes c = is_some c.authorize

-- The body of the loop over the gates.
unfoldable pub validate_gate : Definition → Step → Gate → Owned → Result DeliveryError Owned
unfolding grant_choices step_named
validate_gate d s g owned = elim g.delivery [
  | none ↦ guard (not (any authorizes g.choices)) (unbound_choice s.name) >> ok owned
  | some b ↦ (do
    guard (any authorizes g.choices) (binding_unused s.name)
    e ← or_fail (selector_named b.review s.evidence) (review_undeclared b.review)
    for_each (λ n. guard (is_review (step_named d n)) (not_review n)) e.steps
    guard e.required (review_optional e.name)
    guard (any (λ c. not (authorizes c)) g.choices) (every_choice_authorizes s.name)
    grant_choices d s.name g.choices owned)
]

unfoldable pub validate_gates : Definition → List Step → Owned → Result DeliveryError Owned
unfolding validate_gate
validate_gates d [] owned = ok owned
validate_gates d (s ∷ ss) owned = elim (as_gate s) [
  | none ↦ validate_gates d ss owned
  | some g ↦ validate_gate d s g owned >>= λ owned'. validate_gates d ss owned'
]

-- The loop over the delivery steps.
unfoldable pub check_owned : Definition → Owned → Step → Result DeliveryError (Unit {0})
unfolding step_named
check_owned d owned s = elim (as_delivery (some s)) [
  | none ↦ ok tt
  | some b ↦
      guard (is_owned owned s.name) (never_granted s.name)
      >> guard (is_gate (step_named d b.approval)) (approval_not_gate b.approval)
]

abbrev pub free_nexts : List GateChoice → List Destination
free_nexts [] = []
free_nexts (c ∷ cs) = let rest = free_nexts cs in if authorizes c then rest else c.next ∷ rest

abbrev pub escape_of : Step → List Destination
escape_of s = elim s.on_exhausted [ none ↦ [] | some n ↦ to_step n ∷ [] ]

-- The edges that `_validate_delivery_entries` reads.
unfoldable pub entry_edges : Step → List Destination
entry_edges s = elim s.body [
  | decision b ↦ escape_of s ++ (case_nexts b.cases ++ b.otherwise ∷ [])
  | gate g ↦ escape_of s ++ free_nexts g.choices
  | _ ↦ escape_of s
]

abbrev pub after_owned : Owned → Option Step → Bool
after_owned owned none = false
after_owned owned (some t) = is_owned owned t.name

-- The body of the loop of `_validate_delivery_entries`, for one step.
unfoldable pub check_entries : Definition → Owned → Step → Result DeliveryError (Unit {0})
unfolding entry_edges falls_through step_after
check_entries d owned s = elim (as_delivery (some s)) [
  | some _ ↦ ok tt
  | none ↦
      for_each (λ n. guard (not (is_owned owned n)) (routed_into_chain n)) (targets (entry_edges s))
      >> guard (not (after_owned owned (step_after d s.name) && falls_through s))
          (falls_into_chain s.name)
]

-- _validate_delivery
unfoldable pub validate_delivery : Definition → Result DeliveryError (Unit {0})
unfolding validate_gates check_owned check_entries
validate_delivery d = do
  owned ← validate_gates d d.steps []
  for_each (check_owned d owned) d.steps
  for_each (check_entries d owned) d.steps
