-- ===== src/Workflow/CaptureEntries.antt =====
-- The destination of a capture step and the delivery rules: `_validate_delivery_entries` of
-- workflow_definitions.py does not read it, and the engine follows it.
use ompire.Base.{
  List, Option-cases, Result, String, [], any, ap, bind-cong, find, for_each, for_each-cong, guard,
  inl, inr, map, or_fail, refl, some, ◌>>◌, ◌∙◌, ◌∷◌, ◌≡◌, string_eq, ℕ_eq,
}
use ompire.Workflow.Syntax.{
  Body, Capture, Definition, DeliveryGrant, Destination, Gate, GateChoice, Step, agent, capture,
  command, decision, delivery, following, gate, is_named, review, step_after, step_named,
}
use ompire.Workflow.References.{is_gate, selector_named}
use ompire.Workflow.Graph.{falls_through}
use ompire.Workflow.Delivery.{
  DeliveryError, Owned, after_owned, as_delivery, as_gate, authorizes, binding_unused,
  check_entries, check_owned, entry_edges, grant_choices, is_review, members_of, not_review,
  review_undeclared, validate_delivery, validate_gate, validate_gates, validate_grant,
}
use ompire.Workflow.Engine.{fixed_destination}
use ompire.Workflow.Captures.{find-named, following-map, redirect, routed, with_next}

-- Tests of a step that do not tell two captures apart.
body-delivery :
    (x : Destination) (b : Body) (s : Step)
    → as_delivery (some (record s { body = routed x b }))
      ≡ as_delivery (some (record s { body = b }))
unfolding as_delivery
body-delivery x (capture c) s = refl
body-delivery x (agent _) s = refl
body-delivery x (command _) s = refl
body-delivery x (decision _) s = refl
body-delivery x (gate _) s = refl
body-delivery x review s = refl
body-delivery x (delivery _) s = refl

body-gate :
    (x : Destination) (b : Body) (s : Step)
    → as_gate (record s { body = routed x b }) ≡ as_gate (record s { body = b })
unfolding as_gate
body-gate x (capture c) s = refl
body-gate x (agent _) s = refl
body-gate x (command _) s = refl
body-gate x (decision _) s = refl
body-gate x (gate _) s = refl
body-gate x review s = refl
body-gate x (delivery _) s = refl

body-review :
    (x : Destination) (b : Body) (s : Step)
    → is_review (some (record s { body = routed x b })) ≡ is_review (some (record s { body = b }))
unfolding is_review
body-review x (capture c) s = refl
body-review x (agent _) s = refl
body-review x (command _) s = refl
body-review x (decision _) s = refl
body-review x (gate _) s = refl
body-review x review s = refl
body-review x (delivery _) s = refl

body-is_gate :
    (x : Destination) (b : Body) (s : Step)
    → is_gate (some (record s { body = routed x b })) ≡ is_gate (some (record s { body = b }))
body-is_gate x (capture c) s = refl
body-is_gate x (agent _) s = refl
body-is_gate x (command _) s = refl
body-is_gate x (decision _) s = refl
body-is_gate x (gate _) s = refl
body-is_gate x review s = refl
body-is_gate x (delivery _) s = refl

body-edges :
    (x : Destination) (b : Body) (s : Step)
    → (entry_edges (record s { body = routed x b }) ≡ entry_edges (record s { body = b }))
      × (falls_through (record s { body = routed x b }) ≡ falls_through (record s { body = b }))
unfolding entry_edges falls_through
body-edges x (capture c) s = (refl, refl)
body-edges x (agent _) s = (refl, refl)
body-edges x (command _) s = (refl, refl)
body-edges x (decision _) s = (refl, refl)
body-edges x (gate _) s = (refl, refl)
body-edges x review s = (refl, refl)
body-edges x (delivery _) s = (refl, refl)

-- The same of a look-up by name.
named-delivery :
    (x : Destination) (d : Definition) (n : String)
    → as_delivery (step_named (redirect x d) n) ≡ as_delivery (step_named d n)
unfolding step_named as_delivery
named-delivery x d n =
    ap as_delivery (find-named x n d.steps) ∙ elim (Option-cases (find (is_named n) d.steps)) [
      | inl e ↦ rw e refl
      | inr (s, e) ↦ rw e (body-delivery x s.body s)
    ]

named-review :
    (x : Destination) (d : Definition) (n : String)
    → is_review (step_named (redirect x d) n) ≡ is_review (step_named d n)
unfolding step_named is_review
named-review x d n =
    ap is_review (find-named x n d.steps) ∙ elim (Option-cases (find (is_named n) d.steps)) [
      | inl e ↦ rw e refl
      | inr (s, e) ↦ rw e (body-review x s.body s)
    ]

named-gate :
    (x : Destination) (d : Definition) (n : String)
    → is_gate (step_named (redirect x d) n) ≡ is_gate (step_named d n)
unfolding step_named
named-gate x d n =
    ap is_gate (find-named x n d.steps) ∙ elim (Option-cases (find (is_named n) d.steps)) [
      | inl e ↦ rw e refl
      | inr (s, e) ↦ rw e (body-is_gate x s.body s)
    ]

members-redirect :
    (x : Destination) (d : Definition) (owned : Owned) (ns : List String)
    → members_of (redirect x d) owned ns ≡ members_of d owned ns
unfolding members_of
members-redirect x d owned [] = refl
members-redirect x d owned (n ∷ ns) = rw (named-delivery x d n, members-redirect x d owned ns) refl

grant-redirect :
    (x : Destination) (d : Definition) (g : String) (c : GateChoice) (y : DeliveryGrant)
    (owned : Owned)
    → validate_grant (redirect x d) g c y owned ≡ validate_grant d g c y owned
unfolding validate_grant
grant-redirect x d g c y owned = rw (members-redirect x d owned y.steps) refl

choices-redirect :
    (x : Destination) (d : Definition) (g : String) (cs : List GateChoice) (owned : Owned)
    → grant_choices (redirect x d) g cs owned ≡ grant_choices d g cs owned
unfolding grant_choices
choices-redirect x d g [] owned = refl
choices-redirect x d g (c ∷ cs) owned = elim (Option-cases c.authorize) [
  | inl e ↦ rw e (choices-redirect x d g cs owned)
  | inr (y, e) ↦
      rw (e, grant-redirect x d g c y owned)
        (bind-cong (validate_grant d g c y owned) _ _ (choices-redirect x d g cs))
]

gate-redirect :
    (x : Destination) (d : Definition) (s : Step) (g : Gate) (owned : Owned)
    → validate_gate (redirect x d) (with_next x s) g owned ≡ validate_gate d s g owned
unfolding validate_gate
gate-redirect x d s g owned = elim (Option-cases g.delivery) [
  | inl e ↦ rw e refl
  | inr (b, e) ↦
      rw (validate_gate, e)
        (ap (λ k. guard (any authorizes g.choices) (binding_unused s.name) >> k)
          (bind-cong (or_fail (selector_named b.review s.evidence) (review_undeclared b.review)) _ _
            (λ y.
              rw
                (
                  for_each-cong
                      (λ n. guard (is_review (step_named (redirect x d) n)) (not_review n))
                      (λ n. guard (is_review (step_named d n)) (not_review n)) y.steps
                      (λ n. rw (named-review x d n) refl),
                  choices-redirect x d s.name g.choices owned,
                )
                refl)))
]

gates-redirect :
    (x : Destination) (d : Definition) (ss : List Step) (owned : Owned)
    → validate_gates (redirect x d) (map (with_next x) ss) owned ≡ validate_gates d ss owned
unfolding validate_gates
gates-redirect x d [] owned = refl
gates-redirect x d (s ∷ ss) owned =
    let same : as_gate (with_next x s) ≡ as_gate s = body-gate x s.body s in
    elim (Option-cases (as_gate s)) [
      | inl e ↦ rw (validate_gates, same, e) (gates-redirect x d ss owned)
      | inr (g, e) ↦
          rw (validate_gates, same, e, gate-redirect x d s g owned)
            (bind-cong (validate_gate d s g owned) _ _ (gates-redirect x d ss))
    ]

owned-redirect :
    (x : Destination) (d : Definition) (owned : Owned) (s : Step)
    → check_owned (redirect x d) owned (with_next x s) ≡ check_owned d owned s
unfolding check_owned
owned-redirect x d owned s =
    let same : as_delivery (some (with_next x s)) ≡ as_delivery (some s) =
      body-delivery x s.body s in
    elim (Option-cases (as_delivery (some s))) [
      | inl e ↦ rw (check_owned, same, e) refl
      | inr (b, e) ↦ rw (check_owned, same, e, named-gate x d b.approval) refl
    ]

after-redirect :
    (x : Destination) (d : Definition) (owned : Owned) (n : String)
    → after_owned owned (step_after (redirect x d) n) ≡ after_owned owned (step_after d n)
unfolding step_after
after-redirect x d owned n =
    ap (after_owned owned) (following-map x n d.steps)
    ∙ elim (Option-cases (following n d.steps)) [ inl e ↦ rw e refl | inr (s, e) ↦ rw e refl ]

entries-redirect :
    (x : Destination) (d : Definition) (owned : Owned) (s : Step)
    → check_entries (redirect x d) owned (with_next x s) ≡ check_entries d owned s
unfolding check_entries
entries-redirect x d owned s =
    let same : as_delivery (some (with_next x s)) ≡ as_delivery (some s) =
      body-delivery x s.body s in
    let edges : entry_edges (with_next x s) ≡ entry_edges s = (body-edges x s.body s).0 in
    let falls : falls_through (with_next x s) ≡ falls_through s = (body-edges x s.body s).1 in
    elim (Option-cases (as_delivery (some s))) [
      | inl e ↦ rw (check_entries, same, e, edges, falls, after-redirect x d owned s.name) refl
      | inr (b, e) ↦ rw (check_entries, same, e) refl
    ]

each-redirect :
    (x : Destination) (f g : Step → Result DeliveryError (Unit {0})) (ss : List Step)
    → ((s : Step) → f (with_next x s) ≡ g s)
    → for_each f (map (with_next x) ss) ≡ for_each g ss
each-redirect x f g [] h = refl
each-redirect x f g (s ∷ ss) h = rw (h s, each-redirect x f g ss h) refl

-- Where a capture step says that the run goes on makes no difference to the delivery rules: their
-- verdict on a document is the one on the document with every capture routed to any other destination,
-- a delivery step included. The engine goes where that destination says.
pub validate_delivery-ignores_captures :
    (x : Destination) (d : Definition) (s : Step) (c : Capture)
    → s.body ≡ capture c
    → (validate_delivery (redirect x d) ≡ validate_delivery d)
      × (fixed_destination (with_next x s) ≡ some x)
unfolding validate_delivery fixed_destination
validate_delivery-ignores_captures x d s c e = (
  rw (gates-redirect x d d.steps []) (
      bind-cong (validate_gates d d.steps []) _ _ (λ owned.
        rw
          (
            each-redirect x (check_owned (redirect x d) owned) (check_owned d owned) d.steps
                (owned-redirect x d owned),
            each-redirect x (check_entries (redirect x d) owned) (check_entries d owned) d.steps
                (entries-redirect x d owned),
          )
          refl)),
  rw e refl,
)
