-- ===== src/Workflow/Edges.antt =====
-- The ways into a step that `_validate_delivery_entries` of workflow_definitions.py has to refuse where the
-- step delivers, told apart by what declares them, and that Delivery.antt reads each of them.
use ompire.Base.{
  Bool-cases, In, In-append_right, List, String, [], arith, contains, eq_iff, in_head, in_tail, inl,
  inr, none, refl, some, true, ◌++◌, ◌∷◌, ◌≡◌, string_eq, ℕ_eq,
}
use ompire.Workflow.Syntax.{
  Body, DecisionBody, DecisionCase, Definition, Destination, Gate, GateChoice, Step, agent, capture,
  command, complete, decision, delivery, gate, pause, review, step_after, to_step,
}
use ompire.Workflow.Graph.{case_nexts, falls_through, targets}
use ompire.Workflow.Delivery.{authorizes, entry_edges, escape_of, free_nexts}

-- A body that names no step to go on to, so that the step declared behind it follows. What a capture
-- names is not read by the rules.
abbrev pub GoesOn : Body → Type 0
GoesOn (decision _) = ⊥
GoesOn (delivery _) = ⊥
GoesOn (gate g) = g.choices ≡ []
GoesOn _ = Unit

-- The ways from a step to the step of a name: once its visits are used up; by a case of a decision, or
-- without one; by a choice of a gate that authorizes nothing; and on to the step declared behind.
pub data Entry (d : Definition) (s : Step) (n : String) : Type 0 where
  by_exhaustion : s.on_exhausted ≡ some n → Entry d s n
  by_case :
      (b : DecisionBody) (c : DecisionCase)
      → s.body ≡ decision b
      → In c b.cases
      → c.next ≡ to_step n
      → Entry d s n
  by_default : (b : DecisionBody) → s.body ≡ decision b → b.otherwise ≡ to_step n → Entry d s n
  by_choice :
      (g : Gate) (c : GateChoice)
      → s.body ≡ gate g
      → In c g.choices
      → c.authorize ≡ none
      → c.next ≡ to_step n
      → Entry d s n
  by_order : (u : Step) → GoesOn s.body → step_after d s.name ≡ some u → u.name ≡ n → Entry d s n

pub contains-targets :
    (n : String) (ds : List Destination) → In (to_step n) ds → contains (targets ds) n ≡ true
contains-targets n [] i = elim i [ ]
contains-targets n (x ∷ ds) in_head = rw ((eq_iff n n).1 refl) refl
contains-targets n (to_step m ∷ ds) (in_tail i) = ground (arith, contains-targets n ds i)
contains-targets n (complete _ ∷ ds) (in_tail i) = contains-targets n ds i
contains-targets n (pause ∷ ds) (in_tail i) = contains-targets n ds i

pub In-case_nexts :
    (c : DecisionCase) (cs : List DecisionCase) → In c cs → In c.next (case_nexts cs)
In-case_nexts c [] i = elim i [ ]
In-case_nexts c (x ∷ cs) in_head = in_head
In-case_nexts c (x ∷ cs) (in_tail i) = in_tail (In-case_nexts c cs i)

pub In-free_nexts :
    (c : GateChoice) (cs : List GateChoice)
    → In c cs
    → c.authorize ≡ none
    → In c.next (free_nexts cs)
In-free_nexts c [] i free = elim i [ ]
In-free_nexts c (x ∷ cs) in_head free = rw free in_head
In-free_nexts c (x ∷ cs) (in_tail i) free =
    let rest = In-free_nexts c cs i free in
    elim (Bool-cases (authorizes x)) [ inl e ↦ rw e rest | inr e ↦ rw e (in_tail rest) ]

pub escape-In :
    (s : Step) (n : String) (b : Body)
    → s.body ≡ b
    → s.on_exhausted ≡ some n
    → In (to_step n) (entry_edges s)
unfolding entry_edges
escape-In s n (decision b) e h = rw (e, h) in_head
escape-In s n (gate g) e h = rw (e, h) in_head
escape-In s n (agent _) e h = rw (e, h) in_head
escape-In s n (command _) e h = rw (e, h) in_head
escape-In s n review e h = rw (e, h) in_head
escape-In s n (delivery _) e h = rw (e, h) in_head
escape-In s n (capture _) e h = rw (e, h) in_head

pub decision-In :
    (s : Step) (b : DecisionBody) (x : Destination)
    → s.body ≡ decision b
    → In x (case_nexts b.cases ++ b.otherwise ∷ [])
    → In x (entry_edges s)
unfolding entry_edges
decision-In s b x e i = rw e (In-append_right x (escape_of s) _ i)

pub choice-In :
    (s : Step) (g : Gate) (x : Destination)
    → s.body ≡ gate g
    → In x (free_nexts g.choices)
    → In x (entry_edges s)
unfolding entry_edges
choice-In s g x e i = rw e (In-append_right x (escape_of s) _ i)

pub GoesOn-falls : (s : Step) (b : Body) → s.body ≡ b → GoesOn b → falls_through s ≡ true
unfolding falls_through
GoesOn-falls s (decision b) e h = elim h [ ]
GoesOn-falls s (gate g) e h = rw (e, h) refl
GoesOn-falls s (agent _) e h = rw e refl
GoesOn-falls s (command _) e h = rw e refl
GoesOn-falls s review e h = rw e refl
GoesOn-falls s (delivery _) e h = elim h [ ]
GoesOn-falls s (capture _) e h = rw e refl
