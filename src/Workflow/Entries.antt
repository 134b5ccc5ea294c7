-- ===== src/Workflow/Entries.antt =====
-- No way into a delivery chain but its grant and the action before it: the law of Delivery.antt.
use ompire.Base.{
  >>=-eq-ok, Bool, Bool-cases, In, In-append_left, In-append_right, List, Option, String, [], arith,
  contains, each-guarded, eq_iff, false, for_each, for_each-found, guard, in_head, inl, inr, none,
  not, ok, refl, some, subst, sym, then-eq-ok, true, ◌&&◌, ◌||◌, ◌≡◌, string_eq, ℕ_eq,
}
use ompire.Workflow.Syntax.{
  Definition, DeliveryBody, Destination, Step, is_named, step_after, step_named, to_step,
}
use ompire.Workflow.Graph.{case_nexts, falls_through, name_of, targets}
use ompire.Workflow.Edges.{
  Entry, GoesOn-falls, In-case_nexts, In-free_nexts, by_case, by_choice, by_default, by_exhaustion,
  by_order, choice-In, contains-targets, decision-In, escape-In,
}
use ompire.Workflow.Visits.{IsStep}
use ompire.Workflow.Delivery.{
  DeliveryError, Owned, after_owned, as_delivery, check_entries, check_owned, entry_edges, is_owned,
  never_granted, routed_into_chain, validate_delivery, validate_gates,
}

-- The three parts of an accepted document.
pub parts :
    (d : Definition)
    → validate_delivery d ≡ ok tt
    → (owned : Owned) × (validate_gates d d.steps [] ≡ ok owned)
      × (for_each (check_owned d owned) d.steps ≡ ok tt)
      × (for_each (check_entries d owned) d.steps ≡ ok tt)
unfolding validate_delivery
parts d h =
    let (owned, gates, rest) = >>=-eq-ok (validate_gates d d.steps []) _ h in
    let both = then-eq-ok (for_each (check_owned d owned) d.steps) _ rest in
    (owned, gates, both.0, both.1)

guard-true : (b : Bool) (e : DeliveryError) → guard b e ≡ ok tt → b ≡ true
guard-true true e h = refl
guard-true false e h = cc

guard-false : (b : Bool) (e : DeliveryError) → guard (not b) e ≡ ok tt → b ≡ false
guard-false true e h = cc
guard-false false e h = refl

-- A delivery step that the loop has passed has a grant.
pub delivery-owned :
    (d : Definition) (owned : Owned) (t : Step) (b : DeliveryBody)
    → check_owned d owned t ≡ ok tt
    → as_delivery (some t) ≡ some b
    → is_owned owned t.name ≡ true
unfolding check_owned
delivery-owned d owned t b h e =
    guard-true _ _
      (then-eq-ok (guard (is_owned owned t.name) (never_granted t.name)) _
        (rw (check_owned, e) at h)).0

not-true : (b : Bool) → not b ≡ true → b ≡ false
not-true true h = cc
not-true false h = refl

entries-free :
    (d : Definition) (owned : Owned) (ns : List String) (n : String)
    → for_each (λ m. guard (not (is_owned owned m)) (routed_into_chain m)) ns ≡ ok tt
    → contains ns n ≡ true
    → is_owned owned n ≡ false
entries-free d owned ns n h c =
    not-true (is_owned owned n)
      (each-guarded (λ m. not (is_owned owned m)) routed_into_chain ns n h c)

-- The two checks of one step.
entries-of :
    (d : Definition) (owned : Owned) (s : Step)
    → check_entries d owned s ≡ ok tt
    → as_delivery (some s) ≡ none
    → (for_each
          (λ m. guard (not (is_owned owned m)) (routed_into_chain m))
          (targets (entry_edges s))
        ≡ ok tt)
      × (after_owned owned (step_after d s.name) && falls_through s ≡ false)
unfolding check_entries
entries-of d owned s h e =
    let both =
      then-eq-ok
        (for_each (λ m. guard (not (is_owned owned m)) (routed_into_chain m))
          (targets (entry_edges s)))
        _ (rw (check_entries, e) at h) in
    (both.0, guard-false _ _ both.1)

-- What the two checks of one step read: the destinations, and the fall to the step behind.
abbrev enters : Definition → Step → String → Bool
enters d s n =
    contains (targets (entry_edges s)) n
    || (falls_through s && contains (name_of (step_after d s.name)) n)

after-contains :
    (owned : Owned) (o : Option Step) (n : String)
    → is_owned owned n ≡ true
    → contains (name_of o) n ≡ true
    → after_owned owned o ≡ true
after-contains owned none n h c = cc
after-contains owned (some u) n h c =
    subst (λ x. is_owned owned x ≡ true) (sym ((eq_iff u.name n).0 (ground arith))) h

enters-refused :
    (d : Definition) (s t : Step) (b : DeliveryBody)
    → validate_delivery d ≡ ok tt
    → IsStep d s
    → as_delivery (some s) ≡ none
    → IsStep d t
    → as_delivery (some t) ≡ some b
    → enters d s t.name ≡ false
unfolding step_named
enters-refused d s t b h is_s plain is_t effect =
    let (owned, _, owns, entries) = parts d h in
    let here = for_each-found (check_entries d owned) (is_named s.name) d.steps s entries is_s in
    let target = for_each-found (check_owned d owned) (is_named t.name) d.steps t owns is_t in
    let granted = delivery-owned d owned t b target effect in
    let (free, behind) = entries-of d owned s here plain in
    elim (Bool-cases (contains (targets (entry_edges s)) t.name)) [
      | inl e ↦ let not_owned = entries-free d owned (targets (entry_edges s)) t.name free e in cc
      | inr e ↦ elim (Bool-cases (contains (name_of (step_after d s.name)) t.name)) [
        | inl e' ↦
            let falls = after-contains owned (step_after d s.name) t.name granted e' in ground arith
        | inr e' ↦ ground arith
      ]
    ]

||-true : (b : Bool) → (b || true) ≡ true
||-true true = refl
||-true false = refl

In-enters :
    (d : Definition) (s : Step) (n : String) (x : Destination)
    → x ≡ to_step n
    → In x (entry_edges s)
    → enters d s n ≡ true
In-enters d s n x e i =
    rw (contains-targets n (entry_edges s) (subst (λ y. In y (entry_edges s)) e i)) refl

Entry-enters : (d : Definition) (s : Step) (n : String) → Entry d s n → enters d s n ≡ true
Entry-enters d s n (by_exhaustion h) = In-enters d s n _ refl (escape-In s n s.body refl h)
Entry-enters d s n (by_case b c e i h) =
    In-enters d s n c.next h
      (decision-In s b c.next e (In-append_left c.next _ _ (In-case_nexts c b.cases i)))
Entry-enters d s n (by_default b e h) =
    In-enters d s n b.otherwise h
      (decision-In s b b.otherwise e (In-append_right b.otherwise (case_nexts b.cases) _ in_head))
Entry-enters d s n (by_choice g c e i free h) =
    In-enters d s n c.next h (choice-In s g c.next e (In-free_nexts c g.choices i free))
Entry-enters d s n (by_order u goes after h) =
    rw (after, GoesOn-falls s s.body refl goes, (eq_iff u.name n).1 h) (||-true _)

-- In a document that the delivery rules accept, no edge leads from a step that is not a delivery step
-- to one that is: neither the exhaustion target, nor a case or the default of a decision, nor a choice
-- of a gate that authorizes nothing, nor the declared order behind a body without destinations. What a
-- capture names is no such edge.
pub validate_delivery-entries :
    (d : Definition) (s t : Step) (b : DeliveryBody)
    → validate_delivery d ≡ ok tt
    → IsStep d s
    → as_delivery (some s) ≡ none
    → IsStep d t
    → as_delivery (some t) ≡ some b
    → ¬ Entry d s t.name
validate_delivery-entries d s t b h is_s plain is_t effect edge =
    let refused = enters-refused d s t b h is_s plain is_t effect in
    let entered = Entry-enters d s t.name edge in cc
