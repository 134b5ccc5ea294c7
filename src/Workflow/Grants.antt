-- ===== src/Workflow/Grants.antt =====
-- Where the authority of a delivery step comes from: the law of the grants of Delivery.antt.
use ompire.Base.{
  >>=-eq-ok, All, All-weaken, Bool-cases, In, List, Option, Option-cases, String, [], all, any,
  arith, contains, each-guarded, eq_iff, false, for_each, for_each-found, guard, guard-then-eq-ok,
  in_head, in_tail, inl, inr, none, not, ok, ok-same, or_fail-bind-eq-ok, refl, some, subst, suc,
  sym, then-eq-ok, true, ℕ, ◌==◌, ◌∷◌, ◌≡◌, ◌⊎◌, string_eq, ℕ_eq,
}
use ompire.Workflow.Syntax.{
  Definition, DeliveryBody, DeliveryGrant, EvidenceSelector, Gate, GateChoice, GateDelivery, Step,
  is_named, step_named,
}
use ompire.Workflow.Entries.{delivery-owned, parts}
use ompire.Workflow.Visits.{IsStep}
use ompire.Workflow.References.{selector_named}
use ompire.Workflow.Delivery.{
  Members, Owned, actions_in, as_delivery, as_gate, authorizes, check_next, check_owned,
  grant_choices, has_previous, head_routed, is_chain, is_owned, is_review, members_of, not_review,
  own_members, validate_delivery, validate_gate, validate_gates, validate_grant,
}

-- A choice of the gate that lists the step, which is a delivery step that names the gate.
pub record Granted (d : Definition) (gate_name : String) (cs : List GateChoice) (n : String)
    : Type 0 where
  pub choice : GateChoice
  pub grant : DeliveryGrant
  pub body : DeliveryBody
  pub offered : In choice cs
  pub authorizing : choice.authorize ≡ some grant
  pub lists : contains grant.steps n ≡ true
  pub effect : as_delivery (step_named d n) ≡ some body
  pub approved : body.approval ≡ gate_name

-- A member is listed, and is a declared delivery step.
abbrev IsMember : Definition → List String → String × DeliveryBody → Type 0
IsMember d ns m = (contains ns m.0 ≡ true) × (as_delivery (step_named d m.0) ≡ some m.1)

members_of-IsMember :
    (d : Definition) (owned : Owned) (ns : List String) (ms : Members)
    → members_of d owned ns ≡ ok ms
    → All (IsMember d ns) ms
unfolding members_of
members_of-IsMember d owned [] ms h = subst (All (IsMember d [])) (ok-same h) tt
members_of-IsMember d owned (n ∷ ns) ms h =
    let (b, e, h₁) = or_fail-bind-eq-ok (as_delivery (step_named d n)) _ _ h in
    let (_, h₂) = guard-then-eq-ok (not (is_owned owned n)) _ _ h₁ in
    let (rest, h₃, last) = >>=-eq-ok (members_of d owned ns) _ h₂ in
    subst (All (IsMember d (n ∷ ns))) (ok-same last) (
      (rw ((eq_iff n n).1 refl) refl, e),
      All-weaken rest (λ m p. (ground (arith, p.0), p.1)) (members_of-IsMember d owned ns rest h₃),
    )

own_members-adds :
    (P : String × DeliveryBody → Type 0) (g c : String) (i : ℕ) (before : Option String)
    (ms : Members) (owned owned' : Owned) (n : String)
    → All P ms
    → own_members g c i before ms owned ≡ ok owned'
    → is_owned owned' n ≡ true
    → (is_owned owned n ≡ true) ⊎ ((b : DeliveryBody) × P (n, b) × (b.approval ≡ g))
unfolding own_members
own_members-adds P g c i before [] owned owned' n ps h o =
    inl (subst (λ z. is_owned z n ≡ true) (sym (ok-same h)) o)
own_members-adds P g c i before ((m, b) ∷ ms) owned owned' n (p, ps) h o =
    let (named, h₁) = guard-then-eq-ok (b.approval == g) _ _ h in
    let (_, h₂) = guard-then-eq-ok (has_previous b.previous before) _ _ h₁ in
    let (_, h₃) = then-eq-ok (check_next m b ms) _ h₂ in
    elim (own_members-adds P g c (suc i) (some m) ms ((m, (g, c, i)) ∷ owned) owned' n ps h₃ o) [
      | inl old ↦ elim (Bool-cases (m == n)) [
        | inl e ↦ inr (b, subst (λ z. P (z, b)) ((eq_iff m n).0 e) p, (eq_iff b.approval g).0 named)
        | inr e ↦ inl (rw e at old)
      ]
      | inr fresh ↦ inr fresh
    ]

validate_grant-Granted :
    (d : Definition) (g : String) (c : GateChoice) (y : DeliveryGrant) (owned owned' : Owned)
    (n : String) (cs : List GateChoice)
    → In c cs
    → c.authorize ≡ some y
    → validate_grant d g c y owned ≡ ok owned'
    → is_owned owned' n ≡ true
    → (is_owned owned n ≡ true) ⊎ Granted d g cs n
unfolding validate_grant
validate_grant-Granted d g c y owned owned' n cs i e h o =
    let (ms, m, h₁) = >>=-eq-ok (members_of d owned y.steps) _ h in
    let (_, h₂) = guard-then-eq-ok (is_chain (actions_in ms)) _ _ h₁ in
    let (_, h₃) = guard-then-eq-ok (head_routed c.next ms) _ _ h₂ in
    elim (own_members-adds (IsMember d y.steps) g c.id 0 none ms owned owned' n
      (members_of-IsMember d owned y.steps ms m) h₃ o) [
        | inl old ↦ inl old
        | inr (b, (listed, effect), approval) ↦ inr (record {
          choice = c;
          grant = y;
          body = b;
          offered = i;
          authorizing = e;
          lists = listed;
          effect = effect;
          approved = approval;
        })
      ]

grant_choices-Granted :
    (d : Definition) (g : String) (all cs : List GateChoice) (owned owned' : Owned) (n : String)
    → ((c : GateChoice) → In c cs → In c all)
    → grant_choices d g cs owned ≡ ok owned'
    → is_owned owned' n ≡ true
    → (is_owned owned n ≡ true) ⊎ Granted d g all n
unfolding grant_choices
grant_choices-Granted d g all [] owned owned' n sub h o =
    inl (subst (λ z. is_owned z n ≡ true) (sym (ok-same h)) o)
grant_choices-Granted d g all (c ∷ cs) owned owned' n sub h o = elim (Option-cases c.authorize) [
  | inl e ↦ grant_choices-Granted d g all cs owned owned' n (λ x i. sub x (in_tail i)) (rw e at h) o
  | inr (y, e) ↦
      let (mid, h₁, h₂) = >>=-eq-ok (validate_grant d g c y owned) _ (rw e at h) in
      elim (grant_choices-Granted d g all cs mid owned' n (λ x i. sub x (in_tail i)) h₂ o) [
        | inl old ↦ validate_grant-Granted d g c y owned mid n all (sub c in_head) e h₁ old
        | inr fresh ↦ inr fresh
      ]
]

-- A gate of the document that asks about required evidence of review steps, offers a way out that publishes nothing,
-- and has a choice that grants the step.
pub record AuthorizedBy (d : Definition) (n : String) (s : Step) : Type 0 where
  pub gate_body : Gate
  pub is_a_gate : as_gate s ≡ some gate_body
  pub binding : GateDelivery
  pub selector : EvidenceSelector
  pub bound : gate_body.delivery ≡ some binding
  pub review_bound : selector_named binding.review s.evidence ≡ some selector
  pub review_required : selector.required ≡ true
  pub reviews_only :
      (m : String) → contains selector.steps m ≡ true → is_review (step_named d m) ≡ true
  pub way_out : any (λ c. not (authorizes c)) gate_body.choices ≡ true
  pub granted : Granted d s.name gate_body.choices n

validate_gate-AuthorizedBy :
    (d : Definition) (s : Step) (g : Gate) (owned owned' : Owned) (n : String)
    → as_gate s ≡ some g
    → validate_gate d s g owned ≡ ok owned'
    → is_owned owned' n ≡ true
    → (is_owned owned n ≡ true) ⊎ AuthorizedBy d n s
unfolding validate_gate
validate_gate-AuthorizedBy d s g owned owned' n e h o = elim (Option-cases g.delivery) [
  | inl none_bound ↦
      let (_, h₁) =
        guard-then-eq-ok (not (any authorizes g.choices)) _ _
          (rw (validate_gate, none_bound) at h) in
      inl (subst (λ z. is_owned z n ≡ true) (sym (ok-same h₁)) o)
  | inr (b, bound) ↦
      let (_, h₁) =
        guard-then-eq-ok (any authorizes g.choices) _ _ (rw (validate_gate, bound) at h) in
      let (y, found, h₂) = or_fail-bind-eq-ok (selector_named b.review s.evidence) _ _ h₁ in
      let (looked, h₃) =
        then-eq-ok (for_each (λ m. guard (is_review (step_named d m)) (not_review m)) y.steps) _
          h₂ in
      let (required, h₄) = guard-then-eq-ok y.required _ _ h₃ in
      let (out, h₅) = guard-then-eq-ok (any (λ c. not (authorizes c)) g.choices) _ _ h₄ in
      elim (grant_choices-Granted d s.name g.choices g.choices owned owned' n (λ c i. i) h₅ o) [
        | inl old ↦ inl old
        | inr made ↦ inr (record {
          gate_body = g;
          is_a_gate = e;
          binding = b;
          selector = y;
          bound = bound;
          review_bound = found;
          review_required = required;
          reviews_only =
              λ m c. each-guarded (λ n. is_review (step_named d n)) not_review y.steps m looked c;
          way_out = out;
          granted = made;
        })
      ]
]

validate_gates-AuthorizedBy :
    (d : Definition) (all ss : List Step) (owned owned' : Owned) (n : String)
    → ((s : Step) → In s ss → In s all)
    → validate_gates d ss owned ≡ ok owned'
    → is_owned owned' n ≡ true
    → (is_owned owned n ≡ true) ⊎ ((s : Step) × In s all × AuthorizedBy d n s)
unfolding validate_gates
validate_gates-AuthorizedBy d all [] owned owned' n sub h o =
    inl (subst (λ z. is_owned z n ≡ true) (sym (ok-same h)) o)
validate_gates-AuthorizedBy d all (s ∷ ss) owned owned' n sub h o =
    elim (Option-cases (as_gate s)) [
      | inl e ↦
          validate_gates-AuthorizedBy d all ss owned owned' n (λ x i. sub x (in_tail i))
            (rw (validate_gates, e) at h) o
      | inr (g, e) ↦
          let (mid, h₁, h₂) =
            >>=-eq-ok (validate_gate d s g owned) _ (rw (validate_gates, e) at h) in
          elim (validate_gates-AuthorizedBy d all ss mid owned' n (λ x i. sub x (in_tail i)) h₂ o) [
            | inl old ↦ elim (validate_gate-AuthorizedBy d s g owned mid n e h₁ old) [
              | inl older ↦ inl older
              | inr made ↦ inr (s, sub s in_head, made)
            ]
            | inr found ↦ inr found
          ]
    ]

made_here : {A : Type 0} → (false ≡ true) ⊎ A → A
made_here (inl h) = cc
made_here (inr a) = a

-- In a document that the delivery rules accept, every delivery step is granted by a choice of a gate:
-- the choice's grant lists the step and the step names that gate, which binds required
-- evidence of review steps only and also offers a choice that authorizes nothing.
pub validate_delivery-AuthorizedBy :
    (d : Definition) (t : Step) (b : DeliveryBody)
    → validate_delivery d ≡ ok tt
    → IsStep d t
    → as_delivery (some t) ≡ some b
    → (s : Step) × In s d.steps × AuthorizedBy d t.name s
unfolding step_named
validate_delivery-AuthorizedBy d t b h is_t effect =
    let (owned, gates, owns, _) = parts d h in
    let target = for_each-found (check_owned d owned) (is_named t.name) d.steps t owns is_t in
    made_here (
      validate_gates-AuthorizedBy d d.steps d.steps [] owned t.name (λ s i. i) gates
        (delivery-owned d owned t b target effect))
