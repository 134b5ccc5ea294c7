-- ===== src/Workflow/Reload/Steps.antt =====
-- The classes of steps, read back from their canonical document.
use ompire.Base.{
  >>=-eq-ok, Bool, Bool-cases, List, Option, String, [], ap, arith, contains, false, inl, inr, leb,
  none, ok, ok-same, refl, some, subst, suc, true, ℕ, ◌==◌, ◌≡◌, ◌≤◌, string_eq, ℕ_eq,
}
use ompire.Json.{Dyadic, Fields, Items, Json, arr, cons, nil, text_items}
use ompire.Workflow.Syntax.{
  DecisionCase, Destination, GateChoice, GateDelivery, GateResult, OutcomeContract, Predicate,
  TextDocument,
}
use ompire.Workflow.Parse.Slug.{is_slug}
use ompire.Workflow.Reload.Choices.{below}
use ompire.Workflow.Parse.Fields.{Parsed, is_full, texts_of}
use ompire.Workflow.Parse.Predicates.{parse_predicate}
use ompire.Workflow.Parse.Texts.{parse_text}
use ompire.Workflow.Parse.Routes.{optional, parse_destination}
use ompire.Workflow.Parse.Contracts.{parse_outcome}
use ompire.Workflow.Parse.Gates.{count_items, parse_choices, parse_gate_delivery, parse_gate_result}
use ompire.Workflow.Parse.Steps.{
  agent_of, capture_of, capture_root, case_of, command_of, decision_of, all_distinct, each_of,
  gate_of, max_capture, model_roles, is_positive,
}
use ompire.Workflow.Print.Texts.{predicate_document, text_document}
use ompire.Workflow.Print.Routes.{destination_document, or_null}
use ompire.Workflow.Print.Contracts.{outcome_document}
use ompire.Workflow.Print.Gates.{choice_document, gate_delivery_document, items_of, result_document}
use ompire.Workflow.Print.Steps.{
  agent_document, capture_document, case_document, command_document, common_document,
  decision_document, gate_document,
}
use ompire.Workflow.Reload.Values.{Reloads}
use ompire.Workflow.Reload.Routes.{version-cases}

-- A list is read back, has as many items, and is as empty as it was.
pub each_of-reload {ℓ} :
    {A : Type ℓ} (parse : Json → Parsed A) (print : A → Json) (js : Items) (items : List A)
    → Reloads parse print
    → each_of parse js ≡ ok items
    → (each_of parse (items_of print items) ≡ ok items)
      × (count_items (items_of print items) ≡ count_items js)
      × (is_full (items_of print items) ≡ is_full js)
unfolding each_of items_of
each_of-reload parse print nil items again h =
    subst
      (λ x.
        (each_of parse (items_of print x) ≡ ok x)
        × (count_items (items_of print x) ≡ 0)
        × (is_full (items_of print x) ≡ false))
      (ok-same h) (refl, refl, refl)
each_of-reload parse print (cons j js) items again h =
    let (a, e, h₁) = >>=-eq-ok (parse j) _ h in
    let (rest, e', last) = >>=-eq-ok (each_of parse js) _ h₁ in
    let (same, counted, _) = each_of-reload parse print js rest again e' in
    subst
      (λ x.
        (each_of parse (items_of print x) ≡ ok x)
        × (count_items (items_of print x) ≡ suc (count_items js))
        × (is_full (items_of print x) ≡ true))
      (ok-same last) (rw (again j a e, same) refl, ap suc counted, refl)

first_format : (v : ℕ) → (v == 1) ≡ true → (leb 3 v ≡ false) × (leb 4 v ≡ false)
first_format v h = ground arith

-- The fields that stand before those of the class, whatever their values.
module _ (k version : ℕ) (known : 1 ≤ version) (n kind : String)
    (most exhaustion selectors : Json) where
  abbrev pub before_own : Fields → Fields
  before_own own = common_document version n kind most exhaustion selectors own

  pub agent_of-again :
      (session role : String) (prompt : TextDocument) (expects : Bool) (when : Predicate)
      (outcome : Option OutcomeContract)
      → contains model_roles role ≡ true
      → parse_text k version (text_document prompt) ≡ ok prompt
      → parse_predicate k version (predicate_document when) ≡ ok when
      → parse_outcome (or_null outcome_document outcome) ≡ ok outcome
      → ((version == 1) ≡ true → outcome ≡ none)
      → ((version == 1) ≡ false → expects ≡ false)
      → agent_of k version (
          before_own (
            agent_document version (record {
              session = session;
              role = role;
              prompt = prompt;
              expects_outcome = expects;
              when = when;
              outcome = outcome;
            })))
        ≡ ok (record {
          session = session;
          role = role;
          prompt = prompt;
          expects_outcome = expects;
          when = when;
          outcome = outcome;
        })
  unfolding agent_of
  agent_of-again session role prompt expects when outcome known_role p w o old_none new_false =
      elim (version-cases version known) [
        | inl (old, not_new) ↦ rw (old_none old) (simp (old, not_new, known_role, p, w))
        | inr (not_old, new) ↦ rw (new_false not_old) (simp (not_old, new, known_role, p, w, o))
      ]

  pub command_of-again :
      (argv : List String) (timeout : Dyadic)
      → is_full (text_items argv) ≡ true
      → texts_of "argv" (text_items argv) ≡ ok argv
      → is_positive timeout ≡ true
      → command_of version (
          before_own
            (command_document (record { argv = argv; timeout = timeout; idempotent = true })))
        ≡ ok (record { argv = argv; timeout = timeout; idempotent = true })
  unfolding command_of
  command_of-again argv timeout full again long = elim (version-cases version known) [
    | inl (old, not_new) ↦ simp (not_new, full, again, long)
    | inr (not_old, new) ↦ simp (new, full, again, long)
  ]

  pub decision_of-again :
      (cases : List DecisionCase) (otherwise : Destination)
      → is_full (items_of (case_document version) cases) ≡ true
      → each_of (case_of k version) (items_of (case_document version) cases) ≡ ok cases
      → parse_destination version true (destination_document version otherwise) ≡ ok otherwise
      → decision_of k version
          (before_own (decision_document version (record { cases = cases; otherwise = otherwise })))
        ≡ ok (record { cases = cases; otherwise = otherwise })
  unfolding decision_of
  decision_of-again cases otherwise full again route = elim (version-cases version known) [
    | inl (old, not_new) ↦ simp (not_new, full, again, route)
    | inr (not_old, new) ↦ simp (new, full, again, route)
  ]

  pub capture_of-again :
      (producer : String) (paths : List TextDocument) (allowlist : List String) (next : Destination)
      → is_slug producer ≡ true
      → is_full (items_of text_document paths) ≡ true
      → leb (count_items (items_of text_document paths)) max_capture ≡ true
      → is_full (text_items allowlist) ≡ true
      → leb (count_items (text_items allowlist)) max_capture ≡ true
      → each_of capture_root (text_items allowlist) ≡ ok allowlist
      → all_distinct allowlist ≡ true
      → each_of (parse_text k version) (items_of text_document paths) ≡ ok paths
      → parse_destination version true (destination_document version next) ≡ ok next
      → capture_of k version (
          before_own (
            capture_document version
              (record { producer = producer; paths = paths; allowlist = allowlist; next = next })))
        ≡ ok (record { producer = producer; paths = paths; allowlist = allowlist; next = next })
  unfolding capture_of
  capture_of-again producer paths allowlist next slug p_full p_few a_full a_few a_again own p_again
        route =
      elim (version-cases version known) [
        | inl (old, not_new) ↦
            simp (not_new, slug, p_full, p_few, a_full, a_few, a_again, own, p_again, route)
        | inr (not_old, new) ↦
            simp (new, slug, p_full, p_few, a_full, a_few, a_again, own, p_again, route)
      ]

  pub gate_of-again :
      (message : TextDocument) (choices : List GateChoice) (binding : Option GateDelivery)
      (result : Option GateResult)
      → parse_text k version (text_document message) ≡ ok message
      → ((version == 1) ≡ false
          → parse_choices version (some (arr (items_of (choice_document version) choices)))
            ≡ ok choices)
      → ((version == 1) ≡ true → choices ≡ [])
      → optional (parse_gate_delivery k version) (some (or_null gate_delivery_document binding))
        ≡ ok binding
      → (leb 3 version ≡ false → binding ≡ none)
      → optional parse_gate_result (some (or_null result_document result)) ≡ ok result
      → (leb 4 version ≡ false → result ≡ none)
      → gate_of k version (
          before_own (
            gate_document version (record {
              message = message;
              choices = choices;
              delivery = binding;
              result = result;
            })))
        ≡ ok (record { message = message; choices = choices; delivery = binding; result = result })
  unfolding gate_of
  gate_of-again message choices binding result m c c_none d d_none r r_none =
      elim (version-cases version known) [
        | inl (old, not_new) ↦
            let (three, four) = first_format version old in
            rw (c_none old, d_none three, r_none four) (simp (old, not_new, three, four, m))
        | inr (not_old, new) ↦ elim (Bool-cases (leb 3 version)) [
          | inr three ↦
              let four = below version three in
              rw (d_none three, r_none four) (simp (not_old, new, three, four, m, c not_old))
          | inl three ↦ elim (Bool-cases (leb 4 version)) [
            | inr four ↦ rw (r_none four) (simp (not_old, new, three, four, m, c not_old, d))
            | inl four ↦ simp (not_old, new, three, four, m, c not_old, d, r)
          ]
        ]
      ]
