-- ===== src/Workflow/Reload/Effects.antt =====
-- Captures, gates and deliveries, read back from their canonical document.
use ompire.Base.{
  >>=-eq-ok, Bool-cases, List, Option, String, [], contains, false, guard-then-eq-ok, if◌then◌else◌,
  inl, inr, leb, none, ok, ok-same, or_fail-bind-eq-ok, refl, some, subst, sym, true, ℕ, ◌++◌, ◌==◌,
  ◌∙◌, ◌∷◌, ◌≡◌, ◌≤◌, string_eq, ℕ_eq,
}
use ompire.Json.{Fields, Json, arr, get_field, str}
use ompire.Workflow.Syntax.{
  Capture, DeliveryAction, DeliveryBody, DeliveryMode, Destination, Gate, GateChoice, commit, pr,
  push, retain, squash,
}
use ompire.Workflow.Parse.Fields.{
  Parsed, all_keys, is_full, nonempty, require_slug, require_text, required,
}
use ompire.Workflow.Parse.Texts.{parse_text}
use ompire.Workflow.Parse.Routes.{optional, parse_destination}
use ompire.Workflow.Parse.Gates.{count_items, parse_choices, parse_gate_delivery, parse_gate_result}
use ompire.Workflow.Parse.Steps.{
  action_named, capture_of, capture_root, common_fields, delivery_fields, delivery_of, all_distinct,
  each_of, gate_fields, gate_of, max_capture, mode_and_previous, mode_named,
}
use ompire.Workflow.Print.Texts.{text_document}
use ompire.Workflow.Print.Routes.{destination_document}
use ompire.Workflow.Print.Gates.{choice_document, gate_delivery_document, items_of, result_document}
use ompire.Workflow.Print.Steps.{
  capture_document, common_document, delivery_document, gate_document, mode_word,
}
use ompire.Workflow.Reload.Values.{nonempty-full, require_slug-is_slug}
use ompire.Workflow.Reload.Texts.{parse_text-reload}
use ompire.Workflow.Reload.Routes.{optional-reload, parse_destination-reload}
use ompire.Workflow.Reload.Gates.{
  items_of-texts, parse_gate_delivery-reload, parse_gate_result-reload,
}
use ompire.Workflow.Reload.Choices.{all_keys-absent, below, parse_choices-reload}
use ompire.Workflow.Reload.Steps.{capture_of-again, each_of-reload, gate_of-again}
use ompire.Workflow.Reload.Bodies.{capture_root-reload, new_only}

not_delivery :
    (version : ℕ) → leb 3 version ≡ false → contains (gate_fields version) "delivery" ≡ false
not_delivery version e = elim (Bool-cases (leb 2 version)) [
  | inl two ↦ simp (two, e, below version e)
  | inr two ↦ simp (two, e, below version e)
]

not_result : (version : ℕ) → leb 4 version ≡ false → contains (gate_fields version) "result" ≡ false
not_result version e = elim (Bool-cases (leb 2 version)) [
  | inl two ↦ elim (Bool-cases (leb 3 version)) [
    | inl three ↦ simp (two, three, e)
    | inr three ↦ simp (two, three, e)
  ]
  | inr two ↦ elim (Bool-cases (leb 3 version)) [
    | inl three ↦ simp (two, three, e)
    | inr three ↦ simp (two, three, e)
  ]
]

absent_optional {ℓ} :
    {A : Type ℓ} (parse : Json → Parsed A) (o : Option Json) (a : Option A)
    → o ≡ none
    → optional parse o ≡ ok a
    → a ≡ none
unfolding optional
absent_optional parse o a e h = sym (ok-same (rw e at h))

choices-again :
    (version : ℕ) (o : Option Json) (cs : List GateChoice)
    → 1 ≤ version
    → (if version == 1 then ok [] else parse_choices version o) ≡ ok cs
    → (version == 1) ≡ false
    → parse_choices version (some (arr (items_of (choice_document version) cs))) ≡ ok cs
choices-again version o cs known h new = parse_choices-reload version o cs known (rw new at h)

mode_named-mode_word : (m : DeliveryMode) → mode_named (mode_word m) ≡ some m
mode_named-mode_word squash = refl
mode_named-mode_word retain = refl

-- The delivery is read back from its document, under any name.
abbrev Printed : ℕ → String → DeliveryBody → Type 0
Printed version n d = delivery_of version (delivery_document version n d) ≡ ok d

abbrev delivered :
    DeliveryAction → String → Destination → Option DeliveryMode → Option String → DeliveryBody
delivered action approval next mode previous = record {
  action = action;
  approval = approval;
  next = next;
  mode = mode;
  previous = previous;
}

delivery_of-again :
    (version : ℕ) (n : String) (action : DeliveryAction) (fs : Fields)
    (both : Option DeliveryMode × Option String) (approval : String) (next : Destination)
    → mode_and_previous action fs ≡ ok both
    → parse_destination version false (destination_document version next) ≡ ok next
    → Printed version n (delivered action approval next both.0 both.1)
unfolding delivery_of
delivery_of-again version n commit fs both approval next h route =
    let (s, _, h₁) = >>=-eq-ok (require_text fs "mode") _ h in
    let (m, _, last) = or_fail-bind-eq-ok (mode_named s) _ _ h₁ in
    subst (λ x. Printed version n (delivered commit approval next x.0 x.1)) (ok-same last)
      (simp (mode_named-mode_word m, route))
delivery_of-again version n push fs both approval next h route =
    let (s, _, last) = >>=-eq-ok (require_text fs "previous") _ h in
    subst (λ x. Printed version n (delivered push approval next x.0 x.1)) (ok-same last)
      (simp route)
delivery_of-again version n pr fs both approval next h route =
    let (s, _, last) = >>=-eq-ok (require_text fs "previous") _ h in
    subst (λ x. Printed version n (delivered pr approval next x.0 x.1)) (ok-same last) (simp route)

pub delivery_of-reload :
    (version : ℕ) (n : String) (fs : Fields) (d : DeliveryBody)
    → 1 ≤ version
    → delivery_of version fs ≡ ok d
    → delivery_of version (delivery_document version n d) ≡ ok d
unfolding delivery_of
delivery_of-reload version n fs d known h =
    let (s, _, h₁) = >>=-eq-ok (require_text fs "action") _ h in
    let (action, _, h₂) = or_fail-bind-eq-ok (action_named s) _ _ h₁ in
    let (_, h₃) = guard-then-eq-ok (all_keys (contains (delivery_fields action)) fs) _ _ h₂ in
    let (both, e, h₄) = >>=-eq-ok (mode_and_previous action fs) _ h₃ in
    let (nj, _, h₅) = >>=-eq-ok (required fs "next") _ h₄ in
    let (approval, _, h₆) = >>=-eq-ok (require_text fs "approval") _ h₅ in
    let (next, e₂, last) = >>=-eq-ok (parse_destination version false nj) _ h₆ in
    subst (Printed version n) (ok-same last) (
      delivery_of-again version n action fs both approval next e
        (parse_destination-reload version false known nj next e₂))

module _ (k version : ℕ) (known : 1 ≤ version) (n kind : String)
    (most exhaustion selectors : Json) where
  abbrev first_part : Fields → Fields
  first_part own = common_document version n kind most exhaustion selectors own

  pub capture_of-reload :
      (fs : Fields) (c : Capture)
      → capture_of k version fs ≡ ok c
      → capture_of k version (first_part (capture_document version c)) ≡ ok c
  unfolding capture_of
  capture_of-reload fs c h =
      let (_, h₁) =
        guard-then-eq-ok
          (all_keys
            (contains (common_fields version ++ ("producer" ∷ "paths" ∷ "allowlist" ∷ "next" ∷ [])))
            fs)
          _ _ h in
      let (producer, e, h₂) = >>=-eq-ok (require_slug fs "producer") _ h₁ in
      let (raw, e₂, h₃) = >>=-eq-ok (nonempty fs "paths") _ h₂ in
      let (few, h₄) = guard-then-eq-ok (leb (count_items raw) max_capture) _ _ h₃ in
      let (roots, e₃, h₅) = >>=-eq-ok (nonempty fs "allowlist") _ h₄ in
      let (few_roots, h₆) = guard-then-eq-ok (leb (count_items roots) max_capture) _ _ h₅ in
      let (allowlist, e₄, h₇) = >>=-eq-ok (each_of capture_root roots) _ h₆ in
      let (own, h₈) = guard-then-eq-ok (all_distinct allowlist) _ _ h₇ in
      let (nj, _, h₉) = >>=-eq-ok (required fs "next") _ h₈ in
      let (paths, e₅, h₁₀) = >>=-eq-ok (each_of (parse_text k version) raw) _ h₉ in
      let (next, e₆, last) = >>=-eq-ok (parse_destination version true nj) _ h₁₀ in
      let (p_again, p_count, p_full) =
        each_of-reload (parse_text k version) text_document raw paths (parse_text-reload k version)
          e₅ in
      let (a_again, a_count, a_full) =
        subst
          (λ x.
            (each_of capture_root x ≡ ok allowlist)
            × (count_items x ≡ count_items roots)
            × (is_full x ≡ is_full roots))
          (items_of-texts allowlist)
          (each_of-reload capture_root str roots allowlist capture_root-reload e₄) in
      subst (λ x. capture_of k version (first_part (capture_document version x)) ≡ ok x)
        (ok-same last)
        (capture_of-again k version known n kind most exhaustion selectors producer paths allowlist
          next (require_slug-is_slug fs "producer" producer e)
          (p_full ∙ nonempty-full fs "paths" raw e₂) (rw p_count few)
          (a_full ∙ nonempty-full fs "allowlist" roots e₃) (rw a_count few_roots) a_again own
          p_again (parse_destination-reload version true known nj next e₆))

  pub gate_of-reload :
      (fs : Fields) (g : Gate)
      → gate_of k version fs ≡ ok g
      → gate_of k version (first_part (gate_document version g)) ≡ ok g
  unfolding gate_of
  gate_of-reload fs g h =
      let (fits, h₁) = guard-then-eq-ok (all_keys (contains (gate_fields version)) fs) _ _ h in
      let (mj, _, h₂) = >>=-eq-ok (required fs "message") _ h₁ in
      let (message, e, h₃) = >>=-eq-ok (parse_text k version mj) _ h₂ in
      let (choices, e₂, h₄) =
        >>=-eq-ok (if version == 1 then ok [] else parse_choices version (get_field "choices" fs)) _
          h₃ in
      let (binding, e₃, h₅) =
        >>=-eq-ok (optional (parse_gate_delivery k version) (get_field "delivery" fs)) _ h₄ in
      let (result, e₄, last) =
        >>=-eq-ok (optional parse_gate_result (get_field "result" fs)) _ h₅ in
      subst (λ x. gate_of k version (first_part (gate_document version x)) ≡ ok x) (ok-same last)
        (gate_of-again k version known n kind most exhaustion selectors message choices binding
          result (parse_text-reload k version mj message e)
          (choices-again version (get_field "choices" fs) choices known e₂)
          (new_only (version == 1) (parse_choices version (get_field "choices" fs)) [] choices e₂)
          (optional-reload (parse_gate_delivery k version) gate_delivery_document
            (get_field "delivery" fs) binding (parse_gate_delivery-reload k version) (λ _. refl) e₃)
          (λ old.
            absent_optional (parse_gate_delivery k version) (get_field "delivery" fs) binding
              (all_keys-absent (gate_fields version) "delivery" fs fits (not_delivery version old))
              e₃)
          (optional-reload parse_gate_result result_document (get_field "result" fs) result
            parse_gate_result-reload (λ _. refl) e₄)
          (λ old.
            absent_optional parse_gate_result (get_field "result" fs) result
              (all_keys-absent (gate_fields version) "result" fs fits (not_result version old)) e₄))
