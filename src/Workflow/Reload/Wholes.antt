-- ===== src/Workflow/Reload/Wholes.antt =====
-- Steps, read back from their canonical document.
use ompire.Base.{
  >>=-eq-ok, Bool-cases, List, Option, String, [], contains, false, guard-then-eq-ok, if◌then◌else◌,
  inl, inr, leb, none, ok, ok-same, or_fail-bind-eq-ok, refl, some, subst, sym, true, ℕ, ◌==◌, ◌∙◌,
  ◌≡◌, ◌≤◌, string_eq, ℕ_eq,
}
use ompire.Json.{Fields, end, field, get_field, obj, str}
use ompire.Workflow.Syntax.{
  Body, DeliveryAction, DeliveryBody, EvidenceSelector, Step, agent, capture, command, commit,
  decision, delivery, gate, pr, push, review,
}
use ompire.Workflow.Parse.Slug.{is_slug}
use ompire.Workflow.Parse.Fields.{Parsed, all_keys, require_slug, require_text, required}
use ompire.Workflow.Parse.Routes.{optional, parse_bound, parse_destination}
use ompire.Workflow.Parse.Contracts.{parse_evidence}
use ompire.Workflow.Parse.Steps.{
  action_named, agent_of, capture_of, command_of, common_fields, decision_of, delivery_fields,
  delivery_of, gate_of, is_commit, mode_and_previous,
}
use ompire.Workflow.Reload.Bodies.{agent_of-reload, command_of-reload, decision_of-reload}
use ompire.Workflow.Reload.Effects.{capture_of-reload, delivery_of-reload, gate_of-reload}
use ompire.Workflow.Reload.Choices.{all_keys-absent}
use ompire.Workflow.Parse.Definitions.{
  StepKind, a_capture, a_command, a_decision, a_delivery, a_gate, a_review, admits, an_agent,
  body_of, kind_named, parse_step,
}
use ompire.Workflow.Print.Routes.{or_null, step_route, whole}
use ompire.Workflow.Print.Contracts.{evidence_document}
use ompire.Workflow.Print.Gates.{field_since}
use ompire.Workflow.Print.Steps.{
  agent_document, capture_document, command_document, common_document, decision_document,
  delivery_document, gate_document,
}
use ompire.Workflow.Print.Definitions.{body_document}
use ompire.Workflow.Reload.Routes.{parse_bound-reload, version-cases}
use ompire.Workflow.Reload.Contracts.{parse_evidence-reload}

abbrev kind_word : StepKind → String
kind_word an_agent = "agent"
kind_word a_command = "command"
kind_word a_decision = "decision"
kind_word a_gate = "gate"
kind_word a_review = "review"
kind_word a_delivery = "delivery"
kind_word a_capture = "capture"

kind_named-text : (kind : StepKind) → kind_named (kind_word kind) ≡ some kind
unfolding kind_named
kind_named-text an_agent = refl
kind_named-text a_command = refl
kind_named-text a_decision = refl
kind_named-text a_gate = refl
kind_named-text a_review = refl
kind_named-text a_delivery = refl
kind_named-text a_capture = refl

abbrev assembled : String → Option ℕ × Option String → List EvidenceSelector → Body → Step
assembled n bound selectors body = record {
  name = n;
  max_visits = bound.0;
  on_exhausted = bound.1;
  evidence = selectors;
  body = body;
}

abbrev pub selectors_at : ℕ → Fields → Parsed (List EvidenceSelector)
selectors_at version fs = if version == 1 then ok [] else parse_evidence (get_field "evidence" fs)

-- A step is read from fields of which each part is read.
parse_step-again :
    (k version : ℕ) (gs : Fields) (n : String) (kind : StepKind) (bound : Option ℕ × Option String)
    (selectors : List EvidenceSelector) (body : Body)
    → require_slug gs "name" ≡ ok n
    → require_text gs "kind" ≡ ok (kind_word kind)
    → admits version kind ≡ true
    → parse_bound version gs ≡ ok bound
    → selectors_at version gs ≡ ok selectors
    → body_of k version gs kind ≡ ok body
    → parse_step k version (obj gs) ≡ ok (assembled n bound selectors body)
unfolding parse_step
parse_step-again k version gs n kind bound selectors body in_name in_kind admitted in_bound
      in_evidence in_body =
    rw (in_name, in_kind, kind_named-text kind, admitted, in_bound, in_evidence, in_body) refl

name-again :
    (n : String)
    → is_slug n ≡ true
    → (rest : Fields) → require_slug (field "name" (str n) rest) "name" ≡ ok n
name-again n slug rest = rw slug refl

-- The document of a step.
abbrev shown : ℕ → String → Option ℕ × Option String → List EvidenceSelector → Body → Fields
shown version n bound selectors body =
    body_document version n (or_null whole bound.0) (or_null step_route bound.1)
      (evidence_document selectors) body

bare_bound :
    (version : ℕ) (fs : Fields)
    → get_field "max_visits" fs ≡ none
    → get_field "on_exhausted" fs ≡ none
    → parse_bound version fs ≡ ok (none, none)
unfolding parse_bound optional
bare_bound version fs e e' = rw (e, e') refl

bare_selectors :
    (version : ℕ) (fs : Fields) → get_field "evidence" fs ≡ none → selectors_at version fs ≡ ok []
unfolding parse_evidence
bare_selectors version fs e = elim (Bool-cases (version == 1)) [
  | inl old ↦ rw old refl
  | inr new ↦ rw (new, e) refl
]

not_common :
    (a : DeliveryAction)
    → (contains (delivery_fields a) "max_visits" ≡ false)
      × (contains (delivery_fields a) "on_exhausted" ≡ false)
      × (contains (delivery_fields a) "evidence" ≡ false)
not_common commit = (refl, refl, refl)
not_common push = (refl, refl, refl)
not_common pr = (refl, refl, refl)

not_common_document :
    (version : ℕ) (n : String) (d : DeliveryBody)
    → (get_field "max_visits" (delivery_document version n d) ≡ none)
      × (get_field "on_exhausted" (delivery_document version n d) ≡ none)
      × (get_field "evidence" (delivery_document version n d) ≡ none)
not_common_document version n d = elim (Bool-cases (is_commit d.action)) [
  | inl e ↦ rw e (refl, refl, refl)
  | inr e ↦ rw e (refl, refl, refl)
]

delivery_of-allowed :
    (version : ℕ) (fs : Fields) (d : DeliveryBody)
    → delivery_of version fs ≡ ok d
    → all_keys (contains (delivery_fields d.action)) fs ≡ true
unfolding delivery_of
delivery_of-allowed version fs d h =
    let (s, _, h₁) = >>=-eq-ok (require_text fs "action") _ h in
    let (action, _, h₂) = or_fail-bind-eq-ok (action_named s) _ _ h₁ in
    let (allowed, h₃) = guard-then-eq-ok (all_keys (contains (delivery_fields action)) fs) _ _ h₂ in
    let (both, _, h₄) = >>=-eq-ok (mode_and_previous action fs) _ h₃ in
    let (nj, _, h₅) = >>=-eq-ok (required fs "next") _ h₄ in
    let (approval, _, h₆) = >>=-eq-ok (require_text fs "approval") _ h₅ in
    let (next, _, last) = >>=-eq-ok (parse_destination version false nj) _ h₆ in
    subst (λ x. all_keys (contains (delivery_fields x.action)) fs ≡ true) (ok-same last) allowed

-- Each class but a delivery prints the common fields.
module _ (k version : ℕ) (known : 1 ≤ version) (fs : Fields) (n : String)
    (bound : Option ℕ × Option String) (selectors : List EvidenceSelector) (slug : is_slug n ≡ true)
    (in_bound : parse_bound version fs ≡ ok bound)
    (in_evidence : selectors_at version fs ≡ ok selectors) where
  abbrev common : String → Fields → Fields
  common kind own =
      common_document version n kind (or_null whole bound.0) (or_null step_route bound.1)
        (evidence_document selectors) own

  selectors-again :
      (kind : String) (own : Fields) → selectors_at version (common kind own) ≡ ok selectors
  selectors-again kind own = elim (version-cases version known) [
    | inl (old, _) ↦ rw old (rw old at in_evidence)
    | inr (not_old, new) ↦
        rw (not_old, new)
          (parse_evidence-reload (get_field "evidence" fs) selectors (rw not_old at in_evidence))
  ]

  common-again :
      (kind : StepKind) (own : Fields) (body : Body)
      → admits version kind ≡ true
      → body_of k version (common (kind_word kind) own) kind ≡ ok body
      → parse_step k version (obj (common (kind_word kind) own))
        ≡ ok (assembled n bound selectors body)
  common-again kind own body admitted in_body =
      parse_step-again k version (common (kind_word kind) own) n kind bound selectors body
        (name-again n slug (
          field "kind" (str (kind_word kind)) (
            field "max_visits" (or_null whole bound.0) (
              field "on_exhausted" (or_null step_route bound.1)
                (field_since 2 version "evidence" (evidence_document selectors) own)))))
        refl admitted
        (parse_bound-reload version fs (common (kind_word kind) own) bound.0 bound.1 in_bound refl
          refl)
        (selectors-again (kind_word kind) own) in_body

  only_common :
      (own : Fields)
      → own ≡ end
      → all_keys (contains (common_fields version)) (common "review" own) ≡ true
  only_common own none_own = elim (version-cases version known) [
    | inl (old, not_new) ↦ rw none_own (simp not_new)
    | inr (not_old, new) ↦ rw none_own (simp new)
  ]

  -- A delivery has neither a bound nor evidence: its fields leave no room for them.
  delivery-again :
      (d : DeliveryBody)
      → delivery_of version fs ≡ ok d
      → leb 3 version ≡ true
      → parse_step k version (obj (delivery_document version n d))
        ≡ ok (assembled n bound selectors (delivery d))
  unfolding body_of
  delivery-again d h admitted =
      let allowed = delivery_of-allowed version fs d h in
      let absent : (key : String)
          → contains (delivery_fields d.action) key ≡ false
          → get_field key fs ≡ none =
        λ key out. all_keys-absent (delivery_fields d.action) key fs allowed out in
      let out = not_common d.action in
      let gs = delivery_document version n d in
      let plain = not_common_document version n d in
      parse_step-again k version gs n a_delivery bound selectors (delivery d) (rw slug refl) refl
        admitted
        (bare_bound version gs plain.0 plain.1
          ∙ sym (bare_bound version fs (absent "max_visits" out.0) (absent "on_exhausted" out.1))
          ∙ in_bound)
        (bare_selectors version gs plain.2
          ∙ sym (bare_selectors version fs (absent "evidence" out.2))
          ∙ in_evidence)
        (rw (delivery_of-reload version n fs d known h) refl)

  pub shown-again :
      (kind : StepKind) (body : Body)
      → admits version kind ≡ true
      → body_of k version fs kind ≡ ok body
      → parse_step k version (obj (shown version n bound selectors body))
        ≡ ok (assembled n bound selectors body)
  unfolding body_of body_document
  shown-again an_agent body admitted h =
      let (a, e, last) = >>=-eq-ok (agent_of k version fs) _ h in
      subst
        (λ x.
          parse_step k version (obj (shown version n bound selectors x))
          ≡ ok (assembled n bound selectors x))
        (ok-same last)
        (common-again an_agent (agent_document version a) (agent a) admitted (
          rw
            (agent_of-reload k version known n "agent" (or_null whole bound.0)
              (or_null step_route bound.1) (evidence_document selectors) fs a e)
            refl))
  shown-again a_command body admitted h =
      let (c, e, last) = >>=-eq-ok (command_of version fs) _ h in
      subst
        (λ x.
          parse_step k version (obj (shown version n bound selectors x))
          ≡ ok (assembled n bound selectors x))
        (ok-same last)
        (common-again a_command (command_document c) (command c) admitted (
          rw
            (command_of-reload k version known n "command" (or_null whole bound.0)
              (or_null step_route bound.1) (evidence_document selectors) fs c e)
            refl))
  shown-again a_decision body admitted h =
      let (d, e, last) = >>=-eq-ok (decision_of k version fs) _ h in
      subst
        (λ x.
          parse_step k version (obj (shown version n bound selectors x))
          ≡ ok (assembled n bound selectors x))
        (ok-same last)
        (common-again a_decision (decision_document version d) (decision d) admitted (
          rw
            (decision_of-reload k version known n "decision" (or_null whole bound.0)
              (or_null step_route bound.1) (evidence_document selectors) fs d e)
            refl))
  shown-again a_gate body admitted h =
      let (g, e, last) = >>=-eq-ok (gate_of k version fs) _ h in
      subst
        (λ x.
          parse_step k version (obj (shown version n bound selectors x))
          ≡ ok (assembled n bound selectors x))
        (ok-same last)
        (common-again a_gate (gate_document version g) (gate g) admitted (
          rw
            (gate_of-reload k version known n "gate" (or_null whole bound.0)
              (or_null step_route bound.1) (evidence_document selectors) fs g e)
            refl))
  shown-again a_review body admitted h =
      let (_, last) = guard-then-eq-ok (all_keys (contains (common_fields version)) fs) _ _ h in
      subst
        (λ x.
          parse_step k version (obj (shown version n bound selectors x))
          ≡ ok (assembled n bound selectors x))
        (ok-same last) (common-again a_review end review admitted (rw (only_common end refl) refl))
  shown-again a_delivery body admitted h =
      let (d, e, last) = >>=-eq-ok (delivery_of version fs) _ h in
      subst
        (λ x.
          parse_step k version (obj (shown version n bound selectors x))
          ≡ ok (assembled n bound selectors x))
        (ok-same last) (delivery-again d e admitted)
  shown-again a_capture body admitted h =
      let (c, e, last) = >>=-eq-ok (capture_of k version fs) _ h in
      subst
        (λ x.
          parse_step k version (obj (shown version n bound selectors x))
          ≡ ok (assembled n bound selectors x))
        (ok-same last)
        (common-again a_capture (capture_document version c) (capture c) admitted (
          rw
            (capture_of-reload k version known n "capture" (or_null whole bound.0)
              (or_null step_route bound.1) (evidence_document selectors) fs c e)
            refl))
