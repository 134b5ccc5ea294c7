-- ===== src/Workflow/Settled/Definitions.antt =====
-- The fuel that whole definitions need, workflow_definitions.py.
use ompire.Base.{
  Bool-cases, List, Option, String, [], arith, contains, find, if◌then◌else◌, inl, inr, leb, none,
  not, ok, or_fail, refl, some, true, ℕ, ◌==◌, ◌≡◌, ◌≤◌, string_eq, ℕ_eq,
}
use ompire.Json.{Fields, Json, get_field}
use ompire.Workflow.Parse.Slug.{is_environment, is_slug}
use ompire.Workflow.Parse.Fields.{
  all_keys, mapping, nonempty, require_slug, require_text, required, text_value, wrong,
}
use ompire.Workflow.Parse.Depth.{
  Settles, bind-settled, fields_depth, guard-settled, items_depth, mapping-settled, nonempty-depth,
  nonempty-settled, or_fail-settled, require_slug-settled, require_text-settled, settled,
}
use ompire.Workflow.Parse.Routes.{parse_bound}
use ompire.Workflow.Parse.Contracts.{parse_evidence}
use ompire.Workflow.Parse.Gates.{count_items, each_named, own_name}
use ompire.Workflow.Parse.Steps.{
  agent_of, capture_of, command_of, common_fields, decision_of, delivery_of, gate_of,
}
use ompire.Workflow.Parse.Definitions.{
  StepKind, a_capture, a_command, a_decision, a_delivery, a_gate, a_review, admits, an_agent,
  body_of, document_fields, environment_of, format_version, is_format, kind_named, listed_step,
  max_steps, parse_step, read_definition, reserved_names, session_of, step_name, supported_formats,
}
use ompire.Workflow.Settled.Routes.{each_named-settled, mapping-within, parse_bound-settled}
use ompire.Workflow.Settled.Contracts.{parse_evidence-settled}
use ompire.Workflow.Settled.Steps.{
  agent_of-settled, capture_of-settled, command_of-settled, decision_of-settled,
  delivery_of-settled, gate_of-settled,
}

body_of-settled :
    (k version : ℕ) (fs : Fields) (kind : StepKind)
    → fields_depth fs ≤ k
    → settled (body_of k version fs kind) ≡ true
unfolding body_of
body_of-settled k version fs an_agent d =
    bind-settled (agent_of k version fs) _ (agent_of-settled k version fs d) λ a _. refl
body_of-settled k version fs a_command d =
    bind-settled (command_of version fs) _ (command_of-settled version fs) λ c _. refl
body_of-settled k version fs a_decision d =
    bind-settled (decision_of k version fs) _ (decision_of-settled k version fs d) λ a _. refl
body_of-settled k version fs a_gate d =
    bind-settled (gate_of k version fs) _ (gate_of-settled k version fs d) λ g _. refl
body_of-settled k version fs a_review d =
    guard-settled (all_keys (contains (common_fields version)) fs) _ _ refl refl
body_of-settled k version fs a_delivery d =
    bind-settled (delivery_of version fs) _ (delivery_of-settled version fs) λ a _. refl
body_of-settled k version fs a_capture d =
    bind-settled (capture_of k version fs) _ (capture_of-settled k version fs d) λ c _. refl

parse_step-settled : (k version : ℕ) → Settles k (parse_step k version)
unfolding parse_step
parse_step-settled k version j d = bind-settled (mapping j) _ (mapping-settled j) λ fs e.
    bind-settled (require_slug fs "name") _ (require_slug-settled fs "name") λ n _.
      bind-settled (require_text fs "kind") _ (require_text-settled fs "kind") λ s _.
        bind-settled (or_fail (kind_named s) (wrong "kind")) _
          (or_fail-settled (kind_named s) _ refl)
          λ kind _. guard-settled (admits version kind) _ _ refl (
            bind-settled (parse_bound version fs) _ (parse_bound-settled version fs) λ bound _.
              bind-settled
                (if version == 1 then ok [] else parse_evidence (get_field "evidence" fs)) _
                (selectors-settled version fs)
                λ selectors _.
                  bind-settled (body_of k version fs kind) _
                    (body_of-settled k version fs kind (mapping-within k j fs e d)) λ body _. refl)
  where
    selectors-settled :
        (version : ℕ) (fs : Fields)
        → settled (if version == 1 then ok [] else parse_evidence (get_field "evidence" fs)) ≡ true
    selectors-settled version fs = elim (Bool-cases (version == 1)) [
      | inl old ↦ rw old refl
      | inr new ↦ rw new (parse_evidence-settled (get_field "evidence" fs))
    ]

listed_step-settled : (k version : ℕ) (seen : List String) → Settles k (listed_step k version seen)
unfolding listed_step
listed_step-settled k version seen j d =
    bind-settled (parse_step k version j) _ (parse_step-settled k version j d) λ s _.
      guard-settled (not (contains reserved_names s.name)) _ _ refl
        (guard-settled (not (contains seen s.name)) _ _ refl refl)

session_of-settled : (seen : List String) (j : Json) → settled (session_of seen j) ≡ true
unfolding session_of
session_of-settled seen j =
    bind-settled (or_fail (text_value j) (wrong "sessions")) _
      (or_fail-settled (text_value j) _ refl)
      λ s _. guard-settled (is_slug s) _ _ refl (
        guard-settled (not (contains reserved_names s)) _ _ refl
          (guard-settled (not (contains seen s)) _ _ refl refl))

environment_of-settled : (o : Option Json) → settled (environment_of o) ≡ true
environment_of-settled none = refl
environment_of-settled (some j) =
    bind-settled (or_fail (text_value j) (wrong "environment")) _
      (or_fail-settled (text_value j) _ refl) λ s _. guard-settled (is_environment s) _ _ refl refl

-- The parser of definitions, given the depth of the document as fuel, never runs out of it: whatever
-- the document, it returns a definition or raises.
pub read_definition-settled : (k : ℕ) → Settles k (read_definition k)
unfolding read_definition
read_definition-settled k j d = bind-settled (mapping j) _ (mapping-settled j) λ fs e.
    let inside = mapping-within k j fs e d in
    guard-settled (all_keys (contains document_fields) fs) _ _ refl (
      bind-settled (required fs "format") _ (or_fail-settled (get_field "format" fs) _ refl) λ vj _.
        bind-settled (format_version vj) _
          (or_fail-settled (find (λ n. is_format n vj) supported_formats) _ refl)
          λ v _. bind-settled (require_slug fs "name") _ (require_slug-settled fs "name") λ n _.
            bind-settled (environment_of (get_field "environment" fs)) _
              (environment_of-settled (get_field "environment" fs))
              λ env _.
                bind-settled (nonempty fs "sessions") _ (nonempty-settled fs "sessions") λ names _.
                  bind-settled (each_named session_of own_name [] names) _
                    (each_named-settled (items_depth names) session_of own_name [] names
                      (λ seen i _. session_of-settled seen i) (omega arith))
                    λ sessions _.
                      bind-settled (require_text fs "primary") _ (require_text-settled fs "primary")
                        λ p _. guard-settled (contains sessions p) _ _ refl (
                          bind-settled (nonempty fs "steps") _ (nonempty-settled fs "steps")
                            λ raw e'.
                              let within = nonempty-depth fs "steps" raw e' in
                              guard-settled (leb (count_items raw) max_steps) _ _ refl (
                                bind-settled (each_named (listed_step k v) step_name [] raw) _
                                  (each_named-settled k (listed_step k v) step_name [] raw
                                    (listed_step-settled k v) (omega arith))
                                  λ steps _. refl)))
