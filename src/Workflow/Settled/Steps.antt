-- ===== src/Workflow/Settled/Steps.antt =====
-- The fuel that the classes of steps need, workflow_definitions.py.
use ompire.Base.{
  Bool, Option, [], arith, contains, false, if◌then◌else◌, leb, none, ok, or_fail, refl, some, suc,
  true, ℕ, ◌++◌, ◌==◌, ◌>>=◌, ◌∷◌, ◌≡◌, ◌≤◌, string_eq, ℕ_eq,
}
use ompire.Base.Int.{negsuc, pos, ℤ_eq}
use ompire.Json.{Dyadic, Fields, Json, arr, bool, float, get_field, int, null, obj, str}
use ompire.Workflow.Syntax.{DeliveryAction}
use ompire.Workflow.Parse.Slug.{is_capture_root}
use ompire.Workflow.Parse.Fields.{
  Parsed, all_keys, flag, mapping, nonempty, nonempty_texts, require_slug, require_text, required,
  text_value, too_large, wrong,
}
use ompire.Workflow.Parse.Depth.{
  Settles, bind-settled, fields_depth, flag-settled, get_field-depth, guard-settled, items_depth,
  mapping-settled, nonempty-depth, nonempty-settled, or_fail-settled, require_slug-settled,
  require_text-settled, required-depth, settled, texts_of-settled,
}
use ompire.Workflow.Parse.Predicates.{parse_predicate}
use ompire.Workflow.Parse.Texts.{parse_text}
use ompire.Workflow.Parse.Routes.{optional, parse_destination}
use ompire.Workflow.Parse.Contracts.{parse_outcome}
use ompire.Workflow.Parse.Gates.{count_items, parse_choices, parse_gate_delivery, parse_gate_result}
use ompire.Workflow.Parse.Steps.{
  action_named, agent_fields, agent_of, all_distinct, capture_of, capture_root, case_of, checked,
  command_of, common_fields, decision_of, delivery_fields, delivery_of, each_of, float_of,
  gate_fields, gate_of, is_commit, is_positive, is_set, max_capture, mode_and_previous, mode_named,
  model_roles, role_of, timeout_of, when_of,
}
use ompire.Workflow.Settled.Predicates.{parse_predicate-settled}
use ompire.Workflow.Settled.Texts.{parse_text-settled}
use ompire.Workflow.Settled.Routes.{
  each_of-settled, mapping-within, optional-settled, parse_destination-settled,
}
use ompire.Workflow.Settled.Contracts.{parse_outcome-settled}
use ompire.Workflow.Settled.Gates.{
  parse_choices-settled, parse_gate_delivery-settled, parse_gate_result-settled,
}

role_of-settled : (o : Option Json) → settled (role_of o) ≡ true
role_of-settled none = refl
role_of-settled (some j) =
    bind-settled (or_fail (text_value j) (wrong "role")) _ (or_fail-settled (text_value j) _ refl)
      λ s _. guard-settled (contains model_roles s) _ _ refl refl

when_of-settled :
    (k version : ℕ) (fs : Fields)
    → fields_depth fs ≤ k
    → (o : Option Json) → get_field "when" fs ≡ o
    → settled (when_of (parse_predicate k version) o) ≡ true
when_of-settled k version fs d none e = refl
when_of-settled k version fs d (some j) e =
    let within = get_field-depth "when" fs j e in parse_predicate-settled k version j (omega arith)

either-settled {ℓ} :
    {A : Type ℓ} (b : Bool) (m m' : Parsed A)
    → settled m ≡ true
    → settled m' ≡ true
    → settled (if b then m else m') ≡ true
either-settled true m m' h h' = h
either-settled false m m' h h' = h'

checked-settled : (d : Dyadic) → settled (checked d) ≡ true
checked-settled d = guard-settled (is_positive d) _ _ refl refl

timeout_of-settled : (o : Option Json) → settled (timeout_of o) ≡ true
timeout_of-settled none = refl
timeout_of-settled (some null) = refl
timeout_of-settled (some (bool _)) = refl
timeout_of-settled (some (int (pos n))) =
    bind-settled (or_fail (float_of n) too_large) _ (or_fail-settled (float_of n) _ refl)
      λ m _. checked-settled (record { numerator = pos m; scale = 0 })
timeout_of-settled (some (int (negsuc n))) =
    bind-settled (or_fail (float_of (suc n)) too_large) _
      (or_fail-settled (float_of (suc n)) _ refl) λ m _. refl
timeout_of-settled (some (float d)) = checked-settled d
timeout_of-settled (some (str _)) = refl
timeout_of-settled (some (arr _)) = refl
timeout_of-settled (some (obj _)) = refl

pub command_of-settled : (version : ℕ) (fs : Fields) → settled (command_of version fs) ≡ true
unfolding command_of
command_of-settled version fs =
    guard-settled
      (all_keys (contains (common_fields version ++ ("argv" ∷ "timeout" ∷ "idempotent" ∷ []))) fs) _
      _ refl
      (bind-settled (nonempty_texts fs "argv") _
        (bind-settled (nonempty fs "argv") _ (nonempty-settled fs "argv")
          λ js _. texts_of-settled "argv" js)
        λ argv _.
          bind-settled (timeout_of (get_field "timeout" fs)) _
            (timeout_of-settled (get_field "timeout" fs))
            λ t _. guard-settled (is_set (get_field "idempotent" fs)) _ _ refl refl)

capture_root-settled : (j : Json) → settled (capture_root j) ≡ true
unfolding capture_root
capture_root-settled j =
    bind-settled (or_fail (text_value j) (wrong "allowlist")) _
      (or_fail-settled (text_value j) _ refl) λ s _. guard-settled (is_capture_root s) _ _ refl refl

mode_and_previous-settled :
    (a : DeliveryAction) (fs : Fields) → settled (mode_and_previous a fs) ≡ true
mode_and_previous-settled a fs =
    either-settled (is_commit a) _ _
      (bind-settled (require_text fs "mode") _ (require_text-settled fs "mode") λ s _.
        bind-settled (or_fail (mode_named s) (wrong "mode")) _
          (or_fail-settled (mode_named s) _ refl) λ m _. refl)
      (bind-settled (require_text fs "previous") _ (require_text-settled fs "previous") λ s _. refl)

pub delivery_of-settled : (version : ℕ) (fs : Fields) → settled (delivery_of version fs) ≡ true
unfolding delivery_of
delivery_of-settled version fs =
    bind-settled (require_text fs "action") _ (require_text-settled fs "action") λ s _.
      bind-settled (or_fail (action_named s) (wrong "action")) _
        (or_fail-settled (action_named s) _ refl)
        λ a _. guard-settled (all_keys (contains (delivery_fields a)) fs) _ _ refl (
          bind-settled (mode_and_previous a fs) _ (mode_and_previous-settled a fs) λ both _.
            bind-settled (required fs "next") _ (or_fail-settled (get_field "next" fs) _ refl)
              λ nj _.
                bind-settled (require_text fs "approval") _ (require_text-settled fs "approval")
                  λ p _.
                    bind-settled (parse_destination version false nj) _
                      (parse_destination-settled version false nj) λ next _. refl)

module _ (k version : ℕ) (fs : Fields) (d : fields_depth fs ≤ k) where
  pub agent_of-settled : settled (agent_of k version fs) ≡ true
  unfolding agent_of
  agent_of-settled = guard-settled (all_keys (contains (agent_fields version)) fs) _ _ refl (
      bind-settled (role_of (get_field "role" fs)) _ (role_of-settled (get_field "role" fs))
        λ role _.
          bind-settled (if version == 1 then flag fs "expects_outcome" false else ok false) _
            (either-settled (version == 1) _ _ (flag-settled fs "expects_outcome" false) refl)
            λ b _.
              bind-settled
                (if version == 1 then ok none else (required fs "outcome" >>= parse_outcome)) _
                (either-settled (version == 1) _ _ refl (
                  bind-settled (required fs "outcome") _
                    (or_fail-settled (get_field "outcome" fs) _ refl)
                    λ j _. parse_outcome-settled j))
                λ outcome _.
                  bind-settled (required fs "prompt") _
                    (or_fail-settled (get_field "prompt" fs) _ refl)
                    λ j e.
                      let within = required-depth fs "prompt" j e in
                      bind-settled (require_text fs "session") _ (require_text-settled fs "session")
                        λ s _.
                          bind-settled (parse_text k version j) _
                            (parse_text-settled k version j (omega arith))
                            λ p _.
                              bind-settled
                                (when_of (parse_predicate k version) (get_field "when" fs)) _
                                (when_of-settled k version fs d (get_field "when" fs) refl)
                                λ w _. refl)

  case_of-settled : Settles k (case_of k version)
  unfolding case_of
  case_of-settled j deep = bind-settled (mapping j) _ (mapping-settled j) λ gs e.
      let inside = mapping-within k j gs e deep in
      guard-settled (all_keys (contains ("when" ∷ "next" ∷ [])) gs) _ _ refl (
        bind-settled (required gs "when") _ (or_fail-settled (get_field "when" gs) _ refl) λ wj e'.
          let within = required-depth gs "when" wj e' in
          bind-settled (required gs "next") _ (or_fail-settled (get_field "next" gs) _ refl) λ nj _.
            bind-settled (parse_predicate k version wj) _
              (parse_predicate-settled k version wj (omega arith))
              λ w _.
                bind-settled (parse_destination version true nj) _
                  (parse_destination-settled version true nj) λ n _. refl)

  pub decision_of-settled : settled (decision_of k version fs) ≡ true
  unfolding decision_of
  decision_of-settled =
      guard-settled (all_keys (contains (common_fields version ++ ("cases" ∷ "otherwise" ∷ []))) fs)
        _ _ refl
        (bind-settled (nonempty fs "cases") _ (nonempty-settled fs "cases") λ raw e.
          let within = nonempty-depth fs "cases" raw e in
          bind-settled (each_of (case_of k version) raw) _
            (each_of-settled k (case_of k version) raw case_of-settled (omega arith))
            λ cases _.
              bind-settled (required fs "otherwise") _
                (or_fail-settled (get_field "otherwise" fs) _ refl)
                λ oj _.
                  bind-settled (parse_destination version true oj) _
                    (parse_destination-settled version true oj) λ o _. refl)

  pub capture_of-settled : settled (capture_of k version fs) ≡ true
  unfolding capture_of
  capture_of-settled =
      guard-settled
        (all_keys
          (contains (common_fields version ++ ("producer" ∷ "paths" ∷ "allowlist" ∷ "next" ∷ [])))
          fs)
        _ _ refl
        (bind-settled (require_slug fs "producer") _ (require_slug-settled fs "producer") λ p _.
          bind-settled (nonempty fs "paths") _ (nonempty-settled fs "paths") λ raw e.
            let within = nonempty-depth fs "paths" raw e in
            guard-settled (leb (count_items raw) max_capture) _ _ refl (
              bind-settled (nonempty fs "allowlist") _ (nonempty-settled fs "allowlist") λ roots _.
                guard-settled (leb (count_items roots) max_capture) _ _ refl (
                  bind-settled (each_of capture_root roots) _
                    (each_of-settled (items_depth roots) capture_root roots
                      (λ j _. capture_root-settled j) (omega arith))
                    λ allowlist _. guard-settled (all_distinct allowlist) _ _ refl (
                      bind-settled (required fs "next") _
                        (or_fail-settled (get_field "next" fs) _ refl)
                        λ nj _.
                          bind-settled (each_of (parse_text k version) raw) _
                            (each_of-settled k (parse_text k version) raw
                              (parse_text-settled k version) (omega arith))
                            λ paths _.
                              bind-settled (parse_destination version true nj) _
                                (parse_destination-settled version true nj) λ n _. refl))))

  pub gate_of-settled : settled (gate_of k version fs) ≡ true
  unfolding gate_of
  gate_of-settled = guard-settled (all_keys (contains (gate_fields version)) fs) _ _ refl (
      bind-settled (required fs "message") _ (or_fail-settled (get_field "message" fs) _ refl)
        λ mj e.
          let within = required-depth fs "message" mj e in
          bind-settled (parse_text k version mj) _ (parse_text-settled k version mj (omega arith))
            λ m _.
              bind-settled
                (if version == 1 then ok [] else parse_choices version (get_field "choices" fs)) _
                (either-settled (version == 1) _ _ refl
                  (parse_choices-settled version (get_field "choices" fs)))
                λ cs _.
                  bind-settled (optional (parse_gate_delivery k version) (get_field "delivery" fs))
                    _
                    (optional-settled (parse_gate_delivery k version) (get_field "delivery" fs)
                      λ j e'.
                        let inside = get_field-depth "delivery" fs j e' in
                        parse_gate_delivery-settled k version j (omega arith))
                    λ b _.
                      bind-settled (optional parse_gate_result (get_field "result" fs)) _
                        (optional-settled parse_gate_result (get_field "result" fs)
                          λ j _. parse_gate_result-settled j)
                        λ r _. refl)
