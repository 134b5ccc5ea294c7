-- ===== src/Workflow/Reload/Bodies.antt =====
-- What a reader of a class of steps gave is read back after any values of the common fields.
use ompire.Base.{
  >>=-eq-ok, Bool, Option, String, [], contains, false, guard-then-eq-ok, if◌then◌else◌, none, ok,
  ok-same, or_fail-bind-eq-ok, refl, some, subst, suc, sym, true, zero, ℕ, ◌++◌, ◌==◌, ◌>>=◌, ◌∙◌,
  ◌∷◌, ◌≡◌, ◌≤◌, string_eq, ℕ_eq,
}
use ompire.Base.Int.{negsuc, pos, ℤ_eq}
use ompire.Json.{Dyadic, Fields, Json, arr, bool, float, get_field, int, null, obj, str}
use ompire.Workflow.Syntax.{Agent, Command, DecisionBody, OutcomeContract, Predicate, TextDocument}
use ompire.Workflow.Parse.Slug.{is_capture_root}
use ompire.Workflow.Parse.Fields.{
  Parsed, all_keys, flag, mapping, nonempty, nonempty_texts, require_text, required, text_value,
}
use ompire.Workflow.Parse.Predicates.{parse_predicate}
use ompire.Workflow.Parse.Texts.{parse_text}
use ompire.Workflow.Parse.Routes.{optional, parse_destination}
use ompire.Workflow.Parse.Contracts.{parse_outcome}
use ompire.Workflow.Parse.Steps.{
  agent_fields, agent_of, capture_root, case_of, command_of, common_fields, decision_of, each_of,
  float_of, is_set, model_roles, is_positive, role_of, timeout_of, when_of,
}
use ompire.Workflow.Print.Texts.{predicate_document}
use ompire.Workflow.Print.Routes.{or_null}
use ompire.Workflow.Print.Contracts.{outcome_document}
use ompire.Workflow.Print.Steps.{
  agent_document, case_document, command_document, common_document, decision_document,
}
use ompire.Workflow.Reload.Values.{Reloads, nonempty-full, texts-full}
use ompire.Workflow.Reload.Predicates.{parse_predicate-reload}
use ompire.Workflow.Reload.Texts.{parse_text-reload}
use ompire.Workflow.Reload.Routes.{parse_destination-reload}
use ompire.Workflow.Reload.Contracts.{parse_outcome-reload}
use ompire.Workflow.Reload.Steps.{
  agent_of-again, command_of-again, decision_of-again, each_of-reload,
}

role_of-known : (o : Option Json) (s : String) → role_of o ≡ ok s → contains model_roles s ≡ true
role_of-known none s h = subst (λ x. contains model_roles x ≡ true) (ok-same h) refl
role_of-known (some j) s h =
    let (t, _, h₁) = or_fail-bind-eq-ok (text_value j) _ _ h in
    let (listed, last) = guard-then-eq-ok (contains model_roles t) _ _ h₁ in
    subst (λ x. contains model_roles x ≡ true) (ok-same last) listed

when_of-reload :
    (k version : ℕ) (o : Option Json) (p : Predicate)
    → when_of (parse_predicate k version) o ≡ ok p
    → (shown : Json) (t : TextDocument) → parse_text k version shown ≡ ok t
    → parse_predicate k version (predicate_document p) ≡ ok p
unfolding parse_predicate predicate_document parse_text
when_of-reload k version (some j) p h shown t e = parse_predicate-reload k version j p h
when_of-reload zero version none p h shown t e = cc
when_of-reload (suc k) version none p h shown t e =
    subst (λ x. parse_predicate (suc k) version (predicate_document x) ≡ ok x) (ok-same h) refl

-- A field that only the later formats have, or only the first one.
old_only {ℓ} :
    {A : Type ℓ} (b : Bool) (m : Parsed A) (default a : A)
    → (if b then m else ok default) ≡ ok a
    → b ≡ false
    → a ≡ default
old_only true m default a h e = cc
old_only false m default a h e = sym (ok-same h)

pub new_only {ℓ} :
    {A : Type ℓ} (b : Bool) (m : Parsed A) (default a : A)
    → (if b then ok default else m) ≡ ok a
    → b ≡ true
    → a ≡ default
new_only true m default a h e = sym (ok-same h)
new_only false m default a h e = cc

no_outcome : parse_outcome (or_null outcome_document none) ≡ ok none
unfolding parse_outcome optional
no_outcome = refl

outcome-again :
    (b : Bool) (fs : Fields) (o : Option OutcomeContract)
    → (if b then ok none else (required fs "outcome" >>= parse_outcome)) ≡ ok o
    → parse_outcome (or_null outcome_document o) ≡ ok o
outcome-again true fs o h =
    subst (λ x. parse_outcome (or_null outcome_document x) ≡ ok x) (ok-same h) no_outcome
outcome-again false fs o h =
    let (j, _, last) = >>=-eq-ok (required fs "outcome") _ h in parse_outcome-reload j o last

timeout_of-is_positive : (o : Option Json) (d : Dyadic) → timeout_of o ≡ ok d → is_positive d ≡ true
timeout_of-is_positive none d h = subst (λ x. is_positive x ≡ true) (ok-same h) refl
timeout_of-is_positive (some (float e)) d h =
    let (long, last) = guard-then-eq-ok (is_positive e) _ _ h in
    subst (λ x. is_positive x ≡ true) (ok-same last) long
timeout_of-is_positive (some (int (pos n))) d h =
    let (m, _, h₁) = or_fail-bind-eq-ok (float_of n) _ _ h in
    let (long, last) =
      guard-then-eq-ok (is_positive (record { numerator = pos m; scale = 0 })) _ _ h₁ in
    subst (λ x. is_positive x ≡ true) (ok-same last) long
timeout_of-is_positive (some (int (negsuc n))) d h =
    let (m, _, h₁) = or_fail-bind-eq-ok (float_of (suc n)) _ _ h in cc
timeout_of-is_positive (some null) d h = cc
timeout_of-is_positive (some (bool _)) d h = cc
timeout_of-is_positive (some (str _)) d h = cc
timeout_of-is_positive (some (arr _)) d h = cc
timeout_of-is_positive (some (obj _)) d h = cc

case_of-reload : (k version : ℕ) → 1 ≤ version → Reloads (case_of k version) (case_document version)
unfolding case_of
case_of-reload k version known j c h =
    let (fs, _, h₁) = >>=-eq-ok (mapping j) _ h in
    let (_, h₂) = guard-then-eq-ok (all_keys (contains ("when" ∷ "next" ∷ [])) fs) _ _ h₁ in
    let (wj, _, h₃) = >>=-eq-ok (required fs "when") _ h₂ in
    let (nj, _, h₄) = >>=-eq-ok (required fs "next") _ h₃ in
    let (when, e, h₅) = >>=-eq-ok (parse_predicate k version wj) _ h₄ in
    let (next, e', last) = >>=-eq-ok (parse_destination version true nj) _ h₅ in
    subst (λ x. case_of k version (case_document version x) ≡ ok x) (ok-same last)
      (rw
        (
          parse_predicate-reload k version wj when e,
          parse_destination-reload version true known nj next e',
        )
        refl)

pub capture_root-reload : Reloads capture_root str
unfolding capture_root
capture_root-reload j s h =
    let (t, _, h₁) = or_fail-bind-eq-ok (text_value j) _ _ h in
    let (fits, last) = guard-then-eq-ok (is_capture_root t) _ _ h₁ in
    subst (λ x. capture_root (str x) ≡ ok x) (ok-same last) (rw fits refl)

module _ (k version : ℕ) (known : 1 ≤ version) (n kind : String)
    (most exhaustion selectors : Json) where
  abbrev first_part : Fields → Fields
  first_part own = common_document version n kind most exhaustion selectors own

  pub agent_of-reload :
      (fs : Fields) (a : Agent)
      → agent_of k version fs ≡ ok a
      → agent_of k version (first_part (agent_document version a)) ≡ ok a
  unfolding agent_of
  agent_of-reload fs a h =
      let (_, h₁) = guard-then-eq-ok (all_keys (contains (agent_fields version)) fs) _ _ h in
      let (role, e, h₂) = >>=-eq-ok (role_of (get_field "role" fs)) _ h₁ in
      let (expects, e₂, h₃) =
        >>=-eq-ok (if version == 1 then flag fs "expects_outcome" false else ok false) _ h₂ in
      let (outcome, e₃, h₄) =
        >>=-eq-ok (if version == 1 then ok none else (required fs "outcome" >>= parse_outcome)) _
          h₃ in
      let (written, _, h₅) = >>=-eq-ok (required fs "prompt") _ h₄ in
      let (session, _, h₆) = >>=-eq-ok (require_text fs "session") _ h₅ in
      let (prompt, e₄, h₇) = >>=-eq-ok (parse_text k version written) _ h₆ in
      let (when, e₅, last) =
        >>=-eq-ok (when_of (parse_predicate k version) (get_field "when" fs)) _ h₇ in
      subst (λ x. agent_of k version (first_part (agent_document version x)) ≡ ok x) (ok-same last)
        (agent_of-again k version known n kind most exhaustion selectors session role prompt expects
          when outcome (role_of-known (get_field "role" fs) role e)
          (parse_text-reload k version written prompt e₄)
          (when_of-reload k version (get_field "when" fs) when e₅ written prompt e₄)
          (outcome-again (version == 1) fs outcome e₃)
          (new_only (version == 1) (required fs "outcome" >>= parse_outcome) none outcome e₃)
          (old_only (version == 1) (flag fs "expects_outcome" false) false expects e₂))

  pub command_of-reload :
      (fs : Fields) (c : Command)
      → command_of version fs ≡ ok c
      → command_of version (first_part (command_document c)) ≡ ok c
  unfolding command_of
  command_of-reload fs c h =
      let (_, h₁) =
        guard-then-eq-ok
          (all_keys (contains (common_fields version ++ ("argv" ∷ "timeout" ∷ "idempotent" ∷ [])))
            fs)
          _ _ h in
      let (argv, e, h₂) = >>=-eq-ok (nonempty_texts fs "argv") _ h₁ in
      let (timeout, e₂, h₃) = >>=-eq-ok (timeout_of (get_field "timeout" fs)) _ h₂ in
      let (_, last) = guard-then-eq-ok (is_set (get_field "idempotent" fs)) _ _ h₃ in
      let (full, again) = texts-full fs "argv" argv e in
      subst (λ x. command_of version (first_part (command_document x)) ≡ ok x) (ok-same last)
        (command_of-again k version known n kind most exhaustion selectors argv timeout full again
          (timeout_of-is_positive (get_field "timeout" fs) timeout e₂))

  pub decision_of-reload :
      (fs : Fields) (d : DecisionBody)
      → decision_of k version fs ≡ ok d
      → decision_of k version (first_part (decision_document version d)) ≡ ok d
  unfolding decision_of
  decision_of-reload fs d h =
      let (_, h₁) =
        guard-then-eq-ok
          (all_keys (contains (common_fields version ++ ("cases" ∷ "otherwise" ∷ []))) fs) _ _ h in
      let (raw, e, h₂) = >>=-eq-ok (nonempty fs "cases") _ h₁ in
      let (cases, e₂, h₃) = >>=-eq-ok (each_of (case_of k version) raw) _ h₂ in
      let (oj, _, h₄) = >>=-eq-ok (required fs "otherwise") _ h₃ in
      let (otherwise, e₃, last) = >>=-eq-ok (parse_destination version true oj) _ h₄ in
      let (same, _, full) =
        each_of-reload (case_of k version) (case_document version) raw cases
          (case_of-reload k version known) e₂ in
      subst (λ x. decision_of k version (first_part (decision_document version x)) ≡ ok x)
        (ok-same last)
        (decision_of-again k version known n kind most exhaustion selectors cases otherwise
          (full ∙ nonempty-full fs "cases" raw e) same
          (parse_destination-reload version true known oj otherwise e₃))
