-- ===== src/Workflow/Reload/Definitions.antt =====
-- Whole definitions, read back from their canonical document.
use ompire.Base.{
  >>=-eq-ok, Bool-cases, List, Option, Result, String, [], ap, arith, contains, err,
  guard-then-eq-ok, inl, inr, leb, none, not, ok, ok-same, or_fail-bind-eq-ok, refl, some, subst,
  sym, then-eq-ok, true, ℕ, ◌∙◌, ◌≡◌, ◌≤◌, string_eq, ℕ_eq,
}
use ompire.Base.Int.{ℤ_eq}
use ompire.Json.{Json, get_field, str, text_items}
use ompire.Workflow.Syntax.{Definition, Step}
use ompire.Workflow.Parse.Slug.{is_environment, is_slug}
use ompire.Workflow.Parse.Fields.{
  Parsed, all_keys, is_full, mapping, nonempty, require_slug, require_text, required, text_value,
}
use ompire.Workflow.Parse.Routes.{parse_bound}
use ompire.Workflow.Parse.Gates.{count_items, each_named, own_name}
use ompire.Workflow.Parse.Definitions.{
  admits, body_of, document_fields, environment_of, format_version, is_format, kind_named,
  listed_step, max_steps, parse_step, primitive_definition, raised_as, read_definition,
  reserved_names, routes, session_of, step_name, unread, validate_references,
}
use ompire.Workflow.Print.Routes.{whole}
use ompire.Workflow.Print.Gates.{items_of}
use ompire.Workflow.Print.Definitions.{canonical_document, environment_field, step_document}
use ompire.Workflow.Reload.Values.{Reloads, nonempty-full, require_slug-is_slug}
use ompire.Workflow.Graph.{validate_graph}
use ompire.Workflow.Reload.Gates.{each_named-reload, items_of-texts}
use ompire.Workflow.Reload.Wholes.{selectors_at, shown-again}

parse_step-reload :
    (k version : ℕ) → 1 ≤ version → Reloads (parse_step k version) (step_document version)
unfolding parse_step step_document
parse_step-reload k version known j step h =
    let (fs, _, h₁) = >>=-eq-ok (mapping j) _ h in
    let (n, slug, h₂) = >>=-eq-ok (require_slug fs "name") _ h₁ in
    let (s, _, h₃) = >>=-eq-ok (require_text fs "kind") _ h₂ in
    let (kind, _, h₄) = or_fail-bind-eq-ok (kind_named s) _ _ h₃ in
    let (admitted, h₅) = guard-then-eq-ok (admits version kind) _ _ h₄ in
    let (bound, in_bound, h₆) = >>=-eq-ok (parse_bound version fs) _ h₅ in
    let (selectors, in_evidence, h₇) = >>=-eq-ok (selectors_at version fs) _ h₆ in
    let (body, in_body, last) = >>=-eq-ok (body_of k version fs kind) _ h₇ in
    subst (λ x. parse_step k version (step_document version x) ≡ ok x) (ok-same last)
      (shown-again k version known fs n bound selectors (require_slug-is_slug fs "name" n slug)
        in_bound in_evidence kind body admitted in_body)

listed_step-reload :
    (k version : ℕ) (seen : List String)
    → 1 ≤ version
    → Reloads (listed_step k version seen) (step_document version)
unfolding listed_step
listed_step-reload k version seen known j step h =
    let (s, e, h₁) = >>=-eq-ok (parse_step k version j) _ h in
    let (free, h₂) = guard-then-eq-ok (not (contains reserved_names s.name)) _ _ h₁ in
    let (fresh, last) = guard-then-eq-ok (not (contains seen s.name)) _ _ h₂ in
    subst (λ x. listed_step k version seen (step_document version x) ≡ ok x) (ok-same last)
      (rw (parse_step-reload k version known j s e, free, fresh) refl)

session_of-reload : (seen : List String) → Reloads (session_of seen) str
unfolding session_of
session_of-reload seen j n h =
    let (s, _, h₁) = or_fail-bind-eq-ok (text_value j) _ _ h in
    let (slug, h₂) = guard-then-eq-ok (is_slug s) _ _ h₁ in
    let (free, h₃) = guard-then-eq-ok (not (contains reserved_names s)) _ _ h₂ in
    let (fresh, last) = guard-then-eq-ok (not (contains seen s)) _ _ h₃ in
    subst (λ x. session_of seen (str x) ≡ ok x) (ok-same last) (rw (slug, free, fresh) refl)

abbrev Kept : ℕ → Type 0
Kept n = (1 ≤ n) × (format_version (whole n) ≡ ok n)

found : {a b : ℕ} → ◌≡◌ {A = Parsed ℕ} (ok a) (ok b) → a ≡ b
found h = ok-same h

-- A format that was read is one of five.
format_version-reload :
    (j : Json) (n : ℕ) → format_version j ≡ ok n → (1 ≤ n) × (format_version (whole n) ≡ ok n)
format_version-reload j n h = elim (Bool-cases (is_format 1 j)) [
  | inl e ↦ subst Kept (found (rw e at h)) (omega arith, refl)
  | inr e₁ ↦ elim (Bool-cases (is_format 2 j)) [
    | inl e ↦ subst Kept (found (rw (e₁, e) at h)) (omega arith, refl)
    | inr e₂ ↦ elim (Bool-cases (is_format 3 j)) [
      | inl e ↦ subst Kept (found (rw (e₁, e₂, e) at h)) (omega arith, refl)
      | inr e₃ ↦ elim (Bool-cases (is_format 4 j)) [
        | inl e ↦ subst Kept (found (rw (e₁, e₂, e₃, e) at h)) (omega arith, refl)
        | inr e₄ ↦ elim (Bool-cases (is_format 5 j)) [
          | inl e ↦ subst Kept (found (rw (e₁, e₂, e₃, e₄, e) at h)) (omega arith, refl)
          | inr e₅ ↦ cc (rw (e₁, e₂, e₃, e₄, e₅) at h)
        ]
      ]
    ]
  ]
]

environment-again :
    (o : Option Json) (e : Option String)
    → environment_of o ≡ ok e
    → environment_of (get_field "environment" (environment_field e)) ≡ ok e
environment-again none e h =
    subst (λ x. environment_of (get_field "environment" (environment_field x)) ≡ ok x) (ok-same h)
      refl
environment-again (some j) e h =
    let (s, _, h₁) = or_fail-bind-eq-ok (text_value j) _ _ h in
    let (fits, last) = guard-then-eq-ok (is_environment s) _ _ h₁ in
    subst (λ x. environment_of (get_field "environment" (environment_field x)) ≡ ok x)
      (ok-same last) (rw fits refl)

allowed_environment :
    (e : Option String) → all_keys (contains document_fields) (environment_field e) ≡ true
allowed_environment none = refl
allowed_environment (some s) = refl

read_definition-again :
    (k version : ℕ) (n primary : String) (sessions : List String) (steps : List Step)
    (e : Option String)
    → format_version (whole version) ≡ ok version
    → is_slug n ≡ true
    → environment_of (get_field "environment" (environment_field e)) ≡ ok e
    → is_full (text_items sessions) ≡ true
    → each_named session_of own_name [] (text_items sessions) ≡ ok sessions
    → contains sessions primary ≡ true
    → is_full (items_of (step_document version) steps) ≡ true
    → leb (count_items (items_of (step_document version) steps)) max_steps ≡ true
    → each_named (listed_step k version) step_name [] (items_of (step_document version) steps)
      ≡ ok steps
    → (d : Definition)
    → d ≡ record {
      format = version;
      name = n;
      sessions = sessions;
      primary = primary;
      steps = steps;
      composition = none;
      environment = e;
    }
    → read_definition k (canonical_document d) ≡ ok d
unfolding read_definition canonical_document
read_definition-again k version n primary sessions steps e v slug environment s_full s_again listed
      full few again d same =
    subst (λ x. read_definition k (canonical_document x) ≡ ok x) (sym same)
      (rw (allowed_environment e, v, slug, environment, s_full, s_again, listed, full, few, again)
        refl)

read_definition-reload : (k : ℕ) → Reloads (read_definition k) canonical_document
unfolding read_definition
read_definition-reload k j d h =
    let (fs, _, h₁) = >>=-eq-ok (mapping j) _ h in
    let (_, h₂) = guard-then-eq-ok (all_keys (contains document_fields) fs) _ _ h₁ in
    let (vj, _, h₃) = >>=-eq-ok (required fs "format") _ h₂ in
    let (version, v, h₄) = >>=-eq-ok (format_version vj) _ h₃ in
    let (n, slug, h₅) = >>=-eq-ok (require_slug fs "name") _ h₄ in
    let (environment, e, h₆) = >>=-eq-ok (environment_of (get_field "environment" fs)) _ h₅ in
    let (names, e₂, h₇) = >>=-eq-ok (nonempty fs "sessions") _ h₆ in
    let (sessions, e₃, h₈) = >>=-eq-ok (each_named session_of own_name [] names) _ h₇ in
    let (primary, _, h₉) = >>=-eq-ok (require_text fs "primary") _ h₈ in
    let (listed, h₁₀) = guard-then-eq-ok (contains sessions primary) _ _ h₉ in
    let (raw, e₄, h₁₁) = >>=-eq-ok (nonempty fs "steps") _ h₁₀ in
    let (few, h₁₂) = guard-then-eq-ok (leb (count_items raw) max_steps) _ _ h₁₁ in
    let (steps, e₅, last) = >>=-eq-ok (each_named (listed_step k version) step_name [] raw) _ h₁₂ in
    let (known, v_again) = format_version-reload vj version v in
    let (s_again, _, s_full) =
      subst
        (λ x.
          (each_named session_of own_name [] x ≡ ok sessions)
          × (count_items x ≡ count_items names)
          × (is_full x ≡ is_full names))
        (items_of-texts sessions)
        (each_named-reload session_of own_name str [] names sessions session_of-reload e₃) in
    let (again, counted, full) =
      each_named-reload (listed_step k version) step_name (step_document version) [] raw steps
        (λ seen. listed_step-reload k version seen known) e₅ in
    read_definition-again k version n primary sessions steps environment v_again
      (require_slug-is_slug fs "name" n slug)
      (environment-again (get_field "environment" fs) environment e)
      (s_full ∙ nonempty-full fs "sessions" names e₂) s_again listed
      (full ∙ nonempty-full fs "steps" raw e₄) (rw counted few) again d (sym (ok-same last))

raised_as-eq-ok :
    {E F : Type 0} {A : Type 0} (f : E → F) (m : Result E A) (a : A)
    → raised_as f m ≡ ok a
    → m ≡ ok a
raised_as-eq-ok f (ok b) a h = ap ok (ok-same h)
raised_as-eq-ok f (err e) a h = cc

-- A definition that was read from any document is read again, the same, from its canonical document:
-- the canonical document of each definition that the parser gives, of every format up to the last,
-- passes the parser and all of its checks.
pub primitive_definition-reload :
    (k : ℕ) (j : Json) (d : Definition)
    → primitive_definition k j ≡ ok d
    → primitive_definition k (canonical_document d) ≡ ok d
unfolding primitive_definition
primitive_definition-reload k j d h =
    let (d', e, h₁) = >>=-eq-ok (raised_as unread (read_definition k j)) _ h in
    let (linked, h₂) = then-eq-ok (validate_references d') _ h₁ in
    let (graph, last) = then-eq-ok (raised_as routes (validate_graph d')) _ h₂ in
    subst (λ x. primitive_definition k (canonical_document x) ≡ ok x) (ok-same last)
      (rw
        (
          read_definition-reload k j d' (raised_as-eq-ok unread (read_definition k j) d' e),
          linked,
          graph,
        )
        refl)
