-- ===== src/Workflow/Reload/Predicates.antt =====
-- Predicates, read back from their canonical document.
use ompire.Base.{
  >>=-eq-ok, [], contains, false, guard-then-eq-ok, ok, ok-same, or_fail, or_fail-bind-eq-ok, refl,
  some, subst, suc, true, zero, ℕ, ◌>>=◌, ◌∙◌, ◌∷◌, ◌≡◌, string_eq, ℕ_eq,
}
use ompire.Json.{Fields, Items, Json, arr, bool, cons, float, get_field, int, nil, null, obj, str}
use ompire.Workflow.Syntax.{
  Comparison, JsonType, Junction, Predicate, Predicates, array, boolean, eq, every, gt, gte,
  integer, lt, lte, ne, null_type, number, object, some_of, string,
}
use ompire.Workflow.Parse.Fields.{
  Parsed, all_keys, is_full, mapping, nonempty, require_text, required, text_value,
  unknown_operation, wrong,
}
use ompire.Workflow.Parse.Values.{parse_value}
use ompire.Workflow.Parse.Predicates.{
  PredicateOp, compare_op, comparison_named, exists_op, is_type_op, junction_op, not_op,
  parse_predicate, predicate_from, predicate_of, predicate_op, predicates_of, type_named,
}
use ompire.Workflow.Print.Texts.{
  comparison_text, junction_text, predicate_document, predicate_items, type_text,
}
use ompire.Workflow.Reload.Values.{Reloads, nonempty-full, parse_value-reload}

comparison_named-text : (c : Comparison) → predicate_op (comparison_text c) ≡ some (compare_op c)
unfolding predicate_op comparison_named
comparison_named-text eq = refl
comparison_named-text ne = refl
comparison_named-text lt = refl
comparison_named-text lte = refl
comparison_named-text gt = refl
comparison_named-text gte = refl

junction_named-text : (o : Junction) → predicate_op (junction_text o) ≡ some (junction_op o)
unfolding predicate_op comparison_named
junction_named-text every = refl
junction_named-text some_of = refl

pub type_named-text : (t : JsonType) → type_named (type_text t) ≡ some t
unfolding type_named
type_named-text null_type = refl
type_named-text boolean = refl
type_named-text integer = refl
type_named-text number = refl
type_named-text string = refl
type_named-text array = refl
type_named-text object = refl

predicates_of-reload :
    (parse : Json → Parsed Predicate) (js : Items) (ps : Predicates)
    → Reloads parse predicate_document
    → predicates_of parse js ≡ ok ps
    → (predicates_of parse (predicate_items ps) ≡ ok ps)
      × (is_full (predicate_items ps) ≡ is_full js)
unfolding predicate_document
predicates_of-reload parse nil ps again h =
    subst
      (λ x.
        (predicates_of parse (predicate_items x) ≡ ok x) × (is_full (predicate_items x) ≡ false))
      (ok-same h) (refl, refl)
predicates_of-reload parse (cons j js) ps again h =
    let (p, e, h₁) = >>=-eq-ok (parse j) _ h in
    let (rest, e', last) = >>=-eq-ok (predicates_of parse js) _ h₁ in
    subst
      (λ x. (predicates_of parse (predicate_items x) ≡ ok x) × (is_full (predicate_items x) ≡ true))
      (ok-same last) (rw (again j p e, (predicates_of-reload parse js rest again e').0) refl, refl)

-- The predicate is read back from its document, at a depth.
abbrev Printed : ℕ → ℕ → Predicate → Type 0
Printed k format p = parse_predicate (suc k) format (predicate_document p) ≡ ok p

predicate_of-Printed :
    (k format : ℕ) (fs : Fields) (o : PredicateOp) (p : Predicate)
    → Reloads (parse_predicate k format) predicate_document
    → predicate_of (parse_value k format) (parse_predicate k format) fs o ≡ ok p
    → Printed k format p
unfolding parse_predicate predicate_document predicate_from predicate_of predicate_op
    comparison_named
predicate_of-Printed k format fs (compare_op c) p again h =
    let (_, h₁) = guard-then-eq-ok (all_keys (contains ("op" ∷ "left" ∷ "right" ∷ [])) fs) _ _ h in
    let (l, _, h₂) = >>=-eq-ok (required fs "left") _ h₁ in
    let (r, _, h₃) = >>=-eq-ok (required fs "right") _ h₂ in
    let (left, e, h₄) = >>=-eq-ok (parse_value k format l) _ h₃ in
    let (right, e', last) = >>=-eq-ok (parse_value k format r) _ h₄ in
    subst (Printed k format) (ok-same last) (
      rw
        (
          comparison_named-text c,
          parse_value-reload k format l left e,
          parse_value-reload k format r right e',
        )
        refl)
predicate_of-Printed k format fs exists_op p again h =
    let (_, h₁) = guard-then-eq-ok (all_keys (contains ("op" ∷ "value" ∷ [])) fs) _ _ h in
    let (j, _, h₂) = >>=-eq-ok (required fs "value") _ h₁ in
    let (v, e, last) = >>=-eq-ok (parse_value k format j) _ h₂ in
    subst (Printed k format) (ok-same last) (rw (parse_value-reload k format j v e) refl)
predicate_of-Printed k format fs is_type_op p again h =
    let (_, h₁) = guard-then-eq-ok (all_keys (contains ("op" ∷ "value" ∷ "type" ∷ [])) fs) _ _ h in
    let (j, _, h₂) = >>=-eq-ok (required fs "value") _ h₁ in
    let (s, _, h₃) = >>=-eq-ok (require_text fs "type") _ h₂ in
    let (t, _, h₄) = or_fail-bind-eq-ok (type_named s) _ _ h₃ in
    let (v, e, last) = >>=-eq-ok (parse_value k format j) _ h₄ in
    subst (Printed k format) (ok-same last)
      (rw (type_named-text t, parse_value-reload k format j v e) refl)
predicate_of-Printed k format fs (junction_op o) p again h =
    let (_, h₁) = guard-then-eq-ok (all_keys (contains ("op" ∷ "of" ∷ [])) fs) _ _ h in
    let (raw, e, h₂) = >>=-eq-ok (nonempty fs "of") _ h₁ in
    let (ps, e', last) = >>=-eq-ok (predicates_of (parse_predicate k format) raw) _ h₂ in
    let (same, full) = predicates_of-reload (parse_predicate k format) raw ps again e' in
    subst (Printed k format) (ok-same last)
      (rw (junction_named-text o, full ∙ nonempty-full fs "of" raw e, same) refl)
predicate_of-Printed k format fs not_op p again h =
    let (_, h₁) = guard-then-eq-ok (all_keys (contains ("op" ∷ "of" ∷ [])) fs) _ _ h in
    let (j, _, h₂) = >>=-eq-ok (required fs "of") _ h₁ in
    let (q, e, last) = >>=-eq-ok (parse_predicate k format j) _ h₂ in
    subst (Printed k format) (ok-same last) (rw (again j q e) refl)

-- What was read from anything but a literal.
predicate_from-Printed :
    (k format : ℕ) (j : Json) (p : Predicate)
    → Reloads (parse_predicate k format) predicate_document
    → (do
      fs ← mapping j
      op ← or_fail (get_field "op" fs) (wrong "op")
      s ← or_fail (text_value op) (wrong "op")
      o ← or_fail (predicate_op s) (unknown_operation s)
      predicate_of (parse_value k format) (parse_predicate k format) fs o)
      ≡ ok p
    → Printed k format p
predicate_from-Printed k format j p again h =
    let (fs, _, h₁) = >>=-eq-ok (mapping j) _ h in
    let (op, _, h₂) = or_fail-bind-eq-ok (get_field "op" fs) _ _ h₁ in
    let (s, _, h₃) = or_fail-bind-eq-ok (text_value op) _ _ h₂ in
    let (o, _, last) = or_fail-bind-eq-ok (predicate_op s) _ _ h₃ in
    predicate_of-Printed k format fs o p again last

-- A predicate that was read is read again from its canonical document, at the same depth.
pub parse_predicate-reload : (k format : ℕ) → Reloads (parse_predicate k format) predicate_document
unfolding parse_predicate predicate_document predicate_from
parse_predicate-reload zero format j p h = cc
parse_predicate-reload (suc k) format (bool b) p h = subst (Printed k format) (ok-same h) refl
parse_predicate-reload (suc k) format (obj fs) p h =
    predicate_from-Printed k format (obj fs) p (parse_predicate-reload k format) h
parse_predicate-reload (suc k) format null p h =
    predicate_from-Printed k format null p (parse_predicate-reload k format) h
parse_predicate-reload (suc k) format (int i) p h =
    predicate_from-Printed k format (int i) p (parse_predicate-reload k format) h
parse_predicate-reload (suc k) format (float x) p h =
    predicate_from-Printed k format (float x) p (parse_predicate-reload k format) h
parse_predicate-reload (suc k) format (str s) p h =
    predicate_from-Printed k format (str s) p (parse_predicate-reload k format) h
parse_predicate-reload (suc k) format (arr js) p h =
    predicate_from-Printed k format (arr js) p (parse_predicate-reload k format) h
