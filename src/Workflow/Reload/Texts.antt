-- ===== src/Workflow/Reload/Texts.antt =====
-- Text documents, read back from their canonical document.
use ompire.Base.{
  >>=-eq-ok, Option, [], contains, guard-then-eq-ok, none, ok, ok-same, or_fail-bind-eq-ok, refl,
  some, subst, suc, zero, ℕ, ◌∷◌, ◌≡◌, string_eq, ℕ_eq,
}
use ompire.Json.{Fields, Items, Json, cons, get_field, nil}
use ompire.Workflow.Syntax.{Format, Part, Parts, TextDocument, as_json, as_text}
use ompire.Workflow.Parse.Fields.{Parsed, all_keys, has, mapping, require_text, required}
use ompire.Workflow.Parse.Values.{parse_value}
use ompire.Workflow.Parse.Predicates.{parse_predicate}
use ompire.Workflow.Parse.Texts.{
  Which, else_of, empty_text, first, format_named, format_of, one_of, parse_part, parse_text,
  part_of, parts_field, parts_of, second, separator_of, third,
}
use ompire.Workflow.Print.Texts.{format_text, part_document, part_items, text_document}
use ompire.Workflow.Reload.Values.{Reloads, parse_value-reload}
use ompire.Workflow.Reload.Predicates.{parse_predicate-reload}

format_named-text : (f : Format) → format_named (format_text f) ≡ ok f
format_named-text as_text = refl
format_named-text as_json = refl

empty_text-reload :
    (k format : ℕ) → parse_text (suc k) format (text_document empty_text) ≡ ok empty_text
unfolding parse_text text_document
empty_text-reload k format = refl

-- The reader of a part, at a depth.
abbrev pub part_reader : ℕ → ℕ → Json → Parsed Part
part_reader k format =
    parse_part (parse_value k format) (parse_predicate k format) (parse_text k format)

-- The text that an `else` gave is read back.
else_of-reload :
    (k format : ℕ) (o : Option Json) (t : TextDocument)
    → Reloads (parse_text k format) text_document
    → (j : Json) (u : TextDocument) → parse_text k format j ≡ ok u
    → else_of (parse_text k format) o ≡ ok t
    → parse_text k format (text_document t) ≡ ok t
unfolding parse_text text_document
else_of-reload k format (some j) t again j' u e h = again j t h
else_of-reload zero format none t again j' u e h = cc
else_of-reload (suc k) format none t again j' u e h =
    subst (λ x. parse_text (suc k) format (text_document x) ≡ ok x) (ok-same h)
      (empty_text-reload k format)

-- The part is read back from its document, at a depth.
abbrev PrintedPart : ℕ → ℕ → Part → Type 0
PrintedPart k format p = part_reader k format (part_document p) ≡ ok p

part_of-Printed :
    (k format : ℕ) (fs : Fields) (w : Which) (p : Part)
    → Reloads (parse_text k format) text_document
    → part_of (parse_value k format) (parse_predicate k format) (parse_text k format) fs w ≡ ok p
    → PrintedPart k format p
unfolding text_document parse_part part_of
part_of-Printed k format fs first p again h =
    let (_, h₁) = guard-then-eq-ok (all_keys (contains ("text" ∷ [])) fs) _ _ h in
    let (s, _, last) = >>=-eq-ok (require_text fs "text") _ h₁ in
    subst (PrintedPart k format) (ok-same last) refl
part_of-Printed k format fs second p again h =
    let (_, h₁) = guard-then-eq-ok (all_keys (contains ("value" ∷ "format" ∷ [])) fs) _ _ h in
    let (f, _, h₂) = >>=-eq-ok (format_of (get_field "format" fs)) _ h₁ in
    let (j, _, h₃) = >>=-eq-ok (required fs "value") _ h₂ in
    let (v, e, last) = >>=-eq-ok (parse_value k format j) _ h₃ in
    subst (PrintedPart k format) (ok-same last)
      (rw (format_named-text f, parse_value-reload k format j v e) refl)
part_of-Printed k format fs third p again h =
    let (_, h₁) = guard-then-eq-ok (all_keys (contains ("if" ∷ "then" ∷ "else" ∷ [])) fs) _ _ h in
    let (t, _, h₂) = >>=-eq-ok (required fs "then") _ h₁ in
    let (c, _, h₃) = >>=-eq-ok (required fs "if") _ h₂ in
    let (when, e, h₄) = >>=-eq-ok (parse_predicate k format c) _ h₃ in
    let (then_text, e', h₅) = >>=-eq-ok (parse_text k format t) _ h₄ in
    let (else_text, e'', last) =
      >>=-eq-ok (else_of (parse_text k format) (get_field "else" fs)) _ h₅ in
    subst (PrintedPart k format) (ok-same last) (
      rw
        (
          parse_predicate-reload k format c when e,
          again t then_text e',
          else_of-reload k format (get_field "else" fs) else_text again t then_text e' e'',
        )
        refl)

part_reader-Printed :
    (k format : ℕ) (j : Json) (p : Part)
    → Reloads (parse_text k format) text_document
    → part_reader k format j ≡ ok p
    → PrintedPart k format p
unfolding parse_part
part_reader-Printed k format j p again h =
    let (fs, _, h₁) = >>=-eq-ok (mapping j) _ h in
    let (w, _, last) =
      or_fail-bind-eq-ok (one_of (has "text" fs) (has "value" fs) (has "if" fs)) _ _ h₁ in
    part_of-Printed k format fs w p again last

parts_of-reload :
    (k format : ℕ) (js : Items) (ps : Parts)
    → Reloads (parse_text k format) text_document
    → parts_of (part_reader k format) js ≡ ok ps
    → parts_of (part_reader k format) (part_items ps) ≡ ok ps
unfolding text_document
parts_of-reload k format nil ps again h =
    subst (λ x. parts_of (part_reader k format) (part_items x) ≡ ok x) (ok-same h) refl
parts_of-reload k format (cons j js) ps again h =
    let (p, e, h₁) = >>=-eq-ok (part_reader k format j) _ h in
    let (rest, e', last) = >>=-eq-ok (parts_of (part_reader k format) js) _ h₁ in
    subst (λ x. parts_of (part_reader k format) (part_items x) ≡ ok x) (ok-same last)
      (rw (part_reader-Printed k format j p again e, parts_of-reload k format js rest again e')
        refl)

-- A text document that was read is read again from its canonical document, at the same depth: its
-- separator, its parts, the expressions and predicates in them, the text of an absent `else`.
pub parse_text-reload : (k format : ℕ) → Reloads (parse_text k format) text_document
unfolding parse_text text_document
parse_text-reload zero format j t h = cc
parse_text-reload (suc k) format j t h =
    let (fs, _, h₁) = >>=-eq-ok (mapping j) _ h in
    let (_, h₂) = guard-then-eq-ok (all_keys (contains ("separator" ∷ "parts" ∷ [])) fs) _ _ h₁ in
    let (separator, _, h₃) = >>=-eq-ok (separator_of (get_field "separator" fs)) _ h₂ in
    let (raw, _, h₄) = >>=-eq-ok (parts_field (get_field "parts" fs)) _ h₃ in
    let (parts, e, last) = >>=-eq-ok (parts_of (part_reader k format) raw) _ h₄ in
    subst (λ x. parse_text (suc k) format (text_document x) ≡ ok x) (ok-same last)
      (rw (parts_of-reload k format raw parts (parse_text-reload k format) e) refl)
