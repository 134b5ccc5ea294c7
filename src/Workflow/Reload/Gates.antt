-- ===== src/Workflow/Reload/Gates.antt =====
-- The parts of a gate, read back from their canonical document.
use ompire.Base.{
  >>=-eq-ok, List, Option, String, [], ap, contains, false, guard-then-eq-ok, leb, not, ok, ok-same,
  or_fail-bind-eq-ok, refl, some, subst, suc, sym, true, ℕ, ◌++◌, ◌∙◌, ◌∷◌, ◌≡◌, string_eq, ℕ_eq,
}
use ompire.Json.{Fields, Items, Json, cons, get_field, nil, str, text_items}
use ompire.Workflow.Syntax.{TextDocument, document}
use ompire.Workflow.Parse.Fields.{
  Parsed, all_keys, is_full, mapping, nonempty, require_slug, text_value,
}
use ompire.Workflow.Parse.Texts.{parse_text}
use ompire.Workflow.Parse.Routes.{is_null, optional}
use ompire.Workflow.Parse.Gates.{
  count_items, each_named, grant_step, own_name, parse_gate_delivery, parse_gate_result,
  parse_grant, parse_metadata,
}
use ompire.Workflow.Print.Texts.{text_document}
use ompire.Workflow.Print.Routes.{or_null}
use ompire.Workflow.Print.Gates.{
  gate_delivery_document, grant_document, items_of, metadata_document, result_document,
}
use ompire.Workflow.Parse.Gates.{
  count_items, each_named, grant_step, own_name, parse_gate_delivery, parse_gate_result,
  parse_grant, parse_metadata,
}
use ompire.Workflow.Reload.Values.{Reloads, nonempty-full, require_slug-is_slug}
use ompire.Workflow.Reload.Texts.{parse_text-reload}
use ompire.Workflow.Reload.Routes.{optional-reload}

-- A list of named items is read back, has as many items, and is as empty as it was.
pub each_named-reload {ℓ} :
    {A : Type ℓ} (parse : List String → Json → Parsed A) (key : A → String) (print : A → Json)
    (seen : List String) (js : Items) (items : List A)
    → ((before : List String) → Reloads (parse before) print)
    → each_named parse key seen js ≡ ok items
    → (each_named parse key seen (items_of print items) ≡ ok items)
      × (count_items (items_of print items) ≡ count_items js)
      × (is_full (items_of print items) ≡ is_full js)
unfolding each_named items_of
each_named-reload parse key print seen nil items again h =
    subst
      (λ x.
        (each_named parse key seen (items_of print x) ≡ ok x)
        × (count_items (items_of print x) ≡ 0)
        × (is_full (items_of print x) ≡ false))
      (ok-same h) (refl, refl, refl)
each_named-reload parse key print seen (cons j js) items again h =
    let (a, e, h₁) = >>=-eq-ok (parse seen j) _ h in
    let (rest, e', last) = >>=-eq-ok (each_named parse key (seen ++ key a ∷ []) js) _ h₁ in
    let (same, counted, _) =
      each_named-reload parse key print (seen ++ key a ∷ []) js rest again e' in
    subst
      (λ x.
        (each_named parse key seen (items_of print x) ≡ ok x)
        × (count_items (items_of print x) ≡ suc (count_items js))
        × (is_full (items_of print x) ≡ true))
      (ok-same last) (rw (again seen j a e, same) refl, ap suc counted, refl)

pub parse_gate_result-reload : Reloads parse_gate_result result_document
unfolding parse_gate_result
parse_gate_result-reload j r h =
    let (fs, _, h₁) = >>=-eq-ok (mapping j) _ h in
    let (_, h₂) = guard-then-eq-ok (all_keys (contains ("evidence" ∷ [])) fs) _ _ h₁ in
    let (n, e, last) = >>=-eq-ok (require_slug fs "evidence") _ h₂ in
    subst (λ x. parse_gate_result (result_document x) ≡ ok x) (ok-same last)
      (rw (require_slug-is_slug fs "evidence" n e) refl)

-- The document of a text is a mapping.
text_document-solid : (t : TextDocument) → is_null (text_document t) ≡ false
unfolding text_document
text_document-solid (document _ _) = refl

optional_text-reload :
    (k version : ℕ) (fs : Fields) (key : String) (t : Option TextDocument)
    → optional (parse_text k version) (get_field key fs) ≡ ok t
    → optional (parse_text k version) (some (or_null text_document t)) ≡ ok t
optional_text-reload k version fs key t h =
    optional-reload (parse_text k version) text_document (get_field key fs) t
      (parse_text-reload k version) text_document-solid h

parse_metadata-reload : (k version : ℕ) → Reloads (parse_metadata k version) metadata_document
unfolding parse_metadata
parse_metadata-reload k version j m h =
    let (fs, _, h₁) = >>=-eq-ok (mapping j) _ h in
    let (_, h₂) =
      guard-then-eq-ok (all_keys (contains ("message" ∷ "pr_title" ∷ "pr_body" ∷ [])) fs) _ _ h₁ in
    let (message, e, h₃) =
      >>=-eq-ok (optional (parse_text k version) (get_field "message" fs)) _ h₂ in
    let (title, e', h₄) =
      >>=-eq-ok (optional (parse_text k version) (get_field "pr_title" fs)) _ h₃ in
    let (body, e'', last) =
      >>=-eq-ok (optional (parse_text k version) (get_field "pr_body" fs)) _ h₄ in
    subst (λ x. parse_metadata k version (metadata_document x) ≡ ok x) (ok-same last)
      (rw
        (
          optional_text-reload k version fs "message" message e,
          optional_text-reload k version fs "pr_title" title e',
          optional_text-reload k version fs "pr_body" body e'',
        )
        refl)

pub parse_gate_delivery-reload :
    (k version : ℕ) → Reloads (parse_gate_delivery k version) gate_delivery_document
unfolding parse_gate_delivery
parse_gate_delivery-reload k version j d h =
    let (fs, _, h₁) = >>=-eq-ok (mapping j) _ h in
    let (_, h₂) = guard-then-eq-ok (all_keys (contains ("review" ∷ "metadata" ∷ [])) fs) _ _ h₁ in
    let (r, e, h₃) = >>=-eq-ok (require_slug fs "review") _ h₂ in
    let (metadata, e', last) =
      >>=-eq-ok (optional (parse_metadata k version) (get_field "metadata" fs)) _ h₃ in
    subst (λ x. parse_gate_delivery k version (gate_delivery_document x) ≡ ok x) (ok-same last)
      (rw
        (
          require_slug-is_slug fs "review" r e,
          optional-reload (parse_metadata k version) metadata_document (get_field "metadata" fs)
              metadata (parse_metadata-reload k version) (λ _. refl) e',
        )
        refl)

grant_step-reload : (seen : List String) → Reloads (grant_step seen) str
grant_step-reload seen j s h =
    let (t, _, h₁) = or_fail-bind-eq-ok (text_value j) _ _ h in
    let (fresh, last) = guard-then-eq-ok (not (contains seen t)) _ _ h₁ in
    subst (λ x. grant_step seen (str x) ≡ ok x) (ok-same last) (rw fresh refl)

pub items_of-texts : (ss : List String) → items_of str ss ≡ text_items ss
unfolding items_of
items_of-texts [] = refl
items_of-texts (s ∷ ss) = ap (cons (str s)) (items_of-texts ss)

pub parse_grant-reload : Reloads parse_grant grant_document
unfolding parse_grant
parse_grant-reload j g h =
    let (fs, _, h₁) = >>=-eq-ok (mapping j) _ h in
    let (_, h₂) = guard-then-eq-ok (all_keys (contains ("steps" ∷ [])) fs) _ _ h₁ in
    let (raw, e, h₃) = >>=-eq-ok (nonempty fs "steps") _ h₂ in
    let (few, h₄) = guard-then-eq-ok (leb (count_items raw) 3) _ _ h₃ in
    let (steps, e', last) = >>=-eq-ok (each_named grant_step own_name [] raw) _ h₄ in
    let (same, counted, full) =
      each_named-reload grant_step own_name str [] raw steps grant_step-reload e' in
    subst (λ x. parse_grant (grant_document x) ≡ ok x) (ok-same last)
      (rw (sym (items_of-texts steps), full ∙ nonempty-full fs "steps" raw e, counted, few, same)
        refl)
