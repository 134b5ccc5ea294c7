-- ===== src/Workflow/Reload/Values.antt =====
-- Value expressions, read back from their canonical document.
use ompire.Base.{
  >>=-eq-ok, List, Option, String, [], contains, false, guard-then-eq-ok, none, not, ok, ok-same,
  or_fail-bind-eq-ok, refl, some, subst, suc, true, zero, ℕ, ◌==◌, ◌∙◌, ◌∷◌, ◌≡◌, string_eq, ℕ_eq,
}
use ompire.Base.Int.{ℤ_eq}
use ompire.Json.{
  Fields, Items, Json, arr, bool, cons, float, get_field, int, nil, null, obj, str, text_items,
  text_or_null,
}
use ompire.Workflow.Syntax.{Key, Value, Values, index, name}
use ompire.Workflow.Parse.Slug.{is_slug}
use ompire.Workflow.Parse.Fields.{
  Parsed, all_keys, flag, is_full, list_option, mapping, nonempty, nonempty_texts, optional_text,
  require_slug, require_text, required, text_option, text_value, texts_of,
}
use ompire.Workflow.Parse.Values.{
  ValueOp, as_key, coalesce_op, count_op, evidence_op, get_op, input_names, input_op, is_json_data,
  keys_of, latest_op, literal_op, parse_value, value_of, value_op, values_of,
}
use ompire.Workflow.Print.Values.{key_document, key_items, value_document, value_items}

-- A reader gives back what it read, from the document that prints it.
abbrev pub Reloads {ℓ} : {A : Type ℓ} → (Json → Parsed A) → (A → Json) → Type ℓ
Reloads {A = A} parse print = (j : Json) (a : A) → parse j ≡ ok a → parse (print a) ≡ ok a

pub texts_of-reload :
    (k : String) (js : Items) (ss : List String)
    → texts_of k js ≡ ok ss
    → texts_of k (text_items ss) ≡ ok ss
texts_of-reload k nil ss h = subst (λ x. texts_of k (text_items x) ≡ ok x) (ok-same h) refl
texts_of-reload k (cons j js) ss h =
    let (s, e, h₁) = or_fail-bind-eq-ok (text_value j) _ _ h in
    let (rest, e', last) = >>=-eq-ok (texts_of k js) _ h₁ in
    subst (λ x. texts_of k (text_items x) ≡ ok x) (ok-same last)
      (rw (texts_of-reload k js rest e') refl)

pub texts_of-is_full :
    (k : String) (js : Items) (ss : List String)
    → texts_of k js ≡ ok ss
    → is_full (text_items ss) ≡ is_full js
texts_of-is_full k nil ss h = subst (λ x. is_full (text_items x) ≡ false) (ok-same h) refl
texts_of-is_full k (cons j js) ss h =
    let (s, e, h₁) = or_fail-bind-eq-ok (text_value j) _ _ h in
    let (rest, e', last) = >>=-eq-ok (texts_of k js) _ h₁ in
    subst (λ x. is_full (text_items x) ≡ true) (ok-same last) refl

pub list_option-full :
    (o : Option Json) (k : String) (raw : Items) → list_option k o ≡ ok raw → is_full raw ≡ true
list_option-full none k raw h = cc
list_option-full (some (arr js)) k raw h =
    let (full, last) = guard-then-eq-ok (is_full js) _ _ h in
    subst (λ x. is_full x ≡ true) (ok-same last) full
list_option-full (some null) k raw h = cc
list_option-full (some (bool _)) k raw h = cc
list_option-full (some (int _)) k raw h = cc
list_option-full (some (float _)) k raw h = cc
list_option-full (some (str _)) k raw h = cc
list_option-full (some (obj _)) k raw h = cc

pub nonempty-full :
    (fs : Fields) (k : String) (raw : Items) → nonempty fs k ≡ ok raw → is_full raw ≡ true
nonempty-full fs k raw h = list_option-full (get_field k fs) k raw h

-- Texts that were read from a list that is not empty.
pub texts-full :
    (fs : Fields) (k : String) (ss : List String)
    → nonempty_texts fs k ≡ ok ss
    → (is_full (text_items ss) ≡ true) × (texts_of k (text_items ss) ≡ ok ss)
texts-full fs k ss h =
    let (raw, e, h₁) = >>=-eq-ok (nonempty fs k) _ h in
    (texts_of-is_full k raw ss h₁ ∙ nonempty-full fs k raw e, texts_of-reload k raw ss h₁)

as_key-document : (k : Key) → as_key (key_document k) ≡ some k
as_key-document (name s) = refl
as_key-document (index i) = refl

keys_of-reload :
    (js : Items) (ks : List Key)
    → keys_of js ≡ ok ks
    → (keys_of (key_items ks) ≡ ok ks) × (is_full (key_items ks) ≡ is_full js)
keys_of-reload nil ks h =
    subst (λ x. (keys_of (key_items x) ≡ ok x) × (is_full (key_items x) ≡ false)) (ok-same h)
      (refl, refl)
keys_of-reload (cons j js) ks h =
    let (key, e, h₁) = or_fail-bind-eq-ok (as_key j) _ _ h in
    let (rest, e', last) = >>=-eq-ok (keys_of js) _ h₁ in
    subst (λ x. (keys_of (key_items x) ≡ ok x) × (is_full (key_items x) ≡ true)) (ok-same last)
      (rw (as_key-document key, (keys_of-reload js rest e').0) refl, refl)

values_of-reload :
    (parse : Json → Parsed Value) (js : Items) (vs : Values)
    → Reloads parse value_document
    → values_of parse js ≡ ok vs
    → (values_of parse (value_items vs) ≡ ok vs) × (is_full (value_items vs) ≡ is_full js)
unfolding value_document
values_of-reload parse nil vs again h =
    subst (λ x. (values_of parse (value_items x) ≡ ok x) × (is_full (value_items x) ≡ false))
      (ok-same h) (refl, refl)
values_of-reload parse (cons j js) vs again h =
    let (v, e, h₁) = >>=-eq-ok (parse j) _ h in
    let (rest, e', last) = >>=-eq-ok (values_of parse js) _ h₁ in
    subst (λ x. (values_of parse (value_items x) ≡ ok x) × (is_full (value_items x) ≡ true))
      (ok-same last) (rw (again j v e, (values_of-reload parse js rest again e').0) refl, refl)

pub text_option-reload :
    (k : String) (o : Option String) → text_option k (some (text_or_null o)) ≡ ok o
unfolding text_option
text_option-reload k none = refl
text_option-reload k (some s) = refl

pub require_slug-is_slug :
    (fs : Fields) (k s : String) → require_slug fs k ≡ ok s → is_slug s ≡ true
require_slug-is_slug fs k s h =
    let (t, _, h₁) = >>=-eq-ok (require_text fs k) _ h in
    let (fits, last) = guard-then-eq-ok (is_slug t) _ _ h₁ in
    subst (λ x. is_slug x ≡ true) (ok-same last) fits

-- The expression is read back from its document, at a depth.
abbrev Printed : ℕ → ℕ → Value → Type 0
Printed k format v = parse_value (suc k) format (value_document v) ≡ ok v

value_of-Printed :
    (k format : ℕ) (fs : Fields) (o : ValueOp) (v : Value)
    → Reloads (parse_value k format) value_document
    → value_of format (parse_value k format) fs o ≡ ok v
    → Printed k format v
unfolding parse_value value_document
value_of-Printed k format fs literal_op v again h =
    let (_, h₁) = guard-then-eq-ok (all_keys (contains ("op" ∷ "value" ∷ [])) fs) _ _ h in
    let (j, _, h₂) = >>=-eq-ok (required fs "value") _ h₁ in
    let (fits, last) = guard-then-eq-ok (is_json_data 0 j) _ _ h₂ in
    subst (Printed k format) (ok-same last) (rw fits refl)
value_of-Printed k format fs input_op v again h =
    let (_, h₁) = guard-then-eq-ok (all_keys (contains ("op" ∷ "name" ∷ [])) fs) _ _ h in
    let (n, _, h₂) = >>=-eq-ok (require_text fs "name") _ h₁ in
    let (listed, last) = guard-then-eq-ok (contains input_names n) _ _ h₂ in
    subst (Printed k format) (ok-same last) (rw listed refl)
value_of-Printed k format fs latest_op v again h =
    let (old, h₁) = guard-then-eq-ok (format == 1) _ _ h in
    let (_, h₂) =
      guard-then-eq-ok (all_keys (contains ("op" ∷ "steps" ∷ "after" ∷ "with_outcome" ∷ [])) fs) _ _
        h₁ in
    let (steps, e, h₃) = >>=-eq-ok (nonempty_texts fs "steps") _ h₂ in
    let (after, _, h₄) = >>=-eq-ok (optional_text fs "after") _ h₃ in
    let (with_outcome, _, last) = >>=-eq-ok (flag fs "with_outcome" false) _ h₄ in
    let (full, again_steps) = texts-full fs "steps" steps e in
    subst (Printed k format) (ok-same last)
      (rw (old, full, again_steps, text_option-reload "after" after) refl)
value_of-Printed k format fs evidence_op v again h =
    let (new, h₁) = guard-then-eq-ok (not (format == 1)) _ _ h in
    let (_, h₂) = guard-then-eq-ok (all_keys (contains ("op" ∷ "name" ∷ [])) fs) _ _ h₁ in
    let (n, e, last) = >>=-eq-ok (require_slug fs "name") _ h₂ in
    subst (Printed k format) (ok-same last) (rw (new, require_slug-is_slug fs "name" n e) refl)
value_of-Printed k format fs get_op v again h =
    let (_, h₁) = guard-then-eq-ok (all_keys (contains ("op" ∷ "value" ∷ "keys" ∷ [])) fs) _ _ h in
    let (j, _, h₂) = >>=-eq-ok (required fs "value") _ h₁ in
    let (raw, e, h₃) = >>=-eq-ok (nonempty fs "keys") _ h₂ in
    let (keys, e', h₄) = >>=-eq-ok (keys_of raw) _ h₃ in
    let (u, e'', last) = >>=-eq-ok (parse_value k format j) _ h₄ in
    let (same, full) = keys_of-reload raw keys e' in
    subst (Printed k format) (ok-same last)
      (rw (full ∙ nonempty-full fs "keys" raw e, same, again j u e'') refl)
value_of-Printed k format fs count_op v again h =
    let (_, h₁) = guard-then-eq-ok (all_keys (contains ("op" ∷ "step" ∷ [])) fs) _ _ h in
    let (n, _, last) = >>=-eq-ok (require_text fs "step") _ h₁ in
    subst (Printed k format) (ok-same last) refl
value_of-Printed k format fs coalesce_op v again h =
    let (_, h₁) = guard-then-eq-ok (all_keys (contains ("op" ∷ "values" ∷ [])) fs) _ _ h in
    let (raw, e, h₂) = >>=-eq-ok (nonempty fs "values") _ h₁ in
    let (vs, e', last) = >>=-eq-ok (values_of (parse_value k format) raw) _ h₂ in
    let (same, full) = values_of-reload (parse_value k format) raw vs again e' in
    subst (Printed k format) (ok-same last) (rw (full ∙ nonempty-full fs "values" raw e, same) refl)

-- A value expression that was read is read again from its canonical document, at the same depth.
pub parse_value-reload : (k format : ℕ) → Reloads (parse_value k format) value_document
unfolding parse_value
parse_value-reload zero format j v h = cc
parse_value-reload (suc k) format j v h =
    let (fs, _, h₁) = >>=-eq-ok (mapping j) _ h in
    let (op, _, h₂) = or_fail-bind-eq-ok (get_field "op" fs) _ _ h₁ in
    let (s, _, h₃) = or_fail-bind-eq-ok (text_value op) _ _ h₂ in
    let (o, _, last) = or_fail-bind-eq-ok (value_op s) _ _ h₃ in
    value_of-Printed k format fs o v (parse_value-reload k format) last
