-- ===== src/Workflow/Reload/Choices.antt =====
-- The answers of a gate, read back from their canonical document.
use ompire.Base.{
  &&-eq-true, >>=-eq-ok, Bool, Bool-cases, List, Option, String, [], ap, arith, contains, eq_iff,
  false, guard-then-eq-ok, inl, inr, leb, none, not, ok, ok-same, refl, some, subst, sym, true, ℕ,
  ◌==◌, ◌∙◌, ◌≡◌, ◌≤◌, string_eq, ℕ_eq,
}
use ompire.Json.{Fields, Json, arr, end, field, get_field}
use ompire.Workflow.Syntax.{DeliveryGrant, Destination, GateChoice}
use ompire.Workflow.Parse.Slug.{is_blank, is_slug}
use ompire.Workflow.Parse.Fields.{
  all_keys, flag, list_option, mapping, require_slug, require_text, required,
}
use ompire.Workflow.Parse.Routes.{optional, parse_destination}
use ompire.Workflow.Parse.Gates.{
  choice_fields, choice_id, choice_of, count_items, max_choices, parse_choices, parse_grant,
}
use ompire.Workflow.Reload.Values.{Reloads, list_option-full, require_slug-is_slug}
use ompire.Workflow.Reload.Routes.{optional-reload, parse_destination-reload}
use ompire.Workflow.Reload.Gates.{each_named-reload, parse_grant-reload}
use ompire.Workflow.Print.Routes.{destination_document, or_null}
use ompire.Workflow.Print.Gates.{choice_document, grant_document, items_of}

-- A key that a mapping may not have is absent.
pub all_keys-absent :
    (allowed : List String) (k : String) (fs : Fields)
    → all_keys (contains allowed) fs ≡ true
    → contains allowed k ≡ false
    → get_field k fs ≡ none
all_keys-absent allowed k end h out = refl
all_keys-absent allowed k (field l j fs) h out =
    let (here, rest) = &&-eq-true (contains allowed l) (all_keys (contains allowed) fs) h in
    elim (Bool-cases (l == k)) [
      | inl e ↦ cc (here, ap (contains allowed) ((eq_iff l k).0 e), out)
      | inr e ↦ rw e (all_keys-absent allowed k fs rest out)
    ]

pub below : (version : ℕ) → leb 3 version ≡ false → leb 4 version ≡ false
below version h = ground arith

not_authorize :
    (version : ℕ) → leb 3 version ≡ false → contains (choice_fields version) "authorize" ≡ false
not_authorize version e = rw (e, below version e) refl

not_acceptance :
    (version : ℕ)
    → leb 4 version ≡ false
    → contains (choice_fields version) "requires_result_acceptance" ≡ false
not_acceptance version e = elim (Bool-cases (leb 3 version)) [
  | inl e' ↦ rw (e', e) refl
  | inr e' ↦ rw (e', e) refl
]

abbrev built : String → String → Bool → Destination → Option DeliveryGrant → Bool → GateChoice
built i label feedback next authorize acceptance = record {
  id = i;
  label = label;
  feedback_required = feedback;
  next = next;
  authorize = authorize;
  requires_result_acceptance = acceptance;
}

choice_of-again :
    (version : ℕ) (seen : List String) (i label : String) (feedback : Bool) (next : Destination)
    (authorize : Option DeliveryGrant) (acceptance : Bool)
    → is_slug i ≡ true
    → contains seen i ≡ false
    → is_blank label ≡ false
    → parse_destination version false (destination_document version next) ≡ ok next
    → optional parse_grant (some (or_null grant_document authorize)) ≡ ok authorize
    → (leb 3 version ≡ false → authorize ≡ none)
    → (leb 4 version ≡ false → acceptance ≡ false)
    → choice_of version seen
        (choice_document version (built i label feedback next authorize acceptance))
      ≡ ok (built i label feedback next authorize acceptance)
unfolding choice_of
choice_of-again version seen i label feedback next authorize acceptance slug fresh full route
      granted no_grant no_acceptance =
    elim (Bool-cases (leb 3 version)) [
      | inr e ↦
          rw
            (
              no_grant e,
              no_acceptance (below version e),
              e,
              below version e,
              slug,
              fresh,
              full,
              route,
            )
            refl
      | inl e ↦ elim (Bool-cases (leb 4 version)) [
        | inl e' ↦ simp (e, e', slug, fresh, full, route, granted)
        | inr e' ↦ rw (no_acceptance e') (simp (e, e', slug, fresh, full, route, granted))
      ]
    ]

absent_grant :
    (fs : Fields) (authorize : Option DeliveryGrant)
    → get_field "authorize" fs ≡ none
    → optional parse_grant (get_field "authorize" fs) ≡ ok authorize
    → authorize ≡ none
unfolding optional
absent_grant fs authorize e h = sym (ok-same (rw e at h))

absent_flag :
    (fs : Fields) (b : Bool)
    → get_field "requires_result_acceptance" fs ≡ none
    → flag fs "requires_result_acceptance" false ≡ ok b
    → b ≡ false
absent_flag fs b e h = sym (ok-same (rw e at h))

pub not-eq-true : (b : Bool) → not b ≡ true → b ≡ false
not-eq-true true h = cc
not-eq-true false h = refl

choice_of-reload :
    (version : ℕ) (seen : List String)
    → 1 ≤ version
    → Reloads (choice_of version seen) (choice_document version)
unfolding choice_of
choice_of-reload version seen known j c h =
    let (fs, _, h₁) = >>=-eq-ok (mapping j) _ h in
    let (fits, h₂) = guard-then-eq-ok (all_keys (contains (choice_fields version)) fs) _ _ h₁ in
    let (i, slug, h₃) = >>=-eq-ok (require_slug fs "id") _ h₂ in
    let (fresh, h₄) = guard-then-eq-ok (not (contains seen i)) _ _ h₃ in
    let (label, _, h₅) = >>=-eq-ok (require_text fs "label") _ h₄ in
    let (full, h₆) = guard-then-eq-ok (not (is_blank label)) _ _ h₅ in
    let (feedback, _, h₇) = >>=-eq-ok (flag fs "feedback_required" false) _ h₆ in
    let (acceptance, accepted, h₈) = >>=-eq-ok (flag fs "requires_result_acceptance" false) _ h₇ in
    let (to, _, h₉) = >>=-eq-ok (required fs "next") _ h₈ in
    let (next, route, h₁₀) = >>=-eq-ok (parse_destination version false to) _ h₉ in
    let (authorize, granted, last) =
      >>=-eq-ok (optional parse_grant (get_field "authorize" fs)) _ h₁₀ in
    subst (λ x. choice_of version seen (choice_document version x) ≡ ok x) (ok-same last)
      (choice_of-again version seen i label feedback next authorize acceptance
        (require_slug-is_slug fs "id" i slug) (not-eq-true (contains seen i) fresh)
        (not-eq-true (is_blank label) full)
        (parse_destination-reload version false known to next route)
        (optional-reload parse_grant grant_document (get_field "authorize" fs) authorize
          parse_grant-reload (λ _. refl) granted)
        (λ old.
          absent_grant fs authorize
            (all_keys-absent (choice_fields version) "authorize" fs fits
              (not_authorize version old))
            granted)
        (λ old.
          absent_flag fs acceptance
            (all_keys-absent (choice_fields version) "requires_result_acceptance" fs fits
              (not_acceptance version old))
            accepted))

-- The answers of a gate are read back, in their order.
pub parse_choices-reload :
    (version : ℕ) (o : Option Json) (cs : List GateChoice)
    → 1 ≤ version
    → parse_choices version o ≡ ok cs
    → parse_choices version (some (arr (items_of (choice_document version) cs))) ≡ ok cs
unfolding parse_choices
parse_choices-reload version o cs known h =
    let (raw, e, h₁) = >>=-eq-ok (list_option "choices" o) _ h in
    let (few, last) = guard-then-eq-ok (leb (count_items raw) max_choices) _ _ h₁ in
    let (same, counted, full) =
      each_named-reload (choice_of version) choice_id (choice_document version) [] raw cs
        (λ seen. choice_of-reload version seen known) last in
    rw (full ∙ list_option-full o "choices" raw e, counted, few) same
