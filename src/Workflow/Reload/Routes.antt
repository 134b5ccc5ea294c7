-- ===== src/Workflow/Reload/Routes.antt =====
-- Destinations and visit bounds, read back from their canonical document.
use ompire.Base.{
  >>=-eq-ok, Bool, Bool-cases, Option, String, [], ap, arith, contains, false, guard-then-eq-ok,
  inl, inr, leb, none, ok, ok-same, or_fail-bind-eq-ok, refl, some, subst, sym, true, ℕ, ◌==◌, ◌∷◌,
  ◌≡◌, ◌≤◌, ◌⊎◌, string_eq, ℕ_eq,
}
use ompire.Base.Int.{negsuc, pos, ℤ_eq}
use ompire.Json.{Fields, Json, arr, bool, float, get_field, int, null, obj, str}
use ompire.Workflow.Syntax.{Destination}
use ompire.Workflow.Parse.Fields.{
  Parsed, all_keys, has, mapping, require_slug, require_text, required,
}
use ompire.Workflow.Parse.Texts.{Which, first, one_of, second, third}
use ompire.Workflow.Parse.Routes.{
  destination_of, ending_fields, exhausted, is_null, is_true, optional, paired, parse_bound,
  parse_destination, visits,
}
use ompire.Workflow.Print.Routes.{destination_document, or_null, step_route, whole}
use ompire.Workflow.Reload.Values.{Reloads, require_slug-is_slug}

-- A value that may be absent, by the reader and the printer of the value.
pub optional-reload {ℓ} :
    {A : Type ℓ} (parse : Json → Parsed A) (print : A → Json) (j : Option Json) (o : Option A)
    → Reloads parse print
    → ((a : A) → is_null (print a) ≡ false)
    → optional parse j ≡ ok o
    → optional parse (some (or_null print o)) ≡ ok o
unfolding optional
optional-reload parse print none o again solid h =
    subst (λ x. optional parse (some (or_null print x)) ≡ ok x) (ok-same h) refl
optional-reload parse print (some j) o again solid h = elim (Bool-cases (is_null j)) [
  | inl e ↦ subst (λ x. optional parse (some (or_null print x)) ≡ ok x) (ok-same (rw e at h)) refl
  | inr e ↦
      let (a, e', last) = >>=-eq-ok (parse j) _ (rw e at h) in
      subst (λ x. optional parse (some (or_null print x)) ≡ ok x) (ok-same last)
        (rw (solid a, again j a e') refl)
]

-- The first format is apart from the later ones.
pub version-cases :
    (v : ℕ) → 1 ≤ v → ((v == 1) ≡ true) × (leb 2 v ≡ false) ⊎ ((v == 1) ≡ false) × (leb 2 v ≡ true)
version-cases v h = ground arith

abbrev Printed : ℕ → Bool → Destination → Type 0
Printed version allow d = parse_destination version allow (destination_document version d) ≡ ok d

destination_of-Printed :
    (version : ℕ) (allow : Bool) (fs : Fields) (w : Which) (d : Destination)
    → 1 ≤ version
    → destination_of version allow fs w ≡ ok d
    → Printed version allow d
unfolding parse_destination destination_of destination_document
destination_of-Printed version allow fs first d known h =
    let (_, h₁) = guard-then-eq-ok (all_keys (contains ("step" ∷ [])) fs) _ _ h in
    let (s, _, last) = >>=-eq-ok (require_text fs "step") _ h₁ in
    subst (Printed version allow) (ok-same last) refl
destination_of-Printed version allow fs second d known h =
    let (_, h₁) = guard-then-eq-ok (all_keys (contains (ending_fields version)) fs) _ _ h in
    let (j, _, h₂) = >>=-eq-ok (required fs "complete") _ h₁ in
    let (_, h₃) = guard-then-eq-ok (is_true j) _ _ h₂ in
    elim (version-cases version known) [
      | inl (old, not_new) ↦
          subst (Printed version allow) (ok-same (rw old at h₃)) (rw (old, not_new, old) refl)
      | inr (not_old, new) ↦
          let (r, e, last) = >>=-eq-ok (require_slug fs "result") _ (rw not_old at h₃) in
          subst (Printed version allow) (ok-same last)
            (rw (not_old, new, require_slug-is_slug fs "result" r e, not_old) refl)
    ]
destination_of-Printed version allow fs third d known h =
    let (allowed, h₁) = guard-then-eq-ok allow _ _ h in
    let (_, h₂) = guard-then-eq-ok (all_keys (contains ("pause" ∷ [])) fs) _ _ h₁ in
    let (j, _, h₃) = >>=-eq-ok (required fs "pause") _ h₂ in
    let (_, last) = guard-then-eq-ok (is_true j) _ _ h₃ in
    subst (Printed version allow) (ok-same last) (rw allowed refl)

pub parse_destination-reload :
    (version : ℕ) (allow : Bool)
    → 1 ≤ version
    → Reloads (parse_destination version allow) (destination_document version)
unfolding parse_destination
parse_destination-reload version allow known j d h =
    let (fs, _, h₁) = >>=-eq-ok (mapping j) _ h in
    let (w, _, last) =
      or_fail-bind-eq-ok (one_of (has "step" fs) (has "complete" fs) (has "pause" fs)) _ _ h₁ in
    destination_of-Printed version allow fs w d known last

visits-reload : Reloads visits whole
visits-reload (int (pos m)) n h =
    let (enough, last) = guard-then-eq-ok (leb 1 m) _ _ h in
    subst (λ x. visits (whole x) ≡ ok x) (ok-same last) (rw enough refl)
visits-reload (int (negsuc _)) n h = cc
visits-reload null n h = cc
visits-reload (bool _) n h = cc
visits-reload (float _) n h = cc
visits-reload (str _) n h = cc
visits-reload (arr _) n h = cc
visits-reload (obj _) n h = cc

exhausted-reload : (version : ℕ) → Reloads (exhausted version) step_route
unfolding exhausted parse_destination destination_of
exhausted-reload version j s h = refl

-- A bound that was read is read again from the two fields that print it.
pub parse_bound-reload :
    (version : ℕ) (fs gs : Fields) (n : Option ℕ) (e : Option String)
    → parse_bound version fs ≡ ok (n, e)
    → get_field "max_visits" gs ≡ some (or_null whole n)
    → get_field "on_exhausted" gs ≡ some (or_null step_route e)
    → parse_bound version gs ≡ ok (n, e)
unfolding parse_bound
parse_bound-reload version fs gs n e h in_visits in_exhausted =
    let (m, e₁, h₁) = >>=-eq-ok (optional visits (get_field "max_visits" fs)) _ h in
    let (r, e₂, h₂) = >>=-eq-ok (optional (exhausted version) (get_field "on_exhausted" fs)) _ h₁ in
    let (both, last) = guard-then-eq-ok (paired m r) _ _ h₂ in
    let same = ok-same last in
    let m_same = ap (λ p. p.0) same in
    let r_same = ap (λ p. p.1) same in
    let again_m =
      optional-reload visits whole (get_field "max_visits" fs) m visits-reload (λ _. refl) e₁ in
    let again_r =
      optional-reload (exhausted version) step_route (get_field "on_exhausted" fs) r
        (exhausted-reload version) (λ _. refl) e₂ in
    subst (λ p. parse_bound version gs ≡ ok p) same
      (rw
        (
          in_visits,
          ap (or_null whole) (sym m_same),
          in_exhausted,
          ap (or_null step_route) (sym r_same),
          again_m,
          again_r,
          both,
        )
        refl)
