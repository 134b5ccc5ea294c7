-- ===== src/Workflow/Accepted/Bounds.antt =====
-- The names of steps and sessions, and the visit bounds, that the readers accept.
use ompire.Workflow.Syntax.{Step}
use ompire.Workflow.Parse.Slug.{is_slug}
use ompire.Workflow.Parse.Routes.{exhausted, is_null, optional, paired, parse_bound, visits}
use ompire.Workflow.Parse.Contracts.{parse_evidence}
use ompire.Workflow.Parse.Definitions.{
  admits, body_of, kind_named, listed_step, parse_step, reserved_names, session_of,
}
use ompire.Workflow.Reload.Choices.{not-eq-true}
use ompire.Base.{
  >>=-eq-ok, Bool-cases, List, Option, String, [], ap, contains, false, guard-then-eq-ok,
  if◌then◌else◌, inl, inr, leb, leb→le, none, not, ok, ok-same, or_fail-bind-eq-ok, refl, some,
  some-same, subst, true, ℕ, ◌==◌, ◌∙◌, ◌≡◌, ◌≤◌, ◌⊎◌, string_eq, ℕ_eq,
}
use ompire.Base.Int.{negsuc, pos, ℤ_eq}
use ompire.Json.{Fields, Json, arr, bool, float, get_field, int, null, obj, str}
use ompire.Workflow.Parse.Fields.{Parsed, mapping, require_slug, require_text, text_value}

pub listed_step-fresh :
    (k version : ℕ) (seen : List String) (j : Json) (s : Step)
    → listed_step k version seen j ≡ ok s
    → contains seen s.name ≡ false
unfolding listed_step
listed_step-fresh k version seen j s h =
    let (t, e, h₁) = >>=-eq-ok (parse_step k version j) _ h in
    let (_, h₂) = guard-then-eq-ok (not (contains reserved_names t.name)) _ _ h₁ in
    let (fresh, last) = guard-then-eq-ok (not (contains seen t.name)) _ _ h₂ in
    subst (λ x. contains seen x.name ≡ false) (ok-same last)
      (not-eq-true (contains seen t.name) fresh)

pub session_of-fresh :
    (seen : List String) (j : Json) (s : String)
    → session_of seen j ≡ ok s
    → contains seen s ≡ false
unfolding session_of
session_of-fresh seen j s h =
    let (t, _, h₁) = or_fail-bind-eq-ok (text_value j) _ _ h in
    let (_, h₂) = guard-then-eq-ok (is_slug t) _ _ h₁ in
    let (_, h₃) = guard-then-eq-ok (not (contains reserved_names t)) _ _ h₂ in
    let (fresh, last) = guard-then-eq-ok (not (contains seen t)) _ _ h₃ in
    subst (λ x. contains seen x ≡ false) (ok-same last) (not-eq-true (contains seen t) fresh)

-- A visit bound is positive, and stands with the name of a step to go to.
abbrev pub BoundFits : Option ℕ × Option String → Type 0
BoundFits b =
    (b ≡ (none, none)) ⊎ ((n : ℕ) × (gate_name : String) × (b ≡ (some n, some gate_name)) × (1 ≤ n))

abbrev pub Bounded : Step → Type 0
Bounded s = BoundFits (s.max_visits, s.on_exhausted)

visits-positive : (j : Json) (n : ℕ) → visits j ≡ ok n → 1 ≤ n
visits-positive (int (pos m)) n h =
    let (enough, last) = guard-then-eq-ok (leb 1 m) _ _ h in
    subst (λ x. 1 ≤ x) (ok-same last) (leb→le 1 m enough)
visits-positive (int (negsuc _)) n h = cc
visits-positive null n h = cc
visits-positive (bool _) n h = cc
visits-positive (float _) n h = cc
visits-positive (str _) n h = cc
visits-positive (arr _) n h = cc
visits-positive (obj _) n h = cc

optional-given :
    {A : Type 0} (parse : Json → Parsed A) (o : Option Json) (a : A)
    → optional parse o ≡ ok (some a)
    → (j : Json) × (parse j ≡ ok a)
unfolding optional
optional-given parse none a h = cc
optional-given parse (some j) a h = elim (Bool-cases (is_null j)) [
  | inl e ↦ cc (rw e at h)
  | inr e ↦
      let (b, e', last) = >>=-eq-ok (parse j) _ (rw e at h) in
      (j, e' ∙ ap ok (some-same (ok-same last)))
]

pair-fits :
    (n : Option ℕ) (e : Option String)
    → paired n e ≡ true
    → ((m : ℕ) → n ≡ some m → 1 ≤ m)
    → BoundFits (n, e)
pair-fits none none h least = inl refl
pair-fits none (some _) h least = cc
pair-fits (some _) none h least = cc
pair-fits (some m) (some g) h least = inr (m, g, refl, least m refl)

parse_bound-BoundFits :
    (version : ℕ) (fs : Fields) (b : Option ℕ × Option String)
    → parse_bound version fs ≡ ok b
    → BoundFits b
unfolding parse_bound
parse_bound-BoundFits version fs b h =
    let (n, e₁, h₁) = >>=-eq-ok (optional visits (get_field "max_visits" fs)) _ h in
    let (r, _, h₂) = >>=-eq-ok (optional (exhausted version) (get_field "on_exhausted" fs)) _ h₁ in
    let (both, last) = guard-then-eq-ok (paired n r) _ _ h₂ in
    subst BoundFits (ok-same last) (
      pair-fits n r both λ m same.
        let (j, read) = optional-given visits (get_field "max_visits" fs) m (e₁ ∙ ap ok same) in
        visits-positive j m read)

parse_step-Bounded :
    (k version : ℕ) (j : Json) (s : Step) → parse_step k version j ≡ ok s → Bounded s
unfolding parse_step
parse_step-Bounded k version j s h =
    let (fs, _, h₁) = >>=-eq-ok (mapping j) _ h in
    let (n, _, h₂) = >>=-eq-ok (require_slug fs "name") _ h₁ in
    let (t, _, h₃) = >>=-eq-ok (require_text fs "kind") _ h₂ in
    let (kind, _, h₄) = or_fail-bind-eq-ok (kind_named t) _ _ h₃ in
    let (_, h₅) = guard-then-eq-ok (admits version kind) _ _ h₄ in
    let (bound, e, h₆) = >>=-eq-ok (parse_bound version fs) _ h₅ in
    let (_, _, h₇) =
      >>=-eq-ok (if version == 1 then ok [] else parse_evidence (get_field "evidence" fs)) _ h₆ in
    let (_, _, last) = >>=-eq-ok (body_of k version fs kind) _ h₇ in
    subst Bounded (ok-same last) (parse_bound-BoundFits version fs bound e)

pub listed_step-Bounded :
    (k version : ℕ) (seen : List String) (j : Json) (s : Step)
    → listed_step k version seen j ≡ ok s
    → Bounded s
unfolding listed_step
listed_step-Bounded k version seen j s h =
    let (t, e, h₁) = >>=-eq-ok (parse_step k version j) _ h in
    let (_, h₂) = guard-then-eq-ok (not (contains reserved_names t.name)) _ _ h₁ in
    let (_, last) = guard-then-eq-ok (not (contains seen t.name)) _ _ h₂ in
    subst Bounded (ok-same last) (parse_step-Bounded k version j t e)
