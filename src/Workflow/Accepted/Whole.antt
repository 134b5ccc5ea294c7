-- ===== src/Workflow/Accepted/Whole.antt =====
-- Definitions that the parser of workflow_definitions.py gives.
use ompire.Workflow.Syntax.{Definition}
use ompire.Workflow.Parse.Definitions.{
  document_fields, environment_of, format_version, is_format, listed_step, max_steps,
  read_definition, session_of, step_name, supported_formats,
}
use ompire.Workflow.Reload.Values.{nonempty-full}
use ompire.Workflow.Parse.Depth.{or_fail-eq-ok}
use ompire.Base.{
  >>=-eq-ok, All, Bool, Bool-cases, List, String, [], ap, arith, contains, find, guard-then-eq-ok,
  inl, inr, leb, leb→le, length, map, nat_eq, nat_eq_iff, ok, ok-same, refl, some, some-same, subst,
  sym, true, ℕ, ◌∷◌, ◌≡◌, ◌≤◌, string_eq, ℕ_eq,
}
use ompire.Base.Int.{ℤ_eq}
use ompire.Json.{Items, Json, cons, get_field, nil}
use ompire.Workflow.Parse.Fields.{
  all_keys, is_full, mapping, nonempty, require_slug, require_text, required,
}
use ompire.Workflow.Parse.Gates.{count_items, each_named, own_name}
use ompire.Workflow.Parse.Steps.{all_distinct}
use ompire.Workflow.Accepted.Names.{each_named-All, each_named-distinct, each_named-length}
use ompire.Workflow.Accepted.Bounds.{
  Bounded, listed_step-Bounded, listed_step-fresh, session_of-fresh,
}

find-contains : (p : ℕ → Bool) (ns : List ℕ) (n : ℕ) → find p ns ≡ some n → contains ns n ≡ true
find-contains p [] n h = cc
find-contains p (m ∷ ns) n h = elim (Bool-cases (p m)) [
  | inl e ↦
      subst (λ x. contains (m ∷ ns) x ≡ true) (some-same (rw e at h))
        (rw ((nat_eq_iff m m).1 refl) refl)
  | inr e ↦ elim (Bool-cases (nat_eq m n)) [
    | inl e' ↦ rw e' refl
    | inr e' ↦ rw e' (find-contains p ns n (rw e at h))
  ]
]

map-own_name : (ss : List String) → map own_name ss ≡ ss
map-own_name [] = refl
map-own_name (s ∷ ss) = ap (λ x. s ∷ x) (map-own_name ss)

full-count : (js : Items) → is_full js ≡ true → 1 ≤ count_items js
full-count nil h = cc
full-count (cons _ js) h = omega arith

format_version-contains :
    (j : Json) (n : ℕ) → format_version j ≡ ok n → contains supported_formats n ≡ true
format_version-contains j n h =
    find-contains (λ m. is_format m j) supported_formats n
      (or_fail-eq-ok (find (λ m. is_format m j) supported_formats) _ n h)

-- The definition is within the bounds of the document, and its names are told apart.
pub record WellFormed (d : Definition) : Type 0 where
  pub known_format : contains supported_formats d.format ≡ true
  pub own_sessions : all_distinct d.sessions ≡ true
  pub primary_declared : contains d.sessions d.primary ≡ true
  pub some_step : 1 ≤ length d.steps
  pub few_steps : length d.steps ≤ max_steps
  pub own_steps : all_distinct (map step_name d.steps) ≡ true
  pub bounded : All Bounded d.steps

-- What the parser gives is within these bounds.
pub read_definition-WellFormed :
    (k : ℕ) (j : Json) (d : Definition) → read_definition k j ≡ ok d → WellFormed d
unfolding read_definition
read_definition-WellFormed k j d h =
    let (fs, _, h₁) = >>=-eq-ok (mapping j) _ h in
    let (_, h₂) = guard-then-eq-ok (all_keys (contains document_fields) fs) _ _ h₁ in
    let (vj, _, h₃) = >>=-eq-ok (required fs "format") _ h₂ in
    let (version, v, h₄) = >>=-eq-ok (format_version vj) _ h₃ in
    let (n, _, h₅) = >>=-eq-ok (require_slug fs "name") _ h₄ in
    let (environment, _, h₆) = >>=-eq-ok (environment_of (get_field "environment" fs)) _ h₅ in
    let (names, _, h₇) = >>=-eq-ok (nonempty fs "sessions") _ h₆ in
    let (sessions, e, h₈) = >>=-eq-ok (each_named session_of own_name [] names) _ h₇ in
    let (primary, _, h₉) = >>=-eq-ok (require_text fs "primary") _ h₈ in
    let (listed, h₁₀) = guard-then-eq-ok (contains sessions primary) _ _ h₉ in
    let (raw, e₂, h₁₁) = >>=-eq-ok (nonempty fs "steps") _ h₁₀ in
    let (few, h₁₂) = guard-then-eq-ok (leb (count_items raw) max_steps) _ _ h₁₁ in
    let (steps, e₃, last) = >>=-eq-ok (each_named (listed_step k version) step_name [] raw) _ h₁₂ in
    let counted = each_named-length (listed_step k version) step_name [] raw steps e₃ in
    subst WellFormed (ok-same last) (record {
      known_format = format_version-contains vj version v;
      own_sessions =
          subst (λ x. all_distinct x ≡ true) (map-own_name sessions)
            (each_named-distinct session_of own_name [] names sessions session_of-fresh e).0;
      primary_declared = listed;
      some_step =
          subst (λ x. 1 ≤ x) (sym counted) (full-count raw (nonempty-full fs "steps" raw e₂));
      few_steps = subst (λ x. x ≤ max_steps) (sym counted) (leb→le (count_items raw) max_steps few);
      own_steps =
          (each_named-distinct (listed_step k version) step_name [] raw steps
            (listed_step-fresh k version) e₃).0;
      bounded =
          each_named-All (listed_step k version) step_name Bounded [] raw steps
            (listed_step-Bounded k version) e₃;
    })
