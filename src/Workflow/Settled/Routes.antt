-- ===== src/Workflow/Settled/Routes.antt =====
-- The fuel that loops, optional fields, destinations and bounds need, workflow_definitions.py.
use ompire.Base.{
  Bool, Bool-cases, List, Option, String, [], arith, contains, false, inl, inr, leb, none, ok,
  or_fail, refl, some, suc, true, zero, ℕ, ◌++◌, ◌==◌, ◌∷◌, ◌≡◌, ◌≤◌, string_eq, ℕ_eq,
}
use ompire.Base.Int.{negsuc, pos, ℤ_eq}
use ompire.Json.{
  Fields, Items, Json, arr, bool, cons, end, field, float, get_field, int, nil, null, obj, str,
}
use ompire.Workflow.Syntax.{Destination, complete, pause, to_step}
use ompire.Workflow.Parse.Fields.{
  Parsed, all_keys, has, mapping, not_one_of, require_slug, require_text, required,
}
use ompire.Workflow.Parse.Depth.{
  Settles, bind-settled, depth, fields_depth, guard-settled, items_depth, mapping-depth,
  mapping-settled, no_fuel, or_fail-settled, require_slug-settled, require_text-settled, settled,
}
use ompire.Workflow.Parse.Texts.{Which, first, one_of, second, third}
use ompire.Workflow.Parse.Routes.{
  destination_of, ending_fields, exhausted, is_null, is_true, only_step, optional, paired,
  parse_bound, parse_destination, visits,
}
use ompire.Workflow.Parse.Contracts.{each_field}
use ompire.Workflow.Parse.Gates.{each_named}
use ompire.Workflow.Parse.Steps.{each_of}

pub optional-settled {ℓ} :
    {A : Type ℓ} (parse : Json → Parsed A) (o : Option Json)
    → ((j : Json) → o ≡ some j → settled (parse j) ≡ true)
    → settled (optional parse o) ≡ true
unfolding optional
optional-settled parse none h = refl
optional-settled parse (some j) h = elim (Bool-cases (is_null j)) [
  | inl e ↦ rw e refl
  | inr e ↦ rw e (bind-settled (parse j) _ (h j refl) λ a _. refl)
]

pub each_field-settled {ℓ} :
    {A : Type ℓ} (parse : String → Json → Parsed A) (fs : Fields)
    → ((k : String) (j : Json) → settled (parse k j) ≡ true)
    → settled (each_field parse fs) ≡ true
unfolding each_field
each_field-settled parse end h = refl
each_field-settled parse (field k j fs) h =
    bind-settled (parse k j) _ (h k j)
      λ a _. bind-settled (each_field parse fs) _ (each_field-settled parse fs h) λ rest _. refl

pub each_named-settled {ℓ} :
    {A : Type ℓ} (k : ℕ) (parse : List String → Json → Parsed A) (key : A → String)
    (seen : List String) (js : Items)
    → ((before : List String) → Settles k (parse before))
    → items_depth js ≤ k
    → settled (each_named parse key seen js) ≡ true
unfolding each_named depth
each_named-settled k parse key seen nil h d = refl
each_named-settled k parse key seen (cons j js) h d =
    bind-settled (parse seen j) _ (h seen j (omega arith)) λ a _.
      bind-settled (each_named parse key (seen ++ key a ∷ []) js) _
        (each_named-settled k parse key (seen ++ key a ∷ []) js h (omega arith)) λ rest _. refl

pub each_of-settled {ℓ} :
    {A : Type ℓ} (k : ℕ) (parse : Json → Parsed A) (js : Items)
    → Settles k parse
    → items_depth js ≤ k
    → settled (each_of parse js) ≡ true
unfolding each_of depth
each_of-settled k parse nil h d = refl
each_of-settled k parse (cons j js) h d = bind-settled (parse j) _ (h j (omega arith)) λ a _.
    bind-settled (each_of parse js) _ (each_of-settled k parse js h (omega arith)) λ rest _. refl

-- A mapping is no deeper than the bound of its document.
pub mapping-within :
    (k : ℕ) (j : Json) (fs : Fields) → mapping j ≡ ok fs → depth j ≤ k → fields_depth fs ≤ k
unfolding depth
mapping-within zero j fs h d = elim (no_fuel j d) [ ]
mapping-within (suc k) j fs h d = let within = mapping-depth k j fs h d in omega arith

destination_of-settled :
    (version : ℕ) (allow : Bool) (fs : Fields) (w : Which)
    → settled (destination_of version allow fs w) ≡ true
unfolding destination_of
destination_of-settled version allow fs first =
    guard-settled (all_keys (contains ("step" ∷ [])) fs) _ _ refl
      (bind-settled (require_text fs "step") _ (require_text-settled fs "step") λ s _. refl)
destination_of-settled version allow fs second =
    guard-settled (all_keys (contains (ending_fields version)) fs) _ _ refl (
      bind-settled (required fs "complete") _ (or_fail-settled (get_field "complete" fs) _ refl)
        λ j _. guard-settled (is_true j) _ _ refl (elim (Bool-cases (version == 1)) [
          | inl e ↦ rw e refl
          | inr e ↦ rw e (
              bind-settled (require_slug fs "result") _ (require_slug-settled fs "result")
                λ r _. refl)
        ]))
destination_of-settled version allow fs third = guard-settled allow _ _ refl (
    guard-settled (all_keys (contains ("pause" ∷ [])) fs) _ _ refl (
      bind-settled (required fs "pause") _ (or_fail-settled (get_field "pause" fs) _ refl)
        λ j _. guard-settled (is_true j) _ _ refl refl))

pub parse_destination-settled :
    (version : ℕ) (allow : Bool) (j : Json) → settled (parse_destination version allow j) ≡ true
unfolding parse_destination
parse_destination-settled version allow j = bind-settled (mapping j) _ (mapping-settled j) λ fs _.
    bind-settled (or_fail (one_of (has "step" fs) (has "complete" fs) (has "pause" fs)) not_one_of)
      _
      (or_fail-settled (one_of (has "step" fs) (has "complete" fs) (has "pause" fs)) not_one_of
        refl)
      λ w _. destination_of-settled version allow fs w

visits-settled : (j : Json) → settled (visits j) ≡ true
visits-settled (int (pos n)) = guard-settled (leb 1 n) _ _ refl refl
visits-settled (int (negsuc _)) = refl
visits-settled null = refl
visits-settled (bool _) = refl
visits-settled (float _) = refl
visits-settled (str _) = refl
visits-settled (arr _) = refl
visits-settled (obj _) = refl

only_step-settled : (d : Destination) → settled (only_step d) ≡ true
only_step-settled (to_step _) = refl
only_step-settled (complete _) = refl
only_step-settled pause = refl

pub parse_bound-settled : (version : ℕ) (fs : Fields) → settled (parse_bound version fs) ≡ true
unfolding parse_bound exhausted
parse_bound-settled version fs =
    bind-settled (optional visits (get_field "max_visits" fs)) _
      (optional-settled visits (get_field "max_visits" fs) λ j _. visits-settled j)
      λ n _.
        bind-settled (optional (exhausted version) (get_field "on_exhausted" fs)) _
          (optional-settled (exhausted version) (get_field "on_exhausted" fs) λ j _.
            bind-settled (parse_destination version false j) _
              (parse_destination-settled version false j) λ d _. only_step-settled d)
          λ e _. guard-settled (paired n e) _ _ refl refl
