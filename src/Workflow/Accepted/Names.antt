-- ===== src/Workflow/Accepted/Names.antt =====
-- Items that are read one after the other, each under a name of its own.
use ompire.Base.{
  >>=-eq-ok, All, Bool, Bool-cases, List, String, [], ap, contains, eq_iff, false, inl, inr, length,
  map, ok, ok-same, refl, subst, suc, true, ◌++◌, ◌==◌, ◌||◌, ◌∙◌, ◌∷◌, ◌≡◌, string_eq, ℕ_eq,
}
use ompire.Base.Int.{ℤ_eq}
use ompire.Json.{Items, Json, cons, nil}
use ompire.Workflow.Parse.Fields.{Parsed, has}
use ompire.Workflow.Parse.Gates.{count_items, each_named}
use ompire.Workflow.Parse.Steps.{all_distinct}

or_false : (b : Bool) → (b || false) ≡ b
or_false true = refl
or_false false = refl

or_true : (b : Bool) → (b || true) ≡ true
or_true true = refl
or_true false = refl

or_left : (a b : Bool) → a ≡ true → (a || b) ≡ true
or_left true b h = refl
or_left false b h = cc

all_distinct-cons :
    (s : String) (ss : List String)
    → contains ss s ≡ false
    → all_distinct ss ≡ true
    → all_distinct (s ∷ ss) ≡ true
all_distinct-cons s ss fresh h = rw (fresh, h) refl

contains-cons :
    (s x : String) (ss : List String)
    → (s == x) ≡ false
    → contains ss x ≡ false
    → contains (s ∷ ss) x ≡ false
contains-cons s x ss other h = rw (other, h) refl

apart :
    (seen : List String) (s x : String)
    → contains seen s ≡ false
    → contains seen x ≡ true
    → (s == x) ≡ false
apart seen s x out here = elim (Bool-cases (s == x)) [
  | inl e ↦ cc (out, here, ap (contains seen) ((eq_iff s x).0 e))
  | inr e ↦ e
]

contains-append :
    (ss : List String) (y x : String) → contains (ss ++ y ∷ []) x ≡ (contains ss x || (y == x))
contains-append [] y x = or_false (y == x)
contains-append (s ∷ ss) y x = elim (Bool-cases (s == x)) [
  | inl e ↦ rw e refl
  | inr e ↦ rw e (contains-append ss y x)
]

-- Items read one after the other: their names are distinct, none was seen before, and there are as many.
pub each_named-distinct {ℓ} :
    {A : Type ℓ} (parse : List String → Json → Parsed A) (key : A → String) (seen : List String)
    (js : Items) (items : List A)
    → ((before : List String) (j : Json) (a : A)
        → parse before j ≡ ok a
        → contains before (key a) ≡ false)
    → each_named parse key seen js ≡ ok items
    → (all_distinct (map key items) ≡ true)
      × ((x : String) → contains seen x ≡ true → contains (map key items) x ≡ false)
unfolding each_named
each_named-distinct parse key seen nil items fresh h =
    subst
      (λ l.
        (all_distinct (map key l) ≡ true)
        × ((x : String) → contains seen x ≡ true → contains (map key l) x ≡ false))
      (ok-same h) (refl, λ x _. refl)
each_named-distinct parse key seen (cons j js) items fresh h =
    let (a, e, h₁) = >>=-eq-ok (parse seen j) _ h in
    let (rest, e', last) = >>=-eq-ok (each_named parse key (seen ++ key a ∷ []) js) _ h₁ in
    let (rest_apart, unseen) =
      each_named-distinct parse key (seen ++ key a ∷ []) js rest fresh e' in
    subst
      (λ l.
        (all_distinct (map key l) ≡ true)
        × ((x : String) → contains seen x ≡ true → contains (map key l) x ≡ false))
      (ok-same last)
      (
        all_distinct-cons (key a) (map key rest)
            (unseen (key a) (
              contains-append seen (key a) (key a)
              ∙ ap (λ b. contains seen (key a) || b) ((eq_iff (key a) (key a)).1 refl)
              ∙ or_true (contains seen (key a))))
            rest_apart,
        λ x old.
            contains-cons (key a) x (map key rest) (apart seen (key a) x (fresh seen j a e) old) (
              unseen x
                (contains-append seen (key a) x ∙ or_left (contains seen x) (key a == x) old)),
      )

pub each_named-length {ℓ} :
    {A : Type ℓ} (parse : List String → Json → Parsed A) (key : A → String) (seen : List String)
    (js : Items) (items : List A)
    → each_named parse key seen js ≡ ok items
    → length items ≡ count_items js
unfolding each_named
each_named-length parse key seen nil items h = subst (λ l. length l ≡ 0) (ok-same h) refl
each_named-length parse key seen (cons j js) items h =
    let (a, e, h₁) = >>=-eq-ok (parse seen j) _ h in
    let (rest, e', last) = >>=-eq-ok (each_named parse key (seen ++ key a ∷ []) js) _ h₁ in
    subst (λ l. length l ≡ suc (count_items js)) (ok-same last)
      (ap suc (each_named-length parse key (seen ++ key a ∷ []) js rest e'))

-- What each item has that is read by itself.
pub each_named-All {ℓ} :
    {A : Type ℓ} (parse : List String → Json → Parsed A) (key : A → String) (P : A → Type 0)
    (seen : List String) (js : Items) (items : List A)
    → ((before : List String) (j : Json) (a : A) → parse before j ≡ ok a → P a)
    → each_named parse key seen js ≡ ok items
    → All P items
unfolding each_named
each_named-All parse key P seen nil items has h = subst (All P) (ok-same h) tt
each_named-All parse key P seen (cons j js) items has h =
    let (a, e, h₁) = >>=-eq-ok (parse seen j) _ h in
    let (rest, e', last) = >>=-eq-ok (each_named parse key (seen ++ key a ∷ []) js) _ h₁ in
    subst (All P) (ok-same last)
      (has seen j a e, each_named-All parse key P (seen ++ key a ∷ []) js rest has e')
