-- ===== src/Workflow/Parse/Depth.antt =====
-- How deep a document nests, which is the fuel that its readers need, and the reads that spend none.
use ompire.Base.{
  Bool, Bool-cases, Option, String, ap, arith, err, false, guard, guard-then-eq-ok, inl, inr, max,
  none, not, ok, ok-same, or_fail, refl, some, some-same, subst, suc, true, ℕ, ◌==◌, ◌>>=◌, ◌>>◌,
  ◌≡◌, ◌≤◌, string_eq, ℕ_eq,
}
use ompire.Json.{
  Fields, Items, Json, arr, bool, cons, end, field, float, get_field, int, nil, null, obj, str,
}
use ompire.Workflow.Parse.Fields.{
  ParseError, Parsed, flag, flag_option, is_full, list_option, mapping, missing, nonempty,
  out_of_fuel, require_slug, require_text, required, text_option, text_value, texts_of,
  unknown_operation, wrong,
}
use ompire.Workflow.Parse.Slug.{is_slug}

-- A document without a container has depth 1.
unfoldable mutual
  pub depth : Json → ℕ
  depth (arr js) = suc (items_depth js)
  depth (obj fs) = suc (fields_depth fs)
  depth _ = 1

  pub items_depth : Items → ℕ
  items_depth nil = 0
  items_depth (cons j js) = max (depth j) (items_depth js)

  pub fields_depth : Fields → ℕ
  fields_depth end = 0
  fields_depth (field _ j fs) = max (depth j) (fields_depth fs)

-- The read came to a result or to an error of the document, not to the end of the fuel.
abbrev pub spent : ParseError → Bool
spent out_of_fuel = true
spent _ = false

abbrev pub settled {ℓ} : {A : Type ℓ} → Parsed A → Bool
settled (ok a) = true
settled (err e) = not (spent e)

pub bind-settled {ℓ κ} :
    {A : Type ℓ} {B : Type κ} (m : Parsed A) (f : A → Parsed B)
    → settled m ≡ true
    → ((a : A) → m ≡ ok a → settled (f a) ≡ true)
    → settled (m >>= f) ≡ true
bind-settled (ok a) f h rest = rest a refl
bind-settled (err e) f h rest = h

pub guard-settled {ℓ} :
    {B : Type ℓ} (t : Bool) (e : ParseError) (k : Parsed B)
    → spent e ≡ false
    → settled k ≡ true
    → settled (guard t e >> k) ≡ true
guard-settled true e k h rest = rest
guard-settled false e k h rest = rw h refl

pub or_fail-settled {ℓ} :
    {A : Type ℓ} (o : Option A) (e : ParseError) → spent e ≡ false → settled (or_fail o e) ≡ true
or_fail-settled none e h = rw h refl
or_fail-settled (some a) e h = refl

pub mapping-settled : (j : Json) → settled (mapping j) ≡ true
mapping-settled null = refl
mapping-settled (bool _) = refl
mapping-settled (int _) = refl
mapping-settled (float _) = refl
mapping-settled (str _) = refl
mapping-settled (arr _) = refl
mapping-settled (obj _) = refl

pub mapping-depth :
    (k : ℕ) (j : Json) (fs : Fields) → mapping j ≡ ok fs → depth j ≤ suc k → fields_depth fs ≤ k
unfolding depth
mapping-depth k (obj gs) fs h d = subst (λ x. fields_depth x ≤ k) (ok-same h) (omega arith)
mapping-depth k null fs h d = cc
mapping-depth k (bool _) fs h d = cc
mapping-depth k (int _) fs h d = cc
mapping-depth k (float _) fs h d = cc
mapping-depth k (str _) fs h d = cc
mapping-depth k (arr _) fs h d = cc

pub get_field-depth :
    (key : String) (fs : Fields) (j : Json) → get_field key fs ≡ some j → depth j ≤ fields_depth fs
unfolding depth
get_field-depth key end j h = cc
get_field-depth key (field k v fs) j h = elim (Bool-cases (k == key)) [
  | inl e ↦
      let here = some-same (rw e at h) in
      subst (λ x. depth x ≤ max (depth v) (fields_depth fs)) here (omega arith)
  | inr e ↦ let there = get_field-depth key fs j (rw e at h) in omega arith
]

pub or_fail-eq-ok {ℓ} :
    {A : Type ℓ} (o : Option A) (e : ParseError) (a : A) → or_fail o e ≡ ok a → o ≡ some a
or_fail-eq-ok none e a h = cc
or_fail-eq-ok (some b) e a h = ap some (ok-same h)

pub required-depth :
    (fs : Fields) (key : String) (j : Json) → required fs key ≡ ok j → depth j ≤ fields_depth fs
required-depth fs key j h =
    get_field-depth key fs j (or_fail-eq-ok (get_field key fs) (missing key) j h)

pub require_text-settled : (fs : Fields) (k : String) → settled (require_text fs k) ≡ true
require_text-settled fs k =
    bind-settled (required fs k) _ (or_fail-settled (get_field k fs) (missing k) refl)
      λ j _. or_fail-settled (text_value j) (wrong k) refl

pub require_slug-settled : (fs : Fields) (k : String) → settled (require_slug fs k) ≡ true
require_slug-settled fs k =
    bind-settled (require_text fs k) _ (require_text-settled fs k)
      λ s _. guard-settled (is_slug s) (wrong k) (ok s) refl refl

pub text_option-settled : (k : String) (o : Option Json) → settled (text_option k o) ≡ true
unfolding text_option
text_option-settled k none = refl
text_option-settled k (some null) = refl
text_option-settled k (some (bool _)) = refl
text_option-settled k (some (int _)) = refl
text_option-settled k (some (float _)) = refl
text_option-settled k (some (str _)) = refl
text_option-settled k (some (arr _)) = refl
text_option-settled k (some (obj _)) = refl

flag_option-settled : (k : String) (b : Bool) (o : Option Json) → settled (flag_option k b o) ≡ true
flag_option-settled k b none = refl
flag_option-settled k b (some null) = refl
flag_option-settled k b (some (bool _)) = refl
flag_option-settled k b (some (int _)) = refl
flag_option-settled k b (some (float _)) = refl
flag_option-settled k b (some (str _)) = refl
flag_option-settled k b (some (arr _)) = refl
flag_option-settled k b (some (obj _)) = refl

pub flag-settled : (fs : Fields) (k : String) (b : Bool) → settled (flag fs k b) ≡ true
flag-settled fs k b = flag_option-settled k b (get_field k fs)

pub list_option-settled : (k : String) (o : Option Json) → settled (list_option k o) ≡ true
list_option-settled k none = refl
list_option-settled k (some null) = refl
list_option-settled k (some (bool _)) = refl
list_option-settled k (some (int _)) = refl
list_option-settled k (some (float _)) = refl
list_option-settled k (some (str _)) = refl
list_option-settled k (some (arr js)) = guard-settled (is_full js) (wrong k) (ok js) refl refl
list_option-settled k (some (obj _)) = refl

pub nonempty-settled : (fs : Fields) (k : String) → settled (nonempty fs k) ≡ true
nonempty-settled fs k = list_option-settled k (get_field k fs)

list_option-found :
    (k : String) (o : Option Json) (js : Items) → list_option k o ≡ ok js → o ≡ some (arr js)
list_option-found k none js h = cc
list_option-found k (some null) js h = cc
list_option-found k (some (bool _)) js h = cc
list_option-found k (some (int _)) js h = cc
list_option-found k (some (float _)) js h = cc
list_option-found k (some (str _)) js h = cc
list_option-found k (some (arr js')) js h =
    let (full, last) = guard-then-eq-ok (is_full js') _ _ h in ap (λ x. some (arr x)) (ok-same last)
list_option-found k (some (obj _)) js h = cc

pub nonempty-depth :
    (fs : Fields) (k : String) (js : Items)
    → nonempty fs k ≡ ok js
    → items_depth js ≤ fields_depth fs
unfolding depth
nonempty-depth fs k js h =
    let within = get_field-depth k fs (arr js) (list_option-found k (get_field k fs) js h) in
    omega arith

pub texts_of-settled : (k : String) (js : Items) → settled (texts_of k js) ≡ true
texts_of-settled k nil = refl
texts_of-settled k (cons j js) =
    bind-settled (or_fail (text_value j) (wrong k)) _
      (or_fail-settled (text_value j) (wrong k) refl)
      λ s _. bind-settled (texts_of k js) _ (texts_of-settled k js) λ ss _. refl

-- A reader comes to an end on each document up to a depth.
abbrev pub Settles {ℓ} : {A : Type ℓ} → ℕ → (Json → Parsed A) → Type 0
Settles k parse = (j : Json) → depth j ≤ k → settled (parse j) ≡ true

pub no_fuel : (j : Json) → depth j ≤ 0 → ⊥
unfolding depth
no_fuel null d = omega arith
no_fuel (bool _) d = omega arith
no_fuel (int _) d = omega arith
no_fuel (float _) d = omega arith
no_fuel (str _) d = omega arith
no_fuel (arr js) d = omega arith
no_fuel (obj fs) d = omega arith

-- A mapping with an operation: the prefix that expressions and predicates share.
pub op-settled :
    {A Op : Type 0} (k : ℕ) (j : Json) (read : String → Option Op) (body : Fields → Op → Parsed A)
    → ((fs : Fields) (o : Op) → fields_depth fs ≤ k → settled (body fs o) ≡ true)
    → depth j ≤ suc k
    → settled (do
      fs ← mapping j
      op ← or_fail (get_field "op" fs) (wrong "op")
      s ← or_fail (text_value op) (wrong "op")
      o ← or_fail (read s) (unknown_operation s)
      body fs o)
      ≡ true
op-settled k j read body h d = bind-settled (mapping j) _ (mapping-settled j) λ fs e.
    bind-settled (or_fail (get_field "op" fs) (wrong "op")) _
      (or_fail-settled (get_field "op" fs) (wrong "op") refl)
      λ op _.
        bind-settled (or_fail (text_value op) (wrong "op")) _
          (or_fail-settled (text_value op) (wrong "op") refl)
          λ s _.
            bind-settled (or_fail (read s) (unknown_operation s)) _
              (or_fail-settled (read s) (unknown_operation s) refl)
              λ o _. h fs o (mapping-depth k j fs e d)
