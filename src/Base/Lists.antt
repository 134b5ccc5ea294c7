-- ===== src/Base/Lists.antt =====
-- Lists measured by native numbers, and the queries that the code makes of lists and tables.
use Prim.Native.Nat.{◌≤◌, ℕ, suc, ◌+◌, max}
use mathlib.Core.Path.{◌≡◌, refl, subst}
use mathlib.Core.Bool.{Bool, true, false, ◌&&◌, ◌||◌}
use mathlib.Core.Logic.{inl, inr}
use mathlib.Core.Option.{Option, none, some}
use mathlib.Core.List.{List, [], ◌∷◌, ◌++◌}
use native.Mathlib.Omega.{arith}
use package.ompire.Base.Tests.{if◌then◌else◌, ltb, Bool-cases, Option-cases, Eq, ◌==◌}

module _ {ℓ} {A : Type ℓ} where
  abbrev pub length : List A → ℕ
  length [] = 0
  length (x ∷ xs) = suc (length xs)

  -- `[x for x in xs if test(x)]`, and the rows of a `where` clause.
  abbrev pub select : (A → Bool) → List A → List A
  select p [] = []
  select p (x ∷ xs) = if p x then x ∷ select p xs else select p xs

  -- The first element that passes; `.first()` of a `where` clause.
  abbrev pub find : (A → Bool) → List A → Option A
  find p [] = none
  find p (x ∷ xs) = if p x then some x else find p xs

  -- `update().where(test).values(…)`
  abbrev pub update : (A → Bool) → (A → A) → List A → List A
  update p f [] = []
  update p f (x ∷ xs) = (if p x then f x else x) ∷ update p f xs

  abbrev pub any : (A → Bool) → List A → Bool
  any p [] = false
  any p (x ∷ xs) = p x || any p xs

  abbrev pub all : (A → Bool) → List A → Bool
  all p [] = true
  all p (x ∷ xs) = p x && all p xs

  -- `xs[-1] if xs else None`
  abbrev pub get_last? : List A → Option A
  get_last? [] = none
  get_last? (x ∷ []) = some x
  get_last? (x ∷ y ∷ xs) = get_last? (y ∷ xs)

  -- `max((key(x) for x in xs), default=0)`
  abbrev pub max_of : (A → ℕ) → List A → ℕ
  max_of key [] = 0
  max_of key (x ∷ xs) = max (key x) (max_of key xs)

  abbrev pub keep_max : (A → ℕ) → A → Option A → A
  keep_max key x none = x
  keep_max key x (some y) = if ltb (key x) (key y) then y else x

  -- `max(xs, key=key)`: the first of the elements with the greatest key.
  abbrev pub arg_max : (A → ℕ) → List A → Option A
  arg_max key [] = none
  arg_max key (x ∷ xs) = some (keep_max key x (arg_max key xs))

  abbrev pub All {κ} : (A → Type κ) → List A → Type κ
  All P [] = Unit
  All P (x ∷ xs) = P x × All P xs

module _ {ℓ} {A : Type ℓ} ⦃e : Eq A⦄ where
  -- `a in xs`
  abbrev pub contains : List A → A → Bool
  contains [] a = false
  contains (x ∷ xs) a = x == a || contains xs a

module _ {ℓ} {A : Type ℓ} where
  pub length-append : (xs ys : List A) → length (xs ++ ys) ≡ length xs + length ys
  length-append [] ys = omega arith
  length-append (x ∷ xs) ys = omega (arith, length-append xs ys)

  pub select-append :
      (p : A → Bool) (xs ys : List A) → select p (xs ++ ys) ≡ select p xs ++ select p ys
  select-append p [] ys = refl
  select-append p (x ∷ xs) ys = ground (arith, select-append p xs ys)

  pub any-append : (p : A → Bool) (xs ys : List A) → any p (xs ++ ys) ≡ any p xs || any p ys
  any-append p [] ys = refl
  any-append p (x ∷ xs) ys = ground (arith, any-append p xs ys)

  pub get_last?-append : (xs : List A) (x : A) → get_last? (xs ++ x ∷ []) ≡ some x
  get_last?-append [] x = refl
  get_last?-append (y ∷ []) x = refl
  get_last?-append (y ∷ z ∷ xs) x = get_last?-append (z ∷ xs) x

  -- What a search finds passes the test.
  pub find-holds : (p : A → Bool) (xs : List A) (x : A) → find p xs ≡ some x → p x ≡ true
  find-holds p [] x h = cc
  find-holds p (y ∷ ys) x h = elim (Bool-cases (p y)) [
    | inl e ↦ ground arith
    | inr e ↦ find-holds p ys x (rw e at h)
  ]

module _ {ℓ} {A : Type ℓ} where
  -- `xs[0] if xs else None`
  abbrev pub head? : List A → Option A
  head? [] = none
  head? (x ∷ xs) = some x

module _ {ℓ} {A : Type ℓ} where
  pub max_of-append :
      (key : A → ℕ) (xs ys : List A) → max_of key (xs ++ ys) ≡ max (max_of key xs) (max_of key ys)
  max_of-append key [] ys = omega arith
  max_of-append key (x ∷ xs) ys = omega (arith, max_of-append key xs ys)

  pub max_of-select :
      (key : A → ℕ) (p : A → Bool) (xs : List A) → max_of key (select p xs) ≤ max_of key xs
  max_of-select key p [] = omega arith
  max_of-select key p (x ∷ xs) = ground (arith, max_of-select key p xs)

  arg_max-none : (key : A → ℕ) (xs : List A) → arg_max key xs ≡ none → max_of key xs ≡ 0
  arg_max-none key [] h = refl
  arg_max-none key (x ∷ xs) h = cc

  -- The chosen element has the greatest key.
  pub arg_max-greatest :
      (key : A → ℕ) (xs : List A) (x : A) → arg_max key xs ≡ some x → key x ≡ max_of key xs
  arg_max-greatest key [] x h = cc
  arg_max-greatest key (y ∷ ys) x h = elim (Option-cases (arg_max key ys)) [
    | inl e ↦ ground (arith, arg_max-none key ys e)
    | inr (z, e) ↦ ground (arith, arg_max-greatest key ys z e)
  ]

  some-eq : {a b : A} → ◌≡◌ {A = Option A} (some a) (some b) → a ≡ b
  some-eq h = cc

  -- What holds of all elements holds of the chosen one.
  pub arg_max-holds {κ} :
      (P : A → Type κ) (key : A → ℕ) (xs : List A) (x : A)
      → All P xs
      → arg_max key xs ≡ some x
      → P x
  arg_max-holds P key [] x ps h = cc
  arg_max-holds P key (y ∷ ys) x (p, ps) h = elim (Option-cases (arg_max key ys)) [
    | inl e ↦ subst P (some-eq (rw e at h)) p
    | inr (z, e) ↦
        let rest = arg_max-holds P key ys z ps e in
        let h' : keep_max key y (some z) ≡ x = some-eq (rw e at h) in
        elim (Bool-cases (ltb (key y) (key z))) [
          | inl lt ↦ subst P (rw lt at h') rest
          | inr ge ↦ subst P (rw ge at h') p
        ]
  ]

  pub select-All : (p : A → Bool) (xs : List A) → All (λ x. p x ≡ true) (select p xs)
  select-All p [] = tt
  select-All p (x ∷ xs) = elim (Bool-cases (p x)) [
    | inl e ↦ rw e (e, select-All p xs)
    | inr e ↦ rw e (select-All p xs)
  ]

pub All-weaken {ℓ κ λ'} :
    {A : Type ℓ} {P : A → Type κ} {Q : A → Type λ'} (xs : List A)
    → ((x : A) → P x → Q x)
    → All P xs
    → All Q xs
All-weaken [] f ps = tt
All-weaken (x ∷ xs) f (p, ps) = (f x p, All-weaken xs f ps)

-- A member of a list.
pub data In {ℓ} {A : Type ℓ} (x : A) : List A → Type ℓ where
  in_head : {xs : List A} → In x (x ∷ xs)
  in_tail : {y : A} {xs : List A} → In x xs → In x (y ∷ xs)

module _ {ℓ} {A : Type ℓ} where
  -- What a search finds is a member.
  pub find-In : (p : A → Bool) (xs : List A) (x : A) → find p xs ≡ some x → In x xs
  find-In p [] x h = cc
  find-In p (y ∷ ys) x h = elim (Bool-cases (p y)) [
    | inl e ↦ subst (λ z. In z (y ∷ ys)) (some-eq (rw e at h)) in_head
    | inr e ↦ in_tail (find-In p ys x (rw e at h))
  ]

  -- What holds of all members holds of each.
  pub All-In {κ} : (P : A → Type κ) (xs : List A) (x : A) → All P xs → In x xs → P x
  All-In P [] x ps i = elim i [ ]
  All-In P (y ∷ ys) x (p, ps) in_head = p
  All-In P (y ∷ ys) x (p, ps) (in_tail i) = All-In P ys x ps i

  pub In-append_left : (x : A) (xs ys : List A) → In x xs → In x (xs ++ ys)
  In-append_left x [] ys i = elim i [ ]
  In-append_left x (z ∷ xs) ys in_head = in_head
  In-append_left x (z ∷ xs) ys (in_tail i) = in_tail (In-append_left x xs ys i)

  pub In-append_right : (x : A) (xs ys : List A) → In x ys → In x (xs ++ ys)
  In-append_right x [] ys i = i
  In-append_right x (z ∷ xs) ys i = in_tail (In-append_right x xs ys i)

  pub select-In : (p : A → Bool) (xs : List A) → All (λ x. In x xs) (select p xs)
  select-In p [] = tt
  select-In p (y ∷ ys) =
      let rest = All-weaken (select p ys) (λ x i. in_tail i) (select-In p ys) in
      elim (Bool-cases (p y)) [ inl e ↦ rw e (in_head, rest) | inr e ↦ rw e rest ]
