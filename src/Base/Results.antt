-- ===== src/Base/Results.antt =====
-- Code that may raise returns a `Result` over the errors of its component.
use mathlib.Core.Path.{◌≡◌, refl, subst}
use mathlib.Core.Bool.{Bool, true, false}
use mathlib.Core.List.{List, [], ◌∷◌}
use ompire.Base.Lists.{contains, find}
use ompire.Base.Tests.{Bool-cases, ◌==◌, string_eq}
use Prim.Native.String.{String}
use text.Mathlib.TextEquality.{eq_iff}
use mathlib.Core.Logic.{◌⊎◌, inl, inr}
use mathlib.Core.Option.{Option, none, some}

pub data Result {ℓ} (E : Type 0) (A : Type ℓ) : Type ℓ where
  ok : A → Result E A
  err : E → Result E A

-- `if not test: raise e`
abbrev pub guard : {E : Type 0} → Bool → E → Result E (Unit {0})
guard true e = ok tt
guard false e = err e

-- `if value is None: raise e`
abbrev pub or_fail {ℓ} : {E : Type 0} {A : Type ℓ} → Option A → E → Result E A
or_fail none e = err e
or_fail (some a) e = ok a

infixl 5 ◌>>=◌ ◌>>◌
abbrev pub ◌>>=◌ {ℓ κ} :
    {E : Type 0} {A : Type ℓ} {B : Type κ} → Result E A → (A → Result E B) → Result E B
ok a >>= f = f a
err e >>= f = err e

abbrev pub ◌>>◌ {ℓ} : {E : Type 0} {B : Type ℓ} → Result E (Unit {0}) → Result E B → Result E B
m >> k = m >>= λ _. k

-- A loop whose body may raise.
abbrev pub for_each {ℓ} :
    {E : Type 0} {A : Type ℓ} → (A → Result E (Unit {0})) → List A → Result E (Unit {0})
for_each f [] = ok tt
for_each f (x ∷ xs) = f x >> for_each f xs

-- A bind that returned: its first part returned, and so did the rest.
pub >>=-eq-ok {ℓ κ} :
    {E : Type 0} {A : Type ℓ} {B : Type κ} (first : Result E A) (rest : A → Result E B) {b : B}
    → (first >>= rest) ≡ ok b
    → (a : A) × (first ≡ ok a) × (rest a ≡ ok b)
>>=-eq-ok (err e) rest h = cc
>>=-eq-ok (ok a) rest h = (a, refl, h)

pub or_fail-bind-eq-ok {ℓ κ} :
    {E : Type 0} {A : Type ℓ} {B : Type κ} (o : Option A) (e : E) (f : A → Result E B) {b : B}
    → (or_fail o e >>= f) ≡ ok b
    → (a : A) × (o ≡ some a) × (f a ≡ ok b)
or_fail-bind-eq-ok none e f h = cc
or_fail-bind-eq-ok (some a) e f h = (a, refl, h)

pub guard-then-eq-ok {ℓ} :
    {E : Type 0} {B : Type ℓ} (t : Bool) (e : E) (k : Result E B) {b : B}
    → (guard t e >> k) ≡ ok b
    → (t ≡ true) × (k ≡ ok b)
guard-then-eq-ok true e k h = (refl, h)
guard-then-eq-ok false e k h = cc

pub Result-cases {ℓ} :
    {E : Type 0} {A : Type ℓ} (m : Result E A) → ((a : A) × (m ≡ ok a)) ⊎ ((e : E) × (m ≡ err e))
Result-cases (ok a) = inl (a, refl)
Result-cases (err e) = inr (e, refl)

pub then-eq-ok {ℓ} :
    {E : Type 0} {B : Type ℓ} (m : Result E (Unit {0})) (k : Result E B) {b : B}
    → (m >> k) ≡ ok b
    → (m ≡ ok tt) × (k ≡ ok b)
then-eq-ok (ok tt) k h = (refl, h)
then-eq-ok (err e) k h = cc

pub some-same {ℓ} : {A : Type ℓ} {a b : A} → ◌≡◌ {A = Option A} (some a) (some b) → a ≡ b
some-same h = cc

-- What a loop has passed over did not raise.
pub for_each-found {ℓ} :
    {E : Type 0} {A : Type ℓ} (f : A → Result E (Unit {0})) (p : A → Bool) (xs : List A) (x : A)
    → for_each f xs ≡ ok tt
    → find p xs ≡ some x
    → f x ≡ ok tt
for_each-found f p [] x h found = cc
for_each-found f p (y ∷ ys) x h found =
    let (here, rest) = then-eq-ok (f y) (for_each f ys) h in
    elim (Bool-cases (p y)) [
      | inl e ↦ subst (λ z. f z ≡ ok tt) (some-same (rw e at found)) here
      | inr e ↦ for_each-found f p ys x rest (rw e at found)
    ]

pub bind-cong {ℓ κ} :
    {E : Type 0} {A : Type ℓ} {B : Type κ} (m : Result E A) (f g : A → Result E B)
    → ((a : A) → f a ≡ g a)
    → (m >>= f) ≡ (m >>= g)
bind-cong (ok a) f g h = h a
bind-cong (err e) f g h = refl

pub for_each-cong {ℓ} :
    {E : Type 0} {A : Type ℓ} (f g : A → Result E (Unit {0})) (xs : List A)
    → ((x : A) → f x ≡ g x)
    → for_each f xs ≡ for_each g xs
for_each-cong f g [] h = refl
for_each-cong f g (x ∷ xs) h = rw (h x, for_each-cong f g xs h) refl

-- A loop that raises unless each name passes.
pub each-guarded :
    {E : Type 0} (p : String → Bool) (e : String → E) (ns : List String) (n : String)
    → for_each (λ m. guard (p m) (e m)) ns ≡ ok tt
    → contains ns n ≡ true
    → p n ≡ true
each-guarded p e [] n h c = cc
each-guarded p e (m ∷ ms) n h c =
    let (here, rest) = guard-then-eq-ok (p m) (e m) _ h in
    elim (Bool-cases (m == n)) [
      | inl same ↦ subst (λ x. p x ≡ true) ((eq_iff m n).0 same) here
      | inr other ↦ each-guarded p e ms n rest (rw other at c)
    ]

pub ok-same {ℓ} : {E : Type 0} {A : Type ℓ} {a b : A} → ◌≡◌ {A = Result E A} (ok a) (ok b) → a ≡ b
ok-same h = cc
