-- ===== src/Workflow/Parse/Sorting.antt =====
-- `sorted(mapping)` of workflow_definitions.py: the entries of a mapping by their keys, which are
-- compared by the code points of their characters.
use Prim.Native.Char.{code}
use Prim.Native.String.{String, [], ◌∷◌}
use ompire.Base.{
  Bool, Bool-cases, String, [], arith, false, if◌then◌else◌, inl, inr, ltb, nat_eq, refl, suc, true,
  ℕ, ◌∷◌, ◌≡◌, string_eq, ℕ_eq,
}
use ompire.Json.{Fields, Json, end, field}

-- At or before, as texts.
unfoldable pub text_le : String → String → Bool
text_le [] t = true
text_le (c ∷ s) [] = false
text_le (c ∷ s) (d ∷ t) =
    let rest = text_le s t in
    if ltb (code c) (code d) then true else if nat_eq (code c) (code d) then rest else false

unfoldable pub insert_field : String → Json → Fields → Fields
unfolding text_le
insert_field k j end = field k j end
insert_field k j (field l i fs) =
    let rest = insert_field k j fs in
    if text_le k l then field k j (field l i fs) else field l i rest

-- sorted
unfoldable pub sorted : Fields → Fields
unfolding insert_field
sorted end = end
sorted (field k j fs) = insert_field k j (sorted fs)

-- The number of entries.
abbrev pub count_fields : Fields → ℕ
count_fields end = 0
count_fields (field _ _ fs) = suc (count_fields fs)

-- A key is at or before the first of a mapping.
abbrev pub before_all : String → Fields → Bool
before_all k end = true
before_all k (field l _ _) = text_le k l

-- Each key is at or before the next.
unfoldable pub IsSorted : Fields → Type 0
IsSorted end = Unit {0}
IsSorted (field k j fs) = (before_all k fs ≡ true) × IsSorted fs

same_code : (a b : ℕ) → nat_eq a b ≡ true → (ltb b a ≡ false) × (nat_eq b a ≡ true)
same_code a b h = ground arith

after_code : (a b : ℕ) → ltb a b ≡ false → nat_eq a b ≡ false → ltb b a ≡ true
after_code a b h h' = ground arith

text_le-total : (s t : String) → text_le s t ≡ false → text_le t s ≡ true
unfolding text_le
text_le-total [] t h = cc
text_le-total (c ∷ s) [] h = refl
text_le-total (c ∷ s) (d ∷ t) h = elim (Bool-cases (ltb (code c) (code d))) [
  | inl e ↦ cc (rw e at h)
  | inr e ↦ elim (Bool-cases (nat_eq (code c) (code d))) [
    | inl e' ↦
        rw ((same_code (code c) (code d) e').0, (same_code (code c) (code d) e').1)
          (text_le-total s t (rw (e, e') at h))
    | inr e' ↦ rw (after_code (code c) (code d) e e') refl
  ]
]

insert_field-before :
    (l k : String) (j : Json) (fs : Fields)
    → text_le l k ≡ true
    → before_all l fs ≡ true
    → before_all l (insert_field k j fs) ≡ true
unfolding insert_field
insert_field-before l k j end le h = le
insert_field-before l k j (field m i fs) le h = elim (Bool-cases (text_le k m)) [
  | inl e ↦ rw e le
  | inr e ↦ rw e h
]

insert_field-IsSorted :
    (k : String) (j : Json) (fs : Fields) → IsSorted fs → IsSorted (insert_field k j fs)
unfolding insert_field IsSorted
insert_field-IsSorted k j end h = (refl, tt)
insert_field-IsSorted k j (field l i fs) h = elim (Bool-cases (text_le k l)) [
  | inl e ↦ rw e (e, h)
  | inr e ↦
      rw e
        (insert_field-before l k j fs (text_le-total k l e) h.0, insert_field-IsSorted k j fs h.1)
]

pub sorted-IsSorted : (fs : Fields) → IsSorted (sorted fs)
unfolding sorted IsSorted
sorted-IsSorted end = tt
sorted-IsSorted (field k j fs) = insert_field-IsSorted k j (sorted fs) (sorted-IsSorted fs)

insert_field-first :
    (k : String) (j : Json) (fs : Fields)
    → before_all k fs ≡ true
    → insert_field k j fs ≡ field k j fs
unfolding insert_field
insert_field-first k j end h = refl
insert_field-first k j (field l i fs) h = rw h refl

-- What is in order stays as it is.
pub sorted-again : (fs : Fields) → IsSorted fs → sorted fs ≡ fs
unfolding sorted IsSorted
sorted-again end h = refl
sorted-again (field k j fs) h = rw (sorted-again fs h.1) (insert_field-first k j fs h.0)

insert_field-count :
    (k : String) (j : Json) (fs : Fields)
    → count_fields (insert_field k j fs) ≡ suc (count_fields fs)
unfolding insert_field
insert_field-count k j end = refl
insert_field-count k j (field l i fs) = elim (Bool-cases (text_le k l)) [
  | inl e ↦ rw e refl
  | inr e ↦ rw (e, insert_field-count k j fs) refl
]

pub sorted-count : (fs : Fields) → count_fields (sorted fs) ≡ count_fields fs
unfolding sorted
sorted-count end = refl
sorted-count (field k j fs) = rw (insert_field-count k j (sorted fs), sorted-count fs) refl
