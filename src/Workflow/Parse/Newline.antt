-- ===== src/Workflow/Parse/Newline.antt =====
-- What `_SLUG_RE.match` of workflow_definitions.py lets through at the end of a name.
use Prim.Native.Char.{code}
use Prim.Native.String.{String, [], ◌∷◌}
use ompire.Base.{
  &&-eq-true, Bool, Bool-cases, String, [], false, inl, inr, nat_eq, not, refl, true, ◌&&◌, ◌∷◌,
  ◌≡◌, string_eq, ℕ_eq,
}
use ompire.Workflow.Parse.Slug.{is_end, is_slug, is_word, slug_from}

-- A text and a newline after it.
unfoldable pub with_newline : String → String
with_newline [] = "\n"
with_newline (c ∷ s) = c ∷ with_newline s

-- A text on one line.
unfoldable pub one_line : String → Bool
one_line [] = true
one_line (c ∷ s) = not (nat_eq (code c) 10) && one_line s

slug_from-newline :
    (started : Bool) (s : String)
    → slug_from started s ≡ true
    → one_line s ≡ true
    → slug_from started (with_newline s) ≡ true
unfolding slug_from with_newline one_line
slug_from-newline true [] h line = refl
slug_from-newline false [] h line = cc
slug_from-newline started (c ∷ s) h line =
    let rest = &&-eq-true (not (nat_eq (code c) 10)) (one_line s) line in
    elim (Bool-cases (is_word c)) [
      | inl e ↦ rw e (slug_from-newline true s (rw e at h) rest.1)
      | inr e ↦ elim (Bool-cases (nat_eq (code c) 45)) [
        | inl e' ↦
            let here = &&-eq-true started (slug_from false s) (rw (e, e') at h) in
            rw (e, e', here.0, slug_from-newline false s here.1 rest.1) refl
        | inr e' ↦
            let here = &&-eq-true started (nat_eq (code c) 10 && is_end s) (rw (e, e') at h) in
            let last = &&-eq-true (nat_eq (code c) 10) (is_end s) here.1 in cc (last.0, rest.0)
      ]
    ]

-- A name without a newline in it that is accepted is accepted with a newline after it as well: `$`
-- matches before a newline that ends the text, and the test is `match` where it has to be
-- `fullmatch`.
pub is_slug-newline :
    (s : String) → is_slug s ≡ true → one_line s ≡ true → is_slug (with_newline s) ≡ true
unfolding is_slug
is_slug-newline s h line = slug_from-newline false s h line
