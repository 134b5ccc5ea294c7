-- ===== src/Workflow/Parse/Slug.antt =====
-- Names and labels as texts, workflow_definitions.py: `is_slug_name`, `_parse_environment`'s pattern, the
-- roots of a capture, and `str.strip`.
use Prim.Native.Nat.{ℕ}
use Prim.Native.Char.{Char, code}
use Prim.Native.String.{String, [], ◌∷◌}
use mathlib.Core.Bool.{Bool, true, false, not, ◌&&◌, ◌||◌}
use package.ompire.Base.{if◌then◌else◌, leb, nat_eq}

abbrev pub between : ℕ → ℕ → ℕ → Bool
between a b n = leb a n && leb n b

-- [a-z0-9]
abbrev pub is_word : Char → Bool
is_word c = between 97 122 (code c) || between 48 57 (code c)

abbrev pub is_end : String → Bool
is_end [] = true
is_end (_ ∷ _) = false

-- `^[a-z0-9]+(-[a-z0-9]+)*$`, from inside the text: `started` says that the current word has a
-- character. Python's `$` also matches before a newline that ends the text.
unfoldable pub slug_from : Bool → String → Bool
slug_from started [] = started
slug_from started (c ∷ s) =
    let in_word = slug_from true s in
    let next_word = slug_from false s in
    if is_word c
    then in_word
    else if nat_eq (code c) 45
    then started && next_word
    else started && (nat_eq (code c) 10 && is_end s)

-- is_slug_name
unfoldable pub is_slug : String → Bool
unfolding slug_from
is_slug s = slug_from false s

-- `[a-z0-9-]*` to the end of the text.
unfoldable pub environment_rest : String → Bool
environment_rest [] = true
environment_rest (c ∷ s) = (is_word c || nat_eq (code c) 45) && environment_rest s

-- A full match of `[a-z0-9][a-z0-9-]*`.
unfoldable pub is_environment : String → Bool
unfolding environment_rest
is_environment [] = false
is_environment (c ∷ s) = is_word c && environment_rest s

-- str.isspace, for one character.
abbrev pub is_space : ℕ → Bool
is_space n =
    between 9 13 n
    || between 28 32 n
    || nat_eq n 133
    || nat_eq n 160
    || nat_eq n 5760
    || between 8192 8202 n
    || between 8232 8233 n
    || nat_eq n 8239
    || nat_eq n 8287
    || nat_eq n 12288

-- `not label.strip()`
unfoldable pub is_blank : String → Bool
is_blank [] = true
is_blank (c ∷ s) = is_space (code c) && is_blank s

-- The tests of `_parse_capture_root`, from inside the text: no component is empty or begins with a dot,
-- hence none is `.` or `..`; no backslash. `fresh` says that a component begins here.
unfoldable pub root_from : Bool → String → Bool
root_from fresh [] = not fresh
root_from fresh (c ∷ s) =
    let component = root_from true s in
    let inside = root_from false s in
    if nat_eq (code c) 47
    then not fresh && component
    else not (nat_eq (code c) 92) && (not (fresh && nat_eq (code c) 46) && inside)

unfoldable pub is_capture_root : String → Bool
unfolding root_from
is_capture_root s = root_from true s
