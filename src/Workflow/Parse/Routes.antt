-- ===== src/Workflow/Parse/Routes.antt =====
-- `_parse_destination` and `_parse_bound` of workflow_definitions.py.
use ompire.Base.{
  Bool, List, Option, String, [], err, false, guard, if◌then◌else◌, leb, none, ok, or_fail, some,
  true, ℕ, ◌==◌, ◌>>=◌, ◌>>◌, ◌∷◌, string_eq, ℕ_eq,
}
use ompire.Base.Int.{pos, ℤ_eq}
use ompire.Json.{Fields, Json, bool, get_field, int, null}
use ompire.Workflow.Syntax.{Destination, complete, pause, to_step}
use ompire.Workflow.Parse.Fields.{
  Parsed, has, mapping, not_one_of, reject_unknown, require_slug, require_text, required,
  unpaired_bound, wrong,
}
use ompire.Workflow.Parse.Texts.{Which, first, one_of, second, third}

abbrev pub is_null : Json → Bool
is_null null = true
is_null _ = false

-- `None if raw is None else parse(raw)`
unfoldable pub optional {ℓ} : {A : Type ℓ} → (Json → Parsed A) → Option Json → Parsed (Option A)
optional parse none = ok none
optional parse (some j) = if is_null j then ok none else (parse j >>= λ a. ok (some a))

-- `is True`
abbrev pub is_true : Json → Bool
is_true (bool b) = b
is_true _ = false

abbrev pub ending_fields : ℕ → List String
ending_fields version = if leb 2 version then "complete" ∷ "result" ∷ [] else "complete" ∷ []

-- The body of `_parse_destination` once the one key that is present is known.
unfoldable pub destination_of : ℕ → Bool → Fields → Which → Parsed Destination
destination_of version allow_pause fs first = do
  reject_unknown fs ("step" ∷ [])
  s ← require_text fs "step"
  ok (to_step s)
destination_of version allow_pause fs second = do
  reject_unknown fs (ending_fields version)
  j ← required fs "complete"
  guard (is_true j) (wrong "complete")
  if version == 1
      then ok (complete none)
      else (require_slug fs "result" >>= λ r. ok (complete (some r)))
destination_of version allow_pause fs third = do
  guard allow_pause (wrong "pause")
  reject_unknown fs ("pause" ∷ [])
  j ← required fs "pause"
  guard (is_true j) (wrong "pause")
  ok pause

-- _parse_destination
unfoldable pub parse_destination : ℕ → Bool → Json → Parsed Destination
unfolding destination_of
parse_destination version allow_pause j = do
  fs ← mapping j
  w ← or_fail (one_of (has "step" fs) (has "complete" fs) (has "pause" fs)) not_one_of
  destination_of version allow_pause fs w

-- A positive integer, which a boolean is not.
abbrev pub visits : Json → Parsed ℕ
visits (int (pos n)) = guard (leb 1 n) (wrong "max_visits") >> ok n
visits _ = err (wrong "max_visits")

abbrev pub only_step : Destination → Parsed String
only_step (to_step s) = ok s
only_step _ = err (wrong "on_exhausted")

unfoldable pub exhausted : ℕ → Json → Parsed String
unfolding parse_destination
exhausted version j = parse_destination version false j >>= only_step

-- Both or neither.
abbrev pub paired : Option ℕ → Option String → Bool
paired none none = true
paired (some _) (some _) = true
paired _ _ = false

-- _parse_bound
unfoldable pub parse_bound : ℕ → Fields → Parsed (Option ℕ × Option String)
unfolding exhausted optional
parse_bound version fs = do
  n ← optional visits (get_field "max_visits" fs)
  e ← optional (exhausted version) (get_field "on_exhausted" fs)
  guard (paired n e) unpaired_bound
  ok (n, e)
