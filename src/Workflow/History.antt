-- ===== src/Workflow/History.antt =====
-- Attempts as a workflow document sees them, and the evidence an attempt freezes when it opens:
-- `HistoryRecord`, `EvidenceBinding`, `select_evidence`, `resolve_evidence` and `evidence_views` of
-- workflow_definitions.py.
use mathlib.Core.Option.{map as map_option}
use ompire.Base.Int.{pos, ℤ_eq}
use ompire.Base.{
  Bool, List, Option, String, [], arg_max, contains, get_last?, if◌then◌else◌, is_some, ltb, max_of,
  none, not, or_else, select, some, ℕ, ◌&&◌, ◌++◌, ◌==◌, ◌||◌, ◌∷◌, string_eq, ℕ_eq,
}
use ompire.Json.{Fields, Json, end, field, int, json_or_null, null, obj, str}
use ompire.Workflow.Syntax.{EvidenceSelector}

pub record HistoryRecord : Type 0 where
  pub seq : ℕ
  pub step : String
  pub status : String
  pub outcome : Option Json
  pub evidence : Option Fields

-- Of a selector that matched nothing, `bound` is none.
pub record EvidenceBinding : Type 0 where
  pub name : String
  pub bound : Option (String × ℕ)

abbrev pub is_attempt_of : String → HistoryRecord → Bool
is_attempt_of n r = r.step == n

-- _latest_attempt_seq
unfoldable pub latest_attempt_seq : List HistoryRecord → String → ℕ
latest_attempt_seq rs n = max_of (λ r. r.seq) (select (is_attempt_of n) rs)

unfoldable pub floor_of : List HistoryRecord → Option String → ℕ
unfolding latest_attempt_seq
floor_of rs none = 0
floor_of rs (some n) = latest_attempt_seq rs n

-- The test of the candidates of a selector, and of format 1's `latest` expression.
abbrev pub is_candidate : List String → ℕ → Bool → HistoryRecord → Bool
is_candidate steps floor with_outcome r =
    contains steps r.step
    && (r.status == "ok")
    && ltb floor r.seq
    && (is_some r.outcome || not with_outcome)

unfoldable pub newest :
    (steps : List String) (after : Option String) (with_outcome : Bool)
    → List HistoryRecord
    → Option HistoryRecord
unfolding floor_of
newest steps after with_outcome rs =
    arg_max (λ r. r.seq) (select (is_candidate steps (floor_of rs after) with_outcome) rs)

unfoldable pub select_evidence : EvidenceSelector → List HistoryRecord → Option HistoryRecord
unfolding newest
select_evidence s rs = newest s.steps s.after s.with_outcome rs

unfoldable pub bind_selector : EvidenceSelector → List HistoryRecord → EvidenceBinding
unfolding select_evidence
bind_selector s rs = record {
  name = s.name;
  bound = map_option (λ r. (r.step, r.seq)) (select_evidence s rs);
}

-- resolve_evidence: the bindings, and the names of the required selectors that matched nothing.
unfoldable pub resolve_evidence :
    List EvidenceSelector → List HistoryRecord → List EvidenceBinding × List String
unfolding bind_selector
resolve_evidence [] rs = ([], [])
resolve_evidence (s ∷ ss) rs =
    let (bindings, missing) = resolve_evidence ss rs in
    let b = bind_selector s rs in
    (b ∷ bindings, if s.required && not (is_some b.bound) then s.name ∷ missing else missing)

-- A dictionary of the records by their number: a later record of a number replaces an earlier one.
unfoldable pub by_seq : List HistoryRecord → ℕ → Option HistoryRecord
by_seq rs n = get_last? (select (λ r. r.seq == n) rs)

unfoldable pub record_view : HistoryRecord → Json
record_view r = obj (
    field "step" (str r.step) (
      field "seq" (int (pos r.seq)) (
        field "status" (str r.status) (
          field "outcome" (json_or_null r.outcome)
            (field "evidence" (obj (or_else r.evidence end)) end)))))

-- What one binding reads back: none for a selector that matched nothing and for a record that is gone.
unfoldable pub view_of : List HistoryRecord → EvidenceBinding → Option Json
unfolding by_seq record_view
view_of rs b = elim b.bound [ none ↦ none | some (_, n) ↦ map_option record_view (by_seq rs n) ]

-- evidence_views: each alias with its view, a later binding of an alias in front.
unfoldable pub evidence_views :
    List EvidenceBinding → List HistoryRecord → List (String × Option Json)
unfolding view_of
evidence_views [] rs = []
evidence_views (b ∷ bs) rs = evidence_views bs rs ++ (b.name, view_of rs b) ∷ []

-- The `bindings` of `bindings_document`, which an attempt freezes.
abbrev pub bindings_fields : List EvidenceBinding → Fields
bindings_fields [] = end
bindings_fields (b ∷ bs) =
    field b.name
      (elim b.bound [
        | none ↦ null
        | some (step, n) ↦ obj (field "step" (str step) (field "seq" (int (pos n)) end))
      ])
      (bindings_fields bs)

-- EvaluationContext
pub record Context : Type 0 where
  pub inputs : List (String × String)
  pub records : List HistoryRecord
  pub evidence : List (String × Option Json)
