-- ===== src/Workflow/Engine.antt =====
-- Where a run goes after a step: `_destination_step`, `_bounded_step`, `_run_decision_step` and the
-- routes of capture and delivery steps of workflows.py.
use ompire.Base.{
  Bool, List, Option, Result, String, [], contains, err, false, if◌then◌else◌, length, ltb, max_of,
  none, ok, select, some, suc, true, zero, ℕ, ◌++◌, ◌>>=◌, ◌||◌, ◌∷◌, string_eq, ℕ_eq,
}
use ompire.Workflow.Syntax.{
  Definition, Destination, Step, capture, complete, delivery, pause, step_after, step_named,
  to_step,
}
use ompire.Json.{Fields}
use ompire.Workflow.Graph.{is_empty}
use ompire.Workflow.History.{HistoryRecord, bindings_fields, is_attempt_of, resolve_evidence}

pub data EngineError : Type 0 where
  undeclared_target : String → EngineError
  no_escape_declared : String → EngineError
  steps_exhausted : EngineError

-- _destination_step: none when the run is complete.
unfoldable pub destination_step :
    Definition → Step → Option Destination → Result EngineError (Option Step)
unfolding step_named step_after
destination_step d s none = ok (step_after d s.name)
destination_step d s (some (to_step n)) = elim (step_named d n) [
  | none ↦ err (undeclared_target n)
  | some t ↦ ok (some t)
]
destination_step d s (some (complete _)) = ok none
destination_step d s (some pause) = ok none

-- The destination of the result of a step that finished `ok`, for the steps whose document fixes it:
-- a capture's and a delivery's own `next`, and none (the step behind) for agent, command and review.
unfoldable pub fixed_destination : Step → Option Destination
fixed_destination s = elim s.body [ capture c ↦ some c.next | delivery b ↦ some b.next | _ ↦ none ]

unfoldable pub attempts : List HistoryRecord → String → ℕ
attempts rs n = length (select (is_attempt_of n) rs)

-- One turn of the loop of `_bounded_step`: the loop breaks when the step may still open, or when the
-- step has been left before.
abbrev pub breaks : List HistoryRecord → List String → Step → Bool
breaks rs seen s = elim s.max_visits [
  | none ↦ true
  | some m ↦ ltb (attempts rs s.name) m || contains seen s.name
]

-- _bounded_step, from the loop's head. The fuel is the turns that are left.
unfoldable pub bounded_loop :
    Definition → List HistoryRecord → ℕ → (seen : List String) → Step → Result EngineError Step
unfolding step_named attempts
bounded_loop d rs zero seen s = err steps_exhausted
bounded_loop d rs (suc k) seen s = elim (breaks rs seen s) [
  | true ↦ ok s
  | false ↦ elim s.on_exhausted [
    | none ↦ err (no_escape_declared s.name)
    | some n ↦ elim (step_named d n) [
      | none ↦ err (undeclared_target n)
      | some t ↦ bounded_loop d rs k (s.name ∷ seen) t
    ]
  ]
]

unfoldable pub bounded_step : Definition → List HistoryRecord → Step → Result EngineError Step
unfolding bounded_loop
bounded_step d rs s = bounded_loop d rs (suc (length d.steps)) [] s

-- The step that opens after a step of a fixed destination: none when the run is complete.
unfoldable pub opens_after :
    Definition → List HistoryRecord → Step → Result EngineError (Option Step)
unfolding destination_step fixed_destination bounded_step
opens_after d rs s = destination_step d s (fixed_destination s) >>= λ next. elim next [
  | none ↦ ok none
  | some t ↦ bounded_step d rs t >>= λ u. ok (some u)
]

-- _entry_evidence: what the attempt freezes.
unfoldable pub entry_evidence : Step → List HistoryRecord → Option Fields
unfolding resolve_evidence
entry_evidence s rs =
    if is_empty s.evidence then none else some (bindings_fields (resolve_evidence s.evidence rs).0)

-- append_step_record: the next number, one above the greatest.
unfoldable pub append_step_record :
    List HistoryRecord → String → Option Fields → HistoryRecord × List HistoryRecord
append_step_record rs n frozen =
    let r : HistoryRecord = record {
      seq = suc (max_of (λ r. r.seq) rs);
      step = n;
      status = "running";
      outcome = none;
      evidence = frozen;
    } in
    (r, rs ++ r ∷ [])

-- _open: the step that opens, its attempt, and the attempts behind it.
unfoldable pub open_attempt :
    Definition
    → List HistoryRecord
    → Step
    → Result EngineError (Step × HistoryRecord × List HistoryRecord)
unfolding bounded_step entry_evidence append_step_record
open_attempt d rs s = bounded_step d rs s >>= λ u.
    let (r, rs') = append_step_record rs u.name (entry_evidence u rs) in ok (u, r, rs')
