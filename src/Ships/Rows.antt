-- ===== src/Ships/Rows.antt =====
-- The rows of registry/ships.py and what a delivery record says of its actions.
use ompire.Base.{
  Bool, Eq, List, Option, String, [], arith, false, get_last?, if◌then◌else◌, is_some, none, not,
  select, some, true, ℕ, ◌&&◌, ◌==◌, ◌↔◌, ◌∷◌, ◌≡◌, string_eq, ℕ_eq,
}
use ompire.Json.{Json}

-- ENDINGS and ACTION_KINDS are the same three texts; an ending is named by its last action.
pub data Kind : Type 0 where
  commit push pr : Kind

abbrev pub kind_eq : Kind → Kind → Bool
kind_eq commit commit = true
kind_eq push push = true
kind_eq pr pr = true
kind_eq _ _ = false

pub kind_eq_iff : (a b : Kind) → (kind_eq a b ≡ true) ↔ (a ≡ b)
kind_eq_iff a b = ground arith

instance abbrev pub Kind_eq : Eq Kind
Kind_eq = record { equal = kind_eq; equal_iff = kind_eq_iff }

abbrev pub kind_text : Kind → String
kind_text commit = "commit"
kind_text push = "push"
kind_text pr = "pr"

-- `text in ENDINGS`, `text in ACTION_KINDS`
unfoldable pub parse_kind : String → Option Kind
parse_kind t =
    if t == "commit"
    then some commit
    else if t == "push"
    then some push
    else if t == "pr"
    then some pr
    else none

-- ENDING_ACTIONS
abbrev pub ending_actions : Kind → List Kind
ending_actions commit = commit ∷ []
ending_actions push = commit ∷ push ∷ []
ending_actions pr = commit ∷ push ∷ pr ∷ []

pub data Mode : Type 0 where
  squash retain : Mode

abbrev pub mode_text : Mode → String
mode_text squash = "squash"
mode_text retain = "retain"

-- `text in MODES`
unfoldable pub parse_mode : String → Option Mode
parse_mode t = if t == "squash" then some squash else if t == "retain" then some retain else none

pub data Disposition : Type 0 where
  open_draft authorized completed blocked unresolved abandoned : Disposition

-- `text in DISPOSITIONS`
unfoldable pub parse_disposition : String → Option Disposition
parse_disposition t =
    if t == "open"
    then some open_draft
    else if t == "authorized"
    then some authorized
    else if t == "completed"
    then some completed
    else if t == "blocked"
    then some blocked
    else if t == "unresolved"
    then some unresolved
    else if t == "abandoned"
    then some abandoned
    else none

-- NON_TERMINAL_DISPOSITIONS
abbrev pub is_non_terminal : Disposition → Bool
is_non_terminal completed = false
is_non_terminal abandoned = false
is_non_terminal _ = true

pub data Phase : Type 0 where
  prepared executing succeeded failed needs_reconciliation : Phase

abbrev pub is_prepared : Phase → Bool
is_prepared prepared = true
is_prepared _ = false

abbrev pub is_succeeded : Phase → Bool
is_succeeded succeeded = true
is_succeeded _ = false

abbrev pub is_failed : Phase → Bool
is_failed failed = true
is_failed _ = false

-- `phase in ("executing", "needs_reconciliation")`
abbrev pub is_unresolved : Phase → Bool
is_unresolved executing = true
is_unresolved needs_reconciliation = true
is_unresolved _ = false

-- `text in ACTION_PHASES`
unfoldable pub parse_phase : String → Option Phase
parse_phase t =
    if t == "prepared"
    then some prepared
    else if t == "executing"
    then some executing
    else if t == "succeeded"
    then some succeeded
    else if t == "failed"
    then some failed
    else if t == "needs_reconciliation"
    then some needs_reconciliation
    else none

-- DECISION_KINDS
pub data DecisionKind : Type 0 where
  authorize extend recheck adopt retry abandon block : DecisionKind

abbrev pub is_extend : DecisionKind → Bool
is_extend extend = true
is_extend _ = false

unfoldable pub parse_decision : String → Option DecisionKind
parse_decision t =
    if t == "authorize"
    then some authorize
    else if t == "extend"
    then some extend
    else if t == "recheck"
    then some recheck
    else if t == "adopt"
    then some adopt
    else if t == "retry"
    then some retry
    else if t == "abandon"
    then some abandon
    else if t == "block"
    then some block
    else none

-- One row of `delivery_actions`, and the `ActionRecord` read from it.
pub record Action : Type 0 where
  pub id : ℕ
  pub delivery_id : ℕ
  pub seq : ℕ
  pub kind : Kind
  pub attempt : ℕ
  pub request_key : String
  pub input_fingerprint : String
  pub phase : Phase
  pub expected : Option Json
  pub progress : Option Json
  pub identity : Option Json
  pub result : Option Json
  pub error : Option String
  pub created_at : String
  pub updated_at : String
  pub workflow_seq : Option ℕ

-- One row of `delivery_decisions`, and the `DecisionRecord` read from it.
pub record Decision : Type 0 where
  pub id : ℕ
  pub delivery_id : ℕ
  pub action_id : Option ℕ
  pub kind : DecisionKind
  pub detail : Option Json
  pub note : Option String
  pub decided_at : String

-- One row of `deliveries`.
pub record Delivery : Type 0 where
  pub id : ℕ
  pub task_id : ℕ
  pub version : ℕ
  pub workflow_revision : Option String
  pub candidate_id : Option String
  pub review_candidate_id : Option String
  pub mode : Option Mode
  pub ending : Option Kind
  pub commit_message : Option String
  pub pr_title : Option String
  pub pr_body : Option String
  pub routing : Option Json
  pub identity : Option Json
  pub authorized_at : Option String
  pub authorized_by : Option String
  pub request_key : Option String
  pub input_fingerprint : Option String
  pub draft : Option Json
  pub disposition : Disposition
  pub blocked_reason : Option String
  pub created_at : String
  pub updated_at : String
  pub workflow_gate_seq : Option ℕ
  pub workflow_choice_id : Option String
  pub review_seq : Option ℕ

-- `DeliveryRecord`: a row with its actions and decisions.
pub record DeliveryRecord : Type 0 where
  pub row : Delivery
  pub open row use *
  pub actions : List Action
  pub decisions : List Decision

unfoldable pub workflow_authorized : Delivery → Bool
workflow_authorized d = is_some d.workflow_gate_seq && is_some d.workflow_choice_id

-- The latest attempt at `kind`.
unfoldable pub action : DeliveryRecord → Kind → Option Action
action d kind = get_last? (select (λ a. a.kind == kind) d.actions)

unfoldable pub succeeded_action : DeliveryRecord → Kind → Option Action
succeeded_action d kind = get_last? (select (λ a. a.kind == kind && is_succeeded a.phase) d.actions)

unfoldable pub unresolved_actions : DeliveryRecord → List Action
unresolved_actions d = select (λ a. is_unresolved a.phase) d.actions

abbrev pub actions_to : Option Kind → List Kind
actions_to none = []
actions_to (some ending) = ending_actions ending

unfoldable pub authorized_actions : DeliveryRecord → List Kind
authorized_actions d = actions_to d.ending

unfoldable pub remaining_actions : DeliveryRecord → List Kind
unfolding authorized_actions succeeded_action
remaining_actions d =
    select (λ kind. not (is_some (succeeded_action d kind))) (authorized_actions d)
