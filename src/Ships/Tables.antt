-- ===== src/Ships/Tables.antt =====
-- The tables behind registry/ships.py, its queries, and `_bump`.
-- A table is the list of its rows in the order of their insertion. A new row takes the id after
-- the greatest one, as SQLite's rowid does. A write runs in `reserved_write`: it returns the new
-- tables, or raises and leaves them as they were. The clock is read once for each call, `now`.
use ompire.Base.{
  Bool, List, Option, Result, String, [], arg_max, false, find, map, max_of, none, ok, or_fail,
  select, some, true, update, ℕ, ◌&&◌, ◌++◌, ◌+◌, ◌==◌, ◌>>=◌, ◌∷◌, string_eq, ℕ_eq,
}
use ompire.Json.{Json}
use ompire.Ships.Rows.{
  Action, Decision, DecisionKind, Delivery, DeliveryRecord, Disposition, Kind, Phase, action,
  authorized, is_non_terminal, unresolved, Kind_eq,
}

pub record CommitSource : Type 0 where
  pub commit_id : String
  pub tree_id : String
  pub message : String
  pub parent_ids : List String

-- One row of `delivery_candidates`.
pub record Candidate : Type 0 where
  pub candidate_id : String
  pub task_id : ℕ
  pub base_branch : String
  pub base_commit : String
  pub original_head : String
  pub tree_id : String
  pub source_commits : List CommitSource
  pub dirty : Bool
  pub storage_path : Option String
  pub created_at : String

pub record Db : Type 0 where
  pub deliveries : List Delivery
  pub actions : List Action
  pub decisions : List Decision
  pub candidates : List Candidate

-- Why a request is refused; one constructor for each `DeliveryConflictError`, and the `assert`s.
pub data Conflict : Type 0 where
  unsupported_mode : String → Conflict
  unsupported_ending : String → Conflict
  no_such_delivery : ℕ → Conflict
  already_authorized : Conflict
  version_changed : ℕ → Conflict
  request_key_taken : Conflict
  action_settled : Phase → Conflict
  never_authorized : Conflict
  extended_with_other_inputs : Conflict
  not_further : Conflict
  unknown_disposition : String → Conflict
  unknown_action_kind : String → Conflict
  request_key_started_action : Conflict
  step_has_action : ℕ → Conflict
  attempt_unresolved : Kind → Conflict
  kind_completed : Kind → Conflict
  no_such_action : ℕ → Conflict
  not_prepared : Phase → Conflict
  unknown_decision : String → Conflict
  unknown_phase : String → Conflict
  assertion : Conflict

abbrev pub has_id : ℕ → Delivery → Bool
has_id i d = d.id == i

abbrev pub of_task : ℕ → Delivery → Bool
of_task t d = d.task_id == t

unfoldable pub find_delivery : Db → ℕ → Option Delivery
find_delivery db i = find (has_id i) db.deliveries

unfoldable pub find_action : Db → ℕ → Option Action
find_action db i = find (λ a. a.id == i) db.actions

-- The rows of `delivery_actions` of one delivery, `order_by(seq)`: seqs grow with insertion.
unfoldable pub actions_of : Db → ℕ → List Action
actions_of db i = select (λ a. a.delivery_id == i) db.actions

unfoldable pub decisions_of : Db → ℕ → List Decision
decisions_of db i = select (λ d. d.delivery_id == i) db.decisions

-- `_row_to_delivery(row, *_children(conn, row.id))`
unfoldable pub with_children : Db → Delivery → DeliveryRecord
unfolding actions_of decisions_of
with_children db d = record {
  row = d;
  actions = actions_of db d.id;
  decisions = decisions_of db d.id;
}

unfoldable pub get_delivery : Db → ℕ → Option DeliveryRecord
unfolding find_delivery with_children
get_delivery db i = elim (find_delivery db i) [ none ↦ none | some d ↦ some (with_children db d) ]

-- The greatest version among the task's deliveries; 0 when it has none.
unfoldable pub task_version : Db → ℕ → ℕ
task_version db t = max_of (λ d. d.version) (select (of_task t) db.deliveries)

-- `_next_version`
unfoldable pub next_version : Db → ℕ → ℕ
unfolding task_version
next_version db t = task_version db t + 1

-- `order_by(id.desc()).limit(1)` over the task's deliveries that pass a test.
abbrev latest : (Delivery → Bool) → Db → ℕ → Option Delivery
latest p db t = arg_max (λ d. d.id) (select (λ d. of_task t d && p d) db.deliveries)

unfoldable pub active_row : Db → ℕ → Option Delivery
active_row = latest (λ d. is_non_terminal d.disposition)

unfoldable pub get_active_delivery : Db → ℕ → Option DeliveryRecord
unfolding active_row with_children
get_active_delivery db t = elim (active_row db t) [
  | none ↦ none
  | some d ↦ some (with_children db d)
]

unfoldable pub get_latest_delivery : Db → ℕ → Option DeliveryRecord
unfolding with_children
get_latest_delivery db t = elim (latest (λ d. true) db t) [
  | none ↦ none
  | some d ↦ some (with_children db d)
]

unfoldable pub list_deliveries : Db → ℕ → List DeliveryRecord
unfolding with_children
list_deliveries db t = map (with_children db) (select (of_task t) db.deliveries)

-- `disposition in ("authorized", "unresolved")`
abbrev needs_inspection : Disposition → Bool
needs_inspection authorized = true
needs_inspection unresolved = true
needs_inspection _ = false

unfoldable pub list_unresolved_deliveries : Db → List DeliveryRecord
unfolding with_children
list_unresolved_deliveries db =
    map (with_children db) (select (λ d. needs_inspection d.disposition) db.deliveries)

-- `update().where(id == i).values(…)` with the version and `updated_at` that `_bump` adds.
unfoldable pub write_row : Db → ℕ → ℕ → String → (Delivery → Delivery) → Db
write_row db i v now f = record db {
  deliveries =
      update (has_id i) (λ d. record (f d) { version = v; updated_at = now }) db.deliveries;
}

-- `_bump`: write the values `f` to one delivery, under the task's next version.
unfoldable pub bump : Db → ℕ → String → (Delivery → Delivery) → Result Conflict Db
unfolding find_delivery next_version write_row
bump db i now f = do
  row ← or_fail (find_delivery db i) assertion
  ok (write_row db i (next_version db row.task_id) now f)

unfoldable pub add_decision :
    Db → ℕ → Option ℕ → DecisionKind → Option Json → Option String → String → Db
add_decision db delivery action kind detail note now = record db {
  decisions =
      db.decisions
      ++ record {
        id = max_of (λ d. d.id) db.decisions + 1;
        delivery_id = delivery;
        action_id = action;
        kind = kind;
        detail = detail;
        note = note;
        decided_at = now;
      }
        ∷ [];
}

-- `update().where(id == i).values(…)` on `delivery_actions`.
unfoldable pub write_action : Db → ℕ → (Action → Action) → Db
write_action db i f = record db { actions = update (λ a. a.id == i) f db.actions }

-- `record = get_delivery(…)`, `assert record is not None` after the transaction.
unfoldable pub committed : Db → ℕ → Result Conflict (DeliveryRecord × Db)
unfolding get_delivery
committed db i = do found ← or_fail (get_delivery db i) assertion; ok (found, db)
