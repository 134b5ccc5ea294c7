-- ===== src/Ships/Purge.antt =====
-- registry/ships.py: the pre-upgrade boundary, and the purge of a task's delivery history.
use ompire.Base.{
  Bool, List, Option, String, [], contains, false, if◌then◌else◌, is_some, leb, map, none, not,
  select, some, ℕ, ◌&&◌, ◌==◌, ◌∷◌, string_eq, ℕ_eq,
}
use ompire.Ships.Rows.{DeliveryRecord, workflow_authorized, Kind_eq}
use ompire.Ships.Tables.{Candidate, Db, of_task}

pub record AuthorityBoundary : Type 0 where
  pub max_delivery_id : ℕ
  pub max_action_id : ℕ
  pub recorded_at : String

unfoldable pub is_pre_upgrade_grant : Option AuthorityBoundary → DeliveryRecord → Bool
unfolding workflow_authorized
is_pre_upgrade_grant none d = false
is_pre_upgrade_grant (some b) d =
    leb d.id b.max_delivery_id
    && (is_some d.authorized_at && (is_some d.ending && not (workflow_authorized d.row)))

-- `[row.storage_path for row in candidate_rows if row.storage_path]`
unfoldable pub storage_paths : List Candidate → List String
storage_paths [] = []
storage_paths (c ∷ cs) =
    let rest = storage_paths cs in
    elim c.storage_path [ none ↦ rest | some p ↦ if p == "" then rest else p ∷ rest ]

-- `delivery_id.in_(ids)`
abbrev in_ids : List ℕ → ℕ → Bool
in_ids ids i = contains ids i

unfoldable pub delete_task_deliveries_on : Db → ℕ → List String × Db
unfolding storage_paths
delete_task_deliveries_on db t =
    let ids = map (λ d. d.id) (select (of_task t) db.deliveries) in
    (
      storage_paths (select (λ c. c.task_id == t) db.candidates),
      record {
        deliveries = select (λ d. not (of_task t d)) db.deliveries;
        actions = select (λ a. not (in_ids ids a.delivery_id)) db.actions;
        decisions = select (λ d. not (in_ids ids d.delivery_id)) db.decisions;
        candidates = select (λ c. not (c.task_id == t)) db.candidates;
      },
    )
