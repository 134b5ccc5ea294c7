-- ===== src/Ships/Versions.antt =====
-- What a write does to the versions of registry/ships.py and to the rows that it does not name.
use ompire.Base.{
  List, Option-cases, String, [], arith, find, inl, inr, max_of, ok, refl, select, some, update, ℕ,
  ◌+◌, ◌∷◌, ◌≡◌, ◌≢◌, ◌≤◌, string_eq, ℕ_eq,
}
use ompire.Ships.Rows.{Delivery, Kind_eq}
use ompire.Ships.Tables.{
  Db, bump, find_delivery, has_id, next_version, of_task, task_version, write_row,
}

abbrev pub version_of : Delivery → ℕ
version_of d = d.version

-- A write keeps the task and the id of the row that it changes.
pub record KeepsOwner (f : Delivery → Delivery) : Type 0 where
  pub same_task : (d : Delivery) → (f d).task_id ≡ d.task_id
  pub same_id : (d : Delivery) → (f d).id ≡ d.id

module _ (i v : ℕ) (now : String) (f : Delivery → Delivery) (keeps : KeepsOwner f) where
  abbrev written : List Delivery → List Delivery
  written = update (has_id i) (λ d. record (f d) { version = v; updated_at = now })

  versions-le :
      (t : ℕ) (ds : List Delivery)
      → max_of version_of (select (of_task t) ds) ≤ v
      → max_of version_of (select (of_task t) (written ds)) ≤ v
  versions-le t [] h = omega arith
  versions-le t (d ∷ ds) h = ground (arith, keeps.same_task d, versions-le t ds)

  le-versions :
      (row : Delivery) (ds : List Delivery)
      → find (has_id i) ds ≡ some row
      → v ≤ max_of version_of (select (of_task row.task_id) (written ds))
  le-versions row [] h = cc
  le-versions row (d ∷ ds) h = ground (arith, keeps.same_task d, le-versions row ds)

  pub find-written_self :
      (row : Delivery) (ds : List Delivery)
      → find (has_id i) ds ≡ some row
      → find (has_id i) (written ds) ≡ some (record (f row) { version = v; updated_at = now })
  find-written_self row [] h = cc
  find-written_self row (d ∷ ds) h = ground (arith, keeps.same_id d, find-written_self row ds)

  pub find-written_ne :
      (j : ℕ) (ds : List Delivery) → j ≢ i → find (has_id j) (written ds) ≡ find (has_id j) ds
  find-written_ne j [] ne = refl
  find-written_ne j (d ∷ ds) ne = ground (arith, keeps.same_id d, find-written_ne j ds ne)

  -- The rows of the tasks that own no row of this id.
  pub select-written_ne :
      (t : ℕ) (ds : List Delivery)
      → ((d : Delivery) → d.id ≡ i → d.task_id ≢ t)
      → select (of_task t) (written ds) ≡ select (of_task t) ds
  select-written_ne t [] ne = refl
  select-written_ne t (d ∷ ds) ne =
      ground (arith, keeps.same_task d, ne d, select-written_ne t ds ne)

-- A bump that succeeds found its row, and wrote it under the task's next version.
pub bump-eq-ok :
    (db : Db) (i : ℕ) (now : String) (f : Delivery → Delivery) {db' : Db}
    → bump db i now f ≡ ok db'
    → (row : Delivery) × (find_delivery db i ≡ some row)
      × (db' ≡ write_row db i (next_version db row.task_id) now f)
unfolding bump
bump-eq-ok db i now f h = elim (Option-cases (find_delivery db i)) [
  | inl e ↦ ground arith
  | inr (row, e) ↦ (row, e, ground arith)
]

module _ (db : Db) (i : ℕ) (now : String) (f : Delivery → Delivery) (keeps : KeepsOwner f) where
  pub task_version-write_row :
      (row : Delivery)
      → find_delivery db i ≡ some row
      → task_version (write_row db i (next_version db row.task_id) now f) row.task_id
        ≡ task_version db row.task_id + 1
  unfolding task_version write_row find_delivery next_version
  task_version-write_row row h = omega (
    arith,
    versions-le i (task_version db row.task_id + 1) now f keeps row.task_id db.deliveries,
    le-versions i (task_version db row.task_id + 1) now f keeps row db.deliveries h,
  )

  pub find_delivery-write_row_self :
      (v : ℕ) (row : Delivery)
      → find_delivery db i ≡ some row
      → find_delivery (write_row db i v now f) i
        ≡ some (record (f row) { version = v; updated_at = now })
  unfolding find_delivery write_row
  find_delivery-write_row_self v row h = find-written_self i v now f keeps row db.deliveries h

  pub find_delivery-write_row_ne :
      (v j : ℕ) → j ≢ i → find_delivery (write_row db i v now f) j ≡ find_delivery db j
  unfolding find_delivery write_row
  find_delivery-write_row_ne v j ne = find-written_ne i v now f keeps j db.deliveries ne
