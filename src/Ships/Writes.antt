-- ===== src/Ships/Writes.antt =====
-- The shape that the writes of registry/ships.py share: one row is bumped, a decision may be
-- added, and the record is read back.
use ompire.Base.{
  >>=-eq-ok, List, Option, String, ap, arith, find, find-holds, max_of, nat_eq_iff, ok, select,
  some, ℕ, ◌+◌, ◌>>=◌, ◌∙◌, ◌≡◌, ◌≢◌, string_eq, ℕ_eq,
}
use ompire.Json.{Json}
use ompire.Ships.Rows.{DecisionKind, Delivery, DeliveryRecord, Kind_eq}
use ompire.Ships.Tables.{
  Db, add_decision, bump, committed, find_delivery, has_id, next_version, of_task, task_version,
  with_children, write_row,
}
use ompire.Ships.Versions.{
  KeepsOwner, bump-eq-ok, find_delivery-write_row_ne, find_delivery-write_row_self,
  task_version-write_row, version_of,
}

pub find_delivery-id :
    (db : Db) (i : ℕ) (row : Delivery) → find_delivery db i ≡ some row → row.id ≡ i
unfolding find_delivery
find_delivery-id db i row h = (nat_eq_iff row.id i).0 (find-holds (has_id i) db.deliveries row h)

-- `committed` reads the row back and changes nothing.
pub committed-eq-ok :
    (db : Db) (i : ℕ) {r : DeliveryRecord} {db' : Db}
    → committed db i ≡ ok (r, db')
    → (db' ≡ db) × (find_delivery db i ≡ some r.row)
unfolding committed with_children
committed-eq-ok db i h = ground arith

-- The row `i` was rewritten by `f` under the task's next version, and nothing else was.
pub record Wrote (db : Db) (i : ℕ) (f : Delivery → Delivery) (now : String) (r : DeliveryRecord)
    (db' : Db) : Type 0 where
  pub row : Delivery
  pub found : find_delivery db i ≡ some row
  pub written :
      r.row ≡ record (f row) { version = task_version db row.task_id + 1; updated_at = now }
  pub stored : find_delivery db' i ≡ some r.row
  pub bumped : task_version db' row.task_id ≡ task_version db row.task_id + 1
  pub others_kept : (j : ℕ) → j ≢ i → find_delivery db' j ≡ find_delivery db j
  pub actions_kept : db'.actions ≡ db.actions

find_delivery-cong :
    (a b : Db) (j : ℕ) → a.deliveries ≡ b.deliveries → find_delivery a j ≡ find_delivery b j
unfolding find_delivery
find_delivery-cong a b j e = ap (find (has_id j)) e

task_version-cong :
    (a b : Db) (t : ℕ) → a.deliveries ≡ b.deliveries → task_version a t ≡ task_version b t
unfolding task_version
task_version-cong a b t e = ap (λ (ds : List Delivery). max_of version_of (select (of_task t) ds)) e

module _ (db : Db) (i : ℕ) (now : String) (f : Delivery → Delivery) (keeps : KeepsOwner f) where
  Wrote-intro :
      (row : Delivery) (after : Db) {r : DeliveryRecord} {db' : Db}
      → find_delivery db i ≡ some row
      → after.deliveries ≡ (write_row db i (next_version db row.task_id) now f).deliveries
      → after.actions ≡ db.actions
      → committed after i ≡ ok (r, db')
      → Wrote db i f now r db'
  unfolding next_version
  Wrote-intro row after {r} {db'} found same kept h =
      let v = task_version db row.task_id + 1 in
      let written = write_row db i v now f in
      let (unchanged, read) = committed-eq-ok after i h in
      let at = λ (j : ℕ). find_delivery-cong after written j same in
      let self = find_delivery-write_row_self db i now f keeps v row found in
      record {
        row = row;
        found = found;
        written = cc (read, at i, self);
        stored = rw unchanged read;
        bumped = rw unchanged (
            task_version-cong after written row.task_id same
            ∙ task_version-write_row db i now f keeps row found);
        others_kept =
            λ j ne. rw unchanged (at j ∙ find_delivery-write_row_ne db i now f keeps v j ne);
        actions_kept = rw unchanged kept;
      }

  -- `_bump`, a decision, and the record read back.
  pub bump_decide-Wrote :
      (a : Option ℕ) (k : DecisionKind) (d : Option Json) (n : Option String) {r : DeliveryRecord}
      {db' : Db}
      → (bump db i now f >>= λ db₁. committed (add_decision db₁ i a k d n now) i) ≡ ok (r, db')
      → Wrote db i f now r db'
  unfolding add_decision write_row
  bump_decide-Wrote a k d n h =
      let (db₁, bumped, rest) =
        >>=-eq-ok (bump db i now f) (λ db₂. committed (add_decision db₂ i a k d n now) i) h in
      let (row, found, e) = bump-eq-ok db i now f bumped in
      Wrote-intro row (add_decision db₁ i a k d n now) found (ap (λ (x : Db). x.deliveries) e)
        (ap (λ (x : Db). x.actions) e) rest

  -- `_bump`, and the record read back.
  pub bump_only-Wrote :
      {r : DeliveryRecord} {db' : Db}
      → (bump db i now f >>= λ db₁. committed db₁ i) ≡ ok (r, db')
      → Wrote db i f now r db'
  unfolding write_row
  bump_only-Wrote h =
      let (db₁, bumped, rest) = >>=-eq-ok (bump db i now f) (λ db₂. committed db₂ i) h in
      let (row, found, e) = bump-eq-ok db i now f bumped in
      Wrote-intro row db₁ found (ap (λ (x : Db). x.deliveries) e) (ap (λ (x : Db). x.actions) e)
        rest
