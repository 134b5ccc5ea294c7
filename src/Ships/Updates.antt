-- ===== src/Ships/Updates.antt =====
-- What each write to an attempt of registry/ships.py does to the table of attempts.
use mathlib.Core.Option.{some-injective}
use ompire.Base.{
  >>=-eq-ok, List, Option, String, [], ap, arith, find, guard-then-eq-ok, ok, or_fail-bind-eq-ok,
  refl, some, sym, update, ℕ, ◌∙◌, ◌∷◌, ◌≡◌, string_eq, ℕ_eq,
}
use ompire.Json.{Json}
use ompire.Ships.Rows.{
  Action, Delivery, DeliveryRecord, Disposition, Phase, executing, is_prepared, parse_phase,
  prepared, Kind_eq,
}
use ompire.Ships.Tables.{Db, add_decision, bump, find_action, write_action}
use ompire.Ships.Attempts.{
  Resolution, committed_action, complete_action_in, completing, fail_action, failing,
  flag_action_unresolved, flagging, mark_action_executing, record_action_progress, resolve_action,
  resolving, set_or_keep, starting, with_evidence,
}
use ompire.Ships.Writes.{committed-eq-ok}
use ompire.Ships.Journal.{bump-actions}
use ompire.Ships.Single.{with_id}

-- What a write to one attempt leaves, once its row is found and the delivery is bumped.
module _ (db : Db) (i : ℕ) (f : Action → Action) (now : String) (g : Delivery → Delivery) where
  wrote_action :
      (d : ℕ) (before : Db) {db' : Db}
      → before.actions ≡ (write_action db i f).actions
      → bump before d now g ≡ ok db'
      → db'.actions ≡ update (with_id i) f db.actions
  unfolding write_action
  wrote_action d before e h = bump-actions before d now g h ∙ e

module _ (db : Db) (i : ℕ) {db' : Db} where
  pub mark-update :
      (expected : Option Json) (now : String) {a : Action}
      → mark_action_executing db i expected now ≡ ok (a, db')
      → (old : Action) × (find_action db i ≡ some old)
        × (old.phase ≡ prepared)
        × (db'.actions ≡ update (with_id i) (starting expected now) db.actions)
        × (find_action db' i ≡ some a)
  unfolding mark_action_executing committed_action
  mark-update expected now h =
      let (old, found, h₁) = or_fail-bind-eq-ok (find_action db i) _ _ h in
      let (p, h₂) = guard-then-eq-ok (is_prepared old.phase) _ _ h₁ in
      let (db₁, bumped, h₃) =
        >>=-eq-ok (bump (write_action db i (starting expected now)) _ now _) _ h₂ in
      let same : db' ≡ db₁ = ground arith in
      (
        old,
        found,
        ground arith,
        rw same (wrote_action db i (starting expected now) now (λ d. d) _ _ refl bumped),
        ground arith,
      )

  pub progress-update :
      (j : Json) (now : String) {a : Action}
      → record_action_progress db i j now ≡ ok (a, db')
      → db'.actions
        ≡ update (with_id i) (λ r. record r { progress = some j; updated_at = now }) db.actions
  unfolding record_action_progress committed_action write_action
  progress-update j now h = ground arith

  pub complete-update :
      (result : Json) (identity : Option Json) (d : Option Disposition) (now : String) {k : ℕ}
      → complete_action_in db i result identity d now ≡ ok (k, db')
      → db'.actions ≡ update (with_id i) (completing result identity now) db.actions
  unfolding complete_action_in
  complete-update result identity d now h =
      let (old, found, h₁) = or_fail-bind-eq-ok (find_action db i) _ _ h in
      let (db₁, bumped, h₂) =
        >>=-eq-ok (bump (write_action db i (completing result identity now)) _ now _) _ h₁ in
      let same : db' ≡ db₁ = ground arith in
      rw same (wrote_action db i (completing result identity now) now _ _ _ refl bumped)

  pub fail-update :
      (e : String) (reason : Option String) (now : String) {r : DeliveryRecord}
      → fail_action db i e reason now ≡ ok (r, db')
      → db'.actions ≡ update (with_id i) (failing e now) db.actions
  unfolding fail_action add_decision
  fail-update e reason now h =
      let (old, found, h₁) = or_fail-bind-eq-ok (find_action db i) _ _ h in
      let (db₁, bumped, h₂) = >>=-eq-ok (bump (write_action db i (failing e now)) _ now _) _ h₁ in
      let (read, _) = committed-eq-ok _ _ h₂ in
      rw read (wrote_action db i (failing e now) now _ _ _ refl bumped)

  pub flag-update :
      (e : String) (evidence : Option Json) (now : String) {r : DeliveryRecord}
      → flag_action_unresolved db i e evidence now ≡ ok (r, db')
      → (j : Json) × (db'.actions ≡ update (with_id i) (flagging e j now) db.actions)
  unfolding flag_action_unresolved
  flag-update e evidence now h =
      let (old, found, h₁) = or_fail-bind-eq-ok (find_action db i) _ _ h in
      let j = with_evidence evidence old.progress in
      let (db₁, bumped, h₂) =
        >>=-eq-ok (bump (write_action db i (flagging e j now)) _ now _) _ h₁ in
      let (read, _) = committed-eq-ok _ _ h₂ in
      (j, rw read (wrote_action db i (flagging e j now) now _ _ _ refl bumped))

  pub resolve-update :
      (x : Resolution) (now : String) {r : DeliveryRecord}
      → resolve_action db i x now ≡ ok (r, db')
      → (p : Phase) × (j : Option Json) × (db'.actions
          ≡ update (with_id i) (resolving x p j now) db.actions)
  unfolding resolve_action add_decision
  resolve-update x now h =
      let (p, _, h₁) = or_fail-bind-eq-ok (parse_phase x.phase) _ _ h in
      let (old, found, h₂) = or_fail-bind-eq-ok (find_action db i) _ _ h₁ in
      let j = set_or_keep x.result old.result in
      let (db₁, bumped, h₃) = >>=-eq-ok (bump _ _ now _) _ h₂ in
      let (read, _) = committed-eq-ok _ _ h₃ in
      (p, j, rw read (wrote_action db i (resolving x p j now) now _ _ _ refl bumped))

find-updated :
    (i : ℕ) (f : Action → Action) (rows : List Action) (a : Action)
    → ((b : Action) → (f b).id ≡ b.id)
    → find (with_id i) rows ≡ some a
    → find (with_id i) (update (with_id i) f rows) ≡ some (f a)
find-updated i f [] a same h = cc
find-updated i f (b ∷ rows) a same h = ground (arith, same b, find-updated i f rows a same)

-- The attempt that a start returns is executing.
pub mark_action_executing-phase :
    (db : Db) (i : ℕ) (expected : Option Json) (now : String) {a : Action} {db' : Db}
    → mark_action_executing db i expected now ≡ ok (a, db')
    → a.phase ≡ executing
unfolding find_action
mark_action_executing-phase db i expected now {a} h =
    let (old, found, _, e, read) = mark-update db i expected now h in
    let there = find-updated i (starting expected now) db.actions old (λ b. refl) found in
    let same : a ≡ starting expected now old =
      some-injective _ _ (sym read ∙ ap (find (with_id i)) e ∙ there) in
    ap (λ (x : Action). x.phase) same
