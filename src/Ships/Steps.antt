-- ===== src/Ships/Steps.antt =====
-- The writes of registry/ships.py as steps between tables, and what every run of them keeps.
use ompire.Base.{
  All, Bool-cases, List, Option, String, [], ap, arith, false, find, inl, inr, nat_eq_iff, ok, refl,
  select, some, sym, ℕ, ◌<◌, ◌==◌, ◌∙◌, ◌∷◌, ◌≡◌, ◌≢◌, string_eq, ℕ_eq,
}
use ompire.Json.{Json}
use ompire.Ships.Rows.{Action, Delivery, DeliveryRecord, Disposition, is_failed, Kind_eq}
use ompire.Ships.Tables.{Db, actions_of, find_action}
use ompire.Ships.Attempts.{
  Request, Resolution, complete_action_in, fail_action, flag_action_unresolved,
  mark_action_executing, prepare_action, record_action_progress, resolve_action, starting,
}
use ompire.Ships.Writes.{Wrote}
use ompire.Ships.Updates.{
  complete-update, fail-update, flag-update, mark-update, progress-update, resolve-update,
}
use ompire.Ships.Journal.{prepare_action-Admitted}
use ompire.Ships.Single.{
  All-intro, Ascending-append, DistinctIds, DistinctIds-append, Gentle, IsJournal, live-append,
  with_id, write-IsJournal,
}

-- One committed call. An outcome is recorded only for an attempt that is not `failed`: the unique
-- index of `delivery_actions` on the live attempts of a step is what refuses the rest.
pub data Step (db db' : Db) : Type 0 where
  prepare :
      (i : ℕ) (r : Request) (now : String) (a : Action)
      → prepare_action db i r now ≡ ok (a, db')
      → Step db db'
  start :
      (i : ℕ) (expected : Option Json) (now : String) (a : Action)
      → mark_action_executing db i expected now ≡ ok (a, db')
      → Step db db'
  progress :
      (i : ℕ) (j : Json) (now : String) (a : Action)
      → record_action_progress db i j now ≡ ok (a, db')
      → Step db db'
  complete :
      (i : ℕ) (result : Json) (identity : Option Json) (d : Option Disposition) (now : String)
      (k : ℕ) (old : Action)
      → find_action db i ≡ some old
      → is_failed old.phase ≡ false
      → complete_action_in db i result identity d now ≡ ok (k, db')
      → Step db db'
  fail :
      (i : ℕ) (e : String) (reason : Option String) (now : String) (r : DeliveryRecord)
      → fail_action db i e reason now ≡ ok (r, db')
      → Step db db'
  flag :
      (i : ℕ) (e : String) (evidence : Option Json) (now : String) (r : DeliveryRecord)
      (old : Action)
      → find_action db i ≡ some old
      → is_failed old.phase ≡ false
      → flag_action_unresolved db i e evidence now ≡ ok (r, db')
      → Step db db'
  resolve :
      (i : ℕ) (x : Resolution) (now : String) (r : DeliveryRecord) (old : Action)
      → find_action db i ≡ some old
      → is_failed old.phase ≡ false
      → resolve_action db i x now ≡ ok (r, db')
      → Step db db'
  confirm :
      (i : ℕ) (f : Delivery → Delivery) (now : String) (r : DeliveryRecord)
      → Wrote db i f now r db'
      → Step db db'

pub data Run (db : Db) : Db → Type 0 where
  here : Run db db
  then : {db₁ db₂ : Db} → Run db db₁ → Step db₁ db₂ → Run db db₂

actions_of-cong : (a b : Db) (j : ℕ) → a.actions ≡ b.actions → actions_of a j ≡ actions_of b j
unfolding actions_of
actions_of-cong a b j e = ap (select (λ x. x.delivery_id == j)) e

same-IsJournal : (db db' : Db) → db'.actions ≡ db.actions → IsJournal db → IsJournal db'
same-IsJournal db db' e h =
    let rows = λ (j : ℕ). actions_of-cong db' db j e in
    record {
      distinct = rw e h.distinct;
      ascending = λ j. rw (rows j) (h.ascending j);
      single = λ j s. rw (rows j) (h.single j s);
    }

module _ (i : ℕ) (old : Action) where
  -- Ids tell rows apart, so the row found is the only one that a write changes.
  live_row :
      (rows : List Action) (P : Action → Type 0)
      → DistinctIds rows
      → find (with_id i) rows ≡ some old
      → is_failed old.phase ≡ false
      → All (λ a. a.id ≡ i → P a → is_failed a.phase ≡ false) rows
  live_row [] P d found live = tt
  live_row (a ∷ rows) P d found live = elim (Bool-cases (with_id i a)) [
    | inl e ↦
        let same : a ≡ old = ground arith in
        (λ _ _. rw same live, later rows P a (rw ((nat_eq_iff a.id i).0 e) at d.0))
    | inr e ↦ (
      λ own _. absurd (ground (arith, nat_eq_iff a.id i)),
      live_row rows P d.1 (rw e at found) live,
    )
  ]
    where
      later :
          (rest : List Action) (Q : Action → Type 0) (a : Action)
          → All (λ b. i < b.id) rest
          → All (λ b. b.id ≡ i → Q b → is_failed b.phase ≡ false) rest
      later [] Q a h = tt
      later (b ∷ rest) Q a h = (λ own _. absurd (omega (arith, h.0)), later rest Q a h.1)

gentle :
    (i : ℕ) (f : Action → Action) (rows : List Action)
    → ((a : Action)
        → ((f a).id ≡ a.id)
          × ((f a).delivery_id ≡ a.delivery_id)
          × ((f a).seq ≡ a.seq)
          × ((f a).workflow_seq ≡ a.workflow_seq))
    → All (λ a. a.id ≡ i → is_failed (f a).phase ≡ false → is_failed a.phase ≡ false) rows
    → Gentle i f rows
gentle i f rows same live = record {
  same_id = λ a. (same a).0;
  same_delivery = λ a. (same a).1;
  same_seq = λ a. (same a).2;
  same_step = λ a. (same a).3;
  no_revival = live;
}

prepare-IsJournal :
    (db : Db) (i : ℕ) (r : Request) (now : String) (a : Action) {db' : Db}
    → prepare_action db i r now ≡ ok (a, db')
    → IsJournal db
    → IsJournal db'
prepare-IsJournal db i r now a {db'} h j =
    let (kind, pk, outcome) = prepare_action-Admitted db i r now h in
    elim outcome [
      | inl old ↦ rw old.unchanged j
      | inr new ↦ record {
        distinct = rw new.stored_last (DistinctIds-append db.actions a j.distinct new.fresh_id);
        ascending = λ k. elim (Bool-cases (k == i)) [
          | inl e ↦
              rw ((nat_eq_iff k i).0 e, new.appended)
                (Ascending-append (actions_of db i) a (j.ascending i) new.numbered)
          | inr e ↦ rw (new.others_kept k (ne k e)) (j.ascending k)
        ];
        single = λ k s. elim (Bool-cases (k == i)) [
          | inl e ↦
              rw ((nat_eq_iff k i).0 e, new.appended)
                (live-append s (actions_of db i) a (λ own. new.step_free s (sym new.asked.1 ∙ own))
                  (j.single i s))
          | inr e ↦ rw (new.others_kept k (ne k e)) (j.single k s)
        ];
      }
    ]
  where
    ne : (k : ℕ) → (k == i) ≡ false → k ≢ i
    ne k e same = ground (arith, nat_eq_iff k i)

-- Every committed call keeps the journal in order, with one live attempt to a workflow step.
pub Step-IsJournal : (db db' : Db) → Step db db' → IsJournal db → IsJournal db'
unfolding find_action
Step-IsJournal db db' (prepare i r now a h) j = prepare-IsJournal db i r now a h j
Step-IsJournal db db' (start i expected now a h) j =
    let (old, found, p, e, _) = mark-update db i expected now h in
    write-IsJournal db db' i (starting expected now) e
      (gentle i _ db.actions (λ b. (refl, refl, refl, refl))
        (live_row i old db.actions _ j.distinct found (rw p refl)))
      j
Step-IsJournal db db' (progress i p now a h) j =
    write-IsJournal db db' i _ (progress-update db i p now h)
      (gentle i _ db.actions (λ b. (refl, refl, refl, refl))
        (All-intro _ db.actions (λ b own live. live)))
      j
Step-IsJournal db db' (complete i result identity d now k old found live h) j =
    write-IsJournal db db' i _ (complete-update db i result identity d now h)
      (gentle i _ db.actions (λ b. (refl, refl, refl, refl))
        (live_row i old db.actions _ j.distinct found live))
      j
Step-IsJournal db db' (fail i e reason now r h) j =
    write-IsJournal db db' i _ (fail-update db i e reason now h)
      (gentle i _ db.actions (λ b. (refl, refl, refl, refl))
        (All-intro _ db.actions (λ b own live. cc)))
      j
Step-IsJournal db db' (flag i e evidence now r old found live h) j =
    let (p, written) = flag-update db i e evidence now h in
    write-IsJournal db db' i _ written
      (gentle i _ db.actions (λ b. (refl, refl, refl, refl))
        (live_row i old db.actions _ j.distinct found live))
      j
Step-IsJournal db db' (resolve i x now r old found live h) j =
    let (p, result, written) = resolve-update db i x now h in
    write-IsJournal db db' i _ written
      (gentle i _ db.actions (λ b. (refl, refl, refl, refl))
        (live_row i old db.actions _ j.distinct found live))
      j
Step-IsJournal db db' (confirm i f now r w) j = same-IsJournal db db' w.actions_kept j

-- Every run of committed calls on the attempts, in any order, keeps these three when they hold before
-- it, as in empty tables: ids tell the attempts apart, the attempts of each delivery stand in the
-- order of their numbers, and each workflow step has at most one attempt in a delivery that is not
-- proven to have had no effect. A call that records an outcome is one for an attempt that has not
-- failed.
pub Run-IsJournal : {db db' : Db} → Run db db' → IsJournal db → IsJournal db'
Run-IsJournal here j = j
Run-IsJournal (then {db₁ = a} {db₂ = b} run step) j = Step-IsJournal a b step (Run-IsJournal run j)
