-- ===== src/Ships/Remaining.antt =====
-- What a recorded success of registry/ships.py takes off the actions that remain.
use mathlib.Core.Path.{fun_ext}
use mathlib.Core.Option.{some-injective}
use ompire.Base.{
  >>=-eq-ok, All, Bool, Bool-cases, List, Option, Option-cases, String, [], any, ap, arith, find,
  get_last?, inl, inr, is_some, nat_eq_iff, none, not, ok, or_fail-bind-eq-ok, refl, select, some,
  sym, true, update, ℕ, ◌&&◌, ◌<◌, ◌==◌, ◌||◌, ◌∙◌, ◌∷◌, ◌≡◌, string_eq, ℕ_eq,
}
use ompire.Json.{Json}
use ompire.Ships.Rows.{
  Action, Delivery, DeliveryRecord, Disposition, Kind, actions_to, authorized_actions, is_succeeded,
  remaining_actions, Kind_eq,
}
use ompire.Ships.Tables.{
  Db, actions_of, bump, committed, find_action, find_delivery, get_delivery, with_children,
  write_action,
}
use ompire.Ships.Attempts.{complete_action, complete_action_in, completing, resolved_to}
use ompire.Ships.Journal.{bump-actions}
use ompire.Ships.Writes.{committed-eq-ok, find_delivery-id}
use ompire.Ships.Versions.{KeepsOwner, bump-eq-ok, find_delivery-write_row_self}
use ompire.Ships.Single.{All-select, DistinctIds, select-update, with_id}

abbrev done : Kind → Action → Bool
done k a = a.kind == k && is_succeeded a.phase

is_some-get_last? :
    (p : Action → Bool) (rows : List Action) → is_some (get_last? (select p rows)) ≡ any p rows
is_some-get_last? p [] = refl
is_some-get_last? p (a ∷ rows) = elim (Bool-cases (p a)) [
  | inl e ↦ rw e (nonempty a (select p rows))
  | inr e ↦ rw e (is_some-get_last? p rows)
]
  where
    nonempty : (b : Action) (bs : List Action) → is_some (get_last? (b ∷ bs)) ≡ true
    nonempty b [] = refl
    nonempty b (c ∷ bs) = nonempty c bs

any-id :
    (i : ℕ) (rows : List Action) (a : Action)
    → find (with_id i) rows ≡ some a
    → any (with_id i) rows ≡ true
any-id i [] a h = cc
any-id i (b ∷ rows) a h = ground (arith, any-id i rows a)

find-select :
    (i j : ℕ) (rows : List Action) (a : Action)
    → find (with_id i) rows ≡ some a
    → a.delivery_id ≡ j
    → any (with_id i) (select (λ b. b.delivery_id == j) rows) ≡ true
find-select i j [] a h e = cc
find-select i j (b ∷ rows) a h e =
    ground (arith, nat_eq_iff b.delivery_id j, find-select i j rows a)

module _ (i : ℕ) (a : Action) (result : Json) (identity : Option Json) (now : String) where
  any-completed :
      (k : Kind) (rows : List Action)
      → All (λ b. b.id ≡ i → b ≡ a) rows
      → any (done k) (update (with_id i) (completing result identity now) rows)
        ≡ any (done k) rows || (any (with_id i) rows && a.kind == k)
  any-completed k [] u = refl
  any-completed k (b ∷ rows) u = elim (Bool-cases (with_id i b)) [
    | inl e ↦
        let same : b ≡ a = u.0 ((nat_eq_iff b.id i).0 e) in
        let same_kind : b.kind ≡ a.kind = ap (λ (x : Action). x.kind) same in
        rw e (ground (arith, any-completed k rows u.1))
    | inr e ↦ rw e (ground (arith, any-completed k rows u.1))
  ]

unique :
    (i : ℕ) (a : Action) (rows : List Action)
    → DistinctIds rows
    → find (with_id i) rows ≡ some a
    → All (λ b. b.id ≡ i → b ≡ a) rows
unique i a [] d h = tt
unique i a (b ∷ rows) d h = elim (Bool-cases (with_id i b)) [
  | inl e ↦
      let same : b ≡ a = ground arith in
      (λ own. same, above rows (rw ((nat_eq_iff b.id i).0 e) at d.0))
  | inr e ↦ (λ own. absurd (ground (arith, nat_eq_iff b.id i)), unique i a rows d.1 (rw e at h))
]
  where
    above : (rest : List Action) → All (λ c. i < c.id) rest → All (λ c. c.id ≡ i → c ≡ a) rest
    above [] u = tt
    above (c ∷ rest) u = (λ own. absurd (omega (arith, u.0)), above rest u.1)

-- The actions that remain, from the kinds that are authorized and those that succeeded.
remaining-any :
    (d : DeliveryRecord)
    → remaining_actions d ≡ select (λ k. not (any (done k) d.actions)) (authorized_actions d)
unfolding remaining_actions
remaining-any d =
    ap (λ (p : Kind → Bool). select p (authorized_actions d))
      (fun_ext λ k. ap not (is_some-get_last? (done k) d.actions))

select-select :
    (p q r : Kind → Bool) (ks : List Kind)
    → ((k : Kind) → r k ≡ (p k && q k))
    → select r ks ≡ select q (select p ks)
select-select p q r [] e = refl
select-select p q r (k ∷ ks) e = ground (arith, e k, select-select p q r ks e)

committed-actions :
    (db : Db) (i : ℕ) {r : DeliveryRecord} {db' : Db}
    → committed db i ≡ ok (r, db')
    → r.actions ≡ actions_of db i
unfolding committed with_children
committed-actions db i {r} {db'} h = elim (Option-cases (find_delivery db i)) [
  | inl e ↦ ground arith
  | inr (row, e) ↦
      let read : r.actions ≡ actions_of db row.id = ground arith in
      read ∙ ap (actions_of db) (find_delivery-id db i row e)
]

resolved_to-KeepsOwner : (d : Option Disposition) → KeepsOwner (resolved_to d)
resolved_to-KeepsOwner none = record { same_task = λ x. refl; same_id = λ x. refl }
resolved_to-KeepsOwner (some t) = record { same_task = λ x. refl; same_id = λ x. refl }

ending-resolved_to : (d : Option Disposition) (x : Delivery) → (resolved_to d x).ending ≡ x.ending
ending-resolved_to none x = refl
ending-resolved_to (some t) x = refl

-- What a recorded success reads and leaves.
record Completed (db : Db) (i : ℕ) (result : Json) (identity : Option Json) (now : String)
    (r : DeliveryRecord) (db' : Db) : Type 0 where
  a : Action
  row : Delivery
  found : find_action db i ≡ some a
  owner : find_delivery db a.delivery_id ≡ some row
  same_ending : r.ending ≡ row.ending
  journal : r.actions ≡ actions_of db' a.delivery_id
  written : db'.actions ≡ update (with_id i) (completing result identity now) db.actions

get_delivery-parts :
    (db : Db) (j : ℕ) {old : DeliveryRecord}
    → get_delivery db j ≡ some old
    → (find_delivery db j ≡ some old.row) × (old.actions ≡ actions_of db j)
unfolding get_delivery
get_delivery-parts db j {old} h = elim (Option-cases (find_delivery db j)) [
  | inl e ↦ ground arith
  | inr (row, e) ↦
      let same : (old.row ≡ row) × (old.actions ≡ actions_of db row.id) = ground arith in
      (rw same.0 e, same.1 ∙ ap (actions_of db) (find_delivery-id db j row e))
]

not-or : (x y : Bool) → not (x || y) ≡ (not x && not y)
not-or x y = ground arith

module _ (db : Db) (i : ℕ) (result : Json) (identity : Option Json) (d : Option Disposition)
    (now : String) {r : DeliveryRecord} {db' : Db} where
  complete-Completed :
      complete_action db i result identity d now ≡ ok (r, db')
      → Completed db i result identity now r db'
  unfolding complete_action complete_action_in write_action find_delivery
  complete-Completed h =
      let f = completing result identity now in
      let (out, e₁, h₁) = >>=-eq-ok (complete_action_in db i result identity d now) _ h in
      let (a, found, h₂) = or_fail-bind-eq-ok (find_action db i) _ _ e₁ in
      let (db₁, bumped, h₃) = >>=-eq-ok (bump (write_action db i f) _ now (resolved_to d)) _ h₂ in
      let (row, owner, e₂) =
        bump-eq-ok (write_action db i f) a.delivery_id now (resolved_to d) bumped in
      let same : out ≡ (a.delivery_id, db₁) = ground arith in
      let h₄ : committed db₁ a.delivery_id ≡ ok (r, db') = rw same at h₁ in
      let (read, stored) = committed-eq-ok db₁ a.delivery_id h₄ in
      let self =
        find_delivery-write_row_self (write_action db i f) a.delivery_id now (resolved_to d)
          (resolved_to-KeepsOwner d) _ row owner in
      let reads =
        some-injective _ _
          (sym stored ∙ ap (λ (x : Db). find_delivery x a.delivery_id) e₂ ∙ self) in
      record {
        a = a;
        row = row;
        found = found;
        owner = owner;
        same_ending = ap (λ (x : Delivery). x.ending) reads ∙ ending-resolved_to d row;
        journal = committed-actions db₁ a.delivery_id h₄ ∙ rw read refl;
        written =
            rw read (bump-actions (write_action db i f) a.delivery_id now (resolved_to d) bumped);
      }

  -- Recording the success of an attempt takes exactly its kind off the actions that remain of the
  -- delivery, and keeps the order of the others.
  pub remaining_complete :
      (old : DeliveryRecord) (a : Action)
      → DistinctIds db.actions
      → find_action db i ≡ some a
      → get_delivery db a.delivery_id ≡ some old
      → complete_action db i result identity d now ≡ ok (r, db')
      → remaining_actions r ≡ select (λ k. not (a.kind == k)) (remaining_actions old)
  unfolding get_delivery find_action actions_of authorized_actions
  remaining_complete old a distinct found read h =
      let c = complete-Completed h in
      let f = completing result identity now in
      let same : c.a ≡ a = some-injective _ _ (sym c.found ∙ found) in
      let rows = actions_of db a.delivery_id in
      let only =
        All-select _ (λ b. b.delivery_id == a.delivery_id) db.actions
          (unique i a db.actions distinct found) in
      let there = find-select i a.delivery_id db.actions a found refl in
      let journal : r.actions ≡ update (with_id i) f rows =
        c.journal
        ∙ ap (λ (x : Action). actions_of db' x.delivery_id) same
        ∙ ap (select (λ b. b.delivery_id == a.delivery_id)) c.written
        ∙ select-update i a.delivery_id f db.actions (λ b. refl) in
      let (owner, children) = get_delivery-parts db a.delivery_id read in
      let row : c.row ≡ old.row =
        some-injective _ _
          (sym c.owner ∙ ap (λ (x : Action). find_delivery db x.delivery_id) same ∙ owner) in
      let ending : r.ending ≡ old.ending = c.same_ending ∙ ap (λ (x : Delivery). x.ending) row in
      let taken : (k : Kind)
          → not (any (done k) r.actions) ≡ (not (any (done k) old.actions) && not (a.kind == k)) =
        λ k.
          rw (journal, children, any-completed i a result identity now k rows only, there)
            (not-or (any (done k) rows) (a.kind == k)) in
      remaining-any r
      ∙ rw ending (
          select-select (λ k. not (any (done k) old.actions)) (λ k. not (a.kind == k))
            (λ k. not (any (done k) r.actions)) (actions_to old.ending) taken)
      ∙ ap (select (λ k. not (a.kind == k))) (sym (remaining-any old))
