-- ===== src/Ships/Journal.antt =====
-- What the journal of attempts of registry/ships.py admits.
use mathlib.Core.List.{append-nil}
use ompire.Base.{
  &&-eq-true, >>=-eq-ok, Bool-cases, In, List, Option, Option-cases, Result, String, [], ap, arith,
  eq_iff, find, find-In, find-holds, if◌then◌else◌, inl, inr, is, max_of, nat_eq_iff, none, ok,
  or_fail-bind-eq-ok, refl, select, select-append, some, subst, sym, true, ℕ, ◌&&◌, ◌++◌, ◌<◌, ◌==◌,
  ◌∙◌, ◌∷◌, ◌≡◌, ◌≢◌, ◌⊎◌, string_eq, ℕ_eq,
}
use ompire.Ships.Rows.{Action, Delivery, Kind, kind_eq_iff, parse_kind, prepared, Kind_eq}
use ompire.Ships.Tables.{Conflict, Db, actions_of, bump, write_row}
use ompire.Ships.Attempts.{
  Request, Verdict, adopt_row, blocks_kind, by_kind, by_request_key, by_workflow_seq, go_on,
  insert_action, insert_attempt, is_live_for, new_action, next_seq, prepare_action, refuse,
  then_try,
}
use ompire.Ships.Versions.{bump-eq-ok}

-- The attempt was prepared under the request's key for its inputs, or for its workflow step.
abbrev pub Repeats : Request → Action → Type 0
Repeats r a =
    ((a.request_key ≡ r.request_key) × (a.input_fingerprint ≡ r.input_fingerprint))
    ⊎ ((s : ℕ) × (r.workflow_seq ≡ some s) × (a.workflow_seq ≡ some s))

-- The attempt returned is one of the delivery's journal, of the same kind, that never started. Nothing
-- is written.
pub record Adopted (db : Db) (i : ℕ) (kind : Kind) (r : Request) (a : Action) (db' : Db)
    : Type 0 where
  pub unchanged : db' ≡ db
  pub earlier : In a (actions_of db i)
  pub same_request : Repeats r a
  pub same_kind : a.kind ≡ kind
  pub not_started : a.phase ≡ prepared

-- The attempt is a new one, at the end of the delivery's journal.
pub record Admitted (db : Db) (i : ℕ) (kind : Kind) (r : Request) (a : Action) (db' : Db)
    : Type 0 where
  pub appended : actions_of db' i ≡ actions_of db i ++ a ∷ []
  pub others_kept : (j : ℕ) → j ≢ i → actions_of db' j ≡ actions_of db j
  pub asked : (a.kind ≡ kind) × (a.workflow_seq ≡ r.workflow_seq) × (a.phase ≡ prepared)
  pub key_unused : find (λ b. b.request_key == r.request_key) (actions_of db i) ≡ none
  pub step_free : (s : ℕ) → r.workflow_seq ≡ some s → find (is_live_for s) (actions_of db i) ≡ none
  pub kind_free : find (λ b. b.kind == kind && blocks_kind b) (actions_of db i) ≡ none
  pub numbered : a.seq ≡ next_seq (actions_of db i)
  pub stored_last : db'.actions ≡ db.actions ++ a ∷ []
  pub fresh_id : max_of (λ b. b.id) db.actions < a.id

is-some : (o : Option ℕ) (s : ℕ) → is o s ≡ true → o ≡ some s
is-some none s h = cc
is-some (some n) s h = ap some ((nat_eq_iff n s).0 h)

by_request_key-adopt :
    (kind : Kind) (r : Request) (rows : List Action) (a : Action)
    → by_request_key kind r rows ≡ adopt_row a
    → In a rows × Repeats r a × (a.kind ≡ kind) × (a.phase ≡ prepared)
unfolding by_request_key
by_request_key-adopt kind r rows a h =
    elim (Option-cases (find (λ b. b.request_key == r.request_key) rows)) [
      | inl e ↦ ground arith
      | inr (b, e) ↦
          let key = find-holds (λ c. c.request_key == r.request_key) rows b e in
          let read : (b ≡ a)
              × (b.kind ≡ kind)
              × (b.phase ≡ prepared)
              × ((b.input_fingerprint == r.input_fingerprint) ≡ true) =
            ground (arith, kind_eq_iff b.kind kind) in
          let same = read.0 in
          subst (λ x. In x rows × Repeats r x × (x.kind ≡ kind) × (x.phase ≡ prepared)) same
            (
              find-In (λ c. c.request_key == r.request_key) rows b e,
              inl (
                (eq_iff b.request_key r.request_key).0 key,
                (eq_iff b.input_fingerprint r.input_fingerprint).0 read.3,
              ),
              read.1,
              read.2,
            )
    ]

by_request_key-go_on :
    (kind : Kind) (r : Request) (rows : List Action)
    → by_request_key kind r rows ≡ go_on
    → find (λ b. b.request_key == r.request_key) rows ≡ none
unfolding by_request_key
by_request_key-go_on kind r rows h = ground arith

by_workflow_seq-adopt :
    (kind : Kind) (r : Request) (w : Option ℕ) (rows : List Action) (a : Action)
    → r.workflow_seq ≡ w
    → by_workflow_seq kind w rows ≡ adopt_row a
    → In a rows × Repeats r a × (a.kind ≡ kind) × (a.phase ≡ prepared)
unfolding by_workflow_seq
by_workflow_seq-adopt kind r none rows a asked h = cc
by_workflow_seq-adopt kind r (some s) rows a asked h =
    elim (Option-cases (find (is_live_for s) rows)) [
      | inl e ↦ ground arith
      | inr (b, e) ↦
          let live = find-holds (is_live_for s) rows b e in
          let read : (b ≡ a) × (b.kind ≡ kind) × (b.phase ≡ prepared) =
            ground (arith, kind_eq_iff b.kind kind) in
          subst (λ x. In x rows × Repeats r x × (x.kind ≡ kind) × (x.phase ≡ prepared)) read.0
            (
              find-In (is_live_for s) rows b e,
              inr (s, asked, is-some b.workflow_seq s (&&-eq-true _ _ live).0),
              read.1,
              read.2,
            )
    ]

by_workflow_seq-go_on :
    (kind : Kind) (w : Option ℕ) (rows : List Action)
    → by_workflow_seq kind w rows ≡ go_on
    → (s : ℕ) → w ≡ some s
    → find (is_live_for s) rows ≡ none
unfolding by_workflow_seq
by_workflow_seq-go_on kind none rows h s e = cc
by_workflow_seq-go_on kind (some t) rows h s e = ground arith

by_kind-ne-adopt : (kind : Kind) (rows : List Action) (a : Action) → by_kind kind rows ≢ adopt_row a
unfolding by_kind
by_kind-ne-adopt kind rows a h = ground arith

by_kind-go_on :
    (kind : Kind) (rows : List Action)
    → by_kind kind rows ≡ go_on
    → find (λ b. b.kind == kind && blocks_kind b) rows ≡ none
unfolding by_kind
by_kind-go_on kind rows h = ground arith

actions_of-insert :
    (db : Db) (a : Action) (j : ℕ)
    → actions_of (insert_action db a) j
      ≡ (if a.delivery_id == j then actions_of db j ++ a ∷ [] else actions_of db j)
unfolding actions_of
actions_of-insert db a j =
    select-append (λ b. b.delivery_id == j) db.actions (a ∷ [])
    ∙ elim (Bool-cases (a.delivery_id == j)) [ inl e ↦ rw e | inr e ↦ rw (e, append-nil) ]

actions_of-cong : (a b : Db) (j : ℕ) → a.actions ≡ b.actions → actions_of a j ≡ actions_of b j
unfolding actions_of
actions_of-cong a b j e = ap (select (λ x. x.delivery_id == j)) e

pub bump-actions :
    (db : Db) (i : ℕ) (now : String) (f : Delivery → Delivery) {db' : Db}
    → bump db i now f ≡ ok db'
    → db'.actions ≡ db.actions
unfolding write_row
bump-actions db i now f h =
    let (row, found, e) = bump-eq-ok db i now f h in ap (λ (x : Db). x.actions) e

-- A verdict that let the request through, and what followed.
then_try-eq-ok :
    (v : Verdict) (db : Db) (k : Result Conflict (Action × Db)) {a : Action} {db' : Db}
    → then_try v (λ b. ok (b, db)) k ≡ ok (a, db')
    → ((v ≡ adopt_row a) × (db' ≡ db)) ⊎ ((v ≡ go_on) × (k ≡ ok (a, db')))
then_try-eq-ok (adopt_row b) db k h = ground arith
then_try-eq-ok (refuse e) db k h = cc
then_try-eq-ok go_on db k h = inr (refl, h)

module _ (db : Db) (i : ℕ) (kind : Kind) (r : Request) (now : String) {a : Action} {db' : Db} where
  insert_attempt-new :
      insert_attempt db i kind r now ≡ ok (a, db')
      → (a ≡ new_action db i kind r now)
        × (db'.actions ≡ db.actions ++ new_action db i kind r now ∷ [])
  unfolding insert_attempt
  insert_attempt-new h =
      let new = new_action db i kind r now in
      let (db₁, bumped, e) = >>=-eq-ok (bump (insert_action db new) i now (λ d. d)) _ h in
      let same : (a ≡ new) × (db' ≡ db₁) = ground arith in
      (same.0, rw same.1 (bump-actions (insert_action db new) i now (λ d. d) bumped))

  insert_attempt-Admitted :
      by_request_key kind r (actions_of db i) ≡ go_on
      → by_workflow_seq kind r.workflow_seq (actions_of db i) ≡ go_on
      → by_kind kind (actions_of db i) ≡ go_on
      → insert_attempt db i kind r now ≡ ok (a, db')
      → Admitted db i kind r a db'
  unfolding new_action
  insert_attempt-Admitted k w s h =
      let (same, grown) = insert_attempt-new h in
      let new = new_action db i kind r now in
      let rows = λ (j : ℕ).
        actions_of-cong db' (insert_action db new) j grown ∙ actions_of-insert db new j in
      record {
        appended = rows i ∙ rw ((nat_eq_iff i i).1 refl, same) refl;
        others_kept = λ j ne. rows j ∙ elim (Bool-cases (i == j)) [
          | inl e ↦ absurd (ne (sym ((nat_eq_iff i j).0 e)))
          | inr e ↦ rw e
        ];
        asked = rw same (refl, refl, refl);
        key_unused = by_request_key-go_on kind r (actions_of db i) k;
        step_free = by_workflow_seq-go_on kind r.workflow_seq (actions_of db i) w;
        kind_free = by_kind-go_on kind (actions_of db i) s;
        numbered = rw same refl;
        stored_last = rw same grown;
        fresh_id = rw same (omega arith);
      }

  prepare_kind :
      then_try
          (by_request_key kind r (actions_of db i))
          (λ b. ok (b, db))
          (then_try
            (by_workflow_seq kind r.workflow_seq (actions_of db i))
            (λ b. ok (b, db))
            (then_try
              (by_kind kind (actions_of db i))
              (λ b. ok (b, db))
              (insert_attempt db i kind r now)))
        ≡ ok (a, db')
      → Adopted db i kind r a db' ⊎ Admitted db i kind r a db'
  prepare_kind h = elim (then_try-eq-ok (by_request_key kind r (actions_of db i)) db _ h) [
    | inl (v, e) ↦ inl (adopted e (by_request_key-adopt kind r (actions_of db i) a v))
    | inr (k, h₁) ↦
        elim (then_try-eq-ok (by_workflow_seq kind r.workflow_seq (actions_of db i)) db _ h₁) [
          | inl (v, e) ↦
              inl
                (adopted e (by_workflow_seq-adopt kind r r.workflow_seq (actions_of db i) a refl v))
          | inr (w, h₂) ↦ elim (then_try-eq-ok (by_kind kind (actions_of db i)) db _ h₂) [
            | inl (v, e) ↦ absurd (by_kind-ne-adopt kind (actions_of db i) a v)
            | inr (s, h₃) ↦ inr (insert_attempt-Admitted k w s h₃)
          ]
        ]
  ]
    where
      adopted :
          db' ≡ db
          → In a (actions_of db i) × Repeats r a × (a.kind ≡ kind) × (a.phase ≡ prepared)
          → Adopted db i kind r a db'
      adopted e (i', s, k, p) = record {
        unchanged = e;
        earlier = i';
        same_request = s;
        same_kind = k;
        not_started = p;
      }

-- Where preparing an action succeeds, the attempt returned is one of the delivery's own, of the kind
-- asked for, that has not started and has the request's key and inputs or its workflow step, and then
-- nothing is written; or it is a new one at the end of the delivery's attempts, under the next number,
-- and then no attempt of the delivery holds the request key, none of the workflow step asked for, if
-- there is one, is live, and none of the kind runs, has an unknown outcome or succeeded.
pub prepare_action-Admitted :
    (db : Db) (i : ℕ) (r : Request) (now : String) {a : Action} {db' : Db}
    → prepare_action db i r now ≡ ok (a, db')
    → (kind : Kind) × (parse_kind r.kind ≡ some kind)
      × (Adopted db i kind r a db' ⊎ Admitted db i kind r a db')
unfolding prepare_action
prepare_action-Admitted db i r now h =
    let (kind, pk, h₁) = or_fail-bind-eq-ok (parse_kind r.kind) _ _ h in
    (kind, pk, prepare_kind db i kind r now h₁)
