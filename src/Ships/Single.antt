-- ===== src/Ships/Single.antt =====
-- What holds of every journal of attempts of registry/ships.py: ids tell rows apart, the attempts
-- of a delivery stand in the order of their numbers, and a workflow step has one live attempt.
use mathlib.Core.List.{append-nil}
use ompire.Base.{
  All, Bool, Bool-cases, List, [], ap, arith, false, find, inl, inr, length, max_of, nat_eq_iff,
  none, or_else, refl, select, select-append, some, update, ℕ, ◌++◌, ◌<◌, ◌==◌, ◌∙◌, ◌∷◌, ◌≡◌, ◌≤◌,
  string_eq, ℕ_eq,
}
use ompire.Ships.Rows.{Action, is_failed, Kind_eq}
use ompire.Ships.Tables.{Db, actions_of}
use ompire.Ships.Attempts.{is_live_for, next_seq}

abbrev pub DistinctIds : List Action → Type 0
DistinctIds [] = Unit
DistinctIds (a ∷ rows) = All (λ b. a.id < b.id) rows × DistinctIds rows

-- `order_by(seq)` is the order of insertion.
abbrev pub Ascending : List Action → Type 0
Ascending [] = Unit
Ascending (a ∷ []) = Unit
Ascending (a ∷ b ∷ rows) = (a.seq < b.seq) × Ascending (b ∷ rows)

pub record IsJournal (db : Db) : Type 0 where
  pub distinct : DistinctIds db.actions
  pub ascending : (i : ℕ) → Ascending (actions_of db i)
  pub single : (i s : ℕ) → length (select (is_live_for s) (actions_of db i)) ≤ 1

pub Ascending-append :
    (rows : List Action) (a : Action)
    → Ascending rows
    → a.seq ≡ next_seq rows
    → Ascending (rows ++ a ∷ [])
Ascending-append [] a h e = tt
Ascending-append (b ∷ []) a h e = (omega arith, tt)
Ascending-append (b ∷ c ∷ rows) a h e = (h.0, Ascending-append (c ∷ rows) a h.1 e)

All-below :
    (rows : List Action) (b a : Action)
    → All (λ c. b.id < c.id) rows
    → b.id < a.id
    → All (λ c. b.id < c.id) (rows ++ a ∷ [])
All-below [] b a h lt = (lt, tt)
All-below (c ∷ rows) b a h lt = (h.0, All-below rows b a h.1 lt)

pub DistinctIds-append :
    (rows : List Action) (a : Action)
    → DistinctIds rows
    → max_of (λ b. b.id) rows < a.id
    → DistinctIds (rows ++ a ∷ [])
DistinctIds-append [] a h lt = (tt, tt)
DistinctIds-append (b ∷ rows) a h lt =
    (All-below rows b a h.0 (omega arith), DistinctIds-append rows a h.1 (omega arith))

find-none-select :
    (p : Action → Bool) (rows : List Action) → find p rows ≡ none → select p rows ≡ []
find-none-select p [] h = refl
find-none-select p (a ∷ rows) h = ground (arith, find-none-select p rows)

pub live-append :
    (s : ℕ) (rows : List Action) (a : Action)
    → (a.workflow_seq ≡ some s → find (is_live_for s) rows ≡ none)
    → length (select (is_live_for s) rows) ≤ 1
    → length (select (is_live_for s) (rows ++ a ∷ [])) ≤ 1
live-append s rows a free h = elim (Bool-cases (is_live_for s a)) [
  | inr e ↦ rw (select-append (is_live_for s) rows (a ∷ []), e, append-nil) h
  | inl e ↦
      let owner : a.workflow_seq ≡ some s =
        ground (arith, nat_eq_iff (or_else a.workflow_seq 0) s) in
      rw
        (
          select-append (is_live_for s) rows (a ∷ []),
          find-none-select (is_live_for s) rows (free owner),
          e,
        )
        (omega arith)
]

-- A write to one attempt that keeps what identifies it, and revives no failed one.
pub record Gentle (i : ℕ) (f : Action → Action) (rows : List Action) : Type 0 where
  pub same_id : (a : Action) → (f a).id ≡ a.id
  pub same_delivery : (a : Action) → (f a).delivery_id ≡ a.delivery_id
  pub same_seq : (a : Action) → (f a).seq ≡ a.seq
  pub same_step : (a : Action) → (f a).workflow_seq ≡ a.workflow_seq
  pub no_revival :
      All (λ a. a.id ≡ i → is_failed (f a).phase ≡ false → is_failed a.phase ≡ false) rows

abbrev pub with_id : ℕ → Action → Bool
with_id i a = a.id == i

DistinctIds-update_below :
    (i : ℕ) (f : Action → Action) (b : ℕ) (rows : List Action)
    → ((a : Action) → (f a).id ≡ a.id)
    → All (λ c. b < c.id) rows
    → All (λ c. b < c.id) (update (with_id i) f rows)
DistinctIds-update_below i f b [] same h = tt
DistinctIds-update_below i f b (a ∷ rows) same h =
    (ground (arith, same a), DistinctIds-update_below i f b rows same h.1)

DistinctIds-update :
    (i : ℕ) (f : Action → Action) (rows : List Action)
    → ((a : Action) → (f a).id ≡ a.id)
    → DistinctIds rows
    → DistinctIds (update (with_id i) f rows)
DistinctIds-update i f [] same h = tt
DistinctIds-update i f (a ∷ rows) same h =
    let below = DistinctIds-update_below i f a.id rows same h.0 in
    elim (Bool-cases (with_id i a)) [
      | inl e ↦ rw (e, same a) (below, DistinctIds-update i f rows same h.1)
      | inr e ↦ rw e (below, DistinctIds-update i f rows same h.1)
    ]

pub select-update :
    (i j : ℕ) (f : Action → Action) (rows : List Action)
    → ((a : Action) → (f a).delivery_id ≡ a.delivery_id)
    → select (λ a. a.delivery_id == j) (update (with_id i) f rows)
      ≡ update (with_id i) f (select (λ a. a.delivery_id == j) rows)
select-update i j f [] same = refl
select-update i j f (a ∷ rows) same = ground (arith, same a, select-update i j f rows same)

Ascending-update :
    (i : ℕ) (f : Action → Action) (rows : List Action)
    → ((a : Action) → (f a).seq ≡ a.seq)
    → Ascending rows
    → Ascending (update (with_id i) f rows)
Ascending-update i f [] same h = tt
Ascending-update i f (a ∷ []) same h = tt
Ascending-update i f (a ∷ b ∷ rows) same h =
    (ground (arith, same a, same b), Ascending-update i f (b ∷ rows) same h.1)

live-update :
    (i s : ℕ) (f : Action → Action) (rows : List Action)
    → ((a : Action) → (f a).workflow_seq ≡ a.workflow_seq)
    → All (λ a. a.id ≡ i → is_failed (f a).phase ≡ false → is_failed a.phase ≡ false) rows
    → length (select (is_live_for s) (update (with_id i) f rows))
      ≤ length (select (is_live_for s) rows)
live-update i s f [] same h = omega arith
live-update i s f (a ∷ rows) same h =
    ground (arith, same a, h.0, nat_eq_iff a.id i, live-update i s f rows same h.1)

pub All-intro : (P : Action → Type 0) (rows : List Action) → ((a : Action) → P a) → All P rows
All-intro P [] h = tt
All-intro P (a ∷ rows) h = (h a, All-intro P rows h)

pub All-select :
    (P : Action → Type 0) (p : Action → Bool) (rows : List Action)
    → All P rows
    → All P (select p rows)
All-select P p [] h = tt
All-select P p (a ∷ rows) h = elim (Bool-cases (p a)) [
  | inl e ↦ rw e (h.0, All-select P p rows h.1)
  | inr e ↦ rw e (All-select P p rows h.1)
]

module _ (db db' : Db) (i : ℕ) (f : Action → Action) where
  pub write-IsJournal :
      db'.actions ≡ update (with_id i) f db.actions
      → Gentle i f db.actions
      → IsJournal db
      → IsJournal db'
  unfolding actions_of
  write-IsJournal e g h =
      let rows = λ (j : ℕ).
        ap (select (λ a. a.delivery_id == j)) e ∙ select-update i j f db.actions g.same_delivery in
      record {
        distinct = rw e (DistinctIds-update i f db.actions g.same_id h.distinct);
        ascending =
            λ j. rw (rows j) (Ascending-update i f (actions_of db j) g.same_seq (h.ascending j));
        single = λ j s.
            let kept = All-select _ (λ a. a.delivery_id == j) db.actions g.no_revival in
            rw (rows j)
              (omega (arith, live-update i s f (actions_of db j) g.same_step kept, h.single j s));
      }
