-- ===== src/Ships/Purged.antt =====
-- What a purge of a task's delivery history leaves, registry/ships.py.
use ompire.Base.{
  Bool, List, String, [], any, arith, contains, eq_iff, false, is, map, nat_eq_iff, not, or_else,
  refl, select, true, ℕ, ◌&&◌, ◌==◌, ◌∷◌, ◌≡◌, ◌≢◌, string_eq, ℕ_eq,
}
use ompire.Ships.Rows.{Kind_eq}
use ompire.Ships.Tables.{Candidate, Db, actions_of, decisions_of, of_task}
use ompire.Ships.Purge.{delete_task_deliveries_on, storage_paths}

-- The ids of the deliveries that the task has.
abbrev pub task_ids : Db → ℕ → List ℕ
task_ids db t = map (λ d. d.id) (select (of_task t) db.deliveries)

module _ {ℓ} {A : Type ℓ} where
  select-not : (p : A → Bool) (xs : List A) → select p (select (λ x. not (p x)) xs) ≡ []
  select-not p [] = refl
  select-not p (x ∷ xs) = ground (arith, select-not p xs)

  select-select_keep :
      (p q : A → Bool) (xs : List A)
      → ((x : A) → p x ≡ true → q x ≡ true)
      → select p (select q xs) ≡ select p xs
  select-select_keep p q [] h = refl
  select-select_keep p q (x ∷ xs) h = ground (arith, h x, select-select_keep p q xs h)

  select-select_none :
      (p q : A → Bool) (xs : List A)
      → ((x : A) → p x ≡ true → q x ≡ false)
      → select p (select q xs) ≡ []
  select-select_none p q [] h = refl
  select-select_none p q (x ∷ xs) h = ground (arith, h x, select-select_none p q xs h)

-- A nonempty storage path that some candidate names.
abbrev pub names_path : String → Candidate → Bool
names_path p c = is c.storage_path p && not (p == "")

contains-storage_paths :
    (p : String) (cs : List Candidate) → contains (storage_paths cs) p ≡ any (names_path p) cs
unfolding storage_paths
contains-storage_paths p [] = refl
contains-storage_paths p (c ∷ cs) = ground (
  arith,
  contains-storage_paths p cs,
  eq_iff (or_else c.storage_path "") "",
  eq_iff (or_else c.storage_path "") p,
  eq_iff p "",
)

module _ (db : Db) (t : ℕ) where
  abbrev paths : List String
  paths = (delete_task_deliveries_on db t).0

  abbrev after : Db
  after = (delete_task_deliveries_on db t).1

  -- A purge leaves no delivery and no candidate of the task, and no attempt or decision of its
  -- deliveries; the deliveries and candidates of every other task and the attempts and decisions
  -- of every other delivery stay, in their order; and the paths returned are the nonempty storage
  -- paths of the task's candidates.
  pub purge_lem :
      (select (of_task t) after.deliveries ≡ [])
      × (select (λ c. c.task_id == t) after.candidates ≡ [])
      × ((u : ℕ) → u ≢ t → select (of_task u) after.deliveries ≡ select (of_task u) db.deliveries)
      × ((u : ℕ)
          → u ≢ t
          → select (λ c. c.task_id == u) after.candidates
            ≡ select (λ c. c.task_id == u) db.candidates)
      × ((i : ℕ)
          → contains (task_ids db t) i ≡ true
          → (actions_of after i ≡ []) × (decisions_of after i ≡ []))
      × ((i : ℕ)
          → contains (task_ids db t) i ≡ false
          → (actions_of after i ≡ actions_of db i) × (decisions_of after i ≡ decisions_of db i))
      × ((p : String)
          → contains paths p ≡ any (names_path p) (select (λ c. c.task_id == t) db.candidates))
  unfolding delete_task_deliveries_on actions_of decisions_of
  purge_lem = (
    select-not (of_task t) db.deliveries,
    select-not (λ c. c.task_id == t) db.candidates,
    λ u ne. select-select_keep (of_task u) _ db.deliveries (λ d e. other u d.task_id ne e),
    λ u ne.
        select-select_keep (λ c. c.task_id == u) _ db.candidates (λ c e. other u c.task_id ne e),
    λ i own. (
      select-select_none (λ a. a.delivery_id == i) _ db.actions (λ a e. gone i a.delivery_id own e),
      select-select_none (λ a. a.delivery_id == i) _ db.decisions
          (λ a e. gone i a.delivery_id own e),
    ),
    λ i free. (
      select-select_keep (λ a. a.delivery_id == i) _ db.actions
          (λ a e. kept i a.delivery_id free e),
      select-select_keep (λ a. a.delivery_id == i) _ db.decisions
          (λ a e. kept i a.delivery_id free e),
    ),
    λ p. contains-storage_paths p (select (λ c. c.task_id == t) db.candidates),
  )
    where
      other : (u v : ℕ) → u ≢ t → (v == u) ≡ true → not (v == t) ≡ true
      other u v ne e = ground (arith, nat_eq_iff v u, nat_eq_iff v t)

      gone :
          (i j : ℕ)
          → contains (task_ids db t) i ≡ true
          → (j == i) ≡ true
          → not (contains (task_ids db t) j) ≡ false
      gone i j own e = rw ((nat_eq_iff j i).0 e, own)

      kept :
          (i j : ℕ)
          → contains (task_ids db t) i ≡ false
          → (j == i) ≡ true
          → not (contains (task_ids db t) j) ≡ true
      kept i j free e = rw ((nat_eq_iff j i).0 e, free)
