-- ===== src/Ships/Candidates.antt =====
-- registry/ships.py: the protected candidates, kept under the identity of their content.
use ompire.Base.{
  Bool, Bool-cases, List, Option, Option-cases, Result, String, [], arith, eq_iff, false, find,
  if◌then◌else◌, inl, inr, is, none, not, ok, or_fail, refl, some, sym, true, update, ◌++◌, ◌==◌,
  ◌>>=◌, ◌∷◌, ◌≡◌, ◌≢◌, ◌⊎◌, string_eq, ℕ_eq,
}
use ompire.Ships.Rows.{Kind_eq}
use ompire.Ships.Tables.{Candidate, Conflict, Db, assertion}

abbrev has_candidate_id : String → Candidate → Bool
has_candidate_id k c = c.candidate_id == k

unfoldable pub get_candidate : Db → String → Option Candidate
get_candidate db k = find (has_candidate_id k) db.candidates

abbrev moved_to : Option String → String → Candidate → Candidate
moved_to path head c = record c { storage_path = path; original_head = head }

-- `storage_path is not None and existing.storage_path != storage_path`
abbrev is_recapture : Option String → Option String → Bool
is_recapture none old = false
is_recapture (some p) old = not (is old p)

-- The insert, or the update, that the row found calls for.
abbrev capture_write : Db → Candidate → Option Candidate → Db
capture_write db c none = record db { candidates = db.candidates ++ c ∷ [] }
capture_write db c (some old) =
    if is_recapture c.storage_path old.storage_path
    then record db {
      candidates =
          update (has_candidate_id c.candidate_id) (moved_to c.storage_path c.original_head)
            db.candidates;
    }
    else db

-- `c` holds the arguments, `created_at` the time of the call.
unfoldable pub record_candidate : Db → Candidate → Result Conflict (Candidate × Db)
record_candidate db c = do
  let after = capture_write db c (get_candidate db c.candidate_id)
  found ← or_fail (get_candidate after c.candidate_id) assertion
  ok (found, after)

unfoldable pub clear_candidate_storage : Db → String → Db
clear_candidate_storage db k = record db {
  candidates = update (has_candidate_id k) (λ c. record c { storage_path = none }) db.candidates;
}

-- The two agree in all but where the objects live and the HEAD of the last capture.
pub record SameContent (a b : Candidate) : Type 0 where
  pub same_id : a.candidate_id ≡ b.candidate_id
  pub same_task : a.task_id ≡ b.task_id
  pub same_base : a.base_commit ≡ b.base_commit
  pub same_branch : a.base_branch ≡ b.base_branch
  pub same_tree : a.tree_id ≡ b.tree_id
  pub same_commits : a.source_commits ≡ b.source_commits
  pub same_dirty : a.dirty ≡ b.dirty
  pub same_time : a.created_at ≡ b.created_at

find-new :
    (k : String) (cs : List Candidate) (c : Candidate)
    → has_candidate_id k c ≡ true
    → find (has_candidate_id k) cs ≡ none
    → find (has_candidate_id k) (cs ++ c ∷ []) ≡ some c
find-new k [] c own h = rw own
find-new k (b ∷ cs) c own h = ground (arith, find-new k cs c)

find-moved :
    (k : String) (path : Option String) (head : String) (cs : List Candidate) (c : Candidate)
    → find (has_candidate_id k) cs ≡ some c
    → find (has_candidate_id k) (update (has_candidate_id k) (moved_to path head) cs)
      ≡ some (moved_to path head c)
find-moved k path head [] c h = cc
find-moved k path head (b ∷ cs) c h = ground (arith, find-moved k path head cs c)

-- The path given, if any, is the recorded one.
same_path :
    (old path : Option String) → is_recapture path old ≡ false → (path ≡ none) ⊎ (path ≡ old)
same_path old none h = inl refl
same_path none (some p) h = cc
same_path (some q) (some p) h = inr (ground (arith, eq_iff q p))

other_path :
    (old path : Option String)
    → is_recapture path old ≡ true
    → (p : String) × (path ≡ some p) × (old ≢ some p)
other_path old none h = cc
other_path none (some p) h = (p, refl, λ e. cc)
other_path (some q) (some p) h = (p, refl, λ e. ground (arith, eq_iff q p))

find-moved_other :
    (k j path_head : String) (path : Option String) (cs : List Candidate)
    → j ≢ k
    → find (has_candidate_id j) (update (has_candidate_id k) (moved_to path path_head) cs)
      ≡ find (has_candidate_id j) cs
find-moved_other k j head path [] ne = refl
find-moved_other k j head path (c ∷ cs) ne =
    ground (
      arith,
      find-moved_other k j head path cs ne,
      eq_iff c.candidate_id k,
      eq_iff c.candidate_id j,
    )

-- The objects have moved: the storage path is a new one, and it and the HEAD are the ones given.
pub record Moved (old c r : Candidate) : Type 0 where
  pub path : String
  pub given : c.storage_path ≡ some path
  pub path_new : old.storage_path ≢ some path
  pub path_taken : r.storage_path ≡ some path
  pub head_taken : r.original_head ≡ c.original_head
  pub content : SameContent r old

-- No path is given, or the recorded one: nothing is written.
pub record Kept (db : Db) (old c r : Candidate) (db' : Db) : Type 0 where
  pub no_new_path : (c.storage_path ≡ none) ⊎ (c.storage_path ≡ old.storage_path)
  pub unchanged : db' ≡ db
  pub same : r ≡ old

-- What recording a candidate leaves, for one that is new and for one that is known.
abbrev pub Recorded : Db → Candidate → Candidate → Db → Type 0
Recorded db c r db' =
    ((get_candidate db c.candidate_id ≡ none) × (r ≡ c))
    ⊎ ((old : Candidate) × (get_candidate db c.candidate_id ≡ some old)
        × (Moved old c r ⊎ Kept db old c r db'))

find-new_other :
    (j : String) (cs : List Candidate) (c : Candidate)
    → c.candidate_id ≢ j
    → find (has_candidate_id j) (cs ++ c ∷ []) ≡ find (has_candidate_id j) cs
find-new_other j [] c ne = ground (arith, eq_iff c.candidate_id j)
find-new_other j (b ∷ cs) c ne = ground (arith, find-new_other j cs c ne)

module _ (db : Db) (c : Candidate) where
  -- Recording a candidate always succeeds, and the record is then found under its identity; what
  -- is found under every other identity stays. One that is new is stored as given. Of one whose
  -- identity is known, and for which a storage path other than the recorded one is given, that
  -- path and the given original HEAD are taken and all else is kept; with no path, or the recorded
  -- one, nothing is written and the recorded candidate is returned.
  pub record_candidate_total :
      (r : Candidate) × (db' : Db) × (record_candidate db c ≡ ok (r, db'))
      × (get_candidate db' c.candidate_id ≡ some r)
      × ((k : String) → k ≢ c.candidate_id → get_candidate db' k ≡ get_candidate db k)
      × Recorded db c r db'
  unfolding record_candidate get_candidate
  record_candidate_total = elim (Option-cases (get_candidate db c.candidate_id)) [
    | inl e ↦
        let found =
          find-new c.candidate_id db.candidates c ((eq_iff c.candidate_id c.candidate_id).1 refl)
            e in
        (
          c,
          capture_write db c none,
          rw (e, found),
          found,
          λ k ne. find-new_other k db.candidates c (λ same. ne (sym same)),
          inl (e, refl),
        )
    | inr (old, e) ↦ elim (Bool-cases (is_recapture c.storage_path old.storage_path)) [
      | inl moved ↦
          let found =
            find-moved c.candidate_id c.storage_path c.original_head db.candidates old e in
          let (p, given, new) = other_path old.storage_path c.storage_path moved in
          (
            moved_to c.storage_path c.original_head old,
            capture_write db c (some old),
            rw (e, moved, found),
            rw (moved, found),
            λ k ne.
                rw moved (
                  find-moved_other c.candidate_id k c.original_head c.storage_path db.candidates
                    ne),
            inr (
              old,
              e,
              inl (record {
                path = p;
                given = given;
                path_new = new;
                path_taken = given;
                head_taken = refl;
                content = record {
                  same_id = refl;
                  same_task = refl;
                  same_base = refl;
                  same_branch = refl;
                  same_tree = refl;
                  same_commits = refl;
                  same_dirty = refl;
                  same_time = refl;
                };
              }),
            ),
          )
      | inr kept ↦ (
        old,
        db,
        rw (e, kept, e),
        e,
        λ k ne. refl,
        inr (
          old,
          e,
          inr (record {
            no_new_path = same_path old.storage_path c.storage_path kept;
            unchanged = refl;
            same = refl;
          }),
        ),
      )
    ]
  ]
