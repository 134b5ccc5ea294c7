-- ===== src/Ships/Endings.antt =====
-- registry/ships.py: further endings, and what is left to do of an authorized ending.
use ompire.Base.{
  List, Option, Option-cases, String, [], arith, inl, inr, is, ltb, nat_eq_iff, none, ok,
  or_fail-bind-eq-ok, refl, some, sym, true, ℕ, ◌++◌, ◌+◌, ◌==◌, ◌∷◌, ◌≡◌, ◌⊎◌, string_eq, ℕ_eq,
}
use ompire.Ships.Rows.{
  Decision, Delivery, DeliveryRecord, Kind, authorized, authorized_actions, commit, ending_actions,
  parse_kind, pr, push, Kind_eq,
}
use ompire.Ships.Tables.{Db, decisions_of, find_delivery, task_version, with_children}
use ompire.Ships.Authority.{
  Extension, append_authority, detail_text, extend_delivery, extend_row, extended, keep_or_set,
  rank, replayed_extension,
}
use ompire.Ships.Versions.{KeepsOwner}
use ompire.Ships.Writes.{Wrote, bump_decide-Wrote}

-- A further ending does all that the nearer one does, and then more.
further :
    (old ending : Kind)
    → ltb (rank old) (rank ending) ≡ true
    → (k : Kind) × (rest : List Kind) × (ending_actions ending ≡ ending_actions old ++ k ∷ rest)
further commit push h = (push, [], refl)
further commit pr h = (push, pr ∷ [], refl)
further push pr h = (pr, [], refl)
further commit commit h = cc
further push commit h = cc
further push push h = cc
further pr commit h = cc
further pr push h = cc
further pr pr h = cc

-- The text given, or else the recorded one.
abbrev pub given_or : Option String → Option String → Option String
given_or none old = old
given_or (some s) old = some s

given_or-keep : (o old : Option String) → keep_or_set o old ≡ given_or o old
given_or-keep none old = refl
given_or-keep (some s) old = refl

-- An extension that is no replay: the row is rewritten in the fields listed, and keeps every other.
pub record Extended (db : Db) (i expected : ℕ) (x : Extension) (now : String) (r : DeliveryRecord)
    (db' : Db) : Type 0 where
  pub ending : Kind
  pub old : Kind
  pub ending_parsed : parse_kind x.ending ≡ some ending
  pub wrote : Wrote db i (extended x ending) now r db'
  pub row_written : r.row ≡ record wrote.row {
    ending = some ending;
    disposition = authorized;
    blocked_reason = none;
    identity = some x.identity;
    pr_title = given_or x.pr_title wrote.row.pr_title;
    pr_body = given_or x.pr_body wrote.row.pr_body;
    version = task_version db wrote.row.task_id + 1;
    updated_at = now;
  }
  pub had_ending : wrote.row.ending ≡ some old
  pub current : wrote.row.version ≡ expected
  pub is_new : replayed_extension x.request_key (decisions_of db i) ≡ none
  pub next_action : Kind
  pub further_actions : List Kind
  pub appended : authorized_actions r ≡ ending_actions old ++ next_action ∷ further_actions

-- The request repeats a recorded extension, with the same inputs; nothing is written.
pub record AlreadyExtended (db : Db) (i : ℕ) (x : Extension) (r : DeliveryRecord) (db' : Db)
    : Type 0 where
  pub unchanged : db' ≡ db
  pub stored : find_delivery db i ≡ some r.row
  pub decision : Decision
  pub recorded : replayed_extension x.request_key (decisions_of db i) ≡ some decision
  pub same_inputs : is (detail_text "input_fingerprint" decision.detail) x.input_fingerprint ≡ true

extended-KeepsOwner : (x : Extension) (ending : Kind) → KeepsOwner (extended x ending)
extended-KeepsOwner x ending = record { same_task = λ d. refl; same_id = λ d. refl }

module _ (db : Db) (i expected : ℕ) (x : Extension) (now : String) {r : DeliveryRecord}
    {db' : Db} where
  append_authority-Wrote :
      (ending : Kind)
      → append_authority db i x ending now ≡ ok (r, db')
      → Wrote db i (extended x ending) now r db'
  unfolding append_authority
  append_authority-Wrote ending h =
      bump_decide-Wrote db i now (extended x ending) (extended-KeepsOwner x ending) _ _ _ _ h

  extend_fresh :
      (row : Delivery) (old ending : Kind)
      → parse_kind x.ending ≡ some ending
      → find_delivery db i ≡ some row
      → row.ending ≡ some old
      → replayed_extension x.request_key (decisions_of db i) ≡ none
      → (row.version == expected) ≡ true
      → ltb (rank old) (rank ending) ≡ true
      → append_authority db i x ending now ≡ ok (r, db')
      → Extended db i expected x now r db'
  unfolding authorized_actions
  extend_fresh row old ending pk found had new current more h =
      let w = append_authority-Wrote ending h in
      let same : w.row ≡ row = ground (arith, w.found) in
      let (k, rest, e) = further old ending more in
      record {
        ending = ending;
        old = old;
        ending_parsed = pk;
        wrote = w;
        row_written =
            rw
              (
                sym (given_or-keep x.pr_title w.row.pr_title),
                sym (given_or-keep x.pr_body w.row.pr_body),
              )
              w.written;
        had_ending = rw same had;
        current = rw same ((nat_eq_iff row.version expected).0 current);
        is_new = new;
        next_action = k;
        further_actions = rest;
        appended = rw w.written e;
      }

  extend_row-Extended :
      (row : Delivery) (old ending : Kind)
      → parse_kind x.ending ≡ some ending
      → find_delivery db i ≡ some row
      → row.ending ≡ some old
      → extend_row db i row expected x old ending now ≡ ok (r, db')
      → Extended db i expected x now r db' ⊎ AlreadyExtended db i x r db'
  unfolding extend_row with_children
  extend_row-Extended row old ending pk found had h =
      elim (Option-cases (replayed_extension x.request_key (decisions_of db i))) [
        | inl e ↦
            let checks : ((row.version == expected) ≡ true)
                × (ltb (rank old) (rank ending) ≡ true)
                × (append_authority db i x ending now ≡ ok (r, db')) =
              ground arith in
            inl (extend_fresh row old ending pk found had e checks.0 checks.1 checks.2)
        | inr (d, e) ↦
            let read : (db' ≡ db)
                × (r.row ≡ row)
                × (is (detail_text "input_fingerprint" d.detail) x.input_fingerprint ≡ true) =
              ground arith in
            inr (record {
              unchanged = read.0;
              stored = rw read.1 found;
              decision = d;
              recorded = e;
              same_inputs = read.2;
            })
      ]

  pub extend_delivery-Extended :
      extend_delivery db i expected x now ≡ ok (r, db')
      → Extended db i expected x now r db' ⊎ AlreadyExtended db i x r db'
  unfolding extend_delivery
  extend_delivery-Extended h =
      let (ending, pk, h₁) = or_fail-bind-eq-ok (parse_kind x.ending) _ _ h in
      let (row, found, h₂) = or_fail-bind-eq-ok (find_delivery db i) _ _ h₁ in
      let (old, had, h₃) = or_fail-bind-eq-ok row.ending _ _ h₂ in
      extend_row-Extended row old ending pk found had h₃
