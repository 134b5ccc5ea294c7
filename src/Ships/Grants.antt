-- ===== src/Ships/Grants.antt =====
-- What an authorization of registry/ships.py needs and what it leaves behind.
use ompire.Base.{
  &&-eq-true, Bool, Option, Option-cases, String, ap, arith, eq_iff, err, false, inl, inr, is,
  is_some, none, not, ok, or_fail-bind-eq-ok, refl, some, subst, true, ℕ, ◌≡◌, ◌≢◌, ◌⊎◌, string_eq,
  ℕ_eq,
}
use ompire.Ships.Rows.{Delivery, DeliveryRecord, Kind, Mode, parse_kind, parse_mode, Kind_eq}
use ompire.Ships.Tables.{Db, already_authorized, find_delivery, with_children}
use ompire.Ships.Authority.{
  Confirmation, authorize_delivery_in, authorize_row, confirmed, grant, is_replay, key_taken,
  linked, version_matches,
}
use ompire.Ships.Versions.{KeepsOwner}
use ompire.Ships.Writes.{Wrote, bump_decide-Wrote, find_delivery-id}

abbrev pub granted : Confirmation → Mode → Kind → String → Delivery → Delivery
granted c mode ending now d = linked c (confirmed c mode ending now d)

granted-KeepsOwner :
    (c : Confirmation) (mode : Mode) (ending : Kind) (now : String)
    → KeepsOwner (granted c mode ending now)
granted-KeepsOwner c mode ending now = record { same_task = λ d. refl; same_id = λ d. refl }

-- An authorization that is no replay: what it has checked, and what it wrote.
pub record Granted (db : Db) (i : ℕ) (expected : Option ℕ) (c : Confirmation) (now : String)
    (r : DeliveryRecord) (db' : Db) : Type 0 where
  pub mode : Mode
  pub ending : Kind
  pub mode_parsed : parse_mode c.mode ≡ some mode
  pub ending_parsed : parse_kind c.ending ≡ some ending
  pub wrote : Wrote db i (granted c mode ending now) now r db'
  pub was_unauthorized : wrote.row.authorized_at ≡ none
  pub current : version_matches expected wrote.row.version ≡ true
  pub key_free : key_taken db wrote.row c.request_key ≡ false

-- An authorization that repeats an earlier one: nothing is written.
pub record Replayed (db : Db) (i : ℕ) (c : Confirmation) (r : DeliveryRecord) (db' : Db)
    : Type 0 where
  pub unchanged : db' ≡ db
  pub stored : find_delivery db i ≡ some r.row
  pub was_authorized : is_some r.row.authorized_at ≡ true
  pub same_request : is_replay r.row c ≡ true

abbrev pub Authorized : Db → ℕ → Option ℕ → Confirmation → String → DeliveryRecord → Db → Type 0
Authorized db i expected c now r db' = Granted db i expected c now r db' ⊎ Replayed db i c r db'

is-some : (o : Option String) (s : String) → is o s ≡ true → o ≡ some s
is-some none s h = cc
is-some (some t) s h = ap some ((eq_iff t s).0 h)

not-true : (b : Bool) → not b ≡ true → b ≡ false
not-true b h = ground arith

-- A row that repeats one request repeats no other.
no_replay :
    (row : Delivery) (c c' : Confirmation)
    → is_replay row c ≡ true
    → (c'.request_key ≢ c.request_key) ⊎ (c'.input_fingerprint ≢ c.input_fingerprint)
    → is_replay row c' ≡ false
unfolding is_replay
no_replay row c c' h other =
    let (key, inputs) =
      &&-eq-true (is row.request_key c.request_key) (is row.input_fingerprint c.input_fingerprint)
        h in
    let k = is-some row.request_key c.request_key key in
    let f = is-some row.input_fingerprint c.input_fingerprint inputs in
    rw (k, f)
      (elim other [
        | inl ne ↦ ground (arith, eq_iff c.request_key c'.request_key, ne)
        | inr ne ↦ ground (arith, eq_iff c.input_fingerprint c'.input_fingerprint, ne)
      ])

module _ (db : Db) (i : ℕ) (c : Confirmation) (now : String) {r : DeliveryRecord} {db' : Db} where
  grant-Wrote :
      (row : Delivery) (mode : Mode) (ending : Kind)
      → row.id ≡ i
      → grant db row c mode ending now ≡ ok (r, db')
      → Wrote db i (granted c mode ending now) now r db'
  unfolding grant
  grant-Wrote row mode ending e h =
      subst (λ j. Wrote db j (granted c mode ending now) now r db') e
        (bump_decide-Wrote db row.id now (granted c mode ending now)
          (granted-KeepsOwner c mode ending now) _ _ _ _ h)

  authorize_fresh :
      (expected : Option ℕ) (row : Delivery) (mode : Mode) (ending : Kind)
      → parse_mode c.mode ≡ some mode
      → parse_kind c.ending ≡ some ending
      → find_delivery db i ≡ some row
      → row.authorized_at ≡ none
      → version_matches expected row.version ≡ true
      → key_taken db row c.request_key ≡ false
      → grant db row c mode ending now ≡ ok (r, db')
      → Granted db i expected c now r db'
  authorize_fresh expected row mode ending pm pk found fresh current free h =
      let w = grant-Wrote row mode ending (find_delivery-id db i row found) h in
      let same : w.row ≡ row = ground (arith, w.found) in
      record {
        mode = mode;
        ending = ending;
        mode_parsed = pm;
        ending_parsed = pk;
        wrote = w;
        was_unauthorized = rw same fresh;
        current = rw same current;
        key_free = rw same free;
      }

  authorize_row-Authorized :
      (expected : Option ℕ) (row : Delivery) (mode : Mode) (ending : Kind)
      → parse_mode c.mode ≡ some mode
      → parse_kind c.ending ≡ some ending
      → find_delivery db i ≡ some row
      → authorize_row db row expected c mode ending now ≡ ok (r, db')
      → Authorized db i expected c now r db'
  unfolding authorize_row with_children
  authorize_row-Authorized expected row mode ending pm pk found h =
      elim (Option-cases row.authorized_at) [
        | inr (t, e) ↦
            let same : is_replay row c ≡ true = ground arith in
            let read : (db' ≡ db) × (r.row ≡ row) = ground arith in
            inr (record {
              unchanged = read.0;
              stored = rw read.1 found;
              was_authorized = rw (read.1, e);
              same_request = rw read.1 same;
            })
        | inl e ↦
            let checks : (version_matches expected row.version ≡ true)
                × (not (key_taken db row c.request_key) ≡ true)
                × (grant db row c mode ending now ≡ ok (r, db')) =
              ground arith in
            inl (
              authorize_fresh expected row mode ending pm pk found e checks.0 (not-true _ checks.1)
                checks.2)
      ]

  -- An authorization that succeeds either repeats the recorded one, and writes nothing; or the
  -- delivery had none, its version was the expected one, no other delivery of the task holds the
  -- request key, and exactly this row is rewritten, under the task's next version.
  pub authorize_delivery_in-Authorized :
      (expected : Option ℕ)
      → authorize_delivery_in db i expected c now ≡ ok (r, db')
      → Authorized db i expected c now r db'
  unfolding authorize_delivery_in
  authorize_delivery_in-Authorized expected h =
      let (mode, pm, h₁) = or_fail-bind-eq-ok (parse_mode c.mode) _ _ h in
      let (ending, pk, h₂) = or_fail-bind-eq-ok (parse_kind c.ending) _ _ h₁ in
      let (row, found, h₃) = or_fail-bind-eq-ok (find_delivery db i) _ _ h₂ in
      authorize_row-Authorized expected row mode ending pm pk found h₃

  stored_replay :
      (expected : Option ℕ)
      → Authorized db i expected c now r db'
      → (find_delivery db' i ≡ some r.row)
        × (is_some r.row.authorized_at ≡ true)
        × (is_replay r.row c ≡ true)
  unfolding is_replay
  stored_replay expected (inl g) =
      let e = g.wrote.written in
      (
        g.wrote.stored,
        rw e,
        rw e (
            ground (
              arith,
              eq_iff c.request_key c.request_key,
              eq_iff c.input_fingerprint c.input_fingerprint,
            )),
      )
  stored_replay expected (inr p) = (rw p.unchanged p.stored, p.was_authorized, p.same_request)

  -- Repeating a request that succeeded, with any expected version, returns the recorded
  -- authorization again and writes nothing.
  pub authorize_delivery_in-again :
      (expected later : Option ℕ) (now' : String)
      → authorize_delivery_in db i expected c now ≡ ok (r, db')
      → authorize_delivery_in db' i later c now' ≡ ok (with_children db' r.row, db')
  unfolding authorize_delivery_in authorize_row
  authorize_delivery_in-again expected later now' h =
      let (stored, auth, same) =
        stored_replay expected (authorize_delivery_in-Authorized expected h) in
      let (mode, pm, h₁) = or_fail-bind-eq-ok (parse_mode c.mode) _ _ h in
      let (ending, pk, h₂) = or_fail-bind-eq-ok (parse_kind c.ending) _ _ h₁ in
      rw (pm, pk, stored, auth, same)

  -- Once a request has authorized a delivery, a well-formed request under another request key, or
  -- under the same key with another input fingerprint, is refused, with any expected version: the
  -- recorded authorization is not replaced by this path.
  pub authorize_delivery_in-other :
      (expected later : Option ℕ) (c' : Confirmation) (now' : String) {mode : Mode} {ending : Kind}
      → authorize_delivery_in db i expected c now ≡ ok (r, db')
      → parse_mode c'.mode ≡ some mode
      → parse_kind c'.ending ≡ some ending
      → (c'.request_key ≢ c.request_key) ⊎ (c'.input_fingerprint ≢ c.input_fingerprint)
      → authorize_delivery_in db' i later c' now' ≡ err already_authorized
  unfolding authorize_delivery_in authorize_row
  authorize_delivery_in-other expected later c' now' h pm pk other =
      let (stored, auth, same) =
        stored_replay expected (authorize_delivery_in-Authorized expected h) in
      rw (pm, pk, stored, auth, no_replay r.row c c' same other)
