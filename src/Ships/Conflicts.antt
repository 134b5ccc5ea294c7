-- ===== src/Ships/Conflicts.antt =====
-- Versions of registry/ships.py as optimistic locks: what was read before a write is stale after.
use ompire.Base.{
  List, String, [], ap, arith, err, false, find, guard-then-eq-ok, inl, inr, max_of, nat_eq_iff,
  none, ok, or_fail-bind-eq-ok, refl, select, some, subst, ℕ, ◌+◌, ◌<◌, ◌==◌, ◌∷◌, ◌≡◌, ◌≤◌,
  string_eq, ℕ_eq,
}
use ompire.Ships.Rows.{
  Delivery, DeliveryRecord, Kind, Mode, authorized, parse_kind, parse_mode, Kind_eq,
}
use ompire.Ships.Tables.{
  Db, decisions_of, find_delivery, has_id, of_task, task_version, version_changed,
}
use ompire.Ships.Authority.{
  Confirmation, Extension, confirmed, extend_delivery, extend_row, extended, reauthorize_delivery,
  replayed_extension, resume_delivery, settled_action,
}
use ompire.Ships.Versions.{version_of}
use ompire.Ships.Writes.{Wrote, bump_decide-Wrote}
use ompire.Ships.Retries.{reauthorize_delivery-Wrote}
use ompire.Ships.Endings.{extend_delivery-Extended}

version-le-max :
    (i : ℕ) (row : Delivery) (ds : List Delivery)
    → find (has_id i) ds ≡ some row
    → row.version ≤ max_of version_of (select (of_task row.task_id) ds)
version-le-max i row [] h = cc
version-le-max i row (d ∷ ds) h = ground (arith, version-le-max i row ds)

version-le-task_version :
    (db : Db) (i : ℕ) (row : Delivery)
    → find_delivery db i ≡ some row
    → row.version ≤ task_version db row.task_id
unfolding find_delivery task_version
version-le-task_version db i row h = version-le-max i row db.deliveries h

module _ {db : Db} {i : ℕ} {f : Delivery → Delivery} {now : String} {r : DeliveryRecord} {db' : Db}
    (w : Wrote db i f now r db') where
  -- A write leaves its row with a version that is greater than the one it read.
  pub version_grows : w.row.version < r.version
  version_grows =
      let e : r.version ≡ task_version db w.row.task_id + 1 =
        ap (λ (d : Delivery). d.version) w.written in
      omega (arith, version-le-task_version db i w.row w.found, e)

  stale : (r.version == w.row.version) ≡ false
  stale = let h = version_grows in ground arith

-- A request on a delivery at a version, which succeeded: to resume it, to replace its authorization,
-- or to extend it under a new request key.
pub data Succeeded (db : Db) (i version : ℕ) (r : DeliveryRecord) (db' : Db) : Type 0 where
  by_resuming :
      (key fingerprint now : String)
      → resume_delivery db i version key fingerprint now ≡ ok (r, db')
      → Succeeded db i version r db'
  by_replacing :
      (c : Confirmation) (now : String)
      → reauthorize_delivery db i version c now ≡ ok (r, db')
      → Succeeded db i version r db'
  by_extending :
      (x : Extension) (now : String)
      → replayed_extension x.request_key (decisions_of db i) ≡ none
      → extend_delivery db i version x now ≡ ok (r, db')
      → Succeeded db i version r db'

-- The write of some request at the version.
abbrev WroteAt : Db → ℕ → ℕ → DeliveryRecord → Db → Type 0
WroteAt db i version r db' =
    (f : Delivery → Delivery) × (now : String) × (w : Wrote db i f now r db') × (w.row.version
      ≡ version)

module _ {db : Db} {i version : ℕ} {r : DeliveryRecord} {db' : Db} where
  resume_delivery-WroteAt :
      (key fingerprint now : String)
      → resume_delivery db i version key fingerprint now ≡ ok (r, db')
      → WroteAt db i version r db'
  unfolding resume_delivery
  resume_delivery-WroteAt key fingerprint now h =
      let (row, found, h₁) = or_fail-bind-eq-ok (find_delivery db i) _ _ h in
      let (current, h₂) = guard-then-eq-ok (row.version == version) _ _ h₁ in
      let f = λ (d : Delivery). record d { disposition = authorized; blocked_reason = none } in
      let w =
        bump_decide-Wrote db i now f (record { same_task = λ d. refl; same_id = λ d. refl }) _ _ _ _
          h₂ in
      let same : w.row ≡ row = ground (arith, w.found) in
      (f, now, w, rw same ((nat_eq_iff row.version version).0 current))

  Succeeded-WroteAt : Succeeded db i version r db' → WroteAt db i version r db'
  Succeeded-WroteAt (by_resuming key fingerprint now h) =
      resume_delivery-WroteAt key fingerprint now h
  Succeeded-WroteAt (by_replacing c now h) =
      let (mode, ending, w, _, _, e, _, _, _) = reauthorize_delivery-Wrote db i version c now h in
      (confirmed c mode ending now, now, w, e)
  Succeeded-WroteAt (by_extending x now fresh h) =
      elim (extend_delivery-Extended db i version x now h) [
        | inl g ↦ (extended x g.ending, now, g.wrote, g.current)
        | inr a ↦ cc (fresh, a.recorded)
      ]

  -- Once a request at some version of a delivery has succeeded, to resume it, to replace its
  -- authorization or to extend it under a new request key, each such request that still carries
  -- that version is refused for that reason: to resume the delivery; to extend it to a known
  -- ending under a request key that is new then, while it has an ending; and to replace its
  -- authorization, with a known mode and ending, while none of its attempts is settled.
  pub stale_refused :
      Succeeded db i version r db'
      → (now' : String)
      → ((key fingerprint : String)
          → resume_delivery db' i version key fingerprint now' ≡ err (version_changed r.version))
        × ((x : Extension) (old ending : Kind)
            → parse_kind x.ending ≡ some ending
            → r.ending ≡ some old
            → replayed_extension x.request_key (decisions_of db' i) ≡ none
            → extend_delivery db' i version x now' ≡ err (version_changed r.version))
        × ((c : Confirmation) (mode : Mode) (ending : Kind)
            → parse_mode c.mode ≡ some mode
            → parse_kind c.ending ≡ some ending
            → settled_action db' i ≡ none
            → reauthorize_delivery db' i version c now' ≡ err (version_changed r.version))
  unfolding resume_delivery extend_delivery extend_row reauthorize_delivery
  stale_refused done now' =
      let (f, now, w, at) = Succeeded-WroteAt done in
      let old_version : (r.version == version) ≡ false =
        subst (λ v. (r.version == v) ≡ false) at (stale w) in
      (
        λ key fingerprint. rw (w.stored, old_version),
        λ x old ending pk had fresh. rw (pk, w.stored, had) (ground (arith, old_version)),
        λ c mode ending pm pk unsettled. rw (pm, pk, w.stored, unsettled, old_version),
      )
