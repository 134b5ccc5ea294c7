-- ===== src/Ships/Retries.antt =====
-- registry/ships.py: replacing an authorization that stopped before anything succeeded.
use ompire.Base.{
  All, List, String, [], ap, arith, find, guard, guard-then-eq-ok, nat_eq_iff, none, ok,
  or_fail-bind-eq-ok, refl, some, ℕ, ◌==◌, ◌>>◌, ◌∷◌, ◌≡◌, ◌⊎◌, string_eq, ℕ_eq,
}
use ompire.Ships.Rows.{
  Action, Delivery, DeliveryRecord, Kind, Mode, failed, parse_kind, parse_mode, prepared, Kind_eq,
}
use ompire.Ships.Tables.{Db, actions_of, find_delivery, version_changed}
use ompire.Ships.Authority.{
  Confirmation, confirmed, is_settled, reauthorize_delivery, regrant, settled_action,
}
use ompire.Ships.Versions.{KeepsOwner}
use ompire.Ships.Writes.{Wrote, bump_decide-Wrote}

-- No attempt of the list has succeeded, runs, or has an unknown outcome.
abbrev pub AllUnsettled : List Action → Type 0
AllUnsettled rows = All (λ a. (a.phase ≡ prepared) ⊎ (a.phase ≡ failed)) rows

unsettled : (rows : List Action) → find (λ a. is_settled a.phase) rows ≡ none → AllUnsettled rows
unsettled [] h = tt
unsettled (a ∷ rows) h = (ground arith, unsettled rows (ground arith))

confirmed-KeepsOwner :
    (c : Confirmation) (mode : Mode) (ending : Kind) (now : String)
    → KeepsOwner (confirmed c mode ending now)
confirmed-KeepsOwner c mode ending now = record { same_task = λ d. refl; same_id = λ d. refl }

module _ (db : Db) (i expected : ℕ) (c : Confirmation) (now : String) {r : DeliveryRecord}
    {db' : Db} where
  regrant-Wrote :
      (mode : Mode) (ending : Kind)
      → regrant db i c mode ending now ≡ ok (r, db')
      → Wrote db i (confirmed c mode ending now) now r db'
  unfolding regrant
  regrant-Wrote mode ending h =
      bump_decide-Wrote db i now _ (confirmed-KeepsOwner c mode ending now) _ _ _ _ h

  kept_links :
      (mode : Mode) (ending : Kind) (w : Wrote db i (confirmed c mode ending now) now r db')
      → (r.workflow_gate_seq ≡ w.row.workflow_gate_seq)
        × (r.workflow_choice_id ≡ w.row.workflow_choice_id)
  kept_links mode ending w = (
    ap (λ (d : Delivery). d.workflow_gate_seq) w.written,
    ap (λ (d : Delivery). d.workflow_choice_id) w.written,
  )

  -- An authorization is replaced only at the delivery's current version, and only while each of
  -- its attempts is prepared or failed; then the row is rewritten with the new confirmation under
  -- the task's next version, its workflow links stay, and no attempt is touched.
  pub reauthorize_delivery-Wrote :
      reauthorize_delivery db i expected c now ≡ ok (r, db')
      → (mode : Mode) × (ending : Kind) × (w : Wrote db i (confirmed c mode ending now) now r db')
        × (parse_mode c.mode ≡ some mode)
        × (parse_kind c.ending ≡ some ending)
        × (w.row.version ≡ expected)
        × AllUnsettled (actions_of db i)
        × (r.workflow_gate_seq ≡ w.row.workflow_gate_seq)
        × (r.workflow_choice_id ≡ w.row.workflow_choice_id)
  unfolding reauthorize_delivery settled_action
  reauthorize_delivery-Wrote h =
      let (mode, pm, h₁) = or_fail-bind-eq-ok (parse_mode c.mode) _ _ h in
      let (ending, pk, h₂) = or_fail-bind-eq-ok (parse_kind c.ending) _ _ h₁ in
      let (row, found, h₃) = or_fail-bind-eq-ok (find_delivery db i) _ _ h₂ in
      let free : find (λ a. is_settled a.phase) (actions_of db i) ≡ none = ground arith in
      let rest : (guard (row.version == expected) (version_changed row.version)
            >> regrant db i c mode ending now)
          ≡ ok (r, db') =
        ground arith in
      let (current, h₄) = guard-then-eq-ok (row.version == expected) _ _ rest in
      let w = regrant-Wrote mode ending h₄ in
      let same : w.row ≡ row = ground (arith, w.found) in
      (
        mode,
        ending,
        w,
        pm,
        pk,
        rw same ((nat_eq_iff row.version expected).0 current),
        unsettled (actions_of db i) free,
        (kept_links mode ending w).0,
        (kept_links mode ending w).1,
      )
