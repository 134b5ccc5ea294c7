-- ===== src/Isolation/Brackets.antt =====
-- The `with` blocks of isolation/guard.py: what their two ends leave together.
use ompire.Base.{
  Bool, Bool-cases, Option, String, ap, eq_iff, inl, inr, nat_eq, nat_eq_iff, none, ok, refl, some,
  sym, true, ℕ, ◌∙◌, ◌≡◌, string_eq, ℕ_eq,
}
use ompire.Isolation.Guard.{
  HoldContext, Guard, Owner, Token, acquire, assert_available, enter_cleanup, enter_hold, exit_hold,
  held_by_current_context, host, nested, pop, put, refuse_owner, release, set_owners,
}
use ompire.Isolation.Admission.{
  enter_cleanup-leaves, enter_hold-again, enter_hold-inside, enter_hold-puts,
}

-- The guard is as it was, for each task.
abbrev pub SameGuard : Guard → Guard → Type 0
SameGuard g g' = (u : ℕ) → (g.owners u ≡ g'.owners u) × (g.blocked u ≡ g'.blocked u)

pop-put :
    (g : Guard) (t : ℕ) (o : Owner)
    → (u : ℕ) → (release (set_owners g (put t o g.owners)) t o.name).owners u ≡ pop t g.owners u
unfolding release
pop-put g t o u = elim (Bool-cases (nat_eq t u)) [
  | inl e ↦ rw ((nat_eq_iff t t).1 refl, (eq_iff o.name o.name).1 refl, e) refl
  | inr e ↦ rw ((nat_eq_iff t t).1 refl, (eq_iff o.name o.name).1 refl, e) refl
]

release-blocked :
    (g : Guard) (t : ℕ) (name : String) (u : ℕ) → (release g t name).blocked u ≡ g.blocked u
unfolding release
release-blocked g t name u = refl

pop-free : (m : ℕ → Option Owner) (t u : ℕ) → m t ≡ none → pop t m u ≡ m u
pop-free m t u free = elim (Bool-cases (nat_eq t u)) [
  | inl e ↦ rw e (sym free ∙ ap m ((nat_eq_iff t u).0 e))
  | inr e ↦ rw e refl
]

-- A hold that was entered and is left again, also inside another hold of the same task, gives back the
-- context that the writer came with, and leaves the guard as it found it.
pub exit_hold-enter_hold :
    (g g' : Guard) (here inside : HoldContext) (t : ℕ) (o : Owner) (allow : Bool) (token : Token)
    → enter_hold g here t o allow ≡ ok (g', inside, token)
    → ((exit_hold g' inside t o.name token).1 ≡ here)
      × SameGuard (exit_hold g' inside t o.name token).0 g
unfolding exit_hold
exit_hold-enter_hold g g' here inside t o allow token h =
    elim (Bool-cases (held_by_current_context here t)) [
      | inl mine ↦
          let (a, b, c) = enter_hold-inside g g' here inside t o allow token mine h in
          rw (c, a, b) (refl, λ u. (refl, refl))
      | inr out ↦
          let (free, a, b, c) = enter_hold-puts g g' here inside t o allow token out h in
          rw (c, a)
            (
              refl,
              λ u. (
                pop-put g t o u ∙ pop-free g.owners t u free,
                release-blocked (set_owners g (put t o g.owners)) t o.name u,
              ),
            )
    ]

-- Cleanup that was entered, over the hold of an agent or over none, and ends in whichever way, gives
-- back the context it came with and leaves the workspace without an owner; the other tasks keep theirs,
-- and no block is lifted.
pub exit_hold-enter_cleanup :
    (g g' : Guard) (here inside : HoldContext) (t : ℕ) (name : String) (token : Token)
    → enter_cleanup g here t name ≡ ok (g', inside, token)
    → ((exit_hold g' inside t name token).1 ≡ here)
      × ((u : ℕ) → (exit_hold g' inside t name token).0.owners u ≡ pop t g.owners u)
      × ((exit_hold g' inside t name token).0.blocked ≡ g.blocked)
unfolding exit_hold release
exit_hold-enter_cleanup g g' here inside t name token h =
    let (a, b, c) = enter_cleanup-leaves g g' here inside t name token h in
    rw (c, a) (refl, pop-put g t (record { name = name; kind = host }), refl)

refuse_owner-mine : (t : ℕ) (o : Option Owner) → refuse_owner t true o ≡ ok tt
refuse_owner-mine t none = refl
refuse_owner-mine t (some o) = refl

-- An agent's hold that cleanup has displaced: from the context of that agent every further hold is
-- admitted as an inner one, though cleanup owns the workspace, and an acquisition that goes past blocks
-- takes the workspace from cleanup.
pub enter_hold-enter_cleanup :
    (g g' : Guard) (inside inner : HoldContext) (t : ℕ) (a o : Owner) (name : String) (allow : Bool)
    (token token' : Token)
    → enter_hold g none t a allow ≡ ok (g', inside, token)
    → (cleaned : Guard) → enter_cleanup g' none t name ≡ ok (cleaned, inner, token')
    → (cleaned.owners t ≡ some (record { name = name; kind = host }))
      × ((again : Bool) → enter_hold cleaned inside t o again ≡ ok (cleaned, inside, nested))
      × (acquire cleaned inside t o true ≡ ok (set_owners cleaned (put t o cleaned.owners)))
unfolding acquire assert_available
enter_hold-enter_cleanup g g' inside inner t a o name allow token token' h cleaned h' =
    let (_, _, b, _) = enter_hold-puts g g' none inside t a allow token refl h in
    let (c, _, _) = enter_cleanup-leaves g' cleaned none inner t name token' h' in
    let mine : held_by_current_context inside t ≡ true = rw b ((nat_eq_iff t t).1 refl) in
    (
      ap (λ x. x.owners t) c ∙ rw ((nat_eq_iff t t).1 refl) refl,
      λ again. enter_hold-again cleaned inside t o again mine,
      rw (mine, refuse_owner-mine t (cleaned.owners t)) refl,
    )
