-- ===== src/Isolation/Freed.antt =====
-- The guard of isolation/guard.py after the end of the writer that holds a workspace.
use ompire.Base.{
  Bool, Option-cases, String, ap, eq_iff, false, inl, inr, nat_eq_iff, none, refl, some, ℕ, ◌∙◌,
  ◌≡◌, string_eq, ℕ_eq,
}
use ompire.Isolation.Guard.{Guard, HoldContext, Owner, enter_hold, held_by_current_context, release}
use ompire.Isolation.Ledger.{close}
use ompire.Isolation.Steps.{Reach, System, later, leave, moved}
use ompire.Isolation.Promises.{counted, decided, enter_hold-decided}

release-frees :
    (g : Guard) (t : ℕ) (w : Owner) → g.owners t ≡ some w → (release g t w.name).owners t ≡ none
unfolding release
release-frees g t w e = rw (e, (eq_iff w.name w.name).1 refl, (nat_eq_iff t t).1 refl) refl

release-blocks : (g : Guard) (t : ℕ) (name : String) → (release g t name).blocked t ≡ g.blocked t
unfolding release
release-blocks g t name = refl

-- The state after the writer that the guard names has ended, or the state itself where it names none.
pub data Ended (s : System) (t : ℕ) : System → Type 0 where
  nobody : s.guard.owners t ≡ none → Ended s t s
  gone :
      (w : Owner)
      → s.guard.owners t ≡ some w
      → Ended s t (moved (release s.guard t w.name) (close t w.name s.claims))

-- From each state that the writers can reach, the release of the workspace by the writer that the guard
-- names, or no step where it names none, leads to a reachable state with the same unresolved effects on
-- the workspace, in which nobody owns it and a hold from outside is refused for such an effect only, and
-- admitted where there is none or it is allowed.
pub Reach-freed :
    {s : System} (here : HoldContext) (t : ℕ) (o : Owner) (allow : Bool)
    → Reach s
    → held_by_current_context here t ≡ false
    → (s' : System) × Reach s'
      × Ended s t s'
      × (s'.guard.owners t ≡ none)
      × (s'.guard.blocked t ≡ s.guard.blocked t)
      × (enter_hold s'.guard here t o allow
          ≡ decided s'.guard here t o (counted allow (s.guard.blocked t)) none)
Reach-freed {s} here t o allow r out = elim (Option-cases (s.guard.owners t)) [
  | inl free ↦ (
    s,
    r,
    nobody free,
    free,
    refl,
    enter_hold-decided s.guard here t o allow out
        ∙ ap (decided s.guard here t o (counted allow (s.guard.blocked t))) free,
  )
  | inr (w, held) ↦
      let g = release s.guard t w.name in
      (
        moved g (close t w.name s.claims),
        later r (leave t w.name),
        gone w held,
        release-frees s.guard t w held,
        release-blocks s.guard t w.name,
        enter_hold-decided g here t o allow out
            ∙ ap (λ b. decided g here t o (counted allow b) (g.owners t))
                (release-blocks s.guard t w.name)
            ∙ ap (decided g here t o (counted allow (s.guard.blocked t)))
                (release-frees s.guard t w held),
      )
]
