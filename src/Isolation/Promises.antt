-- ===== src/Isolation/Promises.antt =====
-- What the guard of isolation/guard.py promises its writers.
use ompire.Base.{
  &&-eq-true, Bool, Bool-cases, Option, Option-cases, Result-cases, String, [], ap, err, false, inl,
  inr, nat_eq_iff, none, not, ok, refl, some, subst, true, ℕ, ◌++◌, ◌==◌, ◌∙◌, ◌∷◌, ◌≡◌, string_eq,
  ℕ_eq,
}
use ompire.Isolation.Guard.{
  HoldContext, Guard, GuardError, Guarded, Owner, Token, acquire, assert_available, blocked_by,
  busy, enter_cleanup, enter_hold, held_by_current_context, host, previous, put, set_owners,
}
use ompire.Isolation.Exclusion.{Reach-Inv}
use ompire.Isolation.Ledger.{Claim, Fits, Ledger, holder, holds, undisplaced}
use ompire.Isolation.Steps.{Reach, System}
use ompire.Isolation.Admission.{acquire-puts, enter_cleanup-puts, enter_hold-puts}

-- A claim that holds is the task's holder, and no other claim holds.
holder-alone :
    (before after : Ledger) (c : Claim)
    → Fits (before ++ c ∷ after)
    → c.displaced ≡ false
    → (holder c.task (before ++ c ∷ after) ≡ some c.owner)
      × (holder c.task (before ++ after) ≡ none)
unfolding holder
holder-alone [] after c fits d = (rw (d, (nat_eq_iff c.task c.task).1 refl) refl, (fits.0).alone d)
holder-alone (b ∷ before) after c fits d =
    let (held, none_else) = holder-alone before after c fits.1 d in
    elim (Bool-cases (holds c.task b)) [
      | inl e ↦
          let here = &&-eq-true (b.task == c.task) (not b.displaced) e in
          let free = (fits.0).alone (undisplaced b.displaced here.1) in
          cc (
            held,
            subst (λ n. holder n (before ++ c ∷ after) ≡ none) ((nat_eq_iff b.task c.task).0 here.0)
                free,
          )
      | inr e ↦ rw e (held, none_else)
    ]

Fits-undisplaced :
    (before after : Ledger) (c : Claim)
    → Fits (before ++ c ∷ after)
    → c.owner.kind ≡ host
    → c.displaced ≡ false
Fits-undisplaced [] after c fits h = elim (Bool-cases c.displaced) [
  | inl e ↦ cc (h, (fits.0).agent_only e)
  | inr e ↦ e
]
Fits-undisplaced (b ∷ before) after c fits h = Fits-undisplaced before after c fits.1 h

-- In each state that the writers can reach, a claim that has not been displaced is the one that the
-- guard names as the owner of its task's workspace, and no other open claim holds that workspace.
pub Reach-alone :
    {s : System} (before after : Ledger) (c : Claim)
    → Reach s
    → s.claims ≡ before ++ c ∷ after
    → c.displaced ≡ false
    → (s.guard.owners c.task ≡ some c.owner) × (holder c.task (before ++ after) ≡ none)
Reach-alone {s} before after c r split d =
    let inv = Reach-Inv r in
    let (held, alone) = holder-alone before after c (subst Fits split inv.fits) d in
    (inv.tracked c.task ∙ ap (holder c.task) split ∙ held, alone)

-- While the claim of a host operation is open, the guard refuses whoever comes from outside: every
-- hold, of either kind and with or without `allow_blocked`, every acquisition, and cleanup.
pub Reach-refused :
    {s : System} (before after : Ledger) (c : Claim) (here : HoldContext)
    → Reach s
    → s.claims ≡ before ++ c ∷ after
    → c.owner.kind ≡ host
    → held_by_current_context here c.task ≡ false
    → ((o : Owner) (allow : Bool)
        → (e : GuardError) × (enter_hold s.guard here c.task o allow ≡ err e))
      × ((o : Owner) (allow : Bool)
          → (e : GuardError) × (acquire s.guard here c.task o allow ≡ err e))
      × ((name : String) → (e : GuardError) × (enter_cleanup s.guard here c.task name ≡ err e))
Reach-refused {s} before after c here r split a_host out =
    let undisplaced =
      Fits-undisplaced before after c (subst Fits split (Reach-Inv r).fits) a_host in
    let (owned, _) = Reach-alone before after c r split undisplaced in
    (
      λ o allow. elim (Result-cases (enter_hold s.guard here c.task o allow)) [
        | inl ((g, inside, token), e) ↦
            cc (owned, (enter_hold-puts s.guard g here inside c.task o allow token out e).0)
        | inr refused ↦ refused
      ],
      λ o allow. elim (Result-cases (acquire s.guard here c.task o allow)) [
        | inl (g, e) ↦ cc (owned, (acquire-puts s.guard g here c.task o allow out e).0)
        | inr refused ↦ refused
      ],
      λ name. elim (Result-cases (enter_cleanup s.guard here c.task name)) [
        | inl ((g, inside, token), e) ↦ cc (
          a_host,
          (enter_cleanup-puts s.guard g here inside c.task name token out e).0 c.owner owned,
        )
        | inr refused ↦ refused
      ],
    )

-- What a hold from outside is to answer, by the ledger: an unresolved effect comes first, then the
-- claim that holds the workspace.
abbrev pub decided :
    Guard
    → HoldContext
    → ℕ
    → Owner
    → Option String
    → Option Owner
    → Guarded (Guard × HoldContext × Token)
decided g here t o (some reason) held = err (blocked_by t reason)
decided g here t o none (some w) = err (busy t w.name)
decided g here t o none none = ok (set_owners g (put t o g.owners), some (t, o.name), previous here)

-- The reason that counts for a writer.
abbrev pub counted : Bool → Option String → Option String
counted true reason = none
counted false reason = reason

pub enter_hold-decided :
    (g : Guard) (here : HoldContext) (t : ℕ) (o : Owner) (allow : Bool)
    → held_by_current_context here t ≡ false
    → enter_hold g here t o allow ≡ decided g here t o (counted allow (g.blocked t)) (g.owners t)
unfolding enter_hold acquire assert_available
enter_hold-decided g here t o true out = elim (Option-cases (g.owners t)) [
  | inl e ↦ rw (out, e) refl
  | inr (w, e) ↦ rw (out, e) refl
]
enter_hold-decided g here t o false out = elim (Option-cases (g.blocked t)) [
  | inr (reason, b) ↦ rw (out, b) refl
  | inl b ↦ elim (Option-cases (g.owners t)) [
    | inl e ↦ rw (out, b, e) refl
    | inr (w, e) ↦ rw (out, b, e) refl
  ]
]

-- In each state that the writers can reach, a hold from outside is decided by the ledger of open claims
-- alone: it is refused for an unresolved effect unless that is allowed, else for the claim that holds
-- the workspace, and else it is admitted. A workspace that no claim holds is never refused as busy.
pub Reach-decided :
    {s : System} (here : HoldContext) (t : ℕ) (o : Owner) (allow : Bool)
    → Reach s
    → held_by_current_context here t ≡ false
    → enter_hold s.guard here t o allow
      ≡ decided s.guard here t o (counted allow (s.guard.blocked t)) (holder t s.claims)
Reach-decided {s} here t o allow r out =
    enter_hold-decided s.guard here t o allow out
    ∙ ap (decided s.guard here t o (counted allow (s.guard.blocked t))) ((Reach-Inv r).tracked t)
