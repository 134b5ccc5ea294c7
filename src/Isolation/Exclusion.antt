-- ===== src/Isolation/Exclusion.antt =====
-- The guard of isolation/guard.py and the ledger of claims: an invariant of the steps.
use ompire.Base.{
  Bool-cases, Option-cases, String, false, inl, inr, nat_eq, nat_eq_iff, none, refl, some, subst,
  sym, true, ℕ, ◌∙◌, ◌∷◌, ◌≡◌, string_eq, ℕ_eq,
}
use ompire.Isolation.Guard.{
  HoldContext, Guard, Owner, agent, discard, enter_released, exit_hold, exit_released, give_back,
  is_owner, pop, put, release, set_owners,
}
use ompire.Isolation.Steps.{
  Reach, Step, System, as_host, clean, enter, exit, forbid, forget, given_back, inner, later, leave,
  lend, permit, restore, start, take,
}
use ompire.Isolation.Admission.{
  acquire-puts, enter_cleanup-puts, enter_hold-inside, enter_hold-puts,
}
use ompire.Isolation.Ledger.{Fits, Ledger, close, displace, holder, named, new_claim}
use ompire.Isolation.Closing.{close-Fits, holder-close-none, holder-close-other, holder-close-same}
use ompire.Isolation.Displacing.{
  displace-Fits, holder-displace-other, holder-displace-same, named-displace,
}

-- The guard's owners are the holders in the ledger, and the ledger is in order.
pub record Inv (g : Guard) (cs : Ledger) : Type 0 where
  pub fits : Fits cs
  pub tracked : (t : ℕ) → g.owners t ≡ holder t cs

new-Inv :
    (g : Guard) (t : ℕ) (o : Owner) (cs : Ledger)
    → Inv g cs
    → g.owners t ≡ none
    → named t o.name cs ≡ false
    → Inv (set_owners g (put t o g.owners)) (new_claim t o ∷ cs)
unfolding holder
new-Inv g t o cs inv free fresh = record {
  fits = (
    record { own_name = fresh; alone = λ _. sym (inv.tracked t) ∙ free; agent_only = λ d. cc },
    inv.fits,
  );
  tracked = λ u. elim (Bool-cases (nat_eq t u)) [
    | inl e ↦ rw e refl
    | inr e ↦ rw (e, inv.tracked u) refl
  ];
}

release-holder :
    (g : Guard) (t : ℕ) (name : String) (cs : Ledger)
    → Inv g cs
    → (release g t name).owners t ≡ holder t (close t name cs)
unfolding release
release-holder g t name cs inv = elim (Bool-cases (is_owner name (g.owners t))) [
  | inl own ↦
      let held = subst (λ o. is_owner name o ≡ true) (inv.tracked t) own in
      rw (own, (nat_eq_iff t t).1 refl) (sym (holder-close-same t name cs inv.fits held))
  | inr own ↦
      let held = subst (λ o. is_owner name o ≡ false) (inv.tracked t) own in
      rw own (inv.tracked t ∙ sym (holder-close-none t name cs held))
]

release-Inv :
    (g : Guard) (t : ℕ) (name : String) (cs : Ledger)
    → Inv g cs
    → Inv (release g t name) (close t name cs)
unfolding release
release-Inv g t name cs inv = record {
  fits = close-Fits t name cs inv.fits;
  tracked = λ u. elim (Bool-cases (nat_eq t u)) [
    | inl e ↦
        subst (λ v. (release g t name).owners v ≡ holder v (close t name cs)) ((nat_eq_iff t u).0 e)
          (release-holder g t name cs inv)
    | inr e ↦ elim (Bool-cases (is_owner name (g.owners t))) [
      | inl own ↦ rw (own, e, holder-close-other t u name cs e) (inv.tracked u)
      | inr own ↦ rw (own, holder-close-other t u name cs e) (inv.tracked u)
    ]
  ];
}

clean-Inv :
    (g : Guard) (t : ℕ) (o : Owner) (cs : Ledger)
    → Inv g cs
    → ((w : Owner) → g.owners t ≡ some w → w.kind ≡ agent)
    → named t o.name cs ≡ false
    → Inv (set_owners g (put t o g.owners)) (new_claim t o ∷ displace t cs)
unfolding holder
clean-Inv g t o cs inv agents fresh = record {
  fits = (
    record {
      own_name = named-displace t t o.name cs ∙ fresh;
      alone = λ _. holder-displace-same t cs;
      agent_only = λ d. cc;
    },
    displace-Fits t cs inv.fits λ w e. agents w (inv.tracked t ∙ e),
  );
  tracked = λ u. elim (Bool-cases (nat_eq t u)) [
    | inl e ↦ rw e refl
    | inr e ↦ rw (e, holder-displace-other t u cs e) (inv.tracked u)
  ];
}

restore-Inv :
    (g : Guard) (t : ℕ) (o : Owner) (before : HoldContext) (cs : Ledger)
    → Inv g cs
    → named t o.name cs ≡ false
    → Inv (exit_released g t (some o, before)).0 (given_back t o (g.owners t) cs)
unfolding exit_released
restore-Inv g t o before cs inv fresh = elim (Option-cases (g.owners t)) [
  | inl e ↦
      subst (λ x. Inv (set_owners g (give_back t (some o) x g.owners)) (given_back t o x cs))
        (sym e) (new-Inv g t o cs inv e fresh)
  | inr (w, e) ↦
      subst (λ x. Inv (set_owners g (give_back t (some o) x g.owners)) (given_back t o x cs))
        (sym e) (record { fits = inv.fits; tracked = inv.tracked })
]

forget-Inv : (g : Guard) (t : ℕ) (cs : Ledger) → Inv g cs → g.owners t ≡ none → Inv (discard g t) cs
forget-Inv g t cs inv free = record {
  fits = inv.fits;
  tracked = λ u. elim (Bool-cases (nat_eq t u)) [
    | inl e ↦
        subst (λ v. pop t g.owners v ≡ holder v cs) ((nat_eq_iff t u).0 e)
          (rw ((nat_eq_iff t t).1 refl) (sym free ∙ inv.tracked t))
    | inr e ↦ rw e (inv.tracked u)
  ];
}

Step-Inv : {s s' : System} → Step s s' → Inv s.guard s.claims → Inv s'.guard s'.claims
unfolding exit_hold enter_released
Step-Inv {s} (enter here t o allow g inside token out fresh e) inv =
    let (free, same, _, _) = enter_hold-puts s.guard g here inside t o allow token out e in
    subst (λ x. Inv x (new_claim t o ∷ s.claims)) (sym same)
      (new-Inv s.guard t o s.claims inv free fresh)
Step-Inv {s} (exit here t name before) inv = release-Inv s.guard t name s.claims inv
Step-Inv {s} (inner here t o allow g inside token mine e) inv =
    let (g_same, _, t_same) = enter_hold-inside s.guard g here inside t o allow token mine e in
    subst (λ x. Inv (exit_hold g inside t o.name x).0 s.claims) (sym t_same)
      (subst (λ x. Inv x s.claims) (sym g_same) inv)
Step-Inv {s} (take here t o allow g out fresh e) inv =
    let (free, same) = acquire-puts s.guard g here t o allow out e in
    subst (λ x. Inv x (new_claim t o ∷ s.claims)) (sym same)
      (new-Inv s.guard t o s.claims inv free fresh)
Step-Inv {s} (leave t name) inv = release-Inv s.guard t name s.claims inv
Step-Inv {s} (clean here t name g inside token out fresh e) inv =
    let (agents, same) = enter_cleanup-puts s.guard g here inside t name token out e in
    subst (λ x. Inv x (new_claim t (as_host name) ∷ displace t s.claims)) (sym same)
      (clean-Inv s.guard t (as_host name) s.claims inv agents fresh)
Step-Inv {s} (lend here t name) inv = release-Inv s.guard t name s.claims inv
Step-Inv {s} (restore t o before fresh) inv = restore-Inv s.guard t o before s.claims inv fresh
Step-Inv {s} (forbid t reason) inv = record { fits = inv.fits; tracked = inv.tracked }
Step-Inv {s} (permit t) inv = record { fits = inv.fits; tracked = inv.tracked }
Step-Inv {s} (forget t free) inv = forget-Inv s.guard t s.claims inv free

pub Reach-Inv : {s : System} → Reach s → Inv s.guard s.claims
unfolding holder
Reach-Inv start = record { fits = tt; tracked = λ t. refl }
Reach-Inv (later r st) = Step-Inv st (Reach-Inv r)
