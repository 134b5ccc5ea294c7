-- ===== src/Isolation/Displacing.antt =====
-- Cleanup displaces the claims on a task: what that leaves in the ledger of isolation/guard.py.
use ompire.Base.{
  &&-eq-true, Bool, Bool-cases, String, [], false, inl, inr, nat_eq, nat_eq_iff, none, not, refl,
  some, subst, true, ℕ, ◌==◌, ◌||◌, ◌∙◌, ◌∷◌, ◌≡◌, string_eq, ℕ_eq,
}
use ompire.Isolation.Guard.{Owner, agent}
use ompire.Isolation.Ledger.{
  Claim, Fits, HeadFits, Ledger, displace, holder, holds, named, not_eq_sym, or-eq-false, or_false,
  other_task, undisplaced,
}

pub holder-displace-same : (t : ℕ) (cs : Ledger) → holder t (displace t cs) ≡ none
unfolding holder displace
holder-displace-same t [] = refl
holder-displace-same t (c ∷ cs) = elim (Bool-cases (c.task == t)) [
  | inl e ↦ elim (Bool-cases c.displaced) [
    | inl d ↦ rw (e, d, holder-displace-same t cs) refl
    | inr d ↦ rw (e, d, holder-displace-same t cs) refl
  ]
  | inr e ↦ rw (e, holder-displace-same t cs) refl
]

pub holder-displace-other :
    (t u : ℕ) (cs : Ledger) → nat_eq t u ≡ false → holder u (displace t cs) ≡ holder u cs
unfolding holder displace
holder-displace-other t u [] h = refl
holder-displace-other t u (c ∷ cs) h = elim (Bool-cases (nat_eq c.task u)) [
  | inl e ↦
      rw (other_task t u c.task h e, or_false c.displaced, holder-displace-other t u cs h) refl
  | inr e ↦ rw (e, holder-displace-other t u cs h) refl
]

pub named-displace :
    (t u : ℕ) (name : String) (cs : Ledger) → named u name (displace t cs) ≡ named u name cs
unfolding named displace
named-displace t u name [] = refl
named-displace t u name (c ∷ cs) = rw (named-displace t u name cs) refl

or-right : (a b : Bool) → (a || b) ≡ true → a ≡ false → b ≡ true
or-right true b h e = cc
or-right false b h e = h

-- The holder further down the ledger is the holder.
beyond :
    (t : ℕ) (c : Claim) (cs : Ledger) (o : Owner)
    → HeadFits c cs
    → holder t cs ≡ some o
    → holder t (c ∷ cs) ≡ some o
unfolding holder
beyond t c cs o head e = elim (Bool-cases (holds t c)) [
  | inl held ↦
      let here = &&-eq-true (c.task == t) (not c.displaced) held in
      let free = head.alone (undisplaced c.displaced here.1) in
      let at_task = subst (λ n. holder n cs ≡ none) ((nat_eq_iff c.task t).0 here.0) free in
      cc (at_task, e)
  | inr other ↦ rw other e
]

-- Cleanup may displace the claims on a task if an agent, or nobody, holds it.
pub displace-Fits :
    (t : ℕ) (cs : Ledger)
    → Fits cs
    → ((o : Owner) → holder t cs ≡ some o → o.kind ≡ agent)
    → Fits (displace t cs)
unfolding displace holder
displace-Fits t [] fits agents = tt
displace-Fits t (c ∷ cs) fits agents = (
  record {
    own_name = named-displace t c.task c.owner.name cs ∙ (fits.0).own_name;
    alone = λ d.
        let (held, elsewhere) = or-eq-false c.displaced (c.task == t) d in
        holder-displace-other t c.task cs (not_eq_sym c.task t elsewhere) ∙ (fits.0).alone held;
    agent_only = λ d. elim (Bool-cases c.displaced) [
      | inl e ↦ (fits.0).agent_only e
      | inr e ↦ agents c.owner (rw (or-right c.displaced (c.task == t) d e, e) refl)
    ];
  },
  displace-Fits t cs fits.1 λ o e. agents o (beyond t c cs o fits.0 e),
)
