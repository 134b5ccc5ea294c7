-- ===== src/Isolation/Closing.antt =====
-- A claim ends: what that leaves in the ledger of isolation/guard.py.
use ompire.Base.{
  &&-eq-true, Bool-cases, String, [], false, inl, inr, nat_eq, nat_eq_iff, none, not, refl, subst,
  true, ℕ, ◌==◌, ◌∷◌, ◌≡◌, string_eq, ℕ_eq,
}
use ompire.Isolation.Guard.{is_owner}
use ompire.Isolation.Ledger.{
  Fits, HeadFits, Ledger, and_false, close, holder, holds, is_claim, named, not_eq_sym, or-eq-false,
  other_task, undisplaced,
}

-- Nothing is named that no claim on the task is called.
pub named-close :
    (t u : ℕ) (name other : String) (cs : Ledger)
    → named u other cs ≡ false
    → named u other (close t name cs) ≡ false
unfolding named close
named-close t u name other [] h = refl
named-close t u name other (c ∷ cs) h =
    let (here, rest) = or-eq-false (is_claim u other c) (named u other cs) h in
    elim (Bool-cases (is_claim t name c)) [
      | inl e ↦ rw e (named-close t u name other cs rest)
      | inr e ↦ rw (e, here) (named-close t u name other cs rest)
    ]

pub holder-close-other :
    (t u : ℕ) (name : String) (cs : Ledger)
    → nat_eq t u ≡ false
    → holder u (close t name cs) ≡ holder u cs
unfolding holder close
holder-close-other t u name [] h = refl
holder-close-other t u name (c ∷ cs) h = elim (Bool-cases (is_claim t name c)) [
  | inl e ↦
      let here = (&&-eq-true (c.task == t) (c.owner.name == name) e).0 in
      rw (e, other_task u t c.task (not_eq_sym t u h) here, holder-close-other t u name cs h) refl
  | inr e ↦ rw (e, holder-close-other t u name cs h) refl
]

pub holder-close-free :
    (t u : ℕ) (name : String) (cs : Ledger) → holder u cs ≡ none → holder u (close t name cs) ≡ none
unfolding holder close
holder-close-free t u name [] h = refl
holder-close-free t u name (c ∷ cs) h = elim (Bool-cases (holds u c)) [
  | inl e ↦ cc (rw e at h)
  | inr e ↦
      let rest = holder-close-free t u name cs (rw e at h) in
      elim (Bool-cases (is_claim t name c)) [ inl e' ↦ rw e' rest | inr e' ↦ rw (e', e) rest ]
]

-- The claim that holds is the one that is named: its end leaves nobody.
pub holder-close-same :
    (t : ℕ) (name : String) (cs : Ledger)
    → Fits cs
    → is_owner name (holder t cs) ≡ true
    → holder t (close t name cs) ≡ none
unfolding holder close
holder-close-same t name [] fits h = refl
holder-close-same t name (c ∷ cs) fits h = elim (Bool-cases (holds t c)) [
  | inl e ↦
      let here = &&-eq-true (c.task == t) (not c.displaced) e in
      let free = (fits.0).alone (undisplaced c.displaced here.1) in
      let at_task = subst (λ n. holder n cs ≡ none) ((nat_eq_iff c.task t).0 here.0) free in
      let named_so = (rw e at h) in rw (here.0, named_so) (holder-close-free t t name cs at_task)
  | inr e ↦
      let rest = holder-close-same t name cs fits.1 (rw e at h) in
      elim (Bool-cases (is_claim t name c)) [ inl e' ↦ rw e' rest | inr e' ↦ rw (e', e) rest ]
]

-- Another claim than the one that holds ends: nothing changes.
pub holder-close-none :
    (t : ℕ) (name : String) (cs : Ledger)
    → is_owner name (holder t cs) ≡ false
    → holder t (close t name cs) ≡ holder t cs
unfolding holder close
holder-close-none t name [] h = refl
holder-close-none t name (c ∷ cs) h = elim (Bool-cases (holds t c)) [
  | inl e ↦ let not_so = rw e at h in rw (not_so, and_false (c.task == t), e) refl
  | inr e ↦
      let rest = holder-close-none t name cs (rw e at h) in
      elim (Bool-cases (is_claim t name c)) [ inl e' ↦ rw (e', e) rest | inr e' ↦ rw (e', e) rest ]
]

pub close-Fits : (t : ℕ) (name : String) (cs : Ledger) → Fits cs → Fits (close t name cs)
unfolding close
close-Fits t name [] fits = tt
close-Fits t name (c ∷ cs) fits = elim (Bool-cases (is_claim t name c)) [
  | inl e ↦ rw e (close-Fits t name cs fits.1)
  | inr e ↦
      let head : HeadFits c (close t name cs) = record {
        own_name = named-close t c.task name c.owner.name cs (fits.0).own_name;
        alone = λ d. holder-close-free t c.task name cs ((fits.0).alone d);
        agent_only = (fits.0).agent_only;
      } in
      rw e (head, close-Fits t name cs fits.1)
]
