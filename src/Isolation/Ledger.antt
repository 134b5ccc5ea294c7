-- ===== src/Isolation/Ledger.antt =====
-- The abstract view of isolation/guard.py: the claims that are open on a workspace, in one ledger. A
-- claim that cleanup has displaced stays open until its writer ends, and holds nothing.
use ompire.Base.{
  Bool, List, Option, String, [], arith, false, if◌then◌else◌, nat_eq, none, not, refl, some, true,
  ℕ, ◌&&◌, ◌==◌, ◌||◌, ◌∷◌, ◌≡◌, string_eq, ℕ_eq,
}
use ompire.Isolation.Guard.{Owner, agent}

pub record Claim : Type 0 where
  pub task : ℕ
  pub owner : Owner
  pub displaced : Bool

abbrev pub Ledger : Type 0
Ledger = List Claim

-- The claim holds the task's workspace.
abbrev pub holds : ℕ → Claim → Bool
holds t c = c.task == t && not c.displaced

-- Who holds the workspace.
unfoldable pub holder : ℕ → Ledger → Option Owner
holder t [] = none
holder t (c ∷ cs) = if holds t c then some c.owner else holder t cs

abbrev pub is_claim : ℕ → String → Claim → Bool
is_claim t name c = c.task == t && c.owner.name == name

-- A claim of that name is open on the task.
unfoldable pub named : ℕ → String → Ledger → Bool
named t name [] = false
named t name (c ∷ cs) = is_claim t name c || named t name cs

abbrev pub new_claim : ℕ → Owner → Claim
new_claim t o = record { task = t; owner = o; displaced = false }

-- The claim of that name ends.
unfoldable pub close : ℕ → String → Ledger → Ledger
close t name [] = []
close t name (c ∷ cs) = let rest = close t name cs in if is_claim t name c then rest else c ∷ rest

abbrev pub displace_one : ℕ → Claim → Claim
displace_one t c = record { task = c.task; owner = c.owner; displaced = c.displaced || c.task == t }

-- Every claim on the task loses its hold.
unfoldable pub displace : ℕ → Ledger → Ledger
displace t [] = []
displace t (c ∷ cs) = displace_one t c ∷ displace t cs

-- What holds of the head of a ledger before the rest: its name is its own, it is the only holder if it
-- holds, and only an agent's work is displaced.
pub record HeadFits (c : Claim) (cs : Ledger) : Type 0 where
  pub own_name : named c.task c.owner.name cs ≡ false
  pub alone : c.displaced ≡ false → holder c.task cs ≡ none
  pub agent_only : c.displaced ≡ true → c.owner.kind ≡ agent

abbrev pub Fits : Ledger → Type 0
Fits [] = Unit {0}
Fits (c ∷ cs) = HeadFits c cs × Fits cs

-- A claim on a task is not on another.
pub other_task : (t u n : ℕ) → nat_eq t u ≡ false → nat_eq n u ≡ true → nat_eq n t ≡ false
other_task t u n h e = ground arith

pub not_eq_sym : (t u : ℕ) → nat_eq t u ≡ false → nat_eq u t ≡ false
not_eq_sym t u h = ground arith

pub or-eq-false : (a b : Bool) → (a || b) ≡ false → (a ≡ false) × (b ≡ false)
or-eq-false true b h = cc
or-eq-false false b h = (refl, h)

pub and_false : (b : Bool) → (b && false) ≡ false
and_false true = refl
and_false false = refl

pub undisplaced : (b : Bool) → not b ≡ true → b ≡ false
undisplaced true h = cc
undisplaced false h = refl

pub or_false : (b : Bool) → (b || false) ≡ b
or_false true = refl
or_false false = refl
