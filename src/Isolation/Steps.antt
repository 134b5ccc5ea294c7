-- ===== src/Isolation/Steps.antt =====
-- What the daemon's writers do with the guard of isolation/guard.py, as steps of one system: the guard,
-- and the ledger of the claims that are open. A new claim comes from a context that does not hold the
-- task yet, and under a name that no open claim on the task has.
use ompire.Base.{
  Bool, Option, String, [], false, none, ok, some, true, ℕ, ◌∷◌, ◌≡◌, string_eq, ℕ_eq,
}
use ompire.Isolation.Guard.{
  HoldContext, Guard, Owner, Token, acquire, block, discard, enter_cleanup, enter_hold,
  enter_released, exit_hold, exit_released, held_by_current_context, host, new_guard, previous,
  release, unblock,
}
use ompire.Isolation.Ledger.{Ledger, close, displace, named, new_claim}

pub record System : Type 0 where
  pub guard : Guard
  pub claims : Ledger

abbrev pub new_system : System
new_system = record { guard = new_guard; claims = [] }

abbrev pub moved : Guard → Ledger → System
moved g cs = record { guard = g; claims = cs }

abbrev pub as_host : String → Owner
as_host name = record { name = name; kind = host }

-- The claim that `released` gives back, if the workspace is free.
abbrev pub given_back : ℕ → Owner → Option Owner → Ledger → Ledger
given_back t o none cs = new_claim t o ∷ cs
given_back t o (some _) cs = cs

pub data Step (s : System) : System → Type 0 where
  enter :
      (here : HoldContext) (t : ℕ) (o : Owner) (allow : Bool) (g : Guard) (inside : HoldContext)
      (token : Token)
      → held_by_current_context here t ≡ false
      → named t o.name s.claims ≡ false
      → enter_hold s.guard here t o allow ≡ ok (g, inside, token)
      → Step s (moved g (new_claim t o ∷ s.claims))
  exit :
      (here : HoldContext) (t : ℕ) (name : String) (before : HoldContext)
      → Step s (moved (exit_hold s.guard here t name (previous before)).0 (close t name s.claims))
  inner :
      (here : HoldContext) (t : ℕ) (o : Owner) (allow : Bool) (g : Guard) (inside : HoldContext)
      (token : Token)
      → held_by_current_context here t ≡ true
      → enter_hold s.guard here t o allow ≡ ok (g, inside, token)
      → Step s (moved (exit_hold g inside t o.name token).0 s.claims)
  take :
      (here : HoldContext) (t : ℕ) (o : Owner) (allow : Bool) (g : Guard)
      → held_by_current_context here t ≡ false
      → named t o.name s.claims ≡ false
      → acquire s.guard here t o allow ≡ ok g
      → Step s (moved g (new_claim t o ∷ s.claims))
  leave : (t : ℕ) (name : String) → Step s (moved (release s.guard t name) (close t name s.claims))
  clean :
      (here : HoldContext) (t : ℕ) (name : String) (g : Guard) (inside : HoldContext)
      (token : Token)
      → held_by_current_context here t ≡ false
      → named t name s.claims ≡ false
      → enter_cleanup s.guard here t name ≡ ok (g, inside, token)
      → Step s (moved g (new_claim t (as_host name) ∷ displace t s.claims))
  lend :
      (here : HoldContext) (t : ℕ) (name : String)
      → Step s (moved (enter_released s.guard here t name).0 (close t name s.claims))
  restore :
      (t : ℕ) (o : Owner) (before : HoldContext)
      → named t o.name s.claims ≡ false
      → Step s (
          moved
            (exit_released s.guard t (some o, before)).0
            (given_back t o (s.guard.owners t) s.claims))
  forbid : (t : ℕ) (reason : String) → Step s (moved (block s.guard t reason) s.claims)
  permit : (t : ℕ) → Step s (moved (unblock s.guard t) s.claims)
  forget : (t : ℕ) → s.guard.owners t ≡ none → Step s (moved (discard s.guard t) s.claims)

-- From the guard of a daemon that has just started.
pub data Reach : System → Type 0 where
  start : Reach new_system
  later : {s s' : System} → Reach s → Step s s' → Reach s'
