-- ===== src/Isolation/Guard.antt =====
-- `WorkspaceGuard` of isolation/guard.py. A dict from task ids is a function to Option; the context of
-- a call, `_current_hold`, is passed along; a `with` block is what its two ends do.
use ompire.Base.{
  Bool, Option, Result, String, err, false, guard, if◌then◌else◌, none, not, ok, some, true, ℕ,
  ◌&&◌, ◌==◌, ◌>>=◌, ◌>>◌, string_eq, ℕ_eq,
}

-- A dict's entry is set and popped.
abbrev pub put {ℓ} : {A : Type ℓ} → ℕ → A → (ℕ → Option A) → ℕ → Option A
put k v m n = if k == n then some v else m n

abbrev pub pop {ℓ} : {A : Type ℓ} → ℕ → (ℕ → Option A) → ℕ → Option A
pop k m n = if k == n then none else m n

-- HOST, AGENT
pub data OwnerKind : Type 0 where
  host agent : OwnerKind

abbrev pub is_host : OwnerKind → Bool
is_host host = true
is_host agent = false

pub record Owner : Type 0 where
  pub name : String
  pub kind : OwnerKind

pub record Guard : Type 0 where
  pub owners : ℕ → Option Owner
  pub blocked : ℕ → Option String

-- _current_hold
abbrev pub HoldContext : Type 0
HoldContext = Option (ℕ × String)

-- WorkspaceBusyError, WorkspaceBlockedError
pub data GuardError : Type 0 where
  busy blocked_by : ℕ → String → GuardError

abbrev pub Guarded {ℓ} : Type ℓ → Type ℓ
Guarded A = Result GuardError A

-- __init__
abbrev pub new_guard : Guard
new_guard = record { owners = λ _. none; blocked = λ _. none }

abbrev pub set_owners : Guard → (ℕ → Option Owner) → Guard
set_owners g m = record { owners = m; blocked = g.blocked }

abbrev pub block : Guard → ℕ → String → Guard
block g t reason = record { owners = g.owners; blocked = put t reason g.blocked }

abbrev pub unblock : Guard → ℕ → Guard
unblock g t = record { owners = g.owners; blocked = pop t g.blocked }

abbrev pub discard : Guard → ℕ → Guard
discard g t = record { owners = pop t g.owners; blocked = pop t g.blocked }

abbrev pub held_by_current_context : HoldContext → ℕ → Bool
held_by_current_context none t = false
held_by_current_context (some (held, _)) t = held == t

-- A dict's entry that is there is the error.
abbrev pub refuse_blocked : ℕ → Option String → Guarded (Unit {0})
refuse_blocked t none = ok tt
refuse_blocked t (some reason) = err (blocked_by t reason)

-- _assert_unblocked
abbrev pub assert_unblocked : Guard → ℕ → Guarded (Unit {0})
assert_unblocked g t = refuse_blocked t (g.blocked t)

-- An owner refuses whoever does not come from its context.
abbrev pub refuse_owner : ℕ → Bool → Option Owner → Guarded (Unit {0})
refuse_owner t mine none = ok tt
refuse_owner t mine (some o) = guard mine (busy t o.name)

abbrev pub refuse_host : ℕ → Bool → Option Owner → Guarded (Unit {0})
refuse_host t mine none = ok tt
refuse_host t mine (some o) = guard (not (is_host o.kind && not mine)) (busy t o.name)

unfoldable pub assert_available : Guard → HoldContext → ℕ → Bool → Guarded (Unit {0})
assert_available g here t allow_blocked =
    (if allow_blocked then ok tt else assert_unblocked g t)
    >> refuse_owner t (held_by_current_context here t) (g.owners t)

unfoldable pub assert_host_free : Guard → HoldContext → ℕ → Guarded (Unit {0})
assert_host_free g here t =
    assert_unblocked g t >> refuse_host t (held_by_current_context here t) (g.owners t)

unfoldable pub acquire : Guard → HoldContext → ℕ → Owner → Bool → Guarded Guard
unfolding assert_available
acquire g here t o allow_blocked =
    assert_available g here t allow_blocked >> ok (set_owners g (put t o g.owners))

-- `held is not None and held[0] == owner`
abbrev pub is_owner : String → Option Owner → Bool
is_owner name none = false
is_owner name (some o) = o.name == name

unfoldable pub release : Guard → ℕ → String → Guard
release g t name = set_owners g (if is_owner name (g.owners t) then pop t g.owners else g.owners)

-- What the end of a hold gives back: nothing inside another hold, else the context before it.
pub data Token : Type 0 where
  nested : Token
  previous : HoldContext → Token

-- The start of `hold`.
unfoldable pub enter_hold :
    Guard → HoldContext → ℕ → Owner → Bool → Guarded (Guard × HoldContext × Token)
unfolding acquire
enter_hold g here t o allow_blocked =
    if held_by_current_context here t
    then ok (g, here, nested)
    else (acquire g here t o allow_blocked >>= λ g'. ok (g', some (t, o.name), previous here))

-- The end of `hold` and of `cleanup_hold`.
unfoldable pub exit_hold : Guard → HoldContext → ℕ → String → Token → Guard × HoldContext
unfolding release
exit_hold g here t name nested = (g, here)
exit_hold g here t name (previous before) = (release g t name, before)

-- The start of `cleanup_hold`.
unfoldable pub enter_cleanup :
    Guard → HoldContext → ℕ → String → Guarded (Guard × HoldContext × Token)
unfolding assert_host_free
enter_cleanup g here t name =
    assert_host_free g here t
    >> ok (
      set_owners g (put t (record { name = name; kind = host }) g.owners),
      some (t, name),
      previous here,
    )

-- The owner that `released` takes out for the length of its block, if it is the one that is named.
abbrev pub lent : String → Option Owner → Option Owner
lent name none = none
lent name (some o) = if o.name == name then some o else none

-- The start of `released`: the owner that was taken out is kept with the context.
unfoldable pub enter_released :
    Guard → HoldContext → ℕ → String → Guard × HoldContext × (Option Owner × HoldContext)
enter_released g here t name = (
  set_owners g (if is_owner name (g.owners t) then pop t g.owners else g.owners),
  none,
  (lent name (g.owners t), here),
)

abbrev pub give_back : ℕ → Option Owner → Option Owner → (ℕ → Option Owner) → ℕ → Option Owner
give_back t none now m = m
give_back t (some o) none m = put t o m
give_back t (some o) (some _) m = m

-- The end of `released`.
unfoldable pub exit_released : Guard → ℕ → (Option Owner × HoldContext) → Guard × HoldContext
exit_released g t (taken, before) = (set_owners g (give_back t taken (g.owners t) g.owners), before)
