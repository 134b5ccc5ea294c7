-- ===== src/Isolation/Admission.antt =====
-- Whom the guard of isolation/guard.py admits, and what the ends of its blocks leave.
use ompire.Base.{
  >>=-eq-ok, Bool, Bool-cases, Option-cases, String, ap, false, inl, inr, none, ok, ok-same, refl,
  some, sym, then-eq-ok, true, ℕ, ◌>>=◌, ◌∙◌, ◌≡◌, string_eq, ℕ_eq,
}
use ompire.Isolation.Guard.{
  HoldContext, Guard, OwnerKind, Owner, Token, acquire, agent, assert_available, assert_host_free,
  assert_unblocked, enter_cleanup, enter_hold, held_by_current_context, host, is_host, nested,
  previous, put, refuse_host, refuse_owner, set_owners,
}

-- A writer that has not the task's hold is admitted to a workspace that nobody owns.
pub assert_available-free :
    (g : Guard) (here : HoldContext) (t : ℕ) (allow : Bool)
    → held_by_current_context here t ≡ false
    → assert_available g here t allow ≡ ok tt
    → g.owners t ≡ none
unfolding assert_available
assert_available-free g here t allow out h =
    let (_, last) = then-eq-ok _ (refuse_owner t (held_by_current_context here t) (g.owners t)) h in
    elim (Option-cases (g.owners t)) [ inl e ↦ e | inr (o, e) ↦ cc (rw (e, out) at last) ]

pub acquire-puts :
    (g g' : Guard) (here : HoldContext) (t : ℕ) (o : Owner) (allow : Bool)
    → held_by_current_context here t ≡ false
    → acquire g here t o allow ≡ ok g'
    → (g.owners t ≡ none) × (g' ≡ set_owners g (put t o g.owners))
unfolding acquire
acquire-puts g g' here t o allow out h =
    let (admitted, last) = then-eq-ok (assert_available g here t allow) _ h in
    (assert_available-free g here t allow out admitted, sym (ok-same last))

enter_hold-outside :
    (g : Guard) (here : HoldContext) (t : ℕ) (o : Owner) (allow : Bool)
    → held_by_current_context here t ≡ false
    → enter_hold g here t o allow
      ≡ (acquire g here t o allow >>= λ g'. ok (g', some (t, o.name), previous here))
unfolding enter_hold
enter_hold-outside g here t o allow out = rw out refl

pub enter_hold-again :
    (g : Guard) (here : HoldContext) (t : ℕ) (o : Owner) (allow : Bool)
    → held_by_current_context here t ≡ true
    → enter_hold g here t o allow ≡ ok (g, here, nested)
unfolding enter_hold
enter_hold-again g here t o allow mine = rw mine refl

pub enter_hold-puts :
    (g g' : Guard) (here inside : HoldContext) (t : ℕ) (o : Owner) (allow : Bool) (token : Token)
    → held_by_current_context here t ≡ false
    → enter_hold g here t o allow ≡ ok (g', inside, token)
    → (g.owners t ≡ none)
      × (g' ≡ set_owners g (put t o g.owners))
      × (inside ≡ some (t, o.name))
      × (token ≡ previous here)
enter_hold-puts g g' here inside t o allow token out h =
    let (g'', e, last) =
      >>=-eq-ok (acquire g here t o allow) _ (sym (enter_hold-outside g here t o allow out) ∙ h) in
    let (free, same) = acquire-puts g g'' here t o allow out e in
    let all = ok-same last in
    (free, sym (ap (λ p. p.0) all) ∙ same, sym (ap (λ p. p.1) all), sym (ap (λ p. p.2) all))

-- Inside its own hold a writer is admitted again, and nothing changes.
pub enter_hold-inside :
    (g g' : Guard) (here inside : HoldContext) (t : ℕ) (o : Owner) (allow : Bool) (token : Token)
    → held_by_current_context here t ≡ true
    → enter_hold g here t o allow ≡ ok (g', inside, token)
    → (g' ≡ g) × (inside ≡ here) × (token ≡ nested)
enter_hold-inside g g' here inside t o allow token mine h =
    let all = ok-same (sym (enter_hold-again g here t o allow mine) ∙ h) in
    (sym (ap (λ p. p.0) all), sym (ap (λ p. p.1) all), sym (ap (λ p. p.2) all))

an_agent : (k : OwnerKind) → is_host k ≡ false → k ≡ agent
an_agent host h = cc
an_agent agent h = refl

pub enter_cleanup-leaves :
    (g g' : Guard) (here inside : HoldContext) (t : ℕ) (name : String) (token : Token)
    → enter_cleanup g here t name ≡ ok (g', inside, token)
    → (g' ≡ set_owners g (put t (record { name = name; kind = host }) g.owners))
      × (inside ≡ some (t, name))
      × (token ≡ previous here)
unfolding enter_cleanup
enter_cleanup-leaves g g' here inside t name token h =
    let (_, last) = then-eq-ok (assert_host_free g here t) _ h in
    let all = ok-same last in
    (sym (ap (λ p. p.0) all), sym (ap (λ p. p.1) all), sym (ap (λ p. p.2) all))

-- Cleanup is admitted to a workspace that an agent owns, or nobody.
pub enter_cleanup-puts :
    (g g' : Guard) (here inside : HoldContext) (t : ℕ) (name : String) (token : Token)
    → held_by_current_context here t ≡ false
    → enter_cleanup g here t name ≡ ok (g', inside, token)
    → ((o : Owner) → g.owners t ≡ some o → o.kind ≡ agent)
      × (g' ≡ set_owners g (put t (record { name = name; kind = host }) g.owners))
unfolding enter_cleanup assert_host_free
enter_cleanup-puts g g' here inside t name token out h =
    let (admitted, last) = then-eq-ok (assert_host_free g here t) _ h in
    let (_, free) = then-eq-ok (assert_unblocked g t) _ admitted in
    (λ o e. agent_owner t here o out (rw e at free), sym (ap (λ p. p.0) (ok-same last)))
  where
    agent_owner :
        (t : ℕ) (here : HoldContext) (o : Owner)
        → held_by_current_context here t ≡ false
        → refuse_host t (held_by_current_context here t) (some o) ≡ ok tt
        → o.kind ≡ agent
    agent_owner t here o out h = elim (Bool-cases (is_host o.kind)) [
      | inl e ↦ cc (rw (e, out) at h)
      | inr e ↦ an_agent o.kind e
    ]
