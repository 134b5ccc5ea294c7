-- ===== src/Isolation/Tests.antt =====
-- Runs of the guard of isolation/guard.py, and its promises at concrete inputs.
use ompire.Base.{
  Bool, String, [], err, false, none, ok, refl, some, true, ℕ, ◌++◌, ◌∷◌, ◌≡◌, string_eq, ℕ_eq,
}
use ompire.Isolation.Guard.{
  Guard, GuardError, Owner, acquire, agent, assert_available, assert_host_free, busy, enter_cleanup,
  enter_hold, exit_hold, host, nested, new_guard, pop, previous, put, set_owners,
}
use ompire.Isolation.Ledger.{holder, named, new_claim}
use ompire.Isolation.Steps.{Reach, System, as_host, later, moved, start, take}
use ompire.Isolation.Freed.{Ended, Reach-freed}
use ompire.Isolation.Promises.{Reach-alone, Reach-decided, Reach-refused, counted, decided}
use ompire.Isolation.Brackets.{
  SameGuard, enter_hold-enter_cleanup, exit_hold-enter_cleanup, exit_hold-enter_hold,
}

abbrev a_step : Owner
a_step = record { name = "workflow-step"; kind = agent }

abbrev a_review : Owner
a_review = record { name = "review"; kind = host }

abbrev stepping : Guard
stepping = set_owners new_guard (put 7 a_step new_guard.owners)

abbrev reviewing : Guard
reviewing = set_owners new_guard (put 7 a_review new_guard.owners)

abbrev cleaning : Guard
cleaning = set_owners stepping (put 7 (as_host "cleanup") stepping.owners)

step_admitted :
    enter_hold new_guard none 7 a_step false
    ≡ ok (stepping, some (7, "workflow-step"), previous none)
unfolding enter_hold acquire assert_available
step_admitted = refl

review_admitted : acquire new_guard none 7 a_review false ≡ ok reviewing
unfolding acquire assert_available
review_admitted = refl

review_refused : acquire stepping none 7 a_review false ≡ err (busy 7 "workflow-step")
unfolding acquire assert_available
review_refused = refl

cleanup_admitted :
    enter_cleanup stepping none 7 "cleanup" ≡ ok (cleaning, some (7, "cleanup"), previous none)
unfolding enter_cleanup assert_host_free
cleanup_admitted = refl

cleanup_refused : enter_cleanup reviewing none 7 "cleanup" ≡ err (busy 7 "review")
unfolding enter_cleanup assert_host_free
cleanup_refused = refl

-- A review runs, and nothing else.
abbrev in_review : System
in_review = moved reviewing (new_claim 7 a_review ∷ [])

in_review_reached : Reach in_review
unfolding named
in_review_reached = later start (take none 7 a_review false reviewing refl refl review_admitted)

Reach-alone_example : (reviewing.owners 7 ≡ some a_review) × (holder 7 ([] ++ []) ≡ none)
Reach-alone_example = Reach-alone [] [] (new_claim 7 a_review) in_review_reached refl refl

Reach-refused_example :
    ((o : Owner) (allow : Bool) → (e : GuardError) × (enter_hold reviewing none 7 o allow ≡ err e))
    × ((o : Owner) (allow : Bool) → (e : GuardError) × (acquire reviewing none 7 o allow ≡ err e))
    × ((name : String) → (e : GuardError) × (enter_cleanup reviewing none 7 name ≡ err e))
Reach-refused_example =
    Reach-refused [] [] (new_claim 7 a_review) none in_review_reached refl refl refl

Reach-decided_example :
    enter_hold reviewing none 7 a_step false
    ≡ decided reviewing none 7 a_step
        (counted false (reviewing.blocked 7))
        (holder 7 in_review.claims)
Reach-decided_example = Reach-decided none 7 a_step false in_review_reached refl

exit_hold-enter_hold_example :
    ((exit_hold stepping (some (7, "workflow-step")) 7 "workflow-step" (previous none)).1 ≡ none)
    × SameGuard
        (exit_hold stepping (some (7, "workflow-step")) 7 "workflow-step" (previous none)).0
        new_guard
exit_hold-enter_hold_example =
    exit_hold-enter_hold new_guard stepping none (some (7, "workflow-step")) 7 a_step false
      (previous none) step_admitted

exit_hold-enter_cleanup_example :
    ((exit_hold cleaning (some (7, "cleanup")) 7 "cleanup" (previous none)).1 ≡ none)
    × ((u : ℕ)
        → (exit_hold cleaning (some (7, "cleanup")) 7 "cleanup" (previous none)).0.owners u
          ≡ pop 7 stepping.owners u)
    × ((exit_hold cleaning (some (7, "cleanup")) 7 "cleanup" (previous none)).0.blocked
        ≡ stepping.blocked)
exit_hold-enter_cleanup_example =
    exit_hold-enter_cleanup stepping cleaning none (some (7, "cleanup")) 7 "cleanup" (previous none)
      cleanup_admitted

enter_hold-enter_cleanup_example :
    (cleaning.owners 7 ≡ some (as_host "cleanup"))
    × ((again : Bool)
        → enter_hold cleaning (some (7, "workflow-step")) 7 a_review again
          ≡ ok (cleaning, some (7, "workflow-step"), nested))
    × (acquire cleaning (some (7, "workflow-step")) 7 a_review true
        ≡ ok (set_owners cleaning (put 7 a_review cleaning.owners)))
enter_hold-enter_cleanup_example =
    enter_hold-enter_cleanup new_guard stepping (some (7, "workflow-step")) (some (7, "cleanup")) 7
      a_step a_review "cleanup" false (previous none) (previous none) step_admitted cleaning
      cleanup_admitted

Reach-freed_example :
    (s' : System) × Reach s'
    × Ended in_review 7 s'
    × (s'.guard.owners 7 ≡ none)
    × (s'.guard.blocked 7 ≡ none)
    × (enter_hold s'.guard none 7 a_step false ≡ decided s'.guard none 7 a_step none none)
Reach-freed_example = Reach-freed none 7 a_step false in_review_reached refl
