-- ===== src/Workflow/Routes.antt =====
-- What a decision step comes to, by its cases: the law of Decisions.antt.
use ompire.Base.{
  All, List, [], ap, arith, false, inl, inr, length, length-append, refl, subst, suc, sym, true,
  ◌++◌, ◌∷◌, ◌≡◌, ◌⊎◌, string_eq, ℕ_eq,
}
use ompire.Workflow.Syntax.{DecisionBody, DecisionCase, Destination}
use ompire.Workflow.History.{Context}
use ompire.Workflow.Predicates.{Unresolved, Verdict, decided, evaluate_predicate, unresolved}
use ompire.Workflow.Decisions.{
  DecisionResult, case_unresolved, decision_result, first_case, run_decision_step,
}

-- The cases before a place were answered with no.
abbrev pub Denied : List DecisionCase → Context → Type 0
Denied xs c = All (λ x. evaluate_predicate x.when c ≡ decided false) xs

-- What a decision may come to, by the cases in their order.
pub data Decides (cases : List DecisionCase) (otherwise : Destination) (c : Context)
    : DecisionResult → Type 0 where
  by_case :
      (before : List DecisionCase) (x : DecisionCase) (after : List DecisionCase)
      → cases ≡ before ++ x ∷ after
      → Denied before c
      → evaluate_predicate x.when c ≡ decided true
      → Decides cases otherwise c (decision_result x.next)
  by_default : Denied cases c → Decides cases otherwise c (decision_result otherwise)
  stuck :
      (before : List DecisionCase) (x : DecisionCase) (after : List DecisionCase) (u : Unresolved)
      → cases ≡ before ++ x ∷ after
      → Denied before c
      → evaluate_predicate x.when c ≡ unresolved u
      → Decides cases otherwise c (case_unresolved (length before) u)

append_assoc :
    {A : Type 0} (xs : List A) (y : A) (zs : List A) → (xs ++ y ∷ []) ++ zs ≡ xs ++ y ∷ zs
append_assoc [] y zs = refl
append_assoc (x ∷ xs) y zs = ap (λ ws. x ∷ ws) (append_assoc xs y zs)

append_nil : {A : Type 0} (xs : List A) → xs ++ [] ≡ xs
append_nil [] = refl
append_nil (x ∷ xs) = ap (λ ws. x ∷ ws) (append_nil xs)

Denied-snoc :
    (xs : List DecisionCase) (x : DecisionCase) (c : Context)
    → Denied xs c
    → evaluate_predicate x.when c ≡ decided false
    → Denied (xs ++ x ∷ []) c
Denied-snoc [] x c h e = (e, tt)
Denied-snoc (y ∷ ys) x c (h, hs) e = (h, Denied-snoc ys x c hs e)

verdict-cases :
    (v : Verdict)
    → (v ≡ decided true) ⊎ ((v ≡ decided false) ⊎ ((u : Unresolved) × (v ≡ unresolved u)))
verdict-cases (decided true) = inl refl
verdict-cases (decided false) = inr (inl refl)
verdict-cases (unresolved u) = inr (inr (u, refl))

first_case-Decides :
    (before xs : List DecisionCase) (otherwise : Destination) (c : Context)
    → Denied before c
    → Decides (before ++ xs) otherwise c (first_case (length before) xs otherwise c)
unfolding first_case
first_case-Decides before [] otherwise c denied =
    by_default (subst (λ ys. Denied ys c) (sym (append_nil before)) denied)
first_case-Decides before (x ∷ xs) otherwise c denied =
    elim (verdict-cases (evaluate_predicate x.when c)) [
      | inl e ↦ rw (first_case, e) (by_case before x xs refl denied e)
      | inr (inl e) ↦
          let next =
            first_case-Decides (before ++ x ∷ []) xs otherwise c
              (Denied-snoc before x c denied e) in
          let place : length (before ++ x ∷ []) ≡ suc (length before) =
            omega (arith, length-append before (x ∷ [])) in
          rw (first_case, e)
            (subst (λ ys. Decides ys otherwise c (first_case (suc (length before)) xs otherwise c))
              (append_assoc before x xs)
              (subst
                (λ n. Decides ((before ++ x ∷ []) ++ xs) otherwise c (first_case n xs otherwise c))
                place next))
      | inr (inr (u, e)) ↦ rw (first_case, e) (stuck before x xs u refl denied e)
    ]

-- A decision takes the route of a case only when that case is true and every case before it is false;
-- it takes the default only when all are false; and a case without an answer, the ones before it
-- false, pauses the run with its own index. There is no other result.
pub run_decision_step-Decides :
    (b : DecisionBody) (c : Context) → Decides b.cases b.otherwise c (run_decision_step b c)
unfolding run_decision_step
run_decision_step-Decides b c = first_case-Decides [] b.cases b.otherwise c tt
