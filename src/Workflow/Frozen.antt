-- ===== src/Workflow/Frozen.antt =====
-- What a selector picks, and that the evidence of an attempt does not change when history grows: the
-- laws of History.antt.
use mathlib.Core.Option.{map as map_option}
use ompire.Base.{
  All, All-In, Bool, Bool-cases, In, List, Option, Option-cases, String, [], ap, arg_max-greatest,
  arg_max-holds, arith, contains, eq_iff, false, get_last?, inl, inr, is_some, ltb, max_of,
  max_of-select, nat_eq, none, not, refl, select, select-All, select-In, select-append, some, subst,
  suc, true, ℕ, ◌++◌, ◌<◌, ◌==◌, ◌||◌, ◌∙◌, ◌∷◌, ◌≡◌, ◌≢◌, ◌≤◌, string_eq, ℕ_eq,
}
use ompire.Json.{Fields}
use ompire.Workflow.Syntax.{EvidenceSelector}
use ompire.Workflow.History.{
  HistoryRecord, bind_selector, by_seq, evidence_views, floor_of, is_candidate, latest_attempt_seq,
  newest, record_view, resolve_evidence, select_evidence, view_of,
}
use ompire.Workflow.Engine.{append_step_record}

-- The record passes the selector's test, given the attempts.
abbrev Fits : EvidenceSelector → List HistoryRecord → HistoryRecord → Type 0
Fits s rs r = is_candidate s.steps (floor_of rs s.after) s.with_outcome r ≡ true

bounded-below :
    (p : HistoryRecord → Bool) (rs : List HistoryRecord) (b : ℕ)
    → max_of (λ r. r.seq) (select p rs) ≤ b
    → All (λ r. p r ≡ true → r.seq ≤ b) rs
bounded-below p [] b h = tt
bounded-below p (r ∷ rs) b h = (ground arith, bounded-below p rs b (ground arith))

-- An attempt of the history that the selector is about: of one of its steps, finished well, after
-- every attempt of the step named by `after`, and with an outcome where one is asked for.
pub record Selectable (s : EvidenceSelector) (rs : List HistoryRecord) (r : HistoryRecord)
    : Type 0 where
  pub recorded : In r rs
  pub listed : contains s.steps r.step ≡ true
  pub succeeded : r.status ≡ "ok"
  pub numbered : 1 ≤ r.seq
  pub later_than : (n : String) → s.after ≡ some n → All (λ x. x.step ≡ n → x.seq < r.seq) rs
  pub has_outcome : s.with_outcome ≡ true → r.outcome ≢ none

below-All :
    (n : String) (rs : List HistoryRecord) (m : ℕ)
    → latest_attempt_seq rs n < m
    → All (λ x. x.step ≡ n → x.seq < m) rs
unfolding latest_attempt_seq
below-All n [] m h = tt
below-All n (r ∷ rs) m h =
    (λ e. let here = (eq_iff r.step n).1 e in ground arith, below-All n rs m (ground arith))

All-below :
    (n : String) (rs : List HistoryRecord) (m : ℕ)
    → 1 ≤ m
    → All (λ x. x.step ≡ n → x.seq < m) rs
    → latest_attempt_seq rs n < m
unfolding latest_attempt_seq
All-below n [] m some_number h = omega arith
All-below n (r ∷ rs) m some_number (p, ps) =
    let rest = All-below n rs m some_number ps in
    elim (Bool-cases (r.step == n)) [
      | inl e ↦ let here = p ((eq_iff r.step n).0 e) in ground arith
      | inr e ↦ ground arith
    ]

Fits-Selectable :
    (s : EvidenceSelector) (rs : List HistoryRecord) (r : HistoryRecord)
    → In r rs
    → Fits s rs r
    → Selectable s rs r
unfolding floor_of
Fits-Selectable s rs r i h = record {
  recorded = i;
  listed = ground arith;
  succeeded = (eq_iff r.status "ok").0 (ground arith);
  numbered = ground arith;
  later_than = λ n e. below-All n rs r.seq (
      let h' : is_candidate s.steps (floor_of rs (some n)) s.with_outcome r ≡ true =
        subst (λ o. is_candidate s.steps (floor_of rs o) s.with_outcome r ≡ true) e h in
      ground arith);
  has_outcome = λ asked. ground arith;
}

Selectable-Fits :
    (s : EvidenceSelector) (rs : List HistoryRecord) (r : HistoryRecord)
    → Selectable s rs r
    → Fits s rs r
unfolding floor_of
Selectable-Fits s rs r c =
    let good = (eq_iff r.status "ok").1 c.succeeded in
    let outcome : (is_some r.outcome || not s.with_outcome) ≡ true = elim (Option-cases r.outcome) [
      | inr (j, e) ↦ rw e refl
      | inl e ↦ elim (Bool-cases s.with_outcome) [
        | inl asked ↦ absurd (c.has_outcome asked e)
        | inr free ↦ rw (e, free) refl
      ]
    ] in
    let above : ltb (floor_of rs s.after) r.seq ≡ true = elim (Option-cases s.after) [
      | inl e ↦ rw e (let n = c.numbered in ground arith)
      | inr (n, e) ↦
          rw e (let n' = All-below n rs r.seq c.numbered (c.later_than n e) in ground arith)
    ] in
    rw (c.listed, good, above, outcome) refl

-- What a selector picks is an attempt of the history, of one of the selector's steps, that finished
-- well, after every attempt of the step it names for that and with an outcome where it asks for one;
-- and no other attempt of which all this holds is newer.
pub select_evidence-newest :
    (s : EvidenceSelector) (rs : List HistoryRecord) (r : HistoryRecord)
    → select_evidence s rs ≡ some r
    → Selectable s rs r × ((x : HistoryRecord) → Selectable s rs x → x.seq ≤ r.seq)
unfolding select_evidence newest
select_evidence-newest s rs r h =
    let p = is_candidate s.steps (floor_of rs s.after) s.with_outcome in
    let bounded =
      bounded-below p rs r.seq (omega (arith, arg_max-greatest (λ x. x.seq) (select p rs) r h)) in
    (
      Fits-Selectable s rs r
          (arg_max-holds (λ x. In x rs) (λ x. x.seq) (select p rs) r (select-In p rs) h)
          (arg_max-holds (λ x. p x ≡ true) (λ x. x.seq) (select p rs) r (select-All p rs) h),
      λ x c.
          All-In (λ y. p y ≡ true → y.seq ≤ r.seq) rs x bounded c.recorded
            (Selectable-Fits s rs x c),
    )

selected-old :
    (s : EvidenceSelector) (rs : List HistoryRecord) (r : HistoryRecord)
    → select_evidence s rs ≡ some r
    → r.seq ≤ max_of (λ x. x.seq) rs
unfolding select_evidence newest
selected-old s rs r h =
    let p = is_candidate s.steps (floor_of rs s.after) s.with_outcome in
    omega (arith, arg_max-greatest (λ x. x.seq) (select p rs) r h, max_of-select (λ x. x.seq) p rs)

append_nil : {A : Type 0} (xs : List A) → xs ++ [] ≡ xs
append_nil [] = refl
append_nil (x ∷ xs) = ap (λ ws. x ∷ ws) (append_nil xs)

-- A record of another number makes no difference to a look-up by number.
by_seq-snoc :
    (rs : List HistoryRecord) (r : HistoryRecord) (n : ℕ)
    → nat_eq r.seq n ≡ false
    → by_seq (rs ++ r ∷ []) n ≡ by_seq rs n
unfolding by_seq
by_seq-snoc rs r n e =
    let p = λ (x : HistoryRecord). x.seq == n in
    ap get_last? {y = select p rs} (select-append p rs (r ∷ []) ∙ rw e (append_nil (select p rs)))

view-frozen :
    (s : EvidenceSelector) (rs : List HistoryRecord) (n : String) (f : Option Fields)
    → view_of (append_step_record rs n f).1 (bind_selector s rs) ≡ view_of rs (bind_selector s rs)
unfolding view_of bind_selector append_step_record
view-frozen s rs n f = elim (Option-cases (select_evidence s rs)) [
  | inl e ↦ rw (view_of, bind_selector, e) refl
  | inr (r, e) ↦
      let old = selected-old s rs r e in
      let other : nat_eq (suc (max_of (λ x. x.seq) rs)) r.seq ≡ false = ground arith in
      rw (view_of, bind_selector, e) (ap (map_option record_view) (by_seq-snoc rs _ r.seq other))
]

-- The evidence that an attempt bound reads the same after the next attempt is appended as before.
pub evidence_views-frozen :
    (ss : List EvidenceSelector) (rs : List HistoryRecord) (n : String) (f : Option Fields)
    → evidence_views (resolve_evidence ss rs).0 (append_step_record rs n f).1
      ≡ evidence_views (resolve_evidence ss rs).0 rs
unfolding evidence_views resolve_evidence
evidence_views-frozen [] rs n f = refl
evidence_views-frozen (s ∷ ss) rs n f =
    rw (evidence_views-frozen ss rs n f, view-frozen s rs n f) refl
