-- ===== src/Workflow/Predicates.antt =====
-- The three-valued evaluation of predicates, `evaluate_predicate` of workflow_definitions.py.
use ompire.Base.{Bool, Option, false, if◌then◌else◌, none, not, some, true, string_eq, ℕ_eq}
use ompire.Base.Int.{ℤ_eq}
use ompire.Json.{Json}
use ompire.Workflow.Syntax.{
  Comparison, JsonType, Junction, Predicate, Predicates, Value, compare, constant, every, exists,
  is_type, junction, negation, no_predicate, predicate, some_of, type_eq,
}
use ompire.Workflow.History.{Context}
use ompire.Workflow.Values.{evaluate_value, is_present}
use ompire.Workflow.Equal.{json_type_of, order_test}

-- Why a predicate has no answer: an operand is missing, or two types have no order.
pub data Unresolved : Type 0 where
  missing : Value → Unresolved
  incomparable : JsonType → JsonType → Value → Unresolved

pub data Verdict : Type 0 where
  decided : Bool → Verdict
  unresolved : Unresolved → Verdict

-- A comparison whose operands are evaluated.
unfoldable pub compare_values : Comparison → Value → Value → Option Json → Option Json → Verdict
unfolding order_test
compare_values op l r none b = unresolved (missing l)
compare_values op l r (some a) none = unresolved (missing r)
compare_values op l r (some a) (some b) = elim (order_test op a b) [
  | some t ↦ decided t
  | none ↦ unresolved (incomparable (json_type_of a) (json_type_of b) l)
]

-- The operand that ends a junction.
abbrev pub decisive : Junction → Bool
decisive every = false
decisive some_of = true

abbrev pub is_verdict : Bool → Verdict → Bool
is_verdict true (decided b) = b
is_verdict false (decided b) = not b
is_verdict _ (unresolved _) = false

abbrev pub first_reason : Option Unresolved → Verdict → Option Unresolved
first_reason (some u) v = some u
first_reason none (decided _) = none
first_reason none (unresolved u) = some u

abbrev pub ends_as : Bool → Option Unresolved → Verdict
ends_as d none = decided (not d)
ends_as d (some u) = unresolved u

abbrev pub negate : Verdict → Verdict
negate (decided b) = decided (not b)
negate (unresolved u) = unresolved u

abbrev pub has_type : JsonType → Option Json → Bool
has_type t none = false
has_type t (some j) = type_eq (json_type_of j) t

unfoldable mutual
  unfolding compare_values evaluate_value

  pub evaluate_predicate : Predicate → Context → Verdict
  evaluate_predicate (constant b) c = decided b
  evaluate_predicate (exists v) c = decided (is_present (evaluate_value v c))
  evaluate_predicate (is_type v t) c = decided (has_type t (evaluate_value v c))
  evaluate_predicate (negation p) c = negate (evaluate_predicate p c)
  evaluate_predicate (junction j ps) c = evaluate_junction (decisive j) ps c none
  evaluate_predicate (compare op l r) c =
      compare_values op l r (evaluate_value l c) (evaluate_value r c)

  -- The loop of a junction, with the first reason so far.
  pub evaluate_junction : Bool → Predicates → Context → Option Unresolved → Verdict
  evaluate_junction d no_predicate c seen = ends_as d seen
  evaluate_junction d (predicate p ps) c seen =
      let v = evaluate_predicate p c in
      let rest = evaluate_junction d ps c (first_reason seen v) in
      if is_verdict d v then decided d else rest
