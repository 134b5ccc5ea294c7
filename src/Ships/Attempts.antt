-- ===== src/Ships/Attempts.antt =====
-- registry/ships.py: the write-ahead journal of action attempts.
use ompire.Base.{
  Bool, List, Option, Result, String, [], err, find, get_last?, guard, if◌then◌else◌, is, length,
  max_of, none, not, ok, or_fail, select, some, ℕ, ◌&&◌, ◌++◌, ◌+◌, ◌==◌, ◌>>=◌, ◌>>◌, ◌||◌, ◌∷◌,
  string_eq, ℕ_eq,
}
use ompire.Json.{Fields, Json, end, field, obj, str}
use ompire.Ships.Rows.{
  Action, DecisionKind, Delivery, DeliveryRecord, Disposition, Kind, Phase, block, blocked,
  executing, failed, is_failed, is_prepared, is_succeeded, is_unresolved, kind_text,
  needs_reconciliation, parse_kind, parse_phase, prepared, succeeded, unresolved, Kind_eq,
}
use ompire.Ships.Tables.{
  Conflict, Db, actions_of, add_decision, assertion, attempt_unresolved, bump, committed,
  find_action, kind_completed, no_such_action, not_prepared, request_key_started_action,
  step_has_action, unknown_action_kind, unknown_phase, write_action,
}

-- The arguments of `prepare_action`; `kind` is checked there.
pub record Request : Type 0 where
  pub kind : String
  pub request_key : String
  pub input_fingerprint : String
  pub expected : Json
  pub identity : Option Json
  pub workflow_seq : Option ℕ

-- What a loop over earlier attempts decides: adopt one, refuse, or go on.
pub data Verdict : Type 0 where
  adopt_row : Action → Verdict
  refuse : Conflict → Verdict
  go_on : Verdict

-- `row.kind == kind and row.input_fingerprint == … and row.phase == "prepared"`
abbrev same_request : Kind → Request → Action → Bool
same_request kind r a =
    a.kind == kind && (a.input_fingerprint == r.input_fingerprint && is_prepared a.phase)

-- The first loop: earlier attempts under this request key.
unfoldable pub by_request_key : Kind → Request → List Action → Verdict
by_request_key kind r rows = elim (find (λ a. a.request_key == r.request_key) rows) [
  | none ↦ go_on
  | some a ↦ if same_request kind r a then adopt_row a else refuse request_key_started_action
]

-- A live attempt of the workflow step: not proven to have had no effect.
abbrev pub is_live_for : ℕ → Action → Bool
is_live_for s a = is a.workflow_seq s && not (is_failed a.phase)

-- The second loop: earlier attempts of this workflow step.
unfoldable pub by_workflow_seq : Kind → Option ℕ → List Action → Verdict
by_workflow_seq kind none rows = go_on
by_workflow_seq kind (some s) rows = elim (find (is_live_for s) rows) [
  | none ↦ go_on
  | some a ↦
      if a.kind == kind && is_prepared a.phase then adopt_row a else refuse (step_has_action s)
]

abbrev pub blocks_kind : Action → Bool
blocks_kind a = is_unresolved a.phase || is_succeeded a.phase

-- The third loop: earlier attempts at the same kind.
unfoldable pub by_kind : Kind → List Action → Verdict
by_kind kind rows = elim (find (λ a. a.kind == kind && blocks_kind a) rows) [
  | none ↦ go_on
  | some a ↦ refuse (if is_succeeded a.phase then kind_completed kind else attempt_unresolved kind)
]

abbrev pub next_seq : List Action → ℕ
next_seq rows = elim (get_last? rows) [ none ↦ 1 | some a ↦ a.seq + 1 ]

unfoldable pub new_action : Db → ℕ → Kind → Request → String → Action
unfolding actions_of
new_action db i kind r now = record {
  id = max_of (λ a. a.id) db.actions + 1;
  delivery_id = i;
  seq = next_seq (actions_of db i);
  kind = kind;
  attempt = length (select (λ a. a.kind == kind) (actions_of db i)) + 1;
  request_key = r.request_key;
  input_fingerprint = r.input_fingerprint;
  phase = prepared;
  expected = some r.expected;
  progress = none;
  identity = r.identity;
  result = none;
  error = none;
  created_at = now;
  updated_at = now;
  workflow_seq = r.workflow_seq;
}

abbrev pub insert_action : Db → Action → Db
insert_action db a = record db { actions = db.actions ++ a ∷ [] }

unfoldable pub insert_attempt : Db → ℕ → Kind → Request → String → Result Conflict (Action × Db)
insert_attempt db i kind r now = do
  let a = new_action db i kind r now
  db' ← bump (insert_action db a) i now (λ d. d)
  ok (a, db')

abbrev pub then_try {ℓ} :
    {A : Type ℓ} → Verdict → (Action → Result Conflict A) → Result Conflict A → Result Conflict A
then_try (adopt_row a) f k = f a
then_try (refuse e) f k = err e
then_try go_on f k = k

unfoldable pub prepare_action : Db → ℕ → Request → String → Result Conflict (Action × Db)
unfolding by_request_key by_workflow_seq by_kind parse_kind
prepare_action db i r now = do
  kind ← or_fail (parse_kind r.kind) (unknown_action_kind r.kind)
  let rows = actions_of db i
  let existing = λ (a : Action). ok (a, db)
  then_try (by_request_key kind r rows) existing (
      then_try (by_workflow_seq kind r.workflow_seq rows) existing
        (then_try (by_kind kind rows) existing (insert_attempt db i kind r now)))

abbrev pub set_or_keep : Option Json → Option Json → Option Json
set_or_keep none old = old
set_or_keep (some j) old = some j

-- `_require_action` after the transaction.
unfoldable pub committed_action : Db → ℕ → Result Conflict (Action × Db)
unfolding find_action
committed_action db i = do a ← or_fail (find_action db i) assertion; ok (a, db)

abbrev pub starting : Option Json → String → Action → Action
starting expected now r = record r {
  phase = executing;
  expected = set_or_keep expected r.expected;
  updated_at = now;
}

unfoldable pub mark_action_executing : Db → ℕ → Option Json → String → Result Conflict (Action × Db)
mark_action_executing db i expected now = do
  a ← or_fail (find_action db i) (no_such_action i)
  guard (is_prepared a.phase) (not_prepared a.phase)
  db' ← bump (write_action db i (starting expected now)) a.delivery_id now (λ d. d)
  committed_action db' i

-- `engine.begin()`: no version is taken.
unfoldable pub record_action_progress : Db → ℕ → Json → String → Result Conflict (Action × Db)
record_action_progress db i progress now =
    committed_action
      (write_action db i (λ r. record r { progress = some progress; updated_at = now })) i

abbrev pub resolved_to : Option Disposition → Delivery → Delivery
resolved_to none d = d
resolved_to (some disposition) d = record d { disposition = disposition; blocked_reason = none }

abbrev pub completing : Json → Option Json → String → Action → Action
completing result identity now r = record r {
  phase = succeeded;
  identity = set_or_keep identity r.identity;
  result = some result;
  error = none;
  updated_at = now;
}

unfoldable pub complete_action_in :
    Db → ℕ → Json → Option Json → Option Disposition → String → Result Conflict (ℕ × Db)
complete_action_in db i result identity disposition now = do
  a ← or_fail (find_action db i) (no_such_action i)
  db' ←
      bump (write_action db i (completing result identity now)) a.delivery_id now
        (resolved_to disposition)
  ok (a.delivery_id, db')

unfoldable pub complete_action :
    Db
    → ℕ
    → Json
    → Option Json
    → Option Disposition
    → String
    → Result Conflict (DeliveryRecord × Db)
complete_action db i result identity disposition now = do
  (delivery, db') ← complete_action_in db i result identity disposition now
  committed db' delivery

-- `blocked_reason or error`: an empty text counts as none.
abbrev or_text : Option String → String → String
or_text none e = e
or_text (some t) e = if t == "" then e else t

abbrev pub failing : String → String → Action → Action
failing error now r = record r { phase = failed; error = some error; updated_at = now }

unfoldable pub fail_action :
    Db → ℕ → String → Option String → String → Result Conflict (DeliveryRecord × Db)
fail_action db i error reason now = do
  a ← or_fail (find_action db i) (no_such_action i)
  db' ←
      bump (write_action db i (failing error now)) a.delivery_id now
        (λ d. record d { disposition = blocked; blocked_reason = some (or_text reason error) })
  committed
      (add_decision db' a.delivery_id (some i) block
        (some (obj (field "kind" (str (kind_text a.kind)) (field "error" (str error) end)))) none
        now)
      a.delivery_id

-- `{**progress, "evidence": evidence}`
abbrev put_field : String → Json → Fields → Fields
put_field k v end = field k v end
put_field k v (field j w fs) = if j == k then field j v fs else field j w (put_field k v fs)

abbrev pub with_evidence : Option Json → Option Json → Json
with_evidence none (some (obj fs)) = obj fs
with_evidence none _ = obj end
with_evidence (some e) (some (obj fs)) = obj (put_field "evidence" e fs)
with_evidence (some e) _ = obj (field "evidence" e end)

abbrev pub flagging : String → Json → String → Action → Action
flagging error progress now r = record r {
  phase = needs_reconciliation;
  progress = some progress;
  error = some error;
  updated_at = now;
}

unfoldable pub flag_action_unresolved :
    Db → ℕ → String → Option Json → String → Result Conflict (DeliveryRecord × Db)
flag_action_unresolved db i error evidence now = do
  a ← or_fail (find_action db i) (no_such_action i)
  db' ←
      bump (write_action db i (flagging error (with_evidence evidence a.progress) now))
        a.delivery_id now (λ d. record d { disposition = unresolved; blocked_reason = some error })
  committed db' a.delivery_id

-- The arguments of `resolve_action`.
pub record Resolution : Type 0 where
  pub phase : String
  pub result : Option Json
  pub error : Option String
  pub disposition : Disposition
  pub blocked_reason : Option String
  pub decision : DecisionKind
  pub note : Option String
  pub detail : Option Json

abbrev pub resolving : Resolution → Phase → Option Json → String → Action → Action
resolving r phase result now w = record w {
  phase = phase;
  result = result;
  error = r.error;
  updated_at = now;
}

unfoldable pub resolve_action : Db → ℕ → Resolution → String → Result Conflict (DeliveryRecord × Db)
resolve_action db i r now = do
  phase ← or_fail (parse_phase r.phase) (unknown_phase r.phase)
  a ← or_fail (find_action db i) (no_such_action i)
  let written = write_action db i (resolving r phase (set_or_keep r.result a.result) now)
  db' ←
      bump (add_decision written a.delivery_id (some i) r.decision r.detail r.note now)
        a.delivery_id now
        (λ d. record d { disposition = r.disposition; blocked_reason = r.blocked_reason })
  committed db' a.delivery_id
