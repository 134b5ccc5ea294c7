-- ===== src/Ships/Tests.antt =====
-- The theorems on registry/ships.py at a task with one delivery, confirmed up to its push.
use ompire.Base.{
  Result, String, [], any, arith, contains, eq_iff, err, false, inr, none, not, ok, refl, select,
  some, true, ℕ, ◌==◌, ◌∷◌, ◌≡◌, ◌≢◌, ◌⊎◌, string_eq, ℕ_eq,
}
use ompire.Json.{Json, null}
use ompire.Ships.Rows.{
  Action, DeliveryRecord, Kind, Mode, commit, parse_kind, parse_mode, parse_phase, push,
  remaining_actions, squash, workflow_authorized, Kind_eq,
}
use ompire.Ships.Tables.{
  Candidate, Conflict, Db, actions_of, active_row, add_decision, already_authorized, bump,
  committed, decisions_of, find_action, get_delivery, next_version, of_task, version_changed,
  with_children, write_action, write_row,
}
use ompire.Ships.Grants.{
  Authorized, authorize_delivery_in-Authorized, authorize_delivery_in-again,
  authorize_delivery_in-other,
}
use ompire.Ships.Conflicts.{by_resuming, stale_refused}
use ompire.Ships.Writes.{Wrote}
use ompire.Ships.Retries.{AllUnsettled, reauthorize_delivery-Wrote}
use ompire.Ships.Journal.{Admitted, Adopted, prepare_action-Admitted}
use ompire.Ships.Single.{IsJournal}
use ompire.Ships.Started.{here, then, here as still, then as onward}
use ompire.Ships.Steps.{Run-IsJournal, here, prepare, start, then}
use ompire.Ships.Remaining.{remaining_complete}
use ompire.Ships.Purged.{names_path, purge_lem, task_ids}
use ompire.Ships.Candidates.{Recorded, get_candidate, record_candidate, record_candidate_total}
use ompire.Ships.Attempts.{
  Request, by_kind, by_request_key, by_workflow_seq, committed_action, complete_action,
  complete_action_in, fail_action, insert_attempt, mark_action_executing, new_action,
  prepare_action, record_action_progress,
}
use ompire.Ships.Purge.{AuthorityBoundary, delete_task_deliveries_on, is_pre_upgrade_grant}
use ompire.Ships.Authority.{
  Confirmation, Extension, append_authority, authorize_delivery_in, authorize_row, blank_delivery,
  confirmed, extend_delivery, extend_row, grant, is_replay, key_taken, open_delivery,
  reauthorize_delivery, regrant, replayed_extension, resume_delivery, settled_action,
}

abbrev empty_db : Db
empty_db = record { deliveries = []; actions = []; decisions = []; candidates = [] }

abbrev value {ℓ} : {A : Type ℓ} → A → Result Conflict A → A
value a (ok b) = b
value a (err e) = a

abbrev blank_record : DeliveryRecord
blank_record = record { row = blank_delivery 0 0 0 none "t"; actions = []; decisions = [] }

-- Opens what the tests compute with.
all_open : ℕ
unfolding open_delivery active_row committed get_delivery with_children authorize_delivery_in
    authorize_row parse_mode parse_kind parse_phase key_taken is_replay grant bump next_version
    write_row add_decision extend_delivery extend_row append_authority reauthorize_delivery regrant
    settled_action resume_delivery prepare_action by_request_key by_workflow_seq by_kind
    insert_attempt new_action mark_action_executing record_action_progress committed_action
    complete_action complete_action_in fail_action write_action find_action actions_of decisions_of
    record_candidate get_candidate delete_task_deliveries_on
all_open = 0

abbrev confirmation : Confirmation
confirmation = record {
  candidate_id = "cand";
  review_candidate_id = some "cand";
  mode = "squash";
  ending = "push";
  commit_message = some "Fix";
  pr_title = none;
  pr_body = none;
  routing = null;
  identity = null;
  request_key = "k1";
  input_fingerprint = "f1";
  authorized_by = "operator";
  workflow_gate_seq = some 4;
  workflow_choice_id = some "approve";
  review_seq = some 3;
}

abbrev other_confirmation : Confirmation
other_confirmation = record confirmation { request_key = "k2" }

-- The task's delivery, opened.
opened : DeliveryRecord × Db
unfolding all_open
opened = value (blank_record, empty_db) (open_delivery empty_db 7 none "t0")

granted_once : DeliveryRecord × Db
unfolding opened
granted_once =
    value (blank_record, empty_db) (authorize_delivery_in opened.1 1 (some 1) confirmation "t1")

granted_ok :
    authorize_delivery_in opened.1 1 (some 1) confirmation "t1"
    ≡ ok (granted_once.0, granted_once.1)
unfolding granted_once
granted_ok = refl

authorize_delivery_in-Authorized_example :
    Authorized opened.1 1 (some 1) confirmation "t1" granted_once.0 granted_once.1
authorize_delivery_in-Authorized_example =
    authorize_delivery_in-Authorized opened.1 1 confirmation "t1" (some 1) granted_ok

authorize_delivery_in-again_example :
    authorize_delivery_in granted_once.1 1 (some 1) confirmation "t2"
    ≡ ok (with_children granted_once.1 granted_once.0.row, granted_once.1)
authorize_delivery_in-again_example =
    authorize_delivery_in-again opened.1 1 confirmation "t1" (some 1) (some 1) "t2" granted_ok

-- The same request key with other inputs.
abbrev other_inputs : Confirmation
other_inputs = record confirmation { input_fingerprint = "f2" }

other_fingerprint : other_inputs.input_fingerprint ≢ confirmation.input_fingerprint
other_fingerprint e = let h = (eq_iff "f2" "f1").1 e in cc

authorize_delivery_in-other_example :
    authorize_delivery_in granted_once.1 1 none other_inputs "t2" ≡ err already_authorized
unfolding parse_mode parse_kind
authorize_delivery_in-other_example =
    authorize_delivery_in-other opened.1 1 confirmation "t1" (some 1) none other_inputs "t2"
      {mode = squash} {ending = push} granted_ok refl refl (inr other_fingerprint)

-- The delivery resumed at version 2, which makes it version 3.
resumed : DeliveryRecord × Db
unfolding granted_once
resumed = value (blank_record, empty_db) (resume_delivery granted_once.1 1 2 "k9" "f9" "t2")

resumed_ok : resume_delivery granted_once.1 1 2 "k9" "f9" "t2" ≡ ok (resumed.0, resumed.1)
unfolding resumed
resumed_ok = refl

stale_refused_example :
    ((key fingerprint : String)
      → resume_delivery resumed.1 1 2 key fingerprint "t3"
        ≡ err (version_changed resumed.0.version))
    × ((x : Extension) (old ending : Kind)
        → parse_kind x.ending ≡ some ending
        → resumed.0.ending ≡ some old
        → replayed_extension x.request_key (decisions_of resumed.1 1) ≡ none
        → extend_delivery resumed.1 1 2 x "t3" ≡ err (version_changed resumed.0.version))
    × ((c : Confirmation) (mode : Mode) (ending : Kind)
        → parse_mode c.mode ≡ some mode
        → parse_kind c.ending ≡ some ending
        → settled_action resumed.1 1 ≡ none
        → reauthorize_delivery resumed.1 1 2 c "t3" ≡ err (version_changed resumed.0.version))
stale_refused_example = stale_refused (by_resuming "k9" "f9" "t2" resumed_ok) "t3"

abbrev extension : Extension
extension = record {
  ending = "pr";
  pr_title = some "Fix";
  pr_body = none;
  request_key = "k3";
  input_fingerprint = "f3";
  identity = null;
}

extended_once : DeliveryRecord × Db
unfolding granted_once
extended_once = value (blank_record, empty_db) (extend_delivery granted_once.1 1 2 extension "t3")

reauthorized : DeliveryRecord × Db
unfolding granted_once
reauthorized =
    value (blank_record, empty_db) (reauthorize_delivery granted_once.1 1 2 other_confirmation "t4")

reauthorized_ok :
    reauthorize_delivery granted_once.1 1 2 other_confirmation "t4"
    ≡ ok (reauthorized.0, reauthorized.1)
unfolding reauthorized
reauthorized_ok = refl

reauthorize_delivery-Wrote_example :
    (mode : Mode) × (ending : Kind) × (w : Wrote granted_once.1 1
      (confirmed other_confirmation mode ending "t4")
      "t4"
      reauthorized.0
      reauthorized.1)
    × (parse_mode "squash" ≡ some mode)
    × (parse_kind "push" ≡ some ending)
    × (w.row.version ≡ 2)
    × AllUnsettled (actions_of granted_once.1 1)
    × (reauthorized.0.workflow_gate_seq ≡ w.row.workflow_gate_seq)
    × (reauthorized.0.workflow_choice_id ≡ w.row.workflow_choice_id)
reauthorize_delivery-Wrote_example =
    reauthorize_delivery-Wrote granted_once.1 1 2 other_confirmation "t4" reauthorized_ok

abbrev request : Request
request = record {
  kind = "commit";
  request_key = "a1";
  input_fingerprint = "g1";
  expected = null;
  identity = none;
  workflow_seq = some 5;
}

abbrev blank_action : Action
blank_action = new_action empty_db 0 commit request "t"

prepared_once : Action × Db
unfolding granted_once
prepared_once = value (blank_action, empty_db) (prepare_action granted_once.1 1 request "t5")

prepared_ok : prepare_action granted_once.1 1 request "t5" ≡ ok (prepared_once.0, prepared_once.1)
unfolding prepared_once
prepared_ok = refl

prepare_action-Admitted_example :
    (kind : Kind) × (parse_kind "commit" ≡ some kind)
    × (Adopted granted_once.1 1 kind request prepared_once.0 prepared_once.1
        ⊎ Admitted granted_once.1 1 kind request prepared_once.0 prepared_once.1)
prepare_action-Admitted_example = prepare_action-Admitted granted_once.1 1 request "t5" prepared_ok

started : Action × Db
unfolding prepared_once
started = value (blank_action, empty_db) (mark_action_executing prepared_once.1 1 none "t6")

started_ok : mark_action_executing prepared_once.1 1 none "t6" ≡ ok (started.0, started.1)
unfolding started
started_ok = refl

progressed : Action × Db
unfolding started
progressed = value (blank_action, empty_db) (record_action_progress started.1 1 null "t7")

granted_once-IsJournal : IsJournal granted_once.1
unfolding granted_once
granted_once-IsJournal = record { distinct = tt; ascending = λ i. tt; single = λ i s. omega arith }

Run-IsJournal_example : IsJournal started.1
Run-IsJournal_example =
    Run-IsJournal
      (then (then here (prepare 1 request "t5" prepared_once.0 prepared_ok))
        (start 1 none "t6" started.0 started_ok))
      granted_once-IsJournal

finished : DeliveryRecord × Db
unfolding started
finished = value (blank_record, empty_db) (complete_action started.1 1 null none none "t8")

finished_ok : complete_action started.1 1 null none none "t8" ≡ ok (finished.0, finished.1)
unfolding finished
finished_ok = refl

remaining_complete_example :
    remaining_actions finished.0
    ≡ select
        (λ k. not (commit == k))
        (remaining_actions
          (with_children started.1 (record granted_once.0.row { version = 4; updated_at = "t6" })))
unfolding finished
remaining_complete_example =
    remaining_complete started.1 1 null none none "t8" _ started.0 (omega arith) refl refl
      finished_ok

purge_lem_example :
    (select (of_task 7) (delete_task_deliveries_on started.1 7).1.deliveries ≡ [])
    × (select (λ c. c.task_id == 7) (delete_task_deliveries_on started.1 7).1.candidates ≡ [])
    × ((u : ℕ)
        → u ≢ 7
        → select (of_task u) (delete_task_deliveries_on started.1 7).1.deliveries
          ≡ select (of_task u) started.1.deliveries)
    × ((u : ℕ)
        → u ≢ 7
        → select (λ c. c.task_id == u) (delete_task_deliveries_on started.1 7).1.candidates
          ≡ select (λ c. c.task_id == u) started.1.candidates)
    × ((i : ℕ)
        → contains (task_ids started.1 7) i ≡ true
        → (actions_of (delete_task_deliveries_on started.1 7).1 i ≡ [])
          × (decisions_of (delete_task_deliveries_on started.1 7).1 i ≡ []))
    × ((i : ℕ)
        → contains (task_ids started.1 7) i ≡ false
        → (actions_of (delete_task_deliveries_on started.1 7).1 i ≡ actions_of started.1 i)
          × (decisions_of (delete_task_deliveries_on started.1 7).1 i ≡ decisions_of started.1 i))
    × ((p : String)
        → contains (delete_task_deliveries_on started.1 7).0 p
          ≡ any (names_path p) (select (λ c. c.task_id == 7) started.1.candidates))
purge_lem_example = purge_lem started.1 7

-- A delivery with one of the two workflow links counts as granted before the upgrade.
abbrev boundary : AuthorityBoundary
boundary = record { max_delivery_id = 1; max_action_id = 0; recorded_at = "t" }

test_half_linked :
    is_pre_upgrade_grant
      (some boundary)
      (record granted_once.0 { row = record granted_once.0.row { workflow_choice_id = none } })
    ≡ true
unfolding granted_once is_pre_upgrade_grant workflow_authorized
test_half_linked = refl

abbrev candidate : Candidate
candidate = record {
  candidate_id = "cand";
  task_id = 7;
  base_branch = "main";
  base_commit = "b0";
  original_head = "h0";
  tree_id = "tree";
  source_commits = [];
  dirty = false;
  storage_path = some "/store/1";
  created_at = "t";
}

-- The candidate is known, and captured again at another HEAD and in another place.
abbrev holding : Db
holding = record empty_db { candidates = candidate ∷ [] }

abbrev recapture : Candidate
recapture = record candidate { original_head = "h1"; storage_path = some "/elsewhere" }

record_candidate_total_example :
    (r : Candidate) × (db' : Db) × (record_candidate holding recapture ≡ ok (r, db'))
    × (get_candidate db' "cand" ≡ some r)
    × ((k : String) → k ≢ "cand" → get_candidate db' k ≡ get_candidate holding k)
    × Recorded holding recapture r db'
record_candidate_total_example = record_candidate_total holding recapture
