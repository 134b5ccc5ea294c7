-- ===== src/Ships/Authority.antt =====
-- registry/ships.py: opening a delivery, and the confirmations that give it authority.
use ompire.Base.{
  Bool, List, Option, Result, String, [], any, err, find, guard, if◌then◌else◌, is, is_some, length,
  ltb, max_of, none, not, ok, or_fail, some, true, ℕ, ◌&&◌, ◌++◌, ◌+◌, ◌==◌, ◌>>=◌, ◌>>◌, ◌||◌, ◌∷◌,
  string_eq, ℕ_eq,
}
use ompire.Json.{
  Fields, Items, Json, arr, bool, cons, end, field, get_field, int, nil, null, obj, str,
  text_or_null,
}
use ompire.Base.Int.{pos, ℤ_eq}
use ompire.Ships.Rows.{
  Action, Decision, Delivery, DeliveryRecord, Kind, Mode, Phase, action, authorize, authorized,
  ending_actions, extend, is_extend, is_succeeded, is_unresolved, kind_text, mode_text, open_draft,
  parse_decision, parse_disposition, parse_kind, parse_mode, retry, Kind_eq,
}
use ompire.Ships.Tables.{
  Conflict, Db, action_settled, actions_of, active_row, add_decision, already_authorized, bump,
  committed, decisions_of, extended_with_other_inputs, find_delivery, never_authorized,
  next_version, no_such_delivery, not_further, of_task, request_key_taken, unknown_decision,
  unknown_disposition, unsupported_ending, unsupported_mode, version_changed, with_children,
}

abbrev pub blank_delivery : ℕ → ℕ → ℕ → Option String → String → Delivery
blank_delivery i task v revision now = record {
  id = i;
  task_id = task;
  version = v;
  workflow_revision = revision;
  candidate_id = none;
  review_candidate_id = none;
  mode = none;
  ending = none;
  commit_message = none;
  pr_title = none;
  pr_body = none;
  routing = none;
  identity = none;
  authorized_at = none;
  authorized_by = none;
  request_key = none;
  input_fingerprint = none;
  draft = none;
  disposition = open_draft;
  blocked_reason = none;
  created_at = now;
  updated_at = now;
  workflow_gate_seq = none;
  workflow_choice_id = none;
  review_seq = none;
}

-- The id of the row that `open_delivery` inserts.
abbrev pub fresh_id : Db → ℕ
fresh_id db = max_of (λ d. d.id) db.deliveries + 1

-- The task's non-terminal delivery, or a new one that authorizes nothing.
unfoldable pub open_delivery :
    Db → ℕ → Option String → String → Result Conflict (DeliveryRecord × Db)
unfolding active_row next_version
open_delivery db task revision now = elim (active_row db task) [
  | some d ↦ committed db d.id
  | none ↦
      let row = blank_delivery (fresh_id db) task (next_version db task) revision now in
      committed (record db { deliveries = db.deliveries ++ row ∷ [] }) row.id
]

unfoldable pub save_draft : Db → ℕ → Option Json → String → Result Conflict (DeliveryRecord × Db)
save_draft db i draft now = do
  db' ← bump db i now (λ d. record d { draft = draft })
  committed db' i

-- The arguments of `authorize_delivery_in` that it stores.
pub record Confirmation : Type 0 where
  pub candidate_id : String
  pub review_candidate_id : Option String
  pub mode : String
  pub ending : String
  pub commit_message : Option String
  pub pr_title : Option String
  pub pr_body : Option String
  pub routing : Json
  pub identity : Json
  pub request_key : String
  pub input_fingerprint : String
  pub authorized_by : String
  pub workflow_gate_seq : Option ℕ
  pub workflow_choice_id : Option String
  pub review_seq : Option ℕ

abbrev number_or_null : Option ℕ → Json
number_or_null none = null
number_or_null (some n) = int (pos n)

abbrev action_items : List Kind → Items
action_items [] = nil
action_items (k ∷ ks) = cons (str (kind_text k)) (action_items ks)

-- The values that an authorization writes to the row, but for the workflow links.
abbrev pub confirmed : Confirmation → Mode → Kind → String → Delivery → Delivery
confirmed c mode ending now d = record d {
  candidate_id = some c.candidate_id;
  review_candidate_id = c.review_candidate_id;
  mode = some mode;
  ending = some ending;
  commit_message = c.commit_message;
  pr_title = c.pr_title;
  pr_body = c.pr_body;
  routing = some c.routing;
  identity = some c.identity;
  authorized_at = some now;
  authorized_by = some c.authorized_by;
  request_key = some c.request_key;
  input_fingerprint = some c.input_fingerprint;
  disposition = authorized;
  blocked_reason = none;
}

abbrev pub linked : Confirmation → Delivery → Delivery
linked c d = record d {
  workflow_gate_seq = c.workflow_gate_seq;
  workflow_choice_id = c.workflow_choice_id;
  review_seq = c.review_seq;
}

abbrev confirmation_fields : Confirmation → Mode → Kind → Fields → Fields
confirmation_fields c mode ending rest = field "ending" (str (kind_text ending)) (
    field "mode" (str (mode_text mode)) (
      field "candidate_id" (str c.candidate_id) (
        field "review_candidate_id" (text_or_null c.review_candidate_id)
          (field "actions" (arr (action_items (ending_actions ending))) rest))))

abbrev authorize_detail : Confirmation → Mode → Kind → Json
authorize_detail c mode ending = obj (
    confirmation_fields c mode ending (
      field "workflow_gate_seq" (number_or_null c.workflow_gate_seq) (
        field "workflow_choice_id" (text_or_null c.workflow_choice_id)
          (field "review_seq" (number_or_null c.review_seq) end))))

-- `expected_version is not None and row.version != expected_version`, negated.
abbrev pub version_matches : Option ℕ → ℕ → Bool
version_matches none v = true
version_matches (some e) v = v == e

-- Another delivery of the task that carries the request key.
unfoldable pub key_taken : Db → Delivery → String → Bool
key_taken db row key =
    any (λ d. of_task row.task_id d && (is d.request_key key && not (d.id == row.id))) db.deliveries

-- The write of a first authorization.
unfoldable pub grant :
    Db → Delivery → Confirmation → Mode → Kind → String → Result Conflict (DeliveryRecord × Db)
grant db row c mode ending now = do
  db' ← bump db row.id now (λ d. linked c (confirmed c mode ending now d))
  committed
      (add_decision db' row.id none authorize (some (authorize_detail c mode ending)) none now)
      row.id

unfoldable pub is_replay : Delivery → Confirmation → Bool
is_replay row c = is row.request_key c.request_key && is row.input_fingerprint c.input_fingerprint

-- `authorize_delivery_in` once the mode and the ending are known and the row is found.
unfoldable pub authorize_row :
    Db
    → Delivery
    → Option ℕ
    → Confirmation
    → Mode
    → Kind
    → String
    → Result Conflict (DeliveryRecord × Db)
authorize_row db row expected c mode ending now =
    if is_some row.authorized_at
    then if is_replay row c then ok (with_children db row, db) else err already_authorized
    else (do
      guard (version_matches expected row.version) (version_changed row.version)
      guard (not (key_taken db row c.request_key)) request_key_taken
      grant db row c mode ending now)

unfoldable pub authorize_delivery_in :
    Db → ℕ → Option ℕ → Confirmation → String → Result Conflict (DeliveryRecord × Db)
authorize_delivery_in db i expected c now = do
  mode ← or_fail (parse_mode c.mode) (unsupported_mode c.mode)
  ending ← or_fail (parse_kind c.ending) (unsupported_ending c.ending)
  row ← or_fail (find_delivery db i) (no_such_delivery i)
  authorize_row db row expected c mode ending now

abbrev pub is_settled : Phase → Bool
is_settled p = is_succeeded p || is_unresolved p

abbrev reauthorize_detail : Confirmation → Mode → Kind → Json
reauthorize_detail c mode ending =
    obj (confirmation_fields c mode ending (field "replaces_refused_attempt" (bool true) end))

-- The first attempt of the delivery that has succeeded, runs, or has an unknown outcome.
unfoldable pub settled_action : Db → ℕ → Option Action
unfolding actions_of
settled_action db i = find (λ a. is_settled a.phase) (actions_of db i)

-- The write of a confirmation that replaces a refused one.
unfoldable pub regrant :
    Db → ℕ → Confirmation → Mode → Kind → String → Result Conflict (DeliveryRecord × Db)
regrant db i c mode ending now = do
  db' ← bump db i now (confirmed c mode ending now)
  committed (add_decision db' i none authorize (some (reauthorize_detail c mode ending)) none now) i

unfoldable pub reauthorize_delivery :
    Db → ℕ → ℕ → Confirmation → String → Result Conflict (DeliveryRecord × Db)
reauthorize_delivery db i expected c now = do
  mode ← or_fail (parse_mode c.mode) (unsupported_mode c.mode)
  ending ← or_fail (parse_kind c.ending) (unsupported_ending c.ending)
  row ← or_fail (find_delivery db i) (no_such_delivery i)
  elim (settled_action db i) [
    | some a ↦ err (action_settled a.phase)
    | none ↦ (do
      guard (row.version == expected) (version_changed row.version)
      regrant db i c mode ending now)
  ]

abbrev ending_text : Option Kind → Json
ending_text none = null
ending_text (some k) = str (kind_text k)

unfoldable pub resume_delivery :
    Db → ℕ → ℕ → String → String → String → Result Conflict (DeliveryRecord × Db)
unfolding find_delivery
resume_delivery db i expected key fingerprint now = do
  row ← or_fail (find_delivery db i) (no_such_delivery i)
  guard (row.version == expected) (version_changed row.version)
  db' ← bump db i now (λ d. record d { disposition = authorized; blocked_reason = none })
  committed
      (add_decision db' i none retry
        (some (
          obj (
            field "request_key" (str key) (
              field "input_fingerprint" (str fingerprint)
                (field "ending" (ending_text row.ending) end)))))
        none now)
      i

-- The arguments of `extend_delivery` that it stores.
pub record Extension : Type 0 where
  pub ending : String
  pub pr_title : Option String
  pub pr_body : Option String
  pub request_key : String
  pub input_fingerprint : String
  pub identity : Json

-- `detail.get(key)` of a decision's detail, where `None` stands for `{}`.
abbrev pub detail_text : String → Option Json → Option String
detail_text key (some (obj fs)) = elim (get_field key fs) [ some (str t) ↦ some t | _ ↦ none ]
detail_text key _ = none

-- The first `extend` decision that carries the request key.
abbrev pub replayed_extension : String → List Decision → Option Decision
replayed_extension key ds =
    find (λ d. is_extend d.kind && is (detail_text "request_key" d.detail) key) ds

abbrev pub rank : Kind → ℕ
rank k = length (ending_actions k)

abbrev pub keep_or_set : Option String → Option String → Option String
keep_or_set none old = old
keep_or_set (some t) old = some t

abbrev pub extended : Extension → Kind → Delivery → Delivery
extended x ending d = record d {
  ending = some ending;
  disposition = authorized;
  blocked_reason = none;
  identity = some x.identity;
  pr_title = keep_or_set x.pr_title d.pr_title;
  pr_body = keep_or_set x.pr_body d.pr_body;
}

abbrev extend_detail : Extension → Kind → Json
extend_detail x ending = obj (
    field "ending" (str (kind_text ending)) (
      field "request_key" (str x.request_key) (
        field "input_fingerprint" (str x.input_fingerprint)
          (field "actions" (arr (action_items (ending_actions ending))) end))))

-- The write of an extension.
unfoldable pub append_authority :
    Db → ℕ → Extension → Kind → String → Result Conflict (DeliveryRecord × Db)
append_authority db i x ending now = do
  db' ← bump db i now (extended x ending)
  committed (add_decision db' i none extend (some (extend_detail x ending)) none now) i

-- `extend_delivery` once the ending is known and the authorized row is found.
unfoldable pub extend_row :
    Db → ℕ → Delivery → ℕ → Extension → Kind → Kind → String → Result Conflict (DeliveryRecord × Db)
extend_row db i row expected x old ending now =
    elim (replayed_extension x.request_key (decisions_of db i)) [
      | some d ↦
          if is (detail_text "input_fingerprint" d.detail) x.input_fingerprint
          then ok (with_children db row, db)
          else err extended_with_other_inputs
      | none ↦ (do
        guard (row.version == expected) (version_changed row.version)
        guard (ltb (rank old) (rank ending)) not_further
        append_authority db i x ending now)
    ]

unfoldable pub extend_delivery :
    Db → ℕ → ℕ → Extension → String → Result Conflict (DeliveryRecord × Db)
extend_delivery db i expected x now = do
  ending ← or_fail (parse_kind x.ending) (unsupported_ending x.ending)
  row ← or_fail (find_delivery db i) (no_such_delivery i)
  old ← or_fail row.ending never_authorized
  extend_row db i row expected x old ending now

unfoldable pub set_disposition :
    Db → ℕ → String → Option String → String → Result Conflict (DeliveryRecord × Db)
unfolding parse_disposition
set_disposition db i text reason now = do
  disposition ← or_fail (parse_disposition text) (unknown_disposition text)
  db' ← bump db i now (λ d. record d { disposition = disposition; blocked_reason = reason })
  committed db' i

unfoldable pub append_decision :
    Db
    → ℕ
    → String
    → Option ℕ
    → Option Json
    → Option String
    → String
    → Result Conflict (DeliveryRecord × Db)
unfolding parse_decision
append_decision db i text action detail note now = do
  kind ← or_fail (parse_decision text) (unknown_decision text)
  db' ← bump (add_decision db i action kind detail note now) i now (λ d. d)
  committed db' i
