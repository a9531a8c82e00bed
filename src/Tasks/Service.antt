-- ===== src/Tasks/Service.antt =====
-- app/tasks/service.py, `PersistentTaskService`. A call takes the clock's reading and the tables,
-- and returns its result with the tables after it. Where a call reads first and writes later,
-- `other` is what other sessions commit in between.
use nsfwtrack.Base.{
  ℕ, ◌+◌, ◌*◌, String, Bool, true, false, not, ◌&&◌, ◌||◌, Option, none, some, [], ◌∷◌, ◌++◌, leb,
  ltb, ◌==◌, str_eq, if◌then◌else◌, or_else, any, find, length, codes,
}
use nsfwtrack.Tasks.Contracts.{
  TaskType, TaskState, TaskErrorCode, queued, running, paused, cancelling, succeeded, blocked,
  invalid_request, not_found, version_conflict, invalid_transition, concurrency_limit, is_closed,
  can_transition, state_eq,
}
use nsfwtrack.Tasks.Text.{Text, safe_key, safe_code, safe_error}
use nsfwtrack.Tasks.Store.{
  OperationTask, TaskEvent, Db, Result, ok, err, fault, update_rows, count_rows, has_id,
  running_others, find_row, add_event,
}

-- The service object, with the library functions that it calls.
pub record Service : Type 0 where
  pub max_concurrency : ℕ
  pub casefold : Text → Text
  pub sha256 : String → String

-- `__init__` accepts a limit of 1 to 32.
pub valid_limit : ℕ → Bool
valid_limit n = leb 1 n && leb n 32

-- Times are whole microseconds.
abbrev pub seconds : ℕ → ℕ
seconds n = n * 1_000_000

-- `identity_hash(value) if value else None`
unfoldable pub identity : Service → Option String → Result (Option String)
identity s none = ok none
identity s (some value) =
    if str_eq value ""
    then ok none
    else if ltb 2048 (length (codes value))
    then err invalid_request
    else ok (some (s.sha256 value))

-- The columns that a caller of `create` gives.
pub record NewTask : Type 0 where
  pub task_type : TaskType
  pub intent_key : String
  pub initial_state : TaskState
  pub item_id : Option ℕ
  pub source_id : Option ℕ
  pub provider_key : Option String
  pub external_identity : Option String
  pub asset_identity : Option String
  pub relative_target : Option String
  pub snapshot_hash : Option String

abbrev pub fresh_row : ℕ → ℕ → NewTask → Option String → Option String → OperationTask
fresh_row now i n external asset = record {
  id = i;
  task_type = n.task_type;
  state = n.initial_state;
  version = 1;
  intent_key = n.intent_key;
  item_id = n.item_id;
  source_id = n.source_id;
  provider_key = n.provider_key;
  external_identity_hash = external;
  asset_identity_hash = asset;
  relative_target = n.relative_target;
  snapshot_hash = n.snapshot_hash;
  stage = "planned";
  bytes_processed = 0;
  expected_bytes = none;
  mime_type = none;
  sha256 = none;
  error_code = none;
  error_detail = none;
  attempt_count = 0;
  cancel_requested = false;
  lease_owner = none;
  lease_generation = 0;
  lease_started_at = none;
  lease_heartbeat_at = none;
  lease_expires_at = none;
  created_at = now;
  updated_at = now;
  started_at = none;
  finished_at = none;
}

-- `initial_state in {RUNNING, CANCELLING, SUCCEEDED}`
abbrev pub refused_initially : TaskState → Bool
refused_initially running = true
refused_initially cancelling = true
refused_initially succeeded = true
refused_initially _ = false

abbrev pub has_key : String → OperationTask → Bool
has_key k t = str_eq t.intent_key k

abbrev pub created_event : ℕ → ℕ → TaskState → TaskEvent
created_event now i state = record {
  task_id = i;
  version = 1;
  event_type = "created";
  from_state = none;
  to_state = state;
  error_code = none;
  created_at = now;
}

unfoldable pub mark_created : Result OperationTask × Db → Result (OperationTask × Bool) × Db
mark_created (ok task, db) = (ok (task, true), db)
mark_created (err e, db) = (err e, db)
mark_created (fault, db) = (fault, db)

-- The two inserts of `create`; the table's constraints are the unique key, the unique id and the
-- unique event.
unfoldable pub insert_row : ℕ → OperationTask → Db → Result (OperationTask × Bool) × Db
insert_row now row db =
    if any (has_key row.intent_key) db.tasks || any (has_id row.id) db.tasks
    then (fault, db)
    else mark_created (
        add_event (created_event now row.id row.state) db
          (record db { tasks = db.tasks ++ row ∷ [] }))

unfoldable pub insert_task : Service → ℕ → ℕ → NewTask → Db → Result (OperationTask × Bool) × Db
insert_task s now new_id n db = elim (identity s n.external_identity) [
  | err e ↦ (err e, db)
  | fault ↦ (fault, db)
  | ok external ↦ elim (identity s n.asset_identity) [
    | err e ↦ (err e, db)
    | fault ↦ (fault, db)
    | ok asset ↦ insert_row now (fresh_row now new_id n external asset) db
  ]
]

-- `create`. `new_id` is the id that the database gives the row; the key is looked up in `db`, and the
-- row is inserted into what other sessions have made of it.
unfoldable pub create :
    Service → ℕ → (Db → Db) → ℕ → NewTask → Db → Result (OperationTask × Bool) × Db
create s now other new_id n db =
    if refused_initially n.initial_state || not (safe_key n.intent_key)
    then (err invalid_request, db)
    else elim (find (has_key n.intent_key) db.tasks) [
      | some existing ↦ (ok (existing, false), db)
      | none ↦ insert_task s now new_id n (other db)
    ]

-- `get`
unfoldable pub get : ℕ → Db → Result OperationTask
unfolding find_row
get task_id db =
    if ltb task_id 1
    then err invalid_request
    else elim (find_row task_id db.tasks) [ none ↦ err not_found | some task ↦ ok task ]

abbrev pub clear_lease : OperationTask → OperationTask
clear_lease t = record t {
  lease_owner = none;
  lease_started_at = none;
  lease_heartbeat_at = none;
  lease_expires_at = none;
}

-- The arguments of `transition`.
pub record Move : Type 0 where
  pub task_id : ℕ
  pub target : TaskState
  pub expected_version : ℕ
  pub event_type : String
  pub error_code : Option String
  pub error_detail : Option Text

-- The exception that the checks before the statement raise, on the row as it was read.
unfoldable pub refusal : Service → Move → OperationTask → Db → Option TaskErrorCode
refusal s m task db =
    if ltb m.expected_version 1 || not (safe_code m.event_type)
    then some invalid_request
    else if not (task.version == m.expected_version)
    then some version_conflict
    else if not (can_transition task.state m.target)
    then some invalid_transition
    else if state_eq m.target running && leb s.max_concurrency (running_others task.id db.tasks)
    then some concurrency_limit
    else none

started : Bool → ℕ → OperationTask → OperationTask → OperationTask
started false now task t = t
started true now task t = record t {
  started_at = some (or_else task.started_at now);
  attempt_count = task.attempt_count + 1;
}

unleased : Bool → OperationTask → OperationTask
unleased false t = t
unleased true t = clear_lease t

requeued : Bool → OperationTask → OperationTask
requeued false t = t
requeued true t = record t { finished_at = none; cancel_requested = false }

finished : Bool → ℕ → OperationTask → OperationTask
finished false now t = t
finished true now t = clear_lease (record t { finished_at = some now })

-- `target in {PAUSED, BLOCKED, QUEUED}`
abbrev parks : TaskState → Bool
parks paused = true
parks blocked = true
parks queued = true
parks _ = false

-- The `SET` clause, `values`: `task` is the row as it was read, `t` the row that is written.
unfoldable pub transition_values :
    ℕ → OperationTask → TaskState → Option String × Option Text → OperationTask → OperationTask
unfolding started unleased requeued finished
transition_values now task target (safe_code', safe_detail) t =
    let moved = record t {
      state = target;
      version = task.version + 1;
      updated_at = now;
      error_code = safe_code';
      error_detail = safe_detail;
    } in
    finished (is_closed target) now (
      requeued (state_eq target queued)
        (unleased (parks target) (started (state_eq target running) now task moved)))

-- The `WHERE` clause.
unfoldable pub transition_where : Service → Move → OperationTask → Db → OperationTask → Bool
transition_where s m task db t =
    t.id == task.id
    && t.version == m.expected_version
    && state_eq t.state task.state
    && (if state_eq m.target running
        then ltb (running_others task.id db.tasks) s.max_concurrency
        else true)

-- The statement and what follows it, on the tables as the statement finds them.
unfoldable pub commit_transition :
    Service → ℕ → Move → OperationTask → Db → Result OperationTask × Db
commit_transition s now m task db =
    let safe = safe_error s.casefold m.error_code m.error_detail in
    let hit = transition_where s m task db in
    if count_rows hit db.tasks == 1
    then add_event
        (record {
          task_id = task.id;
          version = task.version + 1;
          event_type = m.event_type;
          from_state = some task.state;
          to_state = m.target;
          error_code = safe.0;
          created_at = now;
        })
        db
        (record db { tasks = update_rows hit (transition_values now task m.target safe) db.tasks })
    else (
      err (
          if state_eq m.target running && leb s.max_concurrency (running_others task.id db.tasks)
          then concurrency_limit
          else version_conflict),
      db,
    )

-- `transition`
unfoldable pub transition : Service → ℕ → (Db → Db) → Move → Db → Result OperationTask × Db
transition s now other m db = elim (get m.task_id db) [
  | err e ↦ (err e, db)
  | fault ↦ (fault, db)
  | ok task ↦ elim (refusal s m task db) [
    | some e ↦ (err e, db)
    | none ↦ commit_transition s now m task (other db)
  ]
]
