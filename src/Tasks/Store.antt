-- ===== src/Tasks/Store.antt =====
-- app/models.py, `OperationTask` and `TaskEvent`, and the tables as a session sees them: rows in a
-- list, `UPDATE … WHERE` as a map over it, and the result of a call of the service.
use nsfwtrack.Base.{
  ℕ, ◌+◌, String, Bool, true, false, ◌&&◌, Option, none, some, List, [], ◌∷◌, ◌++◌, ◌==◌,
  if◌then◌else◌, any, find,
}
use nsfwtrack.Tasks.Contracts.{TaskType, TaskState, TaskErrorCode, running, state_eq}
use nsfwtrack.Tasks.Text.{Text}

pub record OperationTask : Type 0 where
  pub id : ℕ
  pub task_type : TaskType
  pub state : TaskState
  pub version : ℕ
  pub intent_key : String
  pub item_id : Option ℕ
  pub source_id : Option ℕ
  pub provider_key : Option String
  pub external_identity_hash : Option String
  pub asset_identity_hash : Option String
  pub relative_target : Option String
  pub snapshot_hash : Option String
  pub stage : String
  pub bytes_processed : ℕ
  pub expected_bytes : Option ℕ
  pub mime_type : Option String
  pub sha256 : Option String
  pub error_code : Option String
  pub error_detail : Option Text
  pub attempt_count : ℕ
  pub cancel_requested : Bool
  pub lease_owner : Option String
  pub lease_generation : ℕ
  pub lease_started_at : Option ℕ
  pub lease_heartbeat_at : Option ℕ
  pub lease_expires_at : Option ℕ
  pub created_at : ℕ
  pub updated_at : ℕ
  pub started_at : Option ℕ
  pub finished_at : Option ℕ

pub record TaskEvent : Type 0 where
  pub task_id : ℕ
  pub version : ℕ
  pub event_type : String
  pub from_state : Option TaskState
  pub to_state : TaskState
  pub error_code : Option String
  pub created_at : ℕ

-- `asset_tasks` holds the task ids that rows of `item_local_assets` name.
pub record Db : Type 0 where
  pub tasks : List OperationTask
  pub events : List TaskEvent
  pub asset_tasks : List ℕ

-- `fault` is an exception of the database layer: a unique constraint that fails, a refresh of a
-- row that is not there.
pub data Result (A : Type 0) : Type 0 where
  ok : A → Result A
  err : TaskErrorCode → Result A
  fault : Result A

abbrev pub is_ok : {A : Type 0} → Result A → Bool
is_ok (ok _) = true
is_ok (err _) = false
is_ok fault = false

-- `UPDATE … WHERE p` over the rows of a table.
unfoldable pub update_rows :
    (OperationTask → Bool)
    → (OperationTask → OperationTask)
    → List OperationTask
    → List OperationTask
update_rows p f [] = []
update_rows p f (t ∷ ts) = (if p t then f t else t) ∷ update_rows p f ts

-- `rowcount`, and `SELECT count(*) … WHERE p`.
unfoldable pub count_rows : (OperationTask → Bool) → List OperationTask → ℕ
count_rows p [] = 0
count_rows p (t ∷ ts) = (if p t then 1 else 0) + count_rows p ts

abbrev pub has_id : ℕ → OperationTask → Bool
has_id i t = t.id == i

abbrev pub is_running : OperationTask → Bool
is_running t = state_eq t.state running

-- The running tasks other than the one at hand.
abbrev pub running_others : ℕ → List OperationTask → ℕ
running_others i = count_rows (λ t. is_running t && (if t.id == i then false else true))

unfoldable pub find_row : ℕ → List OperationTask → Option OperationTask
find_row i ts = find (has_id i) ts

-- The unique constraint on `(task_id, version)`.
abbrev pub same_entry : TaskEvent → TaskEvent → Bool
same_entry e f = e.task_id == f.task_id && e.version == f.version

-- `db.add(event); db.flush(); db.refresh(task)`: `before` is the store that a fault leaves behind.
unfoldable pub add_event : TaskEvent → Db → Db → Result OperationTask × Db
unfolding find_row
add_event e before db =
    if any (same_entry e) db.events then (fault, before) else elim (find_row e.task_id db.tasks) [
      | none ↦ (fault, before)
      | some task ↦ (ok task, record db { events = db.events ++ e ∷ [] })
    ]
