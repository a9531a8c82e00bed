-- ===== src/Tasks/Leases.antt =====
-- app/tasks/service.py: `acquire_lease`, `heartbeat` and `mark_verification_unknown`, the calls that
-- write under a lease or a stage and not through the transition table.
use nsfwtrack.Base.{
  ℕ, ◌+◌, String, Bool, false, not, ◌&&◌, ◌||◌, Option, none, some, leb, ltb, ◌==◌, str_eq,
  if◌then◌else◌, is_none, or_else,
}
use nsfwtrack.Tasks.Contracts.{
  running, succeeded, outcome_unknown, invalid_request, version_conflict, lease_conflict, state_eq,
}
use nsfwtrack.Tasks.Text.{safe_key, safe_code}
use nsfwtrack.Tasks.Store.{
  OperationTask, TaskEvent, Db, Result, ok, err, fault, update_rows, count_rows, add_event,
}
use nsfwtrack.Tasks.Service.{seconds, get, clear_lease}

-- `lease_owner == owner`, which SQL takes for false where the column is null.
abbrev pub owned_by : String → OperationTask → Bool
owned_by owner t = elim t.lease_owner [ none ↦ false | some o ↦ str_eq o owner ]

abbrev expired : ℕ → OperationTask → Bool
expired now t = elim t.lease_expires_at [ none ↦ false | some e ↦ leb e now ]

abbrev live : ℕ → OperationTask → Bool
live now t = elim t.lease_expires_at [ none ↦ false | some e ↦ ltb now e ]

-- `not 5 <= ttl_seconds <= 300`
abbrev bad_ttl : ℕ → Bool
bad_ttl ttl = ltb ttl 5 || ltb 300 ttl

-- The `WHERE` clause of `acquire_lease`.
unfoldable pub lease_where : ℕ → ℕ → String → ℕ → OperationTask → Bool
lease_where now task_id owner expected_version t =
    t.id == task_id
    && t.version == expected_version
    && state_eq t.state running
    && not t.cancel_requested
    && (is_none t.lease_expires_at || expired now t || owned_by owner t)

-- Its `SET` clause.
unfoldable pub leased : ℕ → String → ℕ → OperationTask → OperationTask
leased now owner ttl t = record t {
  lease_owner = some owner;
  lease_generation = t.lease_generation + 1;
  lease_started_at = some now;
  lease_heartbeat_at = some now;
  lease_expires_at = some (now + seconds ttl);
  updated_at = now;
}

-- The end of a call: `if rowcount != 1: raise`, and otherwise the row as it is read again.
unfoldable pub write_lease :
    ℕ → (OperationTask → Bool) → (OperationTask → OperationTask) → Db → Result OperationTask × Db
unfolding get
write_lease task_id hit f db =
    if count_rows hit db.tasks == 1
    then (
      get task_id (record db { tasks = update_rows hit f db.tasks }),
      record db { tasks = update_rows hit f db.tasks },
    )
    else (err lease_conflict, db)

-- `acquire_lease`
unfoldable pub acquire_lease : ℕ → (Db → Db) → ℕ → String → ℕ → ℕ → Db → Result OperationTask × Db
acquire_lease now other task_id owner expected_version ttl db = elim (get task_id db) [
  | err e ↦ (err e, db)
  | fault ↦ (fault, db)
  | ok task ↦
      if not (task.version == expected_version)
        || not (state_eq task.state running)
        || not (safe_key owner)
        || bad_ttl ttl
      then (err lease_conflict, db)
      else write_lease task_id (lease_where now task_id owner expected_version)
          (leased now owner ttl) (other db)
]

-- The arguments of `heartbeat`.
pub record Beat : Type 0 where
  pub task_id : ℕ
  pub owner : String
  pub generation : ℕ
  pub ttl_seconds : ℕ
  pub bytes_processed : Option ℕ
  pub stage : Option String

abbrev bad_stage : Option String → Bool
bad_stage none = false
bad_stage (some stage) = not (safe_code stage)

-- The guard of `heartbeat`.
bad_beat : Beat → Bool
bad_beat b =
    ltb b.task_id 1
    || not (safe_key b.owner)
    || ltb b.generation 1
    || bad_ttl b.ttl_seconds
    || bad_stage b.stage

unfoldable pub beat_where : ℕ → Beat → OperationTask → Bool
beat_where now b t =
    t.id == b.task_id
    && state_eq t.state running
    && owned_by b.owner t
    && t.lease_generation == b.generation
    && live now t
    && not t.cancel_requested

unfoldable pub beaten : ℕ → Beat → OperationTask → OperationTask
beaten now b t = record t {
  lease_heartbeat_at = some now;
  lease_expires_at = some (now + seconds b.ttl_seconds);
  updated_at = now;
  bytes_processed = or_else b.bytes_processed t.bytes_processed;
  stage = or_else b.stage t.stage;
}

-- `heartbeat`
unfoldable pub heartbeat : ℕ → Beat → Db → Result OperationTask × Db
unfolding bad_beat
heartbeat now b db =
    if bad_beat b
    then (err lease_conflict, db)
    else write_lease b.task_id (beat_where now b) (beaten now b) db

unfoldable pub unknown_where : ℕ → ℕ → String → OperationTask → Bool
unknown_where task_id expected_version expected_stage t =
    t.id == task_id
    && t.version == expected_version
    && state_eq t.state succeeded
    && str_eq t.stage expected_stage

unfoldable pub made_unknown : ℕ → ℕ → OperationTask → OperationTask
made_unknown now expected_version t = clear_lease (record t {
  state = outcome_unknown;
  stage = "verification_unknown";
  version = expected_version + 1;
  error_code = some "outcome_unknown";
  error_detail = none;
  updated_at = now;
  finished_at = some now;
})

abbrev pub unknown_event : ℕ → ℕ → ℕ → String → TaskEvent
unknown_event now i v event_type = record {
  task_id = i;
  version = v + 1;
  event_type = event_type;
  from_state = some succeeded;
  to_state = outcome_unknown;
  error_code = some "outcome_unknown";
  created_at = now;
}

-- `return self.get(task_id)` after the event is written.
unfoldable pub reread : ℕ → Result OperationTask × Db → Result OperationTask × Db
reread i (ok _, db) = (get i db, db)
reread i (err e, db) = (err e, db)
reread i (fault, db) = (fault, db)

-- `mark_verification_unknown`
unfoldable pub mark_verification_unknown :
    ℕ → ℕ → ℕ → String → String → Db → Result OperationTask × Db
mark_verification_unknown now task_id expected_version expected_stage event_type db =
    if ltb task_id 1
      || ltb expected_version 1
      || not (safe_code expected_stage)
      || not (safe_code event_type)
    then (err invalid_request, db)
    else let hit = unknown_where task_id expected_version expected_stage in
      if count_rows hit db.tasks == 1
      then reread task_id (
          add_event (unknown_event now task_id expected_version event_type) db
            (record db { tasks = update_rows hit (made_unknown now expected_version) db.tasks }))
      else (err version_conflict, db)
