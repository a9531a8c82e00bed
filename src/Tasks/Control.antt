-- ===== src/Tasks/Control.antt =====
-- app/tasks/service.py: `request_cancel`, `retry`, `recover_interrupted`, `delete_history` and
-- `cleanup_history`.
use nsfwtrack.Base.{
  ℕ, ◌+◌, ◌*◌, String, Bool, true, false, not, ◌&&◌, ◌||◌, none, some, List, [], ◌∷◌, leb, ltb,
  ◌==◌, if◌then◌else◌, any, filter, length, take, map, member, codes,
}
use nsfwtrack.Tasks.Contracts.{
  TaskState, queued, running, paused, cancelling, cancelled, succeeded, failed, blocked,
  outcome_unknown, invalid_request, invalid_transition, retry_not_safe, history_not_deletable,
  is_closed, state_eq,
}
use nsfwtrack.Tasks.Text.{Text}
use nsfwtrack.Tasks.Store.{
  OperationTask, TaskEvent, Db, Result, ok, err, fault, update_rows, has_id,
}
use nsfwtrack.Tasks.Service.{Service, Move, seconds, get, transition}

abbrev pub plain_move : ℕ → TaskState → ℕ → String → Move
plain_move task_id target expected_version event_type = record {
  task_id = task_id;
  target = target;
  expected_version = expected_version;
  event_type = event_type;
  error_code = none;
  error_detail = none;
}

abbrev pub flagged : OperationTask → OperationTask
flagged t = record t { cancel_requested = true }

-- The pending attribute write is in the session's view of the row, also after a raise.
unfoldable pub flag_cancel : ℕ → Result OperationTask × Db → Result OperationTask × Db
flag_cancel task_id (ok task, db) =
    (ok (flagged task), record db { tasks = update_rows (has_id task_id) flagged db.tasks })
flag_cancel task_id (err e, db) =
    (err e, record db { tasks = update_rows (has_id task_id) flagged db.tasks })
flag_cancel task_id (fault, db) =
    (fault, record db { tasks = update_rows (has_id task_id) flagged db.tasks })

abbrev pub cancel_target : TaskState → TaskState
cancel_target running = cancelling
cancel_target _ = cancelled

abbrev pub cancel_move : ℕ → TaskState → ℕ → Move
cancel_move task_id state expected_version =
    plain_move task_id (cancel_target state) expected_version "cancel_requested"

-- `request_cancel`
unfoldable pub request_cancel : Service → ℕ → (Db → Db) → ℕ → ℕ → Db → Result OperationTask × Db
unfolding flag_cancel
request_cancel s now other task_id expected_version db = elim (get task_id db) [
  | err e ↦ (err e, db)
  | fault ↦ (fault, db)
  | ok task ↦
      if is_closed task.state || state_eq task.state outcome_unknown
      then (err invalid_transition, db)
      else flag_cancel task_id
          (transition s now other (cancel_move task_id task.state expected_version) db)
]

-- `_RECOVERY_REVIEW_STAGES`
abbrev pub review_stages : List String
review_stages = "published" ∷ "db_linked" ∷ "index_coordinated" ∷ "durable_verified" ∷ []

unfoldable pub needs_review : String → Bool
needs_review stage = member stage review_stages

-- `retry`
unfoldable pub retry : Service → ℕ → (Db → Db) → ℕ → ℕ → Db → Result OperationTask × Db
retry s now other task_id expected_version db = elim (get task_id db) [
  | err e ↦ (err e, db)
  | fault ↦ (fault, db)
  | ok task ↦
      if not (state_eq task.state failed || state_eq task.state blocked)
      then (err retry_not_safe, db)
      else if needs_review task.stage
      then (err retry_not_safe, db)
      else transition s now other (plain_move task_id queued expected_version "retry_requested") db
]

abbrev recovery_detail : Text
recovery_detail = codes "explicit review or resume required"

abbrev pub recovery_move : OperationTask → Move
recovery_move task = record {
  task_id = task.id;
  target = if needs_review task.stage then blocked else paused;
  expected_version = task.version;
  event_type = "restart_recovery";
  error_code = some "restart_recovery_required";
  error_detail = some recovery_detail;
}

-- The rows that `recover_interrupted` selects.
abbrev pub interrupted : OperationTask → Bool
interrupted t = state_eq t.state running || state_eq t.state cancelling

-- One turn of the loop: an exception ends it.
unfoldable pub recover_next : (Db → Result ℕ × Db) → Result OperationTask × Db → Result ℕ × Db
recover_next rest (ok task, db) = rest db
recover_next rest (err e, db) = (err e, db)
recover_next rest (fault, db) = (fault, db)

-- The loop of `recover_interrupted`, run at start-up, before there are other sessions.
unfoldable pub recover_from : Service → ℕ → ℕ → List OperationTask → Db → Result ℕ × Db
recover_from s now recovered [] db = (ok recovered, db)
recover_from s now recovered (task ∷ rows) db =
    recover_next (λ db'. recover_from s now (recovered + 1) rows db')
      (transition s now (λ d. d) (recovery_move task) db)

-- `recover_interrupted`
unfoldable pub recover_interrupted : Service → ℕ → Db → Result ℕ × Db
unfolding recover_from
recover_interrupted s now db = recover_from s now 0 (filter interrupted db.tasks) db

-- The deletion of rows, with their events by the cascade.
abbrev pub delete_rows : (OperationTask → Bool) → (TaskEvent → Bool) → Db → Db
delete_rows p q db = record db {
  tasks = filter (λ t. not (p t)) db.tasks;
  events = filter (λ e. not (q e)) db.events;
}

unfoldable pub linked : Db → ℕ → Bool
linked db i = any (λ j. j == i) db.asset_tasks

-- `delete_history`: the checks read `db`, the deletion finds what other sessions have made of it.
unfoldable pub delete_history : (Db → Db) → ℕ → Db → Result (Unit {0}) × Db
delete_history other task_id db = elim (get task_id db) [
  | err e ↦ (err e, db)
  | fault ↦ (fault, db)
  | ok task ↦
      if not (is_closed task.state) || state_eq task.state outcome_unknown
      then (err history_not_deletable, db)
      else if linked db task.id
      then (err history_not_deletable, db)
      else (ok tt, delete_rows (has_id task.id) (λ e. e.task_id == task.id) (other db))
]

abbrev pub days : ℕ → ℕ
days n = seconds (n * 86_400)

-- `state in (CANCELLED, SUCCEEDED, FAILED)`
abbrev pub expendable : TaskState → Bool
expendable cancelled = true
expendable succeeded = true
expendable failed = true
expendable _ = false

-- `finished_at < now - timedelta(days=retention_days)`, false on null
abbrev pub finished_before : ℕ → ℕ → OperationTask → Bool
finished_before now age t = elim t.finished_at [ none ↦ false | some f ↦ ltb (f + age) now ]

-- The `WHERE` clause of `cleanup_history`.
unfoldable pub cleanable : ℕ → ℕ → Db → OperationTask → Bool
cleanable now retention_days db t =
    expendable t.state && finished_before now (days retention_days) t && not (linked db t.id)

abbrev finish_time : OperationTask → ℕ
finish_time t = elim t.finished_at [ none ↦ 0 | some f ↦ f ]

-- `ORDER BY finished_at ASC, id ASC`
abbrev pub finished_first : OperationTask → OperationTask → Bool
finished_first a b =
    ltb (finish_time a) (finish_time b) || finish_time a == finish_time b && leb a.id b.id

unfoldable pub insert_ordered : OperationTask → List OperationTask → List OperationTask
insert_ordered t [] = t ∷ []
insert_ordered t (u ∷ us) =
    let later = u ∷ insert_ordered t us in if finished_first t u then t ∷ u ∷ us else later

unfoldable pub order_rows : List OperationTask → List OperationTask
order_rows [] = []
order_rows (t ∷ ts) = insert_ordered t (order_rows ts)

-- The selected ids, oldest first, `limit` of them at most.
unfoldable pub candidates : ℕ → ℕ → ℕ → Db → List ℕ
unfolding order_rows insert_ordered cleanable
candidates now retention_days limit db =
    take limit (map (λ t. t.id) (order_rows (filter (cleanable now retention_days db) db.tasks)))

-- `id IN (…)`
abbrev pub among : List ℕ → ℕ → Bool
among ids i = any (λ j. j == i) ids

-- `cleanup_history`: the ids are selected in `db`, and deleted from what other sessions have made of it;
-- to delete no ids is what skipping the statement is.
unfoldable pub cleanup_history : ℕ → (Db → Db) → ℕ → ℕ → Db → Result ℕ × Db
cleanup_history now other retention_days limit db =
    if ltb retention_days 1 || ltb 3650 retention_days || ltb limit 1 || ltb 1000 limit
    then (err invalid_request, db)
    else let ids = candidates now retention_days limit db in
      (ok (length ids), delete_rows (λ t. among ids t.id) (λ e. among ids e.task_id) (other db))
