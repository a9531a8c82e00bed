-- ===== src/Tasks/Optimistic.antt =====
-- app/tasks/service.py, `transition`: the optimistic version fence, under any interference of other
-- sessions between the checks and the statement.
use nsfwtrack.Base.{
  Option, String, refl, false, ℕ, ◌+◌, ◌≡◌, ap, ◌∙◌, true, none, some, List, [], ◌∷◌, ◌++◌, arith,
  ◌==◌, Bool-cases, ==_iff, inl, inr,
}
use nsfwtrack.Tasks.Contracts.{TaskState, can_transition, state_eq→eq}
use nsfwtrack.Tasks.Text.{Text, safe_error}
use nsfwtrack.Tasks.Store.{
  OperationTask, TaskEvent, Db, ok, err, fault, is_ok, Result, update_rows, count_rows, find_row,
  add_event,
}
use nsfwtrack.Tasks.Service.{
  Service, Move, get, refusal, transition_values, transition_where, commit_transition, transition,
}
use nsfwtrack.Tasks.Rows.{Distinct-update, Distinct, KeepsId, find_row-written}

pub transition_where-id :
    (s : Service) (m : Move) (task : OperationTask) (db : Db) (t : OperationTask)
    → transition_where s m task db t ≡ true
    → (t.id ≡ task.id) × (t.version ≡ m.expected_version) × (t.state ≡ task.state)
unfolding transition_where
transition_where-id s m task db t h = ground (arith, state_eq→eq t.state task.state)

pub transition_values-KeepsId :
    (now : ℕ) (task : OperationTask) (target : TaskState) (safe : _)
    → KeepsId (transition_values now task target safe)
unfolding transition_values
transition_values-KeepsId now task target safe t = ground arith

pub transition_values-moved :
    (now : ℕ) (task : OperationTask) (target : TaskState) (safe : _) (t : OperationTask)
    → let t' = transition_values now task target safe t in
      (t'.state ≡ target) × (t'.version ≡ task.version + 1)
unfolding transition_values
transition_values-moved now task target safe t = (ground arith, ground arith)

-- What the statement stores as the error, the `SET` clause, the event and the tables after both.
abbrev pub safe_of : Service → Move → Option String × Option Text
safe_of s m = safe_error s.casefold m.error_code m.error_detail

abbrev pub transition_set : Service → ℕ → Move → OperationTask → OperationTask → OperationTask
transition_set s now m task = transition_values now task m.target (safe_of s m)

abbrev pub logged_event : Service → ℕ → Move → OperationTask → TaskEvent
logged_event s now m task = record {
  task_id = task.id;
  version = task.version + 1;
  event_type = m.event_type;
  from_state = some task.state;
  to_state = m.target;
  error_code = (safe_of s m).0;
  created_at = now;
}

abbrev pub moved_db : Service → ℕ → Move → OperationTask → Db → Db
moved_db s now m task db = record {
  tasks = update_rows (transition_where s m task db) (transition_set s now m task) db.tasks;
  events = db.events ++ logged_event s now m task ∷ [];
  asset_tasks = db.asset_tasks;
}

-- What a statement of `transition` that succeeds has done to the tables.
pub record Committed (s : Service) (now : ℕ) (m : Move) (task : OperationTask) (db : Db)
    (r : OperationTask) (db' : Db) : Type 0 where
  pub once : count_rows (transition_where s m task db) db.tasks ≡ 1
  pub rows : db'.tasks ≡ (moved_db s now m task db).tasks
  pub logged : db'.events ≡ (moved_db s now m task db).events
  pub links : db'.asset_tasks ≡ db.asset_tasks
  pub back : find_row task.id db'.tasks ≡ some r

add_event-ok :
    (e : TaskEvent) (before db : Db) {r : OperationTask} {db' : Db}
    → add_event e before db ≡ (ok r, db')
    → (db'.tasks ≡ db.tasks)
      × (db'.events ≡ db.events ++ e ∷ [])
      × (db'.asset_tasks ≡ db.asset_tasks)
      × (find_row e.task_id db.tasks ≡ some r)
unfolding add_event
add_event-ok e before db h = ground arith

pub commit_transition-Committed :
    (s : Service) (now : ℕ) (m : Move) (task : OperationTask) (db : Db) {r : OperationTask}
    {db' : Db}
    → commit_transition s now m task db ≡ (ok r, db')
    → Committed s now m task db r db'
unfolding commit_transition
commit_transition-Committed s now m task db h =
    elim (Bool-cases (count_rows (transition_where s m task db) db.tasks == 1)) [
      | inl once ↦
          let d = add_event-ok _ _ _ (rw once at h) in
          record {
            once = (==_iff _ _).0 once;
            rows = d.0;
            logged = d.1;
            links = d.2;
            back = rw d.0 d.3;
          }
      | inr more ↦ absurd (cc (rw more at h))
    ]

-- How a successful `transition` went: the row as it was read, the checks, the statement.
pub transition-ok :
    (s : Service) (now : ℕ) (other : Db → Db) (m : Move) (db : Db) {r : OperationTask} {db' : Db}
    → transition s now other m db ≡ (ok r, db')
    → (task : OperationTask) × (get m.task_id db ≡ ok task)
      × (refusal s m task db ≡ none)
      × (commit_transition s now m task (other db) ≡ (ok r, db'))
unfolding transition
transition-ok s now other m db h = ground arith

pub get-ok : (i : ℕ) (db : Db) {t : OperationTask} → get i db ≡ ok t → find_row i db.tasks ≡ some t
unfolding get
get-ok i db h = ground arith

-- The refusals, read backwards: a row that passes is at the expected version, in a state from which
-- the target may be reached.
pub refusal-none :
    (s : Service) (m : Move) (task : OperationTask) (db : Db)
    → refusal s m task db ≡ none
    → (task.version ≡ m.expected_version) × (can_transition task.state m.target ≡ true)
unfolding refusal
refusal-none s m task db h = ground arith

pub find_row-id :
    (i : ℕ) (ts : List OperationTask) {t : OperationTask} → find_row i ts ≡ some t → t.id ≡ i
unfolding find_row
find_row-id i [] h = absurd (cc)
find_row-id i (u ∷ us) {t = t} h = ground (arith, find_row-id i us {t = t})

same_row :
    (i : ℕ) (ts us : List OperationTask) {r x : OperationTask}
    → ts ≡ us
    → find_row i ts ≡ some r
    → find_row i us ≡ some x
    → r ≡ x
same_row i ts us e f g = cc

-- The row that a successful statement found, and the row that it made of it.
pub Committed-row :
    (s : Service) (now : ℕ) (m : Move) (task : OperationTask) (db : Db) {r : OperationTask}
    {db' : Db}
    → Distinct db.tasks
    → Committed s now m task db r db'
    → (old : OperationTask) × (find_row task.id db.tasks ≡ some old)
      × (transition_where s m task db old ≡ true)
      × (r ≡ transition_set s now m task old)
Committed-row s now m task db {db' = db'} d c =
    let (old, found, hit, moved) =
      find_row-written (transition_where s m task db) (transition_set s now m task) task.id db.tasks
        (transition_values-KeepsId now task m.target (safe_of s m))
        (λ t e. (transition_where-id s m task db t e).0) d c.once in
    (old, found, hit, same_row task.id db'.tasks _ c.rows c.back moved)

-- Whatever other sessions commit between the checks and the statement: where `transition` returns,
-- the statement found the task at the expected version in a state from which the table allows the
-- target, and the task is now the returned row, in the target state, one version on.
pub transition_sound :
    (s : Service) (now : ℕ) (other : Db → Db) (m : Move) (db : Db) {r : OperationTask} {db' : Db}
    → Distinct (other db).tasks
    → transition s now other m db ≡ (ok r, db')
    → (old : OperationTask) × (find_row m.task_id (other db).tasks ≡ some old)
      × (old.version ≡ m.expected_version)
      × (can_transition old.state m.target ≡ true)
      × (find_row m.task_id db'.tasks ≡ some r)
      × (r.state ≡ m.target)
      × (r.version ≡ m.expected_version + 1)
transition_sound s now other m db d h =
    let (task, read, allowed, done) = transition-ok s now other m db h in
    let c = commit_transition-Committed s now m task (other db) done in
    let (old, found, hit, made) = Committed-row s now m task (other db) d c in
    let same = find_row-id m.task_id db.tasks (get-ok m.task_id db read) in
    let (version, may) = refusal-none s m task db allowed in
    let (_, at_version, at_state) = transition_where-id s m task (other db) old hit in
    let (moved, next) = transition_values-moved now task m.target (safe_of s m) old in
    (
      old,
      rw (← same) found,
      at_version,
      rw at_state may,
      rw (← same) c.back,
      rw made moved,
      rw made (next ∙ ap (λ n. n + 1) version),
    )

pub transition-Distinct :
    (s : Service) (now : ℕ) (other : Db → Db) (m : Move) (db : Db) {r : OperationTask} {db' : Db}
    → Distinct (other db).tasks
    → transition s now other m db ≡ (ok r, db')
    → Distinct db'.tasks
transition-Distinct s now other m db d h =
    let (task, _, _, done) = transition-ok s now other m db h in
    let c = commit_transition-Committed s now m task (other db) done in
    rw c.rows (
      Distinct-update (transition_where s m task (other db)) (transition_set s now m task)
        (other db).tasks (transition_values-KeepsId now task m.target (safe_of s m)) d)

-- Two sessions that read the same tables and name the same version of one task: once the first has
-- committed, the other's statement, on the tables that the first left, does not return a task.
pub transition_race :
    (s : Service) (now now' : ℕ) (other : Db → Db) (m m' : Move) (db : Db) {r : OperationTask}
    {db' : Db}
    → Distinct (other db).tasks
    → m'.task_id ≡ m.task_id
    → m'.expected_version ≡ m.expected_version
    → transition s now other m db ≡ (ok r, db')
    → is_ok (transition s now' (λ _. db') m' db).0 ≡ false
transition_race s now now' other m m' db {r = r} {db' = db'} d same_task same_version h =
    second (transition s now' (λ _. db') m' db) refl
  where
    distinct : Distinct db'.tasks
    distinct = transition-Distinct s now other m db d h

    second :
        (o : Result OperationTask × Db) → transition s now' (λ _. db') m' db ≡ o → is_ok o.0 ≡ false
    second (ok r', db'') e =
        let first = transition_sound s now other m db d h in
        let (old, found, at_version, _, _, _, _) =
          transition_sound s now' (λ _. db') m' db distinct e in
        absurd (ground (arith, first.4, first.6, rw same_task at found))
    second (err x, db'') e = refl
    second (fault, db'') e = refl
