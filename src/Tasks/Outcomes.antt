-- ===== src/Tasks/Outcomes.antt =====
-- What single calls of the task service do: no database fault, cancellation, recovery, fencing.
use nsfwtrack.Base.{
  ℕ, ◌≡◌, refl, sym, ◌≢◌, inl, inr, true, false, Option, none, some, arith, Bool-cases, ==_iff,
  ◌==◌, any,
}
use nsfwtrack.Tasks.Contracts.{TaskState, TaskErrorCode, is_closed, can_transition, state_eq_refl}
use nsfwtrack.Tasks.Store.{
  OperationTask, TaskEvent, Db, Result, ok, err, fault, find_row, count_rows, update_rows,
  add_event, same_entry,
}
use nsfwtrack.Tasks.Service.{
  Service, Move, get, refusal, transition, commit_transition, transition_where,
}
use nsfwtrack.Tasks.Control.{cancel_target}
use nsfwtrack.Tasks.History.{Audited, Audited-fresh}
use nsfwtrack.Tasks.Rows.{find_row-update, All-find_row, find_row-written, count_rows-one}
use nsfwtrack.Tasks.Optimistic.{
  transition_where-id, transition_set, logged_event, transition_values-KeepsId, safe_of,
  find_row-id, get-ok,
}
use nsfwtrack.Tasks.Invariant.{Inv}

-- Every open task can be cancelled: the target that `request_cancel` picks is in the table.
pub cancel_target_allowed :
    (st : TaskState) → is_closed st ≡ false → can_transition st (cancel_target st) ≡ true
unfolding can_transition
cancel_target_allowed st h = ground arith

add_event-fresh :
    (e : TaskEvent) (before db : Db) {r : OperationTask}
    → any (same_entry e) db.events ≡ false
    → find_row e.task_id db.tasks ≡ some r
    → (add_event e before db).0 ≡ ok r
unfolding add_event
add_event-fresh e before db h k = ground arith

-- The database never refuses a transition: on tables with the invariant, the event's version is new
-- and the row is there to be read again.
pub commit_transition-no_fault :
    (s : Service) (now : ℕ) (m : Move) (task : OperationTask) (db : Db)
    → task.version ≡ m.expected_version
    → Inv s db
    → (commit_transition s now m task db).0 ≢ fault
unfolding commit_transition
commit_transition-no_fault s now m task db v inv =
    elim (Bool-cases (count_rows (transition_where s m task db) db.tasks == 1)) [
      | inl once ↦
          let p = transition_where s m task db in
          let (old, found, hit, moved) =
            find_row-written p (transition_set s now m task) task.id db.tasks
              (transition_values-KeepsId now task m.target (safe_of s m))
              (λ t h. (transition_where-id s m task db t h).0) inv.distinct ((==_iff _ _).0 once) in
          let (i, at, _) = transition_where-id s m task db old hit in
          let a = All-find_row (Audited db.events) task.id db.tasks inv.audit found in
          let fresh =
            Audited-fresh db.events old (logged_event s now m task) a.bounded (sym i)
              (omega arith) in
          rw once (λ f. absurd (
            cc (
              add_event-fresh (logged_event s now m task) db
                (record db { tasks = update_rows p (transition_set s now m task) db.tasks }) fresh
                moved)))
      | inr more ↦ rw more (λ e. cc)
    ]

-- The statement fits the row that passed the checks on the same tables.
pub unrefused-hit :
    (s : Service) (m : Move) (task : OperationTask) (db : Db)
    → refusal s m task db ≡ none
    → transition_where s m task db task ≡ true
unfolding refusal transition_where
unrefused-hit s m task db h = ground (arith, state_eq_refl task.state)

pub commit_transition-returns :
    (s : Service) (now : ℕ) (m : Move) (db : Db) {task : OperationTask}
    → Inv s db
    → find_row task.id db.tasks ≡ some task
    → refusal s m task db ≡ none
    → (commit_transition s now m task db).0 ≡ ok (transition_set s now m task task)
unfolding commit_transition
commit_transition-returns s now m db {task = task} inv found free =
    let p = transition_where s m task db in
    let hit = unrefused-hit s m task db free in
    let pins = λ (t : OperationTask) (h : transition_where s m task db t ≡ true).
      (transition_where-id s m task db t h).0 in
    let once = count_rows-one p task.id db.tasks pins inv.distinct found hit in
    let moved =
      find_row-update p (transition_set s now m task) task.id db.tasks
        (transition_values-KeepsId now task m.target (safe_of s m)) in
    let a = All-find_row (Audited db.events) task.id db.tasks inv.audit found in
    let fresh = Audited-fresh db.events task (logged_event s now m task) a.bounded refl refl in
    let test = (==_iff (count_rows p db.tasks) 1).1 once in
    rw test (add_event-fresh (logged_event s now m task) db _ fresh (rw (moved, found, hit) refl))

-- What a caller may expect of `transition`: the refusal, or the row moved on; no statement, count or
-- constraint of the database is in it.
abbrev pub expected_result : Service → ℕ → Move → Db → Result OperationTask
expected_result s now m db = elim (get m.task_id db) [
  | err e ↦ err e
  | fault ↦ fault
  | ok task ↦ elim (refusal s m task db) [
    | some e ↦ err e
    | none ↦ ok (transition_set s now m task task)
  ]
]

-- On tables with the invariant, with no other session in between, `transition` gives the result that
-- the checks alone determine: the first refusal, or else the row that was read, moved on.
pub transition_result :
    (s : Service) (now : ℕ) (m : Move) (db : Db)
    → Inv s db
    → (transition s now (λ d. d) m db).0 ≡ expected_result s now m db
unfolding transition
transition_result s now m db inv = read (get m.task_id db) refl
  where
    checked :
        (task : OperationTask)
        → get m.task_id db ≡ ok task
        → (o : Option TaskErrorCode) → refusal s m task db ≡ o
        → (transition s now (λ d. d) m db).0 ≡ expected_result s now m db
    checked task e (some x) q =
        rw (e, transition, expected_result) (rw (q, transition, expected_result) refl)
    checked task e none q =
        let found = get-ok m.task_id db e in
        let found_at = rw (← find_row-id m.task_id db.tasks found) at found in
        rw (e, transition, expected_result)
          (rw (q, transition, expected_result)
            (commit_transition-returns s now m db inv found_at q))

    read :
        (g : Result OperationTask)
        → get m.task_id db ≡ g
        → (transition s now (λ d. d) m db).0 ≡ expected_result s now m db
    read (err x) e = rw (e, transition, expected_result) refl
    read fault e = rw (e, transition, expected_result) refl
    read (ok task) e = checked task e (refusal s m task db) refl
