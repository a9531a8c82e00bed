-- ===== src/Tasks/Concurrency.antt =====
-- app/tasks/service.py, `transition`: the concurrency limit, checked before the statement and once
-- more in its `WHERE` clause.
use nsfwtrack.Base.{ℕ, ◌+◌, ◌≤◌, ◌≡◌, true, false, arith, Bool-cases, inl, inr}
use nsfwtrack.Tasks.Contracts.{running, state_eq}
use nsfwtrack.Tasks.Store.{OperationTask, Db, ok, count_rows, is_running, running_others}
use nsfwtrack.Tasks.Service.{Service, Move, transition_where, transition_values, transition}
use nsfwtrack.Tasks.Rows.{Distinct, count-running-update, count-running-stopped}
use nsfwtrack.Tasks.Optimistic.{
  Committed-row, transition_where-id, transition_set, Committed, commit_transition-Committed,
  transition-ok,
}

-- At most as many tasks run as the limit allows.
abbrev pub WithinLimit : Service → Db → Type 0
WithinLimit s db = count_rows is_running db.tasks ≤ s.max_concurrency

-- A statement towards `running` hits no row unless a slot is free.
guarded :
    (s : Service) (m : Move) (task t : OperationTask) (db : Db)
    → state_eq m.target running ≡ true
    → transition_where s m task db t ≡ true
    → running_others task.id db.tasks + 1 ≤ s.max_concurrency
unfolding transition_where
guarded s m task t db e h = ground arith

set-stopped :
    (s : Service) (now : ℕ) (m : Move) (task t : OperationTask)
    → state_eq m.target running ≡ false
    → is_running (transition_set s now m task t) ≡ false
unfolding transition_values
set-stopped s now m task t e = ground arith

pub Committed-WithinLimit :
    (s : Service) (now : ℕ) (m : Move) (task : OperationTask) (db : Db) {r : OperationTask}
    {db' : Db}
    → Distinct db.tasks
    → WithinLimit s db
    → Committed s now m task db r db'
    → WithinLimit s db'
Committed-WithinLimit s now m task db d limit c = elim (Bool-cases (state_eq m.target running)) [
  | inl runs ↦
      let (old, _, hit, _) = Committed-row s now m task db d c in
      let bound =
        count-running-update (transition_where s m task db) (transition_set s now m task) task.id
          db.tasks (λ t e. (transition_where-id s m task db t e).0) d in
      rw c.rows (omega (arith, guarded s m task old db runs hit))
  | inr stops ↦
      let bound =
        count-running-stopped (transition_where s m task db) (transition_set s now m task) db.tasks
          (λ t e. absurd (cc (set-stopped s now m task t stops))) in
      rw c.rows (omega arith)
]

-- Whatever other sessions commit between the checks and the statement: if the limit holds on the
-- tables that the statement finds, it holds on those that it leaves.
pub transition-WithinLimit :
    (s : Service) (now : ℕ) (other : Db → Db) (m : Move) (db : Db) {r : OperationTask} {db' : Db}
    → Distinct (other db).tasks
    → WithinLimit s (other db)
    → transition s now other m db ≡ (ok r, db')
    → WithinLimit s db'
transition-WithinLimit s now other m db d limit h =
    let (task, _, _, done) = transition-ok s now other m db h in
    let c = commit_transition-Committed s now m task (other db) done in
    Committed-WithinLimit s now m task (other db) d limit c
