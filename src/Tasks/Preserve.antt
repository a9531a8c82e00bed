-- ===== src/Tasks/Preserve.antt =====
-- Each call of the service keeps the invariant of the tables, whatever it returns or raises.
pub mod Leases
pub mod Control
pub mod Create
pub mod Delete
use mathlib.Core.Path.{subst}
use nsfwtrack.Base.{ℕ, ◌+◌, ◌≤◌, ◌≡◌, refl, true, false, Option, none, some, arith}
use nsfwtrack.Tasks.Contracts.{TaskErrorCode, can_transition}
use nsfwtrack.Tasks.Store.{
  OperationTask, Db, Result, ok, err, fault, is_ok, count_rows, is_running, add_event,
}
use nsfwtrack.Tasks.Service.{
  Service, Move, get, refusal, transition, transition_where, transition_values, commit_transition,
}
use nsfwtrack.Tasks.Concurrency.{Committed-WithinLimit}
use nsfwtrack.Tasks.Optimistic.{
  Committed, commit_transition-Committed, transition_set, transition_where-id,
  transition_values-KeepsId, transition_values-moved, logged_event, moved_db, safe_of, refusal-none,
  Committed-row,
}
use nsfwtrack.Tasks.Invariant.{Inv, LeaseOk, Inv-next}

-- A call either leaves the tables alone or returns.
pub by_outcome {ℓ} :
    {A : Type 0} (P : Db → Type ℓ) (o : Result A × Db) (db : Db)
    → (is_ok o.0 ≡ false → o.1 ≡ db)
    → ((a : A) (db' : Db) → o ≡ (ok a, db') → P db')
    → P db
    → P o.1
by_outcome P (ok a, db') db keep done h = done a db' refl
by_outcome P (err e, db') db keep done h = rw (keep refl) h
by_outcome P (fault, db') db keep done h = rw (keep refl) h

transition_set-LeaseOk :
    (s : Service) (now : ℕ) (m : Move) (task t : OperationTask)
    → t.state ≡ task.state
    → can_transition task.state m.target ≡ true
    → LeaseOk t
    → LeaseOk (transition_set s now m task t)
unfolding transition_values can_transition
transition_set-LeaseOk s now m task t e may h = record {
  expires = ground arith;
  active = ground arith;
}

commit_transition-kept :
    (s : Service) (now : ℕ) (m : Move) (task : OperationTask) (db : Db)
    → is_ok (commit_transition s now m task db).0 ≡ false
    → (commit_transition s now m task db).1 ≡ db
unfolding commit_transition add_event
commit_transition-kept s now m task db h = ground arith

Committed-Inv :
    (s : Service) (now : ℕ) (m : Move) (task : OperationTask) (db : Db) {r : OperationTask}
    {db' : Db}
    → task.version ≡ m.expected_version
    → can_transition task.state m.target ≡ true
    → Inv s db
    → Committed s now m task db r db'
    → Inv s db'
Committed-Inv s now m task db {db' = db'} v may inv c =
    let (old, found, _, _) = Committed-row s now m task db inv.distinct c in
    let event = logged_event s now m task in
    let same : db' ≡ moved_db s now m task db =
      λ i. record { tasks = c.rows i; events = c.logged i; asset_tasks = c.links i } in
    rw same (
      Inv-next (transition_where s m task db) (transition_set s now m task) s db event
        db.asset_tasks (transition_values-KeepsId now task m.target (safe_of s m))
        (λ t h. next t (transition_where-id s m task db t h))
        (λ t h l.
          transition_set-LeaseOk s now m task t (transition_where-id s m task db t h).2 may l)
        c.once
        (subst (λ ts. count_rows is_running ts ≤ s.max_concurrency) c.rows
          (Committed-WithinLimit s now m task db inv.distinct inv.within c))
        (rw found) inv)
  where
    next :
        (t : OperationTask)
        → (t.id ≡ task.id) × (t.version ≡ m.expected_version) × (t.state ≡ task.state)
        → (t.id ≡ task.id)
          × (task.version + 1 ≡ t.version + 1)
          × ((transition_set s now m task t).version ≡ task.version + 1)
          × ((transition_set s now m task t).state ≡ m.target)
    next t (i, at, _) =
        let (state, version) = transition_values-moved now task m.target (safe_of s m) t in
        (i, cc, version, state)

pub commit_transition-Inv :
    (s : Service) (now : ℕ) (m : Move) (task : OperationTask) (db : Db)
    → task.version ≡ m.expected_version
    → can_transition task.state m.target ≡ true
    → Inv s db
    → Inv s (commit_transition s now m task db).1
commit_transition-Inv s now m task db v may inv =
    by_outcome (Inv s) (commit_transition s now m task db) db
      (commit_transition-kept s now m task db)
      (λ r db' e.
        Committed-Inv s now m task db v may inv (commit_transition-Committed s now m task db e))
      inv

-- How `transition` can end: before its statement, or by it.
pub transition-cases {ℓ} :
    (P : Db → Type ℓ) (s : Service) (now : ℕ) (other : Db → Db) (m : Move) (db : Db)
    → P db
    → ((task : OperationTask)
        → get m.task_id db ≡ ok task
        → refusal s m task db ≡ none
        → P (commit_transition s now m task (other db)).1)
    → P (transition s now other m db).1
unfolding transition
transition-cases P s now other m db keep done = read (get m.task_id db) refl
  where
    checked :
        (task : OperationTask)
        → get m.task_id db ≡ ok task
        → (o : Option TaskErrorCode) → refusal s m task db ≡ o
        → P (transition s now other m db).1
    checked task e none q = rw (e, transition) (rw (q, transition) (done task e q))
    checked task e (some x) q = rw (e, transition) (rw (q, transition) keep)

    read : (g : Result OperationTask) → get m.task_id db ≡ g → P (transition s now other m db).1
    read (err x) e = rw (e, transition) keep
    read fault e = rw (e, transition) keep
    read (ok task) e = checked task e (refusal s m task db) refl

-- `transition` keeps the invariant, whatever other sessions do in between, if they keep it.
pub transition-Inv :
    (s : Service) (now : ℕ) (other : Db → Db) (m : Move) (db : Db)
    → Inv s db
    → Inv s (other db)
    → Inv s (transition s now other m db).1
transition-Inv s now other m db inv meanwhile =
    transition-cases (Inv s) s now other m db inv (λ task _ q.
      let (v, may) = refusal-none s m task db q in
      commit_transition-Inv s now m task (other db) v may meanwhile)
