-- ===== src/Tasks/Recovery.antt =====
-- app/tasks/service.py, `recover_interrupted`: what start-up makes of the tasks that a stop left
-- running, and that a task left cancelling stops it.
use mathlib.Core.Path.{subst}
use mathlib.Core.Option.{some-injective}
use nsfwtrack.Base.{
  ℕ, ◌+◌, ◌<◌, ◌≡◌, refl, sym, ap, ◌∙◌, ◌≢◌, inl, inr, true, false, Bool, none, some, List, [], ◌∷◌,
  arith, All, All-map, All-zip, All-filter, any, ◌||◌, if◌then◌else◌, filter, length, Bool-cases,
}
use nsfwtrack.Tasks.Contracts.{
  TaskState, running, cancelling, paused, blocked, can_transition, state_eq,
}
use nsfwtrack.Tasks.Text.{safe_code}
use nsfwtrack.Tasks.Store.{OperationTask, Db, Result, ok, err, fault, is_ok, find_row, count_rows}
use nsfwtrack.Tasks.Service.{Service, get, refusal, transition, commit_transition, transition_where}
use nsfwtrack.Tasks.Control.{
  recover_interrupted, recover_from, recover_next, recovery_move, interrupted, needs_review,
}
use nsfwtrack.Tasks.Rows.{Distinct-filter, found_self, Distinct, find_row-update, count-update-drop}
use nsfwtrack.Tasks.Optimistic.{
  Committed, commit_transition-Committed, transition_where-id, transition_set,
  transition_values-KeepsId, transition_values-moved, safe_of, transition-ok, get-ok, refusal-none,
}
use nsfwtrack.Tasks.Outcomes.{commit_transition-returns}
use nsfwtrack.Tasks.Invariant.{Inv}
use nsfwtrack.Tasks.Preserve.{transition-Inv}

-- Ids and versions start at 1.
abbrev pub Positive : OperationTask → Type 0
Positive t = (0 < t.id) × (0 < t.version)

-- The rows that the loop has still to visit are in the tables as they were selected.
abbrev Pending : List OperationTask → Db → Type 0
Pending rows db = All (λ u. find_row u.id db.tasks ≡ some u) rows

recovery-unrefused :
    (s : Service) (t : OperationTask) (db : Db)
    → Positive t
    → t.state ≡ running
    → refusal s (recovery_move t) t db ≡ none
unfolding refusal can_transition state_eq safe_code
recovery-unrefused s t db (_, v) e = ground arith

get-found :
    (i : ℕ) (db : Db) {t : OperationTask} → 0 < i → find_row i db.tasks ≡ some t → get i db ≡ ok t
unfolding get
get-found i db h e = ground arith

-- One turn of the loop on a running task.
recovery-step :
    (s : Service) (now : ℕ) (t : OperationTask) (db : Db)
    → Inv s db
    → Positive t
    → t.state ≡ running
    → find_row t.id db.tasks ≡ some t
    → (db' : Db) × (transition s now (λ d. d) (recovery_move t) db
        ≡ (ok (transition_set s now (recovery_move t) t t), db'))
      × Committed s now (recovery_move t) t db (transition_set s now (recovery_move t) t t) db'
unfolding transition
recovery-step s now t db inv pos e found =
    let m = recovery_move t in
    let free = recovery-unrefused s t db pos e in
    let done : commit_transition s now m t db
        ≡ (ok (transition_set s now m t t), (commit_transition s now m t db).1) =
      λ i. (
        commit_transition-returns s now m db inv found free i,
        (commit_transition s now m t db).1,
      ) in
    (
      (commit_transition s now m t db).1,
      rw (get-found t.id db pos.0 found, transition) (rw (free, transition) done),
      commit_transition-Committed s now m t db done,
    )

-- A turn leaves the rows that are still to come as they were.
Pending-step :
    (s : Service) (now : ℕ) (t : OperationTask) (rows : List OperationTask) (db : Db)
    {r : OperationTask} {db' : Db}
    → All (λ u. u.id ≢ t.id) rows
    → Committed s now (recovery_move t) t db r db'
    → Pending rows db
    → Pending rows db'
Pending-step s now t rows db {db' = db'} apart c pending =
    All-map (λ u. (u.id ≢ t.id) × (find_row u.id db.tasks ≡ some u))
      (λ u. find_row u.id db'.tasks ≡ some u) rows (λ u k. same u k.0 k.1)
      (All-zip (λ u. u.id ≢ t.id) (λ u. find_row u.id db.tasks ≡ some u) rows apart pending)
  where
    p : OperationTask → Bool
    p = transition_where s (recovery_move t) t db

    same :
        (u : OperationTask)
        → u.id ≢ t.id
        → find_row u.id db.tasks ≡ some u
        → find_row u.id db'.tasks ≡ some u
    same u ne found = elim (Bool-cases (p u)) [
      | inl hit ↦ absurd (ne (transition_where-id s (recovery_move t) t db u hit).0)
      | inr miss ↦
          ap (find_row u.id) c.rows
          ∙ find_row-update p (transition_set s now (recovery_move t) t) u.id db.tasks (
              transition_values-KeepsId now t (recovery_move t).target
                (safe_of s (recovery_move t)))
          ∙ rw (found, miss) refl
    ]

recovery_target-idle :
    (b : Bool)
    → (state_eq (if b then blocked else paused) running
        || state_eq (if b then blocked else paused) cancelling)
      ≡ false
unfolding state_eq
recovery_target-idle true = refl
recovery_target-idle false = refl

was_running :
    (st : TaskState) → st ≡ running → (state_eq st running || state_eq st cancelling) ≡ true
unfolding state_eq
was_running st e = rw e refl

-- One turn takes one task off those that are interrupted.
fewer-interrupted :
    (s : Service) (now : ℕ) (t : OperationTask) (db : Db) {r : OperationTask} {db' : Db}
    → t.state ≡ running
    → Committed s now (recovery_move t) t db r db'
    → count_rows interrupted db'.tasks + 1 ≡ count_rows interrupted db.tasks
fewer-interrupted s now t db e c =
    let drop =
      count-update-drop (transition_where s (recovery_move t) t db) interrupted
        (transition_set s now (recovery_move t) t) db.tasks (λ u hit. (was u hit, is_not u)) in
    rw c.rows (omega (arith, c.once))
  where
    was :
        (u : OperationTask)
        → transition_where s (recovery_move t) t db u ≡ true
        → interrupted u ≡ true
    was u hit =
        let (_, _, st) = transition_where-id s (recovery_move t) t db u hit in
        was_running u.state (st ∙ e)

    is_not : (u : OperationTask) → interrupted (transition_set s now (recovery_move t) t u) ≡ false
    is_not u =
        rw
          (transition_values-moved now t (recovery_move t).target (safe_of s (recovery_move t)) u).0
          (recovery_target-idle (needs_review t.stage))

only_running :
    (st : TaskState)
    → (state_eq st running || state_eq st cancelling) ≡ true
    → st ≢ cancelling
    → st ≡ running
unfolding state_eq
only_running st i ne = ground arith

length-filter :
    (p : OperationTask → Bool) (ts : List OperationTask) → length (filter p ts) ≡ count_rows p ts
unfolding count_rows
length-filter p [] = refl
length-filter p (t ∷ ts) = ground (arith, length-filter p ts)

recover_from_running :
    (s : Service) (now n : ℕ) (rows : List OperationTask) (db : Db)
    → Inv s db
    → Distinct rows
    → Pending rows db
    → All (λ t. Positive t × (t.state ≡ running)) rows
    → ((recover_from s now n rows db).0 ≡ ok (n + length rows))
      × (count_rows interrupted (recover_from s now n rows db).1.tasks + length rows
          ≡ count_rows interrupted db.tasks)
unfolding recover_from recover_next
recover_from_running s now n [] db inv d p k = (ap ok (omega arith), omega arith)
recover_from_running s now n (t ∷ rows) db inv d p k =
    let (db', step, c) = recovery-step s now t db inv k.0.0 k.0.1 p.0 in
    let inv' : Inv s db' =
      subst (λ o. Inv s o.1) step (transition-Inv s now (λ x. x) (recovery_move t) db inv inv) in
    let (result, left) =
      recover_from_running s now (n + 1) rows db' inv' d.1 (Pending-step s now t rows db d.0 c p.1)
        k.1 in
    let fewer = fewer-interrupted s now t db k.0.1 c in
    rw step (result ∙ ap ok (omega arith), omega (arith, left, fewer))

-- At start-up, if no task is cancelling, `recover_interrupted` returns the number of running tasks,
-- and afterwards no task is running or cancelling.
pub recover_interrupted_clears :
    (s : Service) (now : ℕ) (db : Db)
    → Inv s db
    → All Positive db.tasks
    → All (λ t. t.state ≢ cancelling) db.tasks
    → ((recover_interrupted s now db).0 ≡ ok (count_rows interrupted db.tasks))
      × (count_rows interrupted (recover_interrupted s now db).1.tasks ≡ 0)
unfolding recover_interrupted
recover_interrupted_clears s now db inv pos none_cancelling =
    let rows = filter interrupted db.tasks in
    let counted = length-filter interrupted db.tasks in
    let (result, left) =
      recover_from_running s now 0 rows db inv (Distinct-filter interrupted db.tasks inv.distinct)
        (All-filter (λ u. find_row u.id db.tasks ≡ some u) (λ u. find_row u.id db.tasks ≡ some u)
          interrupted db.tasks (λ u _ h. h) (found_self db.tasks inv.distinct))
        (All-filter (λ t. Positive t × (t.state ≢ cancelling))
          (λ t. Positive t × (t.state ≡ running)) interrupted db.tasks
          (λ t i h. (h.0, only_running t.state i h.1))
          (All-zip Positive (λ t. t.state ≢ cancelling) db.tasks pos none_cancelling)) in
    (result ∙ ap ok (omega (arith, counted)), omega (arith, counted, left))

recovery-may :
    (b : Bool) (st : TaskState)
    → can_transition st (if b then blocked else paused) ≡ true
    → state_eq st cancelling ≡ false
unfolding can_transition state_eq
recovery-may b st h = ground arith

-- The selection holds every cancelling task.
selected :
    (ts : List OperationTask)
    → any (λ t. state_eq t.state cancelling) ts ≡ true
    → any (λ t. state_eq t.state cancelling) (filter interrupted ts) ≡ true
selected [] h = h
selected (t ∷ ts) h = ground (arith, selected ts)

-- A turn that returns was on a task that is not cancelling, and has written that task.
turn-returned :
    (s : Service) (now : ℕ) (t : OperationTask) (db : Db) {r : OperationTask} {db' : Db}
    → find_row t.id db.tasks ≡ some t
    → transition s now (λ x. x) (recovery_move t) db ≡ (ok r, db')
    → (state_eq t.state cancelling ≡ false) × Committed s now (recovery_move t) t db r db'
turn-returned s now t db {r = r} {db' = db'} found h =
    let (task, read, allowed, done) = transition-ok s now (λ x. x) (recovery_move t) db h in
    let same : task ≡ t = some-injective task t (sym (get-ok t.id db read) ∙ found) in
    let c = commit_transition-Committed s now (recovery_move t) task db done in
    let may = (refusal-none s (recovery_move t) task db allowed).1 in
    (
      recovery-may (needs_review t.stage) t.state
          (subst (λ u. can_transition u.state (recovery_move t).target ≡ true) same may),
      subst (λ u. Committed s now (recovery_move t) u db r db') same c,
    )

recover_from-stuck :
    (s : Service) (now n : ℕ) (rows : List OperationTask) (db : Db)
    → Inv s db
    → Distinct rows
    → Pending rows db
    → any (λ t. state_eq t.state cancelling) rows ≡ true
    → is_ok (recover_from s now n rows db).0 ≡ false
unfolding recover_from recover_next
recover_from-stuck s now n [] db inv d p h = absurd (cc)
recover_from-stuck s now n (t ∷ rows) db inv d p h =
    turn (transition s now (λ x. x) (recovery_move t) db) refl
      (λ db'. recover_from-stuck s now (n + 1) rows db')
  where
    turn :
        (o : Result OperationTask × Db)
        → transition s now (λ x. x) (recovery_move t) db ≡ o
        → ((db' : Db)
            → Inv s db'
            → Distinct rows
            → Pending rows db'
            → any (λ t. state_eq t.state cancelling) rows ≡ true
            → is_ok (recover_from s now (n + 1) rows db').0 ≡ false)
        → is_ok (recover_next (λ db'. recover_from s now (n + 1) rows db') o).0 ≡ false
    turn (err e, db') q rest = refl
    turn (fault, db') q rest = refl
    turn (ok r, db') q rest =
        let (other, c) = turn-returned s now t db p.0 q in
        let inv' : Inv s db' =
          subst (λ o. Inv s o.1) q (transition-Inv s now (λ x. x) (recovery_move t) db inv inv) in
        rest db' inv' d.1 (Pending-step s now t rows db d.0 c p.1) (ground arith)

-- If any task is cancelling when the process starts, `recover_interrupted` raises: the table has no
-- way from `cancelling` to `paused` or `blocked`.
pub recover_interrupted-stuck :
    (s : Service) (now : ℕ) (db : Db)
    → Inv s db
    → any (λ t. state_eq t.state cancelling) db.tasks ≡ true
    → is_ok (recover_interrupted s now db).0 ≡ false
unfolding recover_interrupted
recover_interrupted-stuck s now db inv h =
    recover_from-stuck s now 0 (filter interrupted db.tasks) db inv
      (Distinct-filter interrupted db.tasks inv.distinct)
      (All-filter (λ u. find_row u.id db.tasks ≡ some u) (λ u. find_row u.id db.tasks ≡ some u)
        interrupted db.tasks (λ u _ h. h) (found_self db.tasks inv.distinct))
      (selected db.tasks h)
