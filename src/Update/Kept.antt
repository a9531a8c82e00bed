-- ===== src/Update/Kept.antt =====
-- app/source_update/service.py: what `apply_manual_update` does to the invariant of the task tables.
use nsfwtrack.Base.{ℕ, ◌+◌, String, Bool, true, false, ◌&&◌, if◌then◌else◌, ◌==◌, str_eq, refl}
use nsfwtrack.Tasks.Contracts.{succeeded, state_eq}
use nsfwtrack.Tasks.Store as Rows
use nsfwtrack.Tasks.Store.{OperationTask, Db, has_id, update_rows}
use nsfwtrack.Tasks.Service.{Service, transition, get}
use nsfwtrack.Tasks.Leases.{mark_verification_unknown}
use nsfwtrack.Tasks.Invariant.{Inv, Inv-kept}
use nsfwtrack.Tasks.Preserve.{transition-Inv}
use nsfwtrack.Tasks.Preserve.Leases.{mark_verification_unknown-Inv}
use nsfwtrack.Update.Contracts.{write_failed, outcome_unknown, err, value_error, Store}
use nsfwtrack.Update.Verify.{Expected, verify_state, verify_pre}
use nsfwtrack.Update.Closing.{
  Commit, stored, lost, stored_and_raised, World, Outcome, committed, closing, raised, staged,
  running_written, pre_or_unknown, mark_unknown, report, close_task, confirm, confirm_raised,
  commit_write,
}

module _ (w : World) (service : Service)
    (others : (i : ℕ) (x : Store) → Inv service x.db → Inv service (w.others i x).db) where
  -- The tables are left with the invariant.
  abbrev pub Keeps : Outcome → Type 0
  Keeps o = Inv service o.1.db

  pub if-Keeps : (b : Bool) (o p : Outcome) → Keeps o → Keeps p → Keeps (if b then o else p)
  if-Keeps true o p h k = h
  if-Keeps false o p h k = k

  committed-Inv :
      (c : Commit) (s s' : Store)
      → Inv service s.db
      → Inv service s'.db
      → Inv service (committed c s s').db
  committed-Inv stored s s' h k = k
  committed-Inv lost s s' h k = h
  committed-Inv stored_and_raised s s' h k = k

  -- The stage of a row is not in the invariant.
  pub stage-Inv :
      (i : ℕ) (stage : String) (db : Db)
      → Inv service db
      → Inv service
          (record db { tasks = update_rows (has_id i) (λ t. record t { stage = stage }) db.tasks })
  stage-Inv i stage db inv =
      Inv-kept (has_id i) (λ t. record t { stage = stage }) service db (λ u. (refl, refl, refl))
        (λ u _ l. record { expires = l.expires; active = l.active }) inv

  module _ (x : Expected) where
    pre_or_unknown-Keeps : (s : Store) → Inv service s.db → Keeps (pre_or_unknown w x s)
    unfolding pre_or_unknown
    pre_or_unknown-Keeps s h =
        if-Keeps (verify_pre w.intent_key x s) (err write_failed, s) (err outcome_unknown, s) h h

    -- The tables where the reading found this.
    abbrev marked_where : ℕ → Store → Rows.Result OperationTask → Store
    marked_where n s g = elim g [
      | Rows.err e ↦ s
      | Rows.fault ↦ s
      | Rows.ok t ↦
          if state_eq t.state succeeded && str_eq t.stage "committed_verified" && t.version == n
          then committed w.mark_commit s (record s {
            db =
                (mark_verification_unknown w.now x.task_id n "committed_verified"
                  "metadata_verification_unknown" s.db).1;
          })
          else s
    ]

    if-Inv :
        (b : Bool) (s s' : Store)
        → Inv service s.db
        → Inv service s'.db
        → Inv service (if b then s else s').db
    if-Inv true s s' h k = h
    if-Inv false s s' h k = k

    marked-Inv :
        (n : ℕ) (s : Store) (g : Rows.Result OperationTask)
        → Inv service s.db
        → Inv service (marked_where n s g).db
    marked-Inv n s (Rows.err e) h = h
    marked-Inv n s Rows.fault h = h
    marked-Inv n s (Rows.ok t) h =
        if-Inv (state_eq t.state succeeded && str_eq t.stage "committed_verified" && t.version == n)
          _ s
          (committed-Inv w.mark_commit s _ h (
            mark_verification_unknown-Inv service w.now x.task_id n "committed_verified"
              "metadata_verification_unknown" s.db h))
          h

    mark_unknown-Inv :
        (n : ℕ) (s : Store) → Inv service s.db → Inv service (mark_unknown w x n s).db
    unfolding mark_unknown
    mark_unknown-Inv n s h = marked-Inv n s (get x.task_id s.db) h

    report-Keeps : (n : ℕ) (s : Store) → Inv service s.db → Keeps (report w x n s)
    unfolding report
    report-Keeps n s h =
        let k = others 4 s h in
        let l = others 5 (w.others 4 s) k in
        if-Keeps (verify_state w.intent_key x succeeded "committed_verified" n (w.others 4 s)) _ _ k
          (if-Keeps (running_written w x (w.others 5 (w.others 4 s))) _ _ l (
            mark_unknown-Inv n (w.others 6 (w.others 5 (w.others 4 s)))
              (others 6 (w.others 5 (w.others 4 s)) l)))

    abbrev closed_where : Store → OperationTask → Rows.Result OperationTask × Db → Outcome
    closed_where s t o = elim o.0 [
      | Rows.err e ↦ report w x (x.version + 1) s
      | Rows.fault ↦ report w x (x.version + 1) s
      | Rows.ok t' ↦ report w x (if raised w x w.close_commit then x.version + 1 else t'.version) (
          committed w.close_commit s
            (staged w x x.task_id "committed_verified" (record s { db = o.1 })))
    ]

    closed-Keeps :
        (s : Store) (t : OperationTask) (o : Rows.Result OperationTask × Db)
        → Inv service s.db
        → Inv service o.1
        → Keeps (closed_where s t o)
    closed-Keeps s t (Rows.err e, db) h k = report-Keeps (x.version + 1) s h
    closed-Keeps s t (Rows.fault, db) h k = report-Keeps (x.version + 1) s h
    closed-Keeps s t (Rows.ok t', db) h k =
        report-Keeps _ _
          (committed-Inv w.close_commit s _ h (stage-Inv x.task_id "committed_verified" db k))

    abbrev found_where : Store → Rows.Result OperationTask → Outcome
    found_where s g = elim g [
      | Rows.err e ↦ (value_error, s)
      | Rows.fault ↦ (value_error, s)
      | Rows.ok t ↦
          closed_where s t (transition service w.now (λ db. db) (closing x.task_id t) s.db)
    ]

    found-Keeps :
        (s : Store) (g : Rows.Result OperationTask) → Inv service s.db → Keeps (found_where s g)
    found-Keeps s (Rows.err e) h = h
    found-Keeps s Rows.fault h = h
    found-Keeps s (Rows.ok t) h =
        closed-Keeps s t (transition service w.now (λ db. db) (closing x.task_id t) s.db) h
          (transition-Inv service w.now (λ db. db) (closing x.task_id t) s.db h h)

    close_task-Keeps : (s : Store) → Inv service s.db → Keeps (close_task w x service s)
    unfolding close_task
    close_task-Keeps s h = found-Keeps s (get x.task_id s.db) h

    confirm-Keeps : (s : Store) → Inv service s.db → Keeps (confirm w x service s)
    unfolding confirm
    confirm-Keeps s h =
        let k = others 1 s h in
        if-Keeps (running_written w x (w.others 1 s)) _ _ (close_task-Keeps (w.others 1 s) k)
          (pre_or_unknown-Keeps (w.others 2 (w.others 1 s)) (others 2 (w.others 1 s) k))

    confirm_raised-Keeps : (s : Store) → Inv service s.db → Keeps (confirm_raised w x service s)
    unfolding confirm_raised
    confirm_raised-Keeps s h =
        let k = others 0 s h in
        if-Keeps (running_written w x (w.others 0 s)) _ _ (confirm-Keeps (w.others 0 s) k)
          (pre_or_unknown-Keeps (w.others 3 (w.others 0 s)) (others 3 (w.others 0 s) k))

    pub commit_write-Keeps :
        (c : Commit) (s s' : Store)
        → Inv service s.db
        → Inv service s'.db
        → Keeps (commit_write w x service c s s')
    unfolding commit_write
    commit_write-Keeps stored s s' h k = confirm-Keeps s' k
    commit_write-Keeps lost s s' h k = confirm_raised-Keeps s h
    commit_write-Keeps stored_and_raised s s' h k = confirm_raised-Keeps s' k
