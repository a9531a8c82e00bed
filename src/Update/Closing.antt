-- ===== src/Update/Closing.antt =====
-- app/source_update/service.py, `apply_manual_update` from its first commit on: the transaction that closes
-- the task, and the readings that decide what is reported.
use nsfwtrack.Base.{
  ℕ, ◌+◌, String, Bool, true, false, ◌&&◌, none, List, map, ◌==◌, str_eq, if◌then◌else◌,
}
use nsfwtrack.Tasks.Contracts.{running, succeeded, state_eq}
use nsfwtrack.Tasks.Store as Rows
use nsfwtrack.Tasks.Store.{OperationTask, Db, update_rows, has_id}
use nsfwtrack.Tasks.Service.{Service, transition, get, Move}
use nsfwtrack.Tasks.Leases.{mark_verification_unknown}
use nsfwtrack.Update.Contracts.{
  write_failed, outcome_unknown, Result, ok, err, value_error, Store, field_name, ManualFieldChange,
  ManualUpdatePlan, ManualUpdateResult,
}
use nsfwtrack.Update.Verify.{Expected, verify_state, verify_pre}

-- How a commit ends: stored; raised with nothing stored; raised although stored.
pub data Commit : Type 0 where
  stored lost stored_and_raised : Commit

-- What is outside the call: the session, the clock, the id that the database gives the task, the digest
-- of the plan, the ends of the three commits, and what other sessions commit before each reading.
pub record World : Type 0 where
  pub clean : Bool
  pub begins : Bool
  pub now : ℕ
  pub new_task_id : ℕ
  pub intent_key : String
  pub write_commit : Commit
  pub close_commit : Commit
  pub mark_commit : Commit
  pub others : ℕ → Store → Store

abbrev pub committed : Commit → Store → Store → Store
committed stored before after = after
committed lost before after = before
committed stored_and_raised before after = after

abbrev pub names_of : List ManualFieldChange → List String
names_of cs = map (λ (c : ManualFieldChange). field_name c.field) cs

abbrev pub outcome : ℕ → ManualUpdatePlan → String → Result ManualUpdateResult
outcome i plan status =
    ok (record { task_id = i; written_fields = names_of plan.selected; commit_status = status })

abbrev pub Outcome : Type 0
Outcome = Result ManualUpdateResult × Store

-- The arguments of the call that closes the task.
abbrev pub closing : ℕ → OperationTask → Move
closing i t = record {
  task_id = i;
  target = succeeded;
  expected_version = t.version;
  event_type = "metadata_apply_succeeded";
  error_code = none;
  error_detail = none;
}

module _ (w : World) (x : Expected) where
  abbrev pub running_written : Store → Bool
  running_written s = verify_state w.intent_key x running "written" x.version s

  -- After a failed reading of the written state: nothing was written, or it is not known.
  unfoldable pub pre_or_unknown : Store → Outcome
  pre_or_unknown s =
      if verify_pre w.intent_key x s then (err write_failed, s) else (err outcome_unknown, s)

  -- `tasks.mark_verification_unknown` where the task is as this call left it; what it raises is dropped.
  unfoldable pub mark_unknown : ℕ → Store → Store
  mark_unknown success s = elim (get x.task_id s.db) [
    | Rows.err e ↦ s
    | Rows.fault ↦ s
    | Rows.ok t ↦
        if state_eq t.state succeeded && str_eq t.stage "committed_verified" && t.version == success
        then committed w.mark_commit s (record s {
          db =
              (mark_verification_unknown w.now x.task_id success "committed_verified"
                "metadata_verification_unknown" s.db).1;
        })
        else s
  ]

  -- The last reading.
  unfoldable pub report : ℕ → Store → Outcome
  report success s =
      let s1 = w.others 4 s in
      let s2 = w.others 5 s1 in
      if verify_state w.intent_key x succeeded "committed_verified" success s1
      then (outcome x.task_id x.plan "committed_verified", s1)
      else if running_written s2
      then (err write_failed, s2)
      else (err outcome_unknown, mark_unknown success (w.others 6 s2))

  abbrev pub staged : ℕ → String → Store → Store
  staged i stage s = record s {
    db = record s.db {
      tasks = update_rows (has_id i) (λ t. record t { stage = stage }) s.db.tasks;
    };
  }

  abbrev pub raised : Commit → Bool
  raised stored = false
  raised _ = true

  -- The transaction that closes the task.
  unfoldable pub close_task : Service → Store → Outcome
  close_task service s = elim (get x.task_id s.db) [
    | Rows.err e ↦ (value_error, s)
    | Rows.fault ↦ (value_error, s)
    | Rows.ok t ↦
        let moved = transition service w.now (λ db. db) (closing x.task_id t) s.db in
        elim moved.0 [
          | Rows.err e ↦ report (x.version + 1) s
          | Rows.fault ↦ report (x.version + 1) s
          | Rows.ok t' ↦ report (if raised w.close_commit then x.version + 1 else t'.version) (
              committed w.close_commit s
                (staged x.task_id "committed_verified" (record s { db = moved.1 })))
        ]
  ]

  -- After the first commit: the reading of what it wrote.
  unfoldable pub confirm : Service → Store → Outcome
  confirm service s =
      let s1 = w.others 1 s in
      if running_written s1 then close_task service s1 else pre_or_unknown (w.others 2 s1)

  -- After a first commit that raised: the same reading once more before it.
  unfoldable pub confirm_raised : Service → Store → Outcome
  confirm_raised service s =
      let s1 = w.others 0 s in
      if running_written s1 then confirm service s1 else pre_or_unknown (w.others 3 s1)

  unfoldable pub commit_write : Service → Commit → Store → Store → Outcome
  commit_write service stored before after = confirm service after
  commit_write service lost before after = confirm_raised service before
  commit_write service stored_and_raised before after = confirm_raised service after
