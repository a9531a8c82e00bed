-- ===== src/Update/Tests/Usable.antt =====
-- A source check at a concrete input, and the plan of what it found.
use nsfwtrack.Base.{none, []}
use nsfwtrack.Tasks.Store.{OperationTask}
use nsfwtrack.Tasks.Service.{fresh_row}
use nsfwtrack.Tasks.Invariant.{Inv}
use nsfwtrack.Tasks.Reach.{start, Reach-Inv}
use nsfwtrack.Update.Contracts.{Result, ok}
use nsfwtrack.Update.Check.{check_task, execute_source_check}
use nsfwtrack.Update.Tests.{std, svc, source, before, check_world}

abbrev task_or : Result OperationTask → OperationTask
task_or (ok t) = t
task_or _ = fresh_row 0 0 (check_task std "" 0 0 source) none none

abbrev returned : OperationTask
returned = task_or (execute_source_check std svc check_world 1 1 900 before).0

pub before-Inv : Inv svc before.db
before-Inv = Reach-Inv svc (start [])
