-- ===== src/Update/Tests/Invariant.antt =====
-- A second source check and the application of a plan, after a first check.
use nsfwtrack.Tasks.Invariant.{Inv}
use nsfwtrack.Update.Closing.{stored}
use nsfwtrack.Update.Apply.{apply_manual_update}
use nsfwtrack.Update.Check.{CheckWorld, execute_source_check}
use nsfwtrack.Update.Invariant.{source_update-Inv}
use nsfwtrack.Update.Tests.{std, svc, plan, before, check_world, checked, world}
use nsfwtrack.Update.Tests.Usable.{before-Inv}

abbrev second_check : CheckWorld
second_check = record check_world {
  now = 4;
  later = 6;
  new_task_id = 2;
  check_key = "source-check:1:y";
}

source_update-Inv_example :
    Inv svc (execute_source_check std svc second_check 1 1 900 checked).1.db
    × Inv svc (apply_manual_update (world stored) std svc plan checked).1.db
source_update-Inv_example =
    source_update-Inv std svc second_check 1 1 900 (world stored) plan checked (λ x h. h) (λ x h. h)
      (λ i x h. h)
      (source_update-Inv std svc check_world 1 1 900 (world stored) plan before (λ x h. h)
        (λ x h. h) (λ i x h. h) before-Inv).0
