-- ===== src/Update/Usable.antt =====
-- app/source_update/service.py: `build_manual_update_plan` after `execute_source_check`.
use nsfwtrack.Base.{ℕ, String, List, str_eq, if◌then◌else◌}
use nsfwtrack.Tasks.Store.{OperationTask}
use nsfwtrack.Tasks.Service.{Service}
use nsfwtrack.Update.Contracts.{
  err, stale_plan, Result, ManualUpdatePlan, bind, Item, ItemSource, Store, Std, source_snapshot,
  update_fields,
}
use nsfwtrack.Update.Plan.{collect, finish_plan}
use nsfwtrack.Update.Check.{Detail, CheckWorld, fact_of}

-- What planning comes to, `source` as it is and `asked` as it was.
abbrev pub plan_after :
    Std
    → CheckWorld
    → ℕ
    → OperationTask
    → Item
    → ItemSource
    → ItemSource
    → Detail
    → List String
    → Result ManualUpdatePlan
plan_after std w ttl r item asked source d chosen =
    let fact = fact_of std r.id w.later ttl item asked d in
    if str_eq (source_snapshot std source) (source_snapshot std asked)
    then bind (collect std item source fact chosen update_fields) (finish_plan r item source fact)
    else err stale_plan
