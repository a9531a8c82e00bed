-- ===== src/Update/Grounds.antt =====
-- app/source_update/service.py, `build_manual_update_plan`: the grounds of a plan and all that it promises.
use nsfwtrack.Base.{
  ℕ, ◌<◌, String, true, not, Option, none, some, List, str_eq_iff, leb, if◌then◌else◌, ◌≡◌, refl,
  sym, arith,
}
use nsfwtrack.Tasks.Contracts.{succeeded, state_eq, state_eq→eq}
use nsfwtrack.Tasks.Store.{OperationTask, find_row}
use nsfwtrack.Tasks.Optimistic.{find_row-id}
use nsfwtrack.Update.Contracts.{
  invalid_request, check_expired, nothing_to_apply, ok, err, Item, ItemSource, SourceCheckFact,
  Store, fact_row, Std, item_snapshot, source_snapshot, update_fields, ManualFieldChange,
  ManualUpdatePlan, is_empty, valid_plan, Okay, bind-Okay, if_err-Okay,
}
use nsfwtrack.Update.Plan.{
  collect, plan_from, finish_plan, item_of, source_of, plan_rows, plan_check,
  build_manual_update_plan,
}
use nsfwtrack.Update.Planned.{Collects, collect-Collects}

-- The rows a plan rests on: a check that succeeded and has not expired, of an item and a source that
-- are as they were when it ran.
pub record Grounds (std : Std) (check_task_id now : ℕ) (s : Store) (task : OperationTask)
    (fact : SourceCheckFact) (item : Item) (source : ItemSource) : Type 0 where
  pub the_task : find_row check_task_id s.db.tasks ≡ some task
  pub the_fact : fact_row check_task_id s.facts ≡ some fact
  pub the_item : item_of task.item_id s ≡ some item
  pub the_source : source_of task.source_id s ≡ some source
  pub done : task.state ≡ succeeded
  pub fresh : now < fact.expires_at
  pub item_same : item_snapshot std item ≡ fact.item_snapshot_hash
  pub source_same : source_snapshot std source ≡ fact.source_snapshot_hash

-- What a plan promises.
abbrev pub PlanPromise : Std → ℕ → List String → ℕ → Store → ManualUpdatePlan → Type 0
PlanPromise std check_task_id selected now s plan =
    (task : OperationTask) × (fact : SourceCheckFact) × (item : Item) × (source : ItemSource)
    × Grounds std check_task_id now s task fact item source
    × (valid_plan plan ≡ true)
    × (plan.check_task_id ≡ check_task_id)
    × (plan.plan_item_id ≡ item.item_id)
    × (plan.plan_source_id ≡ source.source_id)
    × (plan.plan_item_hash ≡ item_snapshot std item)
    × (plan.plan_source_hash ≡ source_snapshot std source)
    × (plan.plan_detail_hash ≡ fact.detail_hash)
    × Collects std selected item source fact update_fields plan.selected

module _ (std : Std) (check_task_id : ℕ) (selected : List String) (now : ℕ) (s : Store) where
  abbrev Promise : ManualUpdatePlan → Type 0
  Promise = PlanPromise std check_task_id selected now s

  -- Changes that make a valid plan make one that keeps the promise.
  finish-Promise :
      (task : OperationTask) (fact : SourceCheckFact) (item : Item) (source : ItemSource)
      → Grounds std check_task_id now s task fact item source
      → (changes : List ManualFieldChange)
      → Collects std selected item source fact update_fields changes
      → Okay Promise (finish_plan task item source fact changes)
  unfolding finish_plan
  finish-Promise task fact item source g changes k =
      let plan = plan_from task item source fact changes in
      if_err-Okay Promise (is_empty changes) nothing_to_apply
        (if not (valid_plan plan) then err invalid_request else ok plan)
        λ filled. if_err-Okay Promise (not (valid_plan plan)) invalid_request (ok plan) λ valid. (
          task,
          fact,
          item,
          source,
          g,
          ground (arith, valid),
          find_row-id check_task_id s.db.tasks g.the_task,
          refl,
          refl,
          sym g.item_same,
          sym g.source_same,
          refl,
          k,
        )

  rows-Promise :
      (task : OperationTask) (fact : SourceCheckFact) (i : Option Item) (o : Option ItemSource)
      → find_row check_task_id s.db.tasks ≡ some task
      → fact_row check_task_id s.facts ≡ some fact
      → item_of task.item_id s ≡ i
      → source_of task.source_id s ≡ o
      → task.state ≡ succeeded
      → now < fact.expires_at
      → Okay Promise (plan_rows std selected task fact i o)
  unfolding plan_rows
  rows-Promise task fact none o a b c d e f = tt
  rows-Promise task fact (some item) none a b c d e f = tt
  rows-Promise task fact (some item) (some source) a b c d e f = if_err-Okay Promise _ _ _ λ same.
      bind-Okay (Collects std selected item source fact update_fields) Promise
        (collect std item source fact selected update_fields) (finish_plan task item source fact)
        (collect-Collects std selected item source fact update_fields)
        (finish-Promise task fact item source (record {
          the_task = a;
          the_fact = b;
          the_item = c;
          the_source = d;
          done = e;
          fresh = f;
          item_same =
              ground (arith, same, str_eq_iff (item_snapshot std item) fact.item_snapshot_hash);
          source_same =
              ground
                (arith, same, str_eq_iff (source_snapshot std source) fact.source_snapshot_hash);
        }))

  check-Promise :
      (t : Option OperationTask) (o : Option SourceCheckFact)
      → find_row check_task_id s.db.tasks ≡ t
      → fact_row check_task_id s.facts ≡ o
      → Okay Promise (plan_check std selected now s t o)
  unfolding plan_check
  check-Promise none o a b = tt
  check-Promise (some task) none a b = tt
  check-Promise (some task) (some fact) a b =
      let rows =
        plan_rows std selected task fact (item_of task.item_id s) (source_of task.source_id s) in
      if_err-Okay Promise (not (state_eq task.state succeeded)) invalid_request
        (if leb fact.expires_at now then err check_expired else rows)
        λ state. if_err-Okay Promise (leb fact.expires_at now) check_expired rows λ time.
          rows-Promise task fact (item_of task.item_id s) (source_of task.source_id s) a b refl refl
            (state_eq→eq task.state succeeded (ground (arith, state))) (ground (arith, time))

  -- A plan names the check that it is made from, one that succeeded, has not expired and saw the item
  -- and the source as they are now, and it names these two. Its changes are those of the selected fields whose proposed value
  -- differs from the current one, each from the current to the proposed value, none of another field,
  -- and none that clears a text; they are at least one, of distinct fields. A field that was not among
  -- the five never gets into a plan, and what the provider leaves out never clears local data.
  pub build_manual_update_plan-Promise :
      Okay
        (PlanPromise std check_task_id selected now s)
        (build_manual_update_plan std check_task_id selected now s)
  unfolding build_manual_update_plan
  build_manual_update_plan-Promise = if_err-Okay Promise _ _ _ λ known.
      check-Promise (find_row check_task_id s.db.tasks) (fact_row check_task_id s.facts) refl refl
