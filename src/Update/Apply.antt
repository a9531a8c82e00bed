-- ===== src/Update/Apply.antt =====
-- app/source_update/service.py, `apply_manual_update` up to its first commit: the checks of the plan, the
-- new task and the writes.
use nsfwtrack.Base.{
  ℕ, String, Bool, true, false, not, ◌&&◌, ◌||◌, Option, none, some, List, [], ◌∷◌, find, ◌==◌,
  str_eq, if◌then◌else◌, update_where, count_where,
}
use nsfwtrack.Tasks.Contracts.{metadata_update, queued, running, succeeded, state_eq}
use nsfwtrack.Tasks.Store as Rows
use nsfwtrack.Tasks.Store.{OperationTask, Db, update_rows, has_id}
use nsfwtrack.Tasks.Service.{Service, NewTask, has_key, create, transition, Move}
use nsfwtrack.Update.Contracts.{
  invalid_request, stale_plan, write_failed, outcome_unknown, err, value_error, Item, ItemSource,
  SourceCheckFact, Store, item_row, source_row, fact_row, Std, item_snapshot, source_snapshot,
  Field, item_summary, item_release_date, ManualFieldChange, ManualUpdatePlan,
}
use nsfwtrack.Update.Plan.{same_option}
use nsfwtrack.Update.Verify.{changed_item, changed_source, Expected, verify_replay}
use nsfwtrack.Update.Closing.{World, outcome, Outcome, commit_write}

-- The arguments of the calls that make and start the task.
abbrev pub starting : OperationTask → Move
starting t = record {
  task_id = t.id;
  target = running;
  expected_version = t.version;
  event_type = "metadata_apply_started";
  error_code = none;
  error_detail = none;
}

abbrev pub update_task : String → ManualUpdatePlan → NewTask
update_task key plan = record {
  task_type = metadata_update;
  intent_key = key;
  initial_state = queued;
  item_id = some plan.plan_item_id;
  source_id = some plan.plan_source_id;
  provider_key = some plan.plan_provider_key;
  external_identity = none;
  asset_identity = none;
  relative_target = none;
  snapshot_hash = some plan.plan_detail_hash;
}

abbrev pub is_item_field : Field → Bool
is_item_field item_summary = true
is_item_field item_release_date = true
is_item_field _ = false

abbrev pub any_change : (Field → Bool) → List ManualFieldChange → Bool
any_change p [] = false
any_change p (c ∷ cs) = p c.field || any_change p cs

-- `UPDATE items … WHERE id AND title`; none where it does not hit one row.
unfoldable pub update_items : ℕ → List ManualFieldChange → Item → List Item → Option (List Item)
update_items now cs item rows =
    let hit = λ (i : Item). i.item_id == item.item_id && str_eq i.item_title item.item_title in
    if any_change is_item_field cs
    then (if count_where hit rows == 1
        then some (update_where hit (λ i. record (changed_item cs i) { updated_at = now }) rows)
        else none)
    else some rows

abbrev pub same_number : Option ℕ → Option ℕ → Bool
same_number none none = true
same_number (some a) (some b) = a == b
same_number _ _ = false

abbrev pub source_or : ItemSource → Option ItemSource → ItemSource
source_or s none = s
source_or s (some t) = t

-- `UPDATE item_sources … WHERE` the columns that the plan was made for.
unfoldable pub update_sources :
    Std → List ManualFieldChange → ItemSource → List ItemSource → Option (List ItemSource)
update_sources std cs source rows =
    let hit = λ (o : ItemSource).
      o.source_id == source.source_id
      && same_option o.provider_key source.provider_key
      && same_option o.external_id source.external_id
      && same_option o.source_title source.source_title
      && same_number o.last_checked_at source.last_checked_at
      && same_option o.metadata_hash source.metadata_hash in
    if any_change (λ f. not (is_item_field f)) cs
    then (if count_where hit rows == 1
        then some (update_where hit (λ o. source_or o (changed_source std cs o)) rows)
        else none)
    else some rows

-- The two updates and the stage, in the transaction that holds the new task; none: `STALE_PLAN`.
unfoldable pub written :
    World → Std → ManualUpdatePlan → ℕ → Item → ItemSource → Store → Option Store
written w std plan i item source s = elim (update_items w.now plan.selected item s.items) [
  | none ↦ none
  | some items ↦ elim (update_sources std plan.selected source s.sources) [
    | none ↦ none
    | some sources ↦ some (record s {
      db = record s.db {
        tasks = update_rows (has_id i) (λ t. record t { stage = "written" }) s.db.tasks;
      };
      items = items;
      sources = sources;
    })
  ]
]

-- The rows of the transaction: `started` is the running task, `tx` the tables with it.
unfoldable pub write :
    World
    → Std
    → Service
    → ManualUpdatePlan
    → Item
    → ItemSource
    → Store
    → OperationTask
    → Store
    → Outcome
write w std service plan item source s started tx = elim (changed_source std plan.selected source) [
  | none ↦ (value_error, s)
  | some source_after ↦
      let x : Expected = record {
        plan = plan;
        task_id = started.id;
        version = started.version;
        item_after = changed_item plan.selected item;
        source_after = source_after;
        item_before = item;
        source_before = source;
      } in
      elim (written w std plan started.id item source tx) [
        | none ↦ (err stale_plan, s)
        | some after ↦ commit_write w x service w.write_commit s after
      ]
]

-- The new task, then its start.
unfoldable pub start :
    World → Std → Service → ManualUpdatePlan → Item → ItemSource → Store → Outcome
start w std service plan item source s =
    let made = create service w.now (λ d. d) w.new_task_id (update_task w.intent_key plan) s.db in
    elim made.0 [
      | Rows.err e ↦ (value_error, s)
      | Rows.fault ↦ (value_error, s)
      | Rows.ok t ↦
          let moved = transition service w.now (λ db. db) (starting t.0) made.1 in
          if not t.1 then (err stale_plan, s) else elim moved.0 [
            | Rows.err e ↦ (value_error, s)
            | Rows.fault ↦ (value_error, s)
            | Rows.ok t' ↦ write w std service plan item source s t' (record s { db = moved.1 })
          ]
    ]

-- The rows that the plan names, as they are now.
unfoldable pub apply_rows :
    World
    → Std
    → Service
    → ManualUpdatePlan
    → Store
    → Option Item
    → Option ItemSource
    → Option SourceCheckFact
    → Outcome
apply_rows w std service plan s (some item) (some source) (some fact) =
    if not (str_eq (item_snapshot std item) plan.plan_item_hash)
      || not (str_eq (source_snapshot std source) plan.plan_source_hash)
      || not (str_eq fact.detail_hash plan.plan_detail_hash)
    then (err stale_plan, s)
    else start w std service plan item source s
apply_rows w std service plan s _ _ _ = (err stale_plan, s)

-- A plan that was applied before.
unfoldable pub replay : World → Std → ManualUpdatePlan → OperationTask → Store → Outcome
replay w std plan existing s =
    let s1 = w.others 0 s in
    if not (state_eq existing.state succeeded)
    then (err stale_plan, s)
    else if verify_replay std w.intent_key plan existing.id s1
    then (outcome existing.id plan "already_applied_verified", s1)
    else (err outcome_unknown, s1)

-- With the task of the plan's intent key, if there is one.
unfoldable pub apply_task :
    World → Std → Service → ManualUpdatePlan → Store → Option OperationTask → Outcome
apply_task w std service plan s (some existing) = replay w std plan existing s
apply_task w std service plan s none =
    apply_rows w std service plan s (item_row plan.plan_item_id s.items)
      (source_row plan.plan_source_id s.sources) (fact_row plan.check_task_id s.facts)

unfoldable pub apply_manual_update : World → Std → Service → ManualUpdatePlan → Store → Outcome
apply_manual_update w std service plan s =
    if not w.clean
    then (err invalid_request, s)
    else if not w.begins
    then (err write_failed, s)
    else apply_task w std service plan s (find (has_key w.intent_key) s.db.tasks)
