-- ===== src/Update/Steps.antt =====
-- app/source_update/service.py, `apply_manual_update`: each step of it, where what it calls succeeds.
use nsfwtrack.Base.{
  ℕ, ◌+◌, Bool, true, not, none, some, List, find, str_eq, if◌then◌else◌, ◌≡◌, refl, ap, ◌∙◌,
}
use nsfwtrack.Tasks.Store as Rows
use nsfwtrack.Tasks.Store.{OperationTask, Db, update_rows, has_id}
use nsfwtrack.Tasks.Service.{Service, has_key, create, get, transition}
use nsfwtrack.Update.Contracts.{
  err, stale_plan, value_error, Item, ItemSource, SourceCheckFact, Store, Std, item_row, source_row,
  fact_row, item_snapshot, source_snapshot, ManualUpdatePlan,
}
use nsfwtrack.Update.Verify.{Expected, changed_item, changed_source}
use nsfwtrack.Update.Closing.{
  World, committed, closing, raised, staged, report, close_task, commit_write,
}
use nsfwtrack.Update.Apply.{
  starting, update_task, update_items, update_sources, written, write, start, apply_rows,
  apply_task, apply_manual_update,
}

pub close_task-moved :
    (w : World) (x : Expected) (service : Service) (s : Store) (t moved : OperationTask) (db : Db)
    → get x.task_id s.db ≡ Rows.ok t
    → transition service w.now (λ d. d) (closing x.task_id t) s.db ≡ (Rows.ok moved, db)
    → close_task w x service s
      ≡ report w x (if raised w x w.close_commit then x.version + 1 else moved.version) (
          committed w.close_commit s
            (staged w x x.task_id "committed_verified" (record s { db = db })))
unfolding close_task
close_task-moved w x service s t moved db found made =
    rw (found, close_task)
      (ap
        (λ (m : Rows.Result OperationTask × Db). elim m.0 [
          | Rows.err e ↦ report w x (x.version + 1) s
          | Rows.fault ↦ report w x (x.version + 1) s
          | Rows.ok t' ↦
              report w x (if raised w x w.close_commit then x.version + 1 else t'.version) (
                committed w.close_commit s
                  (staged w x x.task_id "committed_verified" (record s { db = m.1 })))
        ])
        made)

pub written-both :
    (w : World) (std : Std) (plan : ManualUpdatePlan) (i : ℕ) (item : Item) (source : ItemSource)
    (s : Store) (items : List Item) (sources : List ItemSource)
    → update_items w.now plan.selected item s.items ≡ some items
    → update_sources std plan.selected source s.sources ≡ some sources
    → written w std plan i item source s
      ≡ some (record s {
        db = record s.db {
          tasks = update_rows (has_id i) (λ t. record t { stage = "written" }) s.db.tasks;
        };
        items = items;
        sources = sources;
      })
unfolding written
written-both w std plan i item source s items sources a b = rw (a, written, b) refl

pub write-some :
    (w : World) (std : Std) (service : Service) (plan : ManualUpdatePlan) (item : Item)
    (source : ItemSource) (s : Store) (started : OperationTask) (tx : Store)
    (source_after : ItemSource) (after : Store)
    → changed_source std plan.selected source ≡ some source_after
    → written w std plan started.id item source tx ≡ some after
    → write w std service plan item source s started tx
      ≡ commit_write w
          (record {
            plan = plan;
            task_id = started.id;
            version = started.version;
            item_after = changed_item plan.selected item;
            source_after = source_after;
            item_before = item;
            source_before = source;
          })
          service
          w.write_commit
          s
          after
unfolding write
write-some w std service plan item source s started tx source_after after a b =
    rw (a, write, b) refl

pub start-moved :
    (w : World) (std : Std) (service : Service) (plan : ManualUpdatePlan) (item : Item)
    (source : ItemSource) (s : Store) (t t' : OperationTask) (db db' : Db)
    → create service w.now (λ d. d) w.new_task_id (update_task w.intent_key plan) s.db
      ≡ (Rows.ok (t, true), db)
    → transition service w.now (λ d. d) (starting t) db ≡ (Rows.ok t', db')
    → start w std service plan item source s
      ≡ write w std service plan item source s t' (record s { db = db' })
unfolding start
start-moved w std service plan item source s t t' db db' a b =
    ap
      (λ (m : Rows.Result (OperationTask × Bool) × Db). elim m.0 [
        | Rows.err e ↦ (value_error, s)
        | Rows.fault ↦ (value_error, s)
        | Rows.ok u ↦
            let moved = transition service w.now (λ d. d) (starting u.0) m.1 in
            if not u.1 then (err stale_plan, s) else elim moved.0 [
              | Rows.err e ↦ (value_error, s)
              | Rows.fault ↦ (value_error, s)
              | Rows.ok u' ↦ write w std service plan item source s u' (record s { db = moved.1 })
            ]
      ])
      a
    ∙ ap
        (λ (m : Rows.Result OperationTask × Db). elim m.0 [
          | Rows.err e ↦ (value_error, s)
          | Rows.fault ↦ (value_error, s)
          | Rows.ok u' ↦ write w std service plan item source s u' (record s { db = m.1 })
        ])
        b

pub apply_rows-same :
    (w : World) (std : Std) (service : Service) (plan : ManualUpdatePlan) (s : Store) (item : Item)
    (source : ItemSource) (fact : SourceCheckFact)
    → str_eq (item_snapshot std item) plan.plan_item_hash ≡ true
    → str_eq (source_snapshot std source) plan.plan_source_hash ≡ true
    → str_eq fact.detail_hash plan.plan_detail_hash ≡ true
    → apply_rows w std service plan s (some item) (some source) (some fact)
      ≡ start w std service plan item source s
unfolding apply_rows
apply_rows-same w std service plan s item source fact a b c = rw (a, b, c) refl

pub apply_manual_update-new :
    (w : World) (std : Std) (service : Service) (plan : ManualUpdatePlan) (s : Store) (item : Item)
    (source : ItemSource) (fact : SourceCheckFact)
    → w.clean ≡ true
    → w.begins ≡ true
    → find (has_key w.intent_key) s.db.tasks ≡ none
    → item_row plan.plan_item_id s.items ≡ some item
    → source_row plan.plan_source_id s.sources ≡ some source
    → fact_row plan.check_task_id s.facts ≡ some fact
    → apply_manual_update w std service plan s
      ≡ apply_rows w std service plan s (some item) (some source) (some fact)
unfolding apply_manual_update apply_task
apply_manual_update-new w std service plan s item source fact a b c d e f =
    rw (a, b, c, d, e, f) refl
