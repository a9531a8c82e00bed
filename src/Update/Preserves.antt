-- ===== src/Update/Preserves.antt =====
-- app/source_update/service.py: `apply_manual_update` keeps the invariant of the task tables.
use nsfwtrack.Base.{ℕ, Bool, not, Option, none, some, List, find, if◌then◌else◌}
use nsfwtrack.Tasks.Contracts.{succeeded, state_eq}
use nsfwtrack.Tasks.Store as Rows
use nsfwtrack.Tasks.Store.{OperationTask, Db, has_id, update_rows}
use nsfwtrack.Tasks.Service.{Service, has_key, create, transition}
use nsfwtrack.Tasks.Invariant.{Inv}
use nsfwtrack.Tasks.Preserve.{transition-Inv}
use nsfwtrack.Tasks.Preserve.Create.{create-Inv}
use nsfwtrack.Update.Contracts.{
  invalid_request, stale_plan, write_failed, outcome_unknown, err, value_error, Item, ItemSource,
  SourceCheckFact, Store, item_row, source_row, fact_row, Std, ManualUpdatePlan,
}
use nsfwtrack.Update.Verify.{changed_item, changed_source, Expected, verify_replay}
use nsfwtrack.Update.Closing.{World, Outcome, outcome, commit_write}
use nsfwtrack.Update.Apply.{
  starting, update_task, update_items, update_sources, written, write, start, apply_rows, replay,
  apply_task, apply_manual_update,
}
use nsfwtrack.Update.Kept.{if-Keeps, stage-Inv, commit_write-Keeps}

module _ (w : World) (std : Std) (service : Service) (plan : ManualUpdatePlan)
    (others : (i : ℕ) (x : Store) → Inv service x.db → Inv service (w.others i x).db) where
  -- The tables of an option of them.
  abbrev EachInv : Option Store → Type 0
  EachInv none = Unit
  EachInv (some x) = Inv service x.db

  abbrev with_sources : ℕ → Store → List Item → Option (List ItemSource) → Option Store
  with_sources i s items o = elim o [
    | none ↦ none
    | some sources ↦ some (record s {
      db = record s.db {
        tasks = update_rows (has_id i) (λ t. record t { stage = "written" }) s.db.tasks;
      };
      items = items;
      sources = sources;
    })
  ]

  abbrev with_items : ℕ → ItemSource → Store → Option (List Item) → Option Store
  with_items i source s o = elim o [
    | none ↦ none
    | some items ↦ with_sources i s items (update_sources std plan.selected source s.sources)
  ]

  with_sources-EachInv :
      (i : ℕ) (s : Store) (items : List Item) (o : Option (List ItemSource))
      → Inv service s.db
      → EachInv (with_sources i s items o)
  with_sources-EachInv i s items none h = tt
  with_sources-EachInv i s items (some sources) h = stage-Inv w service others i "written" s.db h

  with_items-EachInv :
      (i : ℕ) (source : ItemSource) (s : Store) (o : Option (List Item))
      → Inv service s.db
      → EachInv (with_items i source s o)
  with_items-EachInv i source s none h = tt
  with_items-EachInv i source s (some items) h =
      with_sources-EachInv i s items (update_sources std plan.selected source s.sources) h

  written-EachInv :
      (i : ℕ) (item : Item) (source : ItemSource) (s : Store)
      → Inv service s.db
      → EachInv (written w std plan i item source s)
  unfolding written
  written-EachInv i item source s h =
      with_items-EachInv i source s (update_items w.now plan.selected item s.items) h

  abbrev Kept : Outcome → Type 0
  Kept o = Inv service o.1.db

  -- What is done with the tables of the transaction.
  abbrev stored_where : Store → Expected → Option Store → Outcome
  stored_where s x o = elim o [
    | none ↦ (err stale_plan, s)
    | some after ↦ commit_write w x service w.write_commit s after
  ]

  stored-Kept :
      (s : Store) (x : Expected) (o : Option Store)
      → Inv service s.db
      → EachInv o
      → Kept (stored_where s x o)
  stored-Kept s x none h k = h
  stored-Kept s x (some after) h k =
      commit_write-Keeps w service others x w.write_commit s after h k

  abbrev written_where :
      Item → ItemSource → Store → OperationTask → Store → Option ItemSource → Outcome
  written_where item source s started tx o = elim o [
    | none ↦ (value_error, s)
    | some source_after ↦
        stored_where s
          (record {
            plan = plan;
            task_id = started.id;
            version = started.version;
            item_after = changed_item plan.selected item;
            source_after = source_after;
            item_before = item;
            source_before = source;
          })
          (written w std plan started.id item source tx)
  ]

  written-Kept :
      (item : Item) (source : ItemSource) (s : Store) (started : OperationTask) (tx : Store)
      (o : Option ItemSource)
      → Inv service s.db
      → Inv service tx.db
      → Kept (written_where item source s started tx o)
  written-Kept item source s started tx none h k = h
  written-Kept item source s started tx (some source_after) h k =
      stored-Kept s _ (written w std plan started.id item source tx) h
        (written-EachInv started.id item source tx k)

  write-Kept :
      (item : Item) (source : ItemSource) (s : Store) (started : OperationTask) (tx : Store)
      → Inv service s.db
      → Inv service tx.db
      → Kept (write w std service plan item source s started tx)
  unfolding write
  write-Kept item source s started tx h k =
      written-Kept item source s started tx (changed_source std plan.selected source) h k

  abbrev started_where : Item → ItemSource → Store → Rows.Result OperationTask × Db → Outcome
  started_where item source s o = elim o.0 [
    | Rows.err e ↦ (value_error, s)
    | Rows.fault ↦ (value_error, s)
    | Rows.ok t' ↦ write w std service plan item source s t' (record s { db = o.1 })
  ]

  started-Kept :
      (item : Item) (source : ItemSource) (s : Store) (o : Rows.Result OperationTask × Db)
      → Inv service s.db
      → Inv service o.1
      → Kept (started_where item source s o)
  started-Kept item source s (Rows.err e, db) h k = h
  started-Kept item source s (Rows.fault, db) h k = h
  started-Kept item source s (Rows.ok t', db) h k =
      write-Kept item source s t' (record s { db = db }) h k

  abbrev made_where : Item → ItemSource → Store → Rows.Result (OperationTask × Bool) × Db → Outcome
  made_where item source s o = elim o.0 [
    | Rows.err e ↦ (value_error, s)
    | Rows.fault ↦ (value_error, s)
    | Rows.ok t ↦
        if not t.1
        then (err stale_plan, s)
        else started_where item source s (transition service w.now (λ db. db) (starting t.0) o.1)
  ]

  made-Kept :
      (item : Item) (source : ItemSource) (s : Store) (o : Rows.Result (OperationTask × Bool) × Db)
      → Inv service s.db
      → Inv service o.1
      → Kept (made_where item source s o)
  made-Kept item source s (Rows.err e, db) h k = h
  made-Kept item source s (Rows.fault, db) h k = h
  made-Kept item source s (Rows.ok t, db) h k =
      if-Keeps w service others (not t.1) (err stale_plan, s) _ h
        (started-Kept item source s (transition service w.now (λ db. db) (starting t.0) db) h
          (transition-Inv service w.now (λ db. db) (starting t.0) db k k))

  start-Kept :
      (item : Item) (source : ItemSource) (s : Store)
      → Inv service s.db
      → Kept (start w std service plan item source s)
  unfolding start
  start-Kept item source s h =
      made-Kept item source s
        (create service w.now (λ d. d) w.new_task_id (update_task w.intent_key plan) s.db) h
        (create-Inv service w.now (λ d. d) w.new_task_id (update_task w.intent_key plan) s.db h h)

  apply_rows-Kept :
      (s : Store) (o : Option Item) (p : Option ItemSource) (q : Option SourceCheckFact)
      → Inv service s.db
      → Kept (apply_rows w std service plan s o p q)
  unfolding apply_rows
  apply_rows-Kept s none p q h = h
  apply_rows-Kept s (some item) none q h = h
  apply_rows-Kept s (some item) (some source) none h = h
  apply_rows-Kept s (some item) (some source) (some fact) h =
      if-Keeps w service others _ (err stale_plan, s) _ h (start-Kept item source s h)

  replay-Kept : (t : OperationTask) (s : Store) → Inv service s.db → Kept (replay w std plan t s)
  unfolding replay
  replay-Kept t s h =
      let s1 = w.others 0 s in
      let k = others 0 s h in
      let read : Outcome =
        if verify_replay std w.intent_key plan t.id s1
        then (outcome t.id plan "already_applied_verified", s1)
        else (err outcome_unknown, s1) in
      if-Keeps w service others (not (state_eq t.state succeeded)) (err stale_plan, s) read h
        (if-Keeps w service others (verify_replay std w.intent_key plan t.id s1)
          (outcome t.id plan "already_applied_verified", s1) (err outcome_unknown, s1) k k)

  apply_task-Kept :
      (s : Store) (o : Option OperationTask)
      → Inv service s.db
      → Kept (apply_task w std service plan s o)
  unfolding apply_task
  apply_task-Kept s none h =
      apply_rows-Kept s (item_row plan.plan_item_id s.items)
        (source_row plan.plan_source_id s.sources) (fact_row plan.check_task_id s.facts) h
  apply_task-Kept s (some t) h = replay-Kept t s h

  -- Applying a plan keeps the invariant of the task tables, however the commits end, if other sessions
  -- keep it.
  pub apply_manual_update-Inv :
      (s : Store) → Inv service s.db → Inv service (apply_manual_update w std service plan s).1.db
  unfolding apply_manual_update
  apply_manual_update-Inv s h =
      if-Keeps w service others (not w.clean) (err invalid_request, s) _ h
        (if-Keeps w service others (not w.begins) (err write_failed, s) _ h
          (apply_task-Kept s (find (has_key w.intent_key) s.db.tasks) h))
