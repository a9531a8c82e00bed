-- ===== src/Update/Succeeds.antt =====
-- app/source_update/service.py, `apply_manual_update`: a plan that is current is applied.
use mathlib.Core.Path.{subst}
use nsfwtrack.Base.{
  true, some, List, [], ◌∷◌, ◌++◌, find, ◌==◌, ==_iff, str_eq_iff, filter, count_where, ◌≡◌, refl,
  sym, ap, ◌∙◌, sorted_by, insert_sorted,
}
use nsfwtrack.Tasks.Contracts.{TaskState, running, succeeded, state_eq}
use nsfwtrack.Tasks.Store.{OperationTask, TaskEvent, Db, has_id, find_row}
use nsfwtrack.Tasks.Service.{Service, has_key, transition_values}
use nsfwtrack.Tasks.Fresh.{find-none}
use nsfwtrack.Update.Contracts.{
  Item, ItemSource, SourceCheckFact, Store, item_row, source_row, fact_row, Std, item_snapshot,
  source_snapshot, ManualUpdatePlan,
}
use nsfwtrack.Update.Verify.{
  item_proof, changed_item, changed_source, Expected, task_matches, check_matches, rows_match,
  verify_state,
}
use nsfwtrack.Update.Closing.{
  World, stored, outcome, Outcome, report, close_task, confirm, commit_write,
}
use nsfwtrack.Update.Apply.{
  written, write, start, apply_manual_update, update_items, update_sources,
}
use nsfwtrack.Update.Steps.{
  close_task-moved, written-both, write-some, start-moved, apply_rows-same, apply_manual_update-new,
}
use nsfwtrack.Update.Readings.{find-append_left, rows_match-true, verify_state-true}
use nsfwtrack.Update.Rows.{update_items-row, update_sources-row}
use nsfwtrack.Update.Tables.{
  made_event, started_event, closed_event, MayRun, made_row, started_row, written_row, closed_row,
  verified_row, made_db, started_db, closed_db, create-made, transition-started, transition-closed,
  written-last, verified-last, get-written, written-alone, verified-alone, written_events,
  closed_events,
}

-- A clean session with no other one, and a database that takes both commits.
abbrev pub quiet : World → World
quiet w = record w {
  clean = true;
  begins = true;
  write_commit = stored;
  close_commit = stored;
  others = λ i s. s;
}

-- A plan that is current: the rows it was made of are there once, as they were; its check has
-- succeeded; its key and the new task's id are not in use; and one more task may run.
pub record IsCurrent (w : World) (std : Std) (service : Service) (plan : ManualUpdatePlan)
    (s : Store) (item : Item) (source after : ItemSource) (fact : SourceCheckFact)
    (task : OperationTask) : Type 0 where
  pub run : MayRun w.new_task_id w.intent_key service s.db
  pub the_item : item_row plan.plan_item_id s.items ≡ some item
  pub item_once : count_where (λ (x : Item). x.item_id == plan.plan_item_id) s.items ≡ 1
  pub item_same : item_snapshot std item ≡ plan.plan_item_hash
  pub the_source : source_row plan.plan_source_id s.sources ≡ some source
  pub source_once :
      count_where (λ (x : ItemSource). x.source_id == plan.plan_source_id) s.sources ≡ 1
  pub source_same : source_snapshot std source ≡ plan.plan_source_hash
  pub the_fact : fact_row plan.check_task_id s.facts ≡ some fact
  pub detail_same : fact.detail_hash ≡ plan.plan_detail_hash
  pub fact_item : fact.item_snapshot_hash ≡ plan.plan_item_hash
  pub fact_source : fact.source_snapshot_hash ≡ plan.plan_source_hash
  pub the_check : find_row plan.check_task_id s.db.tasks ≡ some task
  pub check_done : task.state ≡ succeeded
  pub readable : changed_source std plan.selected source ≡ some after

module _ (w : World) (std : Std) (service : Service) (plan : ManualUpdatePlan) (s : Store)
    (item : Item) (source after : ItemSource) (fact : SourceCheckFact) (task : OperationTask)
    (q : IsCurrent w std service plan s item source after fact task) where
  abbrev calm : World
  calm = quiet w

  abbrev made : OperationTask
  made = made_row (quiet w) service plan

  abbrev started : OperationTask
  started = started_row (quiet w) service plan

  abbrev staged_row : OperationTask
  staged_row = written_row (quiet w) service plan

  abbrev closed_task : OperationTask
  closed_task = closed_row (quiet w) service plan

  abbrev verified : OperationTask
  verified = verified_row (quiet w) service plan

  -- The tables of the transaction, once the task is started.
  abbrev started_store : Store
  started_store = record s { db = started_db (quiet w) service plan s.db started }

  items_left :
      (rows : List Item) × (update_items w.now plan.selected item s.items ≡ some rows)
      × ((row : Item) × (item_row plan.plan_item_id rows ≡ some row)
          × (item_proof row ≡ item_proof (changed_item plan.selected item)))
  items_left =
      update_items-row w.now plan.plan_item_id plan.selected item s.items q.the_item q.item_once

  sources_left :
      (rows : List ItemSource) × (update_sources std plan.selected source s.sources ≡ some rows)
      × (source_row plan.plan_source_id rows ≡ some after)
  sources_left =
      update_sources-row std plan.plan_source_id plan.selected source after s.sources q.the_source
        q.source_once q.readable

  -- The tables with these task tables.
  abbrev with_tasks : Db → Store
  with_tasks db = record s { db = db; items = items_left.0; sources = sources_left.0 }

  abbrev running_store : Store
  running_store = with_tasks (started_db calm service plan s.db staged_row)

  abbrev done_store : Store
  done_store = with_tasks (closed_db calm service plan s.db verified)

  abbrev wanted : Expected
  wanted = record {
    plan = plan;
    task_id = w.new_task_id;
    version = 2;
    item_after = changed_item plan.selected item;
    source_after = after;
    item_before = item;
    source_before = source;
  }

  rows_hold :
      (db : Db) → rows_match plan (changed_item plan.selected item) after (with_tasks db) ≡ true
  rows_hold db =
      rows_match-true plan items_left.2.0 (changed_item plan.selected item) after (with_tasks db)
        items_left.2.1 items_left.2.2 sources_left.2

  check_holds :
      (t : OperationTask) (db : Db)
      → db.tasks ≡ s.db.tasks ++ t ∷ []
      → check_matches wanted (with_tasks db) ≡ true
  unfolding check_matches find_row state_eq
  check_holds t db e =
      let at : find (has_id plan.check_task_id) db.tasks ≡ some task =
        ap (find (has_id plan.check_task_id)) e
        ∙ find-append_left (has_id plan.check_task_id) s.db.tasks (t ∷ []) task q.the_check in
      let done : state_eq task.state succeeded ≡ true =
        ap (λ (st : TaskState). state_eq st succeeded) q.check_done in
      let detail = (str_eq_iff fact.detail_hash plan.plan_detail_hash).1 q.detail_same in
      let of_item = (str_eq_iff fact.item_snapshot_hash plan.plan_item_hash).1 q.fact_item in
      let of_source =
        (str_eq_iff fact.source_snapshot_hash plan.plan_source_hash).1 q.fact_source in
      rw (q.the_fact, at, detail, of_item, of_source, done) refl

  own_task :
      (task_matches wanted running "written" 2 staged_row ≡ true)
      × (task_matches wanted succeeded "committed_verified" 3 verified ≡ true)
  unfolding task_matches state_eq transition_values
  own_task =
      let i = (==_iff w.new_task_id w.new_task_id).1 refl in
      let item_id = (==_iff plan.plan_item_id plan.plan_item_id).1 refl in
      let source_id = (==_iff plan.plan_source_id plan.plan_source_id).1 refl in
      let provider = (str_eq_iff plan.plan_provider_key plan.plan_provider_key).1 refl in
      let detail = (str_eq_iff plan.plan_detail_hash plan.plan_detail_hash).1 refl in
      (
        rw (i, item_id, source_id, provider, detail) refl,
        rw (i, item_id, source_id, provider, detail) refl,
      )

  running_verified : verify_state w.intent_key wanted running "written" 2 running_store ≡ true
  unfolding state_eq transition_values sorted_by insert_sorted
  running_verified =
      verify_state-true w.intent_key wanted running "written" 2 running_store staged_row
        (rows_hold running_store.db) (written-alone calm service plan s.db q.run) own_task.0
        (rw (written_events calm service plan s.db q.run) refl)
        (check_holds staged_row running_store.db refl)

  done_verified :
      verify_state w.intent_key wanted succeeded "committed_verified" 3 done_store ≡ true
  unfolding state_eq transition_values sorted_by insert_sorted
  done_verified =
      verify_state-true w.intent_key wanted succeeded "committed_verified" 3 done_store verified
        (rows_hold done_store.db) (verified-alone calm service plan s.db q.run) own_task.1
        (rw (closed_events calm service plan s.db q.run) refl)
        (check_holds verified done_store.db refl)

  reported :
      report calm wanted 3 done_store
      ≡ (outcome w.new_task_id plan "committed_verified", done_store)
  unfolding report
  reported = rw done_verified refl

  closed :
      close_task calm wanted service running_store
      ≡ (outcome w.new_task_id plan "committed_verified", done_store)
  unfolding transition_values state_eq
  closed =
      let staged_as : List OperationTask → Store =
        λ ts. with_tasks (record (closed_db calm service plan s.db verified) { tasks = ts }) in
      close_task-moved calm wanted service running_store staged_row closed_task
        (closed_db calm service plan s.db closed_task) (get-written calm service plan s.db q.run)
        (transition-closed calm service plan s.db q.run)
      ∙ ap (λ (ts : List OperationTask). report calm wanted 3 (staged_as ts))
          (verified-last calm service plan s.db q.run)
      ∙ reported

  confirmed :
      confirm calm wanted service running_store
      ≡ (outcome w.new_task_id plan "committed_verified", done_store)
  unfolding confirm
  confirmed = rw running_verified closed

  abbrev done : Outcome
  done = (outcome w.new_task_id plan "committed_verified", done_store)

  written_store : written calm std plan w.new_task_id item source started_store ≡ some running_store
  written_store =
      written-both calm std plan w.new_task_id item source started_store items_left.0 sources_left.0
        items_left.1 sources_left.1
      ∙ ap (λ (ts : List OperationTask). some (with_tasks (record running_store.db { tasks = ts })))
          (written-last calm service plan s.db q.run)

  write_done : write calm std service plan item source s started started_store ≡ done
  unfolding transition_values state_eq commit_write confirm
  write_done =
      write-some calm std service plan item source s started started_store after running_store
        q.readable written_store
      ∙ confirmed

  start_done : start calm std service plan item source s ≡ done
  start_done =
      start-moved calm std service plan item source s made started (made_db calm service plan s.db)
        (started_db calm service plan s.db started) (create-made calm service plan s.db q.run)
        (transition-started calm service plan s.db q.run)
      ∙ write_done

  apply_done : apply_manual_update calm std service plan s ≡ done
  apply_done =
      apply_manual_update-new calm std service plan s item source fact refl refl
        (find-none (has_key w.intent_key) s.db.tasks q.run.unused.keys) q.the_item q.the_source
        q.the_fact
      ∙ apply_rows-same calm std service plan s item source fact
          ((str_eq_iff (item_snapshot std item) plan.plan_item_hash).1 q.item_same)
          ((str_eq_iff (source_snapshot std source) plan.plan_source_hash).1 q.source_same)
          ((str_eq_iff fact.detail_hash plan.plan_detail_hash).1 q.detail_same)
      ∙ start_done

-- A plan is applied: `committed_verified` is reported for the new task, the row of the item is the
-- changed one in every column that the program compares, the row of the source is `after`, and the new
-- task is the only one with the plan's key, succeeded; its events are that it was created, started and
-- closed.
abbrev pub WasApplied : World → Service → ManualUpdatePlan → Item → ItemSource → Outcome → Type 0
WasApplied w service plan item after o =
    (o.0 ≡ outcome w.new_task_id plan "committed_verified")
    × ((row : Item) × (item_row plan.plan_item_id o.1.items ≡ some row)
        × (item_proof row ≡ item_proof (changed_item plan.selected item)))
    × (source_row plan.plan_source_id o.1.sources ≡ some after)
    × (filter (has_key w.intent_key) o.1.db.tasks ≡ verified_row w service plan ∷ [])
    × (filter (λ (e : TaskEvent). e.task_id == w.new_task_id) o.1.db.events
        ≡ made_event w service plan
          ∷ started_event w service plan
          ∷ closed_event w service plan
          ∷ [])

pub IsCurrent-applies :
    (w : World) (std : Std) (service : Service) (plan : ManualUpdatePlan) (s : Store) (item : Item)
    (source after : ItemSource) (fact : SourceCheckFact) (task : OperationTask)
    → IsCurrent w std service plan s item source after fact task
    → WasApplied
        (quiet w)
        service
        plan
        item
        after
        (apply_manual_update (quiet w) std service plan s)
IsCurrent-applies w std service plan s item source after fact task q =
    let e = apply_done w std service plan s item source after fact task q in
    let items = items_left w std service plan s item source after fact task q in
    let sources = sources_left w std service plan s item source after fact task q in
    subst (WasApplied (quiet w) service plan item after) (sym e) (
      refl,
      (items.2.0, items.2.1, items.2.2),
      sources.2,
      verified-alone (quiet w) service plan s.db q.run,
      closed_events (quiet w) service plan s.db q.run,
    )
