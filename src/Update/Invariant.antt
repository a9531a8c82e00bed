-- ===== src/Update/Invariant.antt =====
-- app/source_update/service.py: both calls of the service and the invariant of the task tables.
use nsfwtrack.Base.{
  ℕ, Bool, true, false, not, ◌&&◌, ◌||◌, Option, none, some, leb, is_some, if◌then◌else◌,
}
use nsfwtrack.Tasks.Contracts.{succeeded, running, failed, state_eq}
use nsfwtrack.Tasks.Store as Rows
use nsfwtrack.Tasks.Store.{OperationTask, Db, has_id, update_rows, find_row}
use nsfwtrack.Tasks.Service.{NewTask, Move, Service, create, transition, get}
use nsfwtrack.Tasks.Invariant.{Inv}
use nsfwtrack.Tasks.Preserve.{transition-Inv}
use nsfwtrack.Tasks.Preserve.Create.{create-Inv}
use nsfwtrack.Update.Contracts.{
  provider_failed, source_not_available, ok, err, value_error, Item, ItemSource, Store, item_row,
  source_row, Std, ManualUpdatePlan,
}
use nsfwtrack.Update.Closing.{World}
use nsfwtrack.Update.Apply.{apply_manual_update}
use nsfwtrack.Update.Check.{
  requested, Detail, CheckWorld, check_task, check_move, CheckOutcome, with_db, check_failed,
  record_fact, reread, answered, begin_check, linked, check_rows, execute_source_check,
}
use nsfwtrack.Update.Answered.{recorded, stores_first, after_move, after_start, after_create}
use nsfwtrack.Update.Preserves.{apply_manual_update-Inv}

module _ (std : Std) (service : Service) (w : CheckWorld) (ttl item_id source_id : ℕ)
    (asking : (x : Store) → Inv service x.db → Inv service (w.between x).db)
    (awaiting : (x : Store) → Inv service x.db → Inv service (w.meanwhile x).db) where
  -- The tables are left with the invariant.
  abbrev Leaves : CheckOutcome → Type 0
  Leaves o = Inv service o.1.db

  if-Leaves : (b : Bool) (o p : CheckOutcome) → Leaves o → Leaves p → Leaves (if b then o else p)
  if-Leaves true o p h k = h
  if-Leaves false o p h k = k

  abbrev failing : OperationTask → ℕ → Move
  failing t i = check_move i t.version failed "source_check_failed" (some "provider_failed")

  abbrev failed_where : Store → Rows.Result OperationTask × Db → CheckOutcome
  failed_where s o = elim o.0 [
    | Rows.err e ↦ (value_error, s)
    | Rows.fault ↦ (value_error, s)
    | Rows.ok t' ↦ (err provider_failed, with_db s o.1)
  ]

  failed-Leaves :
      (s : Store) (o : Rows.Result OperationTask × Db)
      → Inv service s.db
      → Inv service o.1
      → Leaves (failed_where s o)
  failed-Leaves s (Rows.err e, db) h k = h
  failed-Leaves s (Rows.fault, db) h k = h
  failed-Leaves s (Rows.ok t', db) h k = k

  abbrev found_where : ℕ → Store → Rows.Result OperationTask → CheckOutcome
  found_where i s g = elim g [
    | Rows.err e ↦ (value_error, s)
    | Rows.fault ↦ (value_error, s)
    | Rows.ok t ↦
        if state_eq t.state running
        then failed_where s (transition service w.later (λ db. db) (failing t i) s.db)
        else (err provider_failed, s)
  ]

  found-Leaves :
      (i : ℕ) (s : Store) (g : Rows.Result OperationTask)
      → Inv service s.db
      → Leaves (found_where i s g)
  found-Leaves i s (Rows.err e) h = h
  found-Leaves i s Rows.fault h = h
  found-Leaves i s (Rows.ok t) h =
      if-Leaves (state_eq t.state running)
        (failed_where s (transition service w.later (λ db. db) (failing t i) s.db))
        (err provider_failed, s)
        (failed-Leaves s (transition service w.later (λ db. db) (failing t i) s.db) h
          (transition-Inv service w.later (λ db. db) (failing t i) s.db h h))
        h

  check_failed-Leaves : (i : ℕ) (s : Store) → Inv service s.db → Leaves (check_failed service w i s)
  unfolding check_failed
  check_failed-Leaves i s h = found-Leaves i s (get i s.db) h

  moved-Leaves :
      (mid : Store) (t : OperationTask) (d : Detail) (item : Item) (source : ItemSource)
      (o : Rows.Result OperationTask × Db)
      → Inv service mid.db
      → Inv service o.1
      → Leaves (after_move std service w ttl item_id source_id mid t d item source o)
  moved-Leaves mid t d item source (Rows.err e, db) h k = check_failed-Leaves t.id mid h
  moved-Leaves mid t d item source (Rows.fault, db) h k = check_failed-Leaves t.id mid h
  moved-Leaves mid t d item source (Rows.ok u, db) h k =
      if-Leaves (stores_first std service w ttl item_id source_id mid t d item source)
        (ok u, recorded std service w ttl item_id source_id mid t d item source db)
        (check_failed service w t.id mid) k (check_failed-Leaves t.id mid h)

  record_fact-Leaves :
      (mid : Store) (t : OperationTask) (d : Detail) (item : Item) (source : ItemSource)
      → Inv service mid.db
      → Leaves (record_fact std service w ttl item source t d mid)
  unfolding record_fact
  record_fact-Leaves mid t d item source h =
      let m : Move = check_move t.id t.version succeeded "source_check_succeeded" none in
      moved-Leaves mid t d item source (transition service w.later (λ db. db) m mid.db) h
        (transition-Inv service w.later (λ db. db) m mid.db h h)

  reread-Leaves :
      (source : ItemSource) (mid : Store) (i : ℕ) (d : Detail) (o : Option OperationTask)
      (p : Option Item)
      → Inv service mid.db
      → Leaves (reread std service w ttl source i d mid o p)
  unfolding reread
  reread-Leaves source mid i d none p h = check_failed-Leaves i mid h
  reread-Leaves source mid i d (some t) none h = check_failed-Leaves i mid h
  reread-Leaves source mid i d (some t) (some item) h = record_fact-Leaves mid t d item source h

  answered-Leaves :
      (source : ItemSource) (mid : Store) (i : ℕ) (o : Option Detail)
      → Inv service mid.db
      → Leaves (answered std service w ttl item_id source i o mid)
  unfolding answered
  answered-Leaves source mid i none h = check_failed-Leaves i mid h
  answered-Leaves source mid i (some d) h =
      reread-Leaves source mid i d (find_row i mid.db.tasks) (item_row item_id mid.items) h

  requested-Leaves :
      (x : Store) (i : ℕ) (o : Option ItemSource)
      → Inv service x.db
      → Leaves (requested std service w ttl item_id i o x)
  unfolding requested
  requested-Leaves x i none h = check_failed-Leaves i x h
  requested-Leaves x i (some source) h =
      answered-Leaves source (w.meanwhile x) i w.answer (awaiting x h)

  module _ (s : Store) (source : ItemSource) (inv : Inv service s.db) where
    started-Leaves :
        (o : Rows.Result OperationTask × Db)
        → Inv service o.1
        → Leaves (after_start std service w ttl item_id source_id s source inv o)
    started-Leaves (Rows.err e, db) k = inv
    started-Leaves (Rows.fault, db) k = inv
    started-Leaves (Rows.ok t, db) k =
        requested-Leaves (w.between (with_db s db)) t.id
          (source_row source_id (w.between (with_db s db)).sources) (asking (with_db s db) k)

    created-Leaves :
        (o : Rows.Result (OperationTask × Bool) × Db)
        → Inv service o.1
        → Leaves (after_create std service w ttl item_id source_id s source inv o)
    created-Leaves (Rows.err e, db) k = inv
    created-Leaves (Rows.fault, db) k = inv
    created-Leaves (Rows.ok t, db) k =
        let m : Move = check_move t.0.id t.0.version running "source_check_started" none in
        started-Leaves (transition service w.now (λ db. db) m db)
          (transition-Inv service w.now (λ db. db) m db k k)

    begin_check-Leaves : Leaves (begin_check std service w ttl item_id source_id source s)
    unfolding begin_check
    begin_check-Leaves =
        let n : NewTask = check_task std w.check_key item_id source_id source in
        created-Leaves (create service w.now (λ d. d) w.new_task_id n s.db)
          (create-Inv service w.now (λ d. d) w.new_task_id n s.db inv inv)

  check_rows-Leaves :
      (o : Option Item) (p : Option ItemSource) (s : Store)
      → Inv service s.db
      → Leaves (check_rows std service w ttl item_id source_id o p s)
  unfolding check_rows
  check_rows-Leaves none p s h = h
  check_rows-Leaves (some item) none s h = h
  check_rows-Leaves (some item) (some source) s h =
      if-Leaves
        (not (is_some source.provider_key)
          || not (is_some source.external_id)
          || not (leb 30 ttl && leb ttl 1800))
        (err source_not_available, s) (begin_check std service w ttl item_id source_id source s) h
        (begin_check-Leaves s source h)

  execute_source_check-Inv :
      (s : Store)
      → Inv service s.db
      → Inv service (execute_source_check std service w item_id source_id ttl s).1.db
  unfolding execute_source_check
  execute_source_check-Inv s h =
      check_rows-Leaves (item_row item_id s.items) (linked (source_row source_id s.sources) item_id)
        s h

-- Both calls that work on the task tables keep their invariant, a source check and the application of
-- any plan: on every branch, however the commits end and whatever the provider answers, if the other
-- sessions keep it between the readings.
pub source_update-Inv :
    (std : Std) (service : Service) (check : CheckWorld) (item_id source_id ttl : ℕ) (apply : World)
    (plan : ManualUpdatePlan) (s : Store)
    → ((x : Store) → Inv service x.db → Inv service (check.between x).db)
    → ((x : Store) → Inv service x.db → Inv service (check.meanwhile x).db)
    → ((i : ℕ) (x : Store) → Inv service x.db → Inv service (apply.others i x).db)
    → Inv service s.db
    → Inv service (execute_source_check std service check item_id source_id ttl s).1.db
      × Inv service (apply_manual_update apply std service plan s).1.db
source_update-Inv std service check item_id source_id ttl apply plan s between meanwhile others
      inv =
    (
      execute_source_check-Inv std service check ttl item_id source_id between meanwhile s inv,
      apply_manual_update-Inv apply std service plan others s inv,
    )
