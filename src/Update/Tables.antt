-- ===== src/Update/Tables.antt =====
-- app/source_update/service.py, `apply_manual_update`: the task tables on the way to a success.
use mathlib.Core.List.{append_assoc}
use nsfwtrack.Base.{
  ℕ, String, ◌≤◌, ◌<◌, Bool, true, false, ◌&&◌, ◌||◌, none, List, [], ◌∷◌, ◌++◌, any, filter, ◌==◌,
  ==_iff, str_eq_iff, if◌then◌else◌, All, ◌≡◌, refl, ap, ◌∙◌, arith,
}
use nsfwtrack.Tasks.Contracts.{queued, can_transition, state_eq}
use nsfwtrack.Tasks.Text.{safe_key, safe_code}
use nsfwtrack.Tasks.Store as Rows
use nsfwtrack.Tasks.Store.{
  OperationTask, TaskEvent, Db, update_rows, count_rows, has_id, is_running, running_others,
  same_entry,
}
use nsfwtrack.Tasks.Service.{
  Service, NewTask, fresh_row, has_key, created_event, create, get, refusal, transition,
  transition_values,
}
use nsfwtrack.Tasks.Optimistic.{transition_set, logged_event}
use nsfwtrack.Tasks.Fresh.{
  IsUnused, create-new, get-last, transition-last, update_rows-last, count_rows-past, other_task,
  filter-last,
}
use nsfwtrack.Update.Contracts.{ManualUpdatePlan}
use nsfwtrack.Update.Closing.{World, closing}
use nsfwtrack.Update.Apply.{starting, update_task}

any-append {ℓ} :
    {A : Type ℓ} (p : A → Bool) (xs ys : List A) → any p (xs ++ ys) ≡ (any p xs || any p ys)
any-append p [] ys = refl
any-append p (x ∷ xs) ys = ground (arith, any-append p xs ys)

filter-past {ℓ} :
    {A : Type ℓ} (p : A → Bool) (xs ys : List A)
    → All (λ x. p x ≡ false) xs
    → filter p (xs ++ ys) ≡ filter p ys
filter-past p [] ys h = refl
filter-past p (x ∷ xs) ys h = rw h.0 (filter-past p xs ys h.1)

-- A task of this id and key may be made and started.
pub record MayRun (i : ℕ) (key : String) (service : Service) (db : Db) : Type 0 where
  pub positive : 1 ≤ i
  pub safe : safe_key key ≡ true
  pub unused : IsUnused i key db
  pub room : running_others i db.tasks < service.max_concurrency

-- The rows of the new task: as it is created, started, written, closed and verified.
module _ (w : World) (service : Service) (plan : ManualUpdatePlan) where
  abbrev pub new_task : NewTask
  new_task = update_task w.intent_key plan

  abbrev pub made_row : OperationTask
  made_row = fresh_row w.now w.new_task_id new_task none none

  abbrev pub started_row : OperationTask
  started_row = transition_set service w.now (starting made_row) made_row made_row

  abbrev pub written_row : OperationTask
  written_row = record started_row { stage = "written" }

  abbrev pub closed_row : OperationTask
  closed_row =
      transition_set service w.now (closing w.new_task_id written_row) written_row written_row

  abbrev pub verified_row : OperationTask
  verified_row = record closed_row { stage = "committed_verified" }

  abbrev pub made_event : TaskEvent
  made_event = created_event w.now w.new_task_id queued

  abbrev pub started_event : TaskEvent
  started_event = logged_event service w.now (starting made_row) made_row

  abbrev pub closed_event : TaskEvent
  closed_event = logged_event service w.now (closing w.new_task_id written_row) written_row

  module _ (db : Db) where
    abbrev pub made_db : Db
    made_db = record db { tasks = db.tasks ++ made_row ∷ []; events = db.events ++ made_event ∷ [] }

    abbrev pub started_db : OperationTask → Db
    started_db t = record db {
      tasks = db.tasks ++ t ∷ [];
      events = (db.events ++ made_event ∷ []) ++ started_event ∷ [];
    }

    abbrev pub closed_db : OperationTask → Db
    closed_db t = record db {
      tasks = db.tasks ++ t ∷ [];
      events = ((db.events ++ made_event ∷ []) ++ started_event ∷ []) ++ closed_event ∷ [];
    }

    abbrev pub of_task : TaskEvent → Bool
    of_task e = e.task_id == w.new_task_id

    module _ (run : MayRun w.new_task_id w.intent_key service db) where
      pub create-made :
          create service w.now (λ d. d) w.new_task_id new_task db
          ≡ (Rows.ok (made_row, true), made_db)
      create-made = create-new service w.now w.new_task_id new_task db run.safe run.unused

      pub written-last :
          update_rows
            (has_id w.new_task_id)
            (λ t. record t { stage = "written" })
            (db.tasks ++ started_row ∷ [])
          ≡ db.tasks ++ written_row ∷ []
      unfolding transition_values state_eq
      written-last =
          update_rows-last (has_id w.new_task_id) started_row (λ t. record t { stage = "written" })
            db.tasks run.unused.ids ((==_iff w.new_task_id w.new_task_id).1 refl)

      pub verified-last :
          update_rows
            (has_id w.new_task_id)
            (λ t. record t { stage = "committed_verified" })
            (db.tasks ++ closed_row ∷ [])
          ≡ db.tasks ++ verified_row ∷ []
      unfolding transition_values state_eq
      verified-last =
          update_rows-last (has_id w.new_task_id) closed_row
            (λ t. record t { stage = "committed_verified" }) db.tasks run.unused.ids
            ((==_iff w.new_task_id w.new_task_id).1 refl)

      start_free : refusal service (starting made_row) made_row made_db ≡ none
      unfolding refusal safe_code can_transition state_eq
      start_free =
          let others =
            count_rows-past (λ t. is_running t && (if t.id == w.new_task_id then false else true))
              made_row db.tasks refl in
          ground (arith, others, run.room)

      started_new : any (same_entry started_event) (db.events ++ made_event ∷ []) ≡ false
      started_new =
          let p = any-append (same_entry started_event) db.events (made_event ∷ []) in
          let old = other_task started_event db.events run.unused.entries in ground (arith, p, old)

      pub transition-started :
          transition service w.now (λ d. d) (starting made_row) made_db
          ≡ (Rows.ok started_row, started_db started_row)
      transition-started =
          transition-last service w.now (starting made_row) made_row db.tasks
            (record db { events = db.events ++ made_event ∷ [] }) run.unused.ids run.positive refl
            start_free started_new

      close_free :
          refusal service (closing w.new_task_id written_row) written_row (started_db written_row)
          ≡ none
      unfolding refusal safe_code can_transition state_eq transition_values
      close_free = refl

      closed_new :
          any (same_entry closed_event) ((db.events ++ made_event ∷ []) ++ started_event ∷ [])
          ≡ false
      unfolding transition_values state_eq
      closed_new =
          let p =
            any-append (same_entry closed_event) (db.events ++ made_event ∷ [])
              (started_event ∷ []) in
          let q = any-append (same_entry closed_event) db.events (made_event ∷ []) in
          let old = other_task closed_event db.events run.unused.entries in
          ground (arith, p, q, old)

      pub transition-closed :
          transition service w.now
            (λ d. d)
            (closing w.new_task_id written_row)
            (started_db written_row)
          ≡ (Rows.ok closed_row, closed_db closed_row)
      unfolding transition_values state_eq
      transition-closed =
          transition-last service w.now (closing w.new_task_id written_row) written_row db.tasks
            (record db { events = (db.events ++ made_event ∷ []) ++ started_event ∷ [] })
            run.unused.ids run.positive refl close_free closed_new

      pub get-written : get w.new_task_id (started_db written_row) ≡ Rows.ok written_row
      unfolding transition_values state_eq
      get-written =
          get-last service w.now (closing w.new_task_id written_row) written_row db.tasks
            (record db { events = (db.events ++ made_event ∷ []) ++ started_event ∷ [] })
            run.unused.ids run.positive

      -- What the readings find: the task alone with its key, and its events.
      pub written-alone :
          filter (has_key w.intent_key) (db.tasks ++ written_row ∷ []) ≡ written_row ∷ []
      unfolding transition_values state_eq
      written-alone =
          filter-last (has_key w.intent_key) written_row db.tasks run.unused.keys
            ((str_eq_iff w.intent_key w.intent_key).1 refl)

      pub verified-alone :
          filter (has_key w.intent_key) (db.tasks ++ verified_row ∷ []) ≡ verified_row ∷ []
      unfolding transition_values state_eq
      verified-alone =
          filter-last (has_key w.intent_key) verified_row db.tasks run.unused.keys
            ((str_eq_iff w.intent_key w.intent_key).1 refl)

      pub written_events :
          filter of_task (started_db written_row).events ≡ made_event ∷ started_event ∷ []
      written_events =
          let own = (==_iff w.new_task_id w.new_task_id).1 refl in
          ap (filter of_task) (append_assoc db.events (made_event ∷ []) (started_event ∷ []))
          ∙ filter-past of_task db.events (made_event ∷ started_event ∷ []) run.unused.entries
          ∙ rw own refl

      pub closed_events :
          filter of_task (closed_db verified_row).events
          ≡ made_event ∷ started_event ∷ closed_event ∷ []
      unfolding transition_values state_eq
      closed_events =
          let own = (==_iff w.new_task_id w.new_task_id).1 refl in
          ap (filter of_task) (
            append_assoc (db.events ++ made_event ∷ []) (started_event ∷ []) (closed_event ∷ [])
            ∙ append_assoc db.events (made_event ∷ []) (started_event ∷ closed_event ∷ []))
          ∙ filter-past of_task db.events (made_event ∷ started_event ∷ closed_event ∷ [])
              run.unused.entries
          ∙ rw own refl
