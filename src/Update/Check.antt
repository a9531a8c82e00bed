-- ===== src/Update/Check.antt =====
-- app/source_update/service.py, `execute_source_check`: one call of the provider under a task.
use nsfwtrack.Base.{
  ℕ, ◌+◌, ◌*◌, String, Bool, not, ◌&&◌, ◌||◌, Option, none, some, [], ◌∷◌, ◌++◌, leb, any, ◌==◌,
  is_some, if◌then◌else◌,
}
use nsfwtrack.Tasks.Contracts.{
  source_check, TaskState, queued, running, succeeded, failed, state_eq,
}
use nsfwtrack.Tasks.Store as Rows
use nsfwtrack.Tasks.Store.{OperationTask, Db, find_row}
use nsfwtrack.Tasks.Service.{Service, NewTask, Move, create, transition, get}
use nsfwtrack.Update.Contracts.{
  source_not_available, provider_failed, Result, ok, err, value_error, Item, ItemSource,
  SourceCheckFact, Store, item_row, source_row, Std, string, json_opt, item_snapshot,
  source_snapshot,
}

-- What the provider answers: its detail's summary, date and title, and when it came.
pub record Detail : Type 0 where
  pub detail_summary : Option String
  pub detail_release_date : Option String
  pub detail_title : String
  pub received_at : ℕ

-- What is outside the call: the clock, the task's id and key, the answer, which is none where the
-- request or the provider raises, what other sessions commit between the first commit and the request,
-- and while the answer is awaited, and whether the last commit holds.
pub record CheckWorld : Type 0 where
  pub now : ℕ
  pub later : ℕ
  pub new_task_id : ℕ
  pub check_key : String
  pub answer : Option Detail
  pub between : Store → Store
  pub meanwhile : Store → Store
  pub stores : Bool

abbrev pub seconds : ℕ → ℕ
seconds n = n * 1_000_000

abbrev pub check_task : Std → String → ℕ → ℕ → ItemSource → NewTask
check_task std key item_id source_id source = record {
  task_type = source_check;
  intent_key = key;
  initial_state = queued;
  item_id = some item_id;
  source_id = some source_id;
  provider_key = source.provider_key;
  external_identity = source.external_id;
  asset_identity = none;
  relative_target = none;
  snapshot_hash = some (source_snapshot std source);
}

abbrev pub check_move : ℕ → ℕ → TaskState → String → Option String → Move
check_move i version target event code = record {
  task_id = i;
  target = target;
  expected_version = version;
  event_type = event;
  error_code = code;
  error_detail = none;
}

-- `_projection_hash(values)`
abbrev pub detail_hash_of : Std → Detail → String
detail_hash_of std d = std.digest (
    string (std.isoformat d.received_at)
    ∷ json_opt d.detail_release_date
    ∷ string d.detail_title
    ∷ json_opt d.detail_summary
    ∷ [])

abbrev pub fact_of : Std → ℕ → ℕ → ℕ → Item → ItemSource → Detail → SourceCheckFact
fact_of std i later ttl item source d = record {
  fact_task_id = i;
  item_snapshot_hash = item_snapshot std item;
  source_snapshot_hash = source_snapshot std source;
  detail_hash = detail_hash_of std d;
  proposed_summary = d.detail_summary;
  proposed_release_date = d.detail_release_date;
  proposed_source_title = some d.detail_title;
  proposed_checked_at = d.received_at;
  proposed_metadata_hash = detail_hash_of std d;
  expires_at = later + seconds ttl;
}

abbrev pub CheckOutcome : Type 0
CheckOutcome = Result OperationTask × Store

abbrev pub with_db : Store → Db → Store
with_db s db = record s { db = db }

-- The handler of what the `try` raises: a task still running fails.
unfoldable pub check_failed : Service → CheckWorld → ℕ → Store → CheckOutcome
check_failed service w i s = elim (get i s.db) [
  | Rows.err e ↦ (value_error, s)
  | Rows.fault ↦ (value_error, s)
  | Rows.ok t ↦
      let moved =
        transition service w.later (λ db. db)
          (check_move i t.version failed "source_check_failed" (some "provider_failed")) s.db in
      if state_eq t.state running
      then elim moved.0 [
        | Rows.err e ↦ (value_error, s)
        | Rows.fault ↦ (value_error, s)
        | Rows.ok t' ↦ (err provider_failed, with_db s moved.1)
      ]
      else (err provider_failed, s)
]

-- The provider has answered: the fact, and the end of the task.
unfoldable pub record_fact :
    Std
    → Service
    → CheckWorld
    → ℕ
    → Item
    → ItemSource
    → OperationTask
    → Detail
    → Store
    → CheckOutcome
record_fact std service w ttl item source t d s =
    let moved =
      transition service w.later (λ db. db)
        (check_move t.id t.version succeeded "source_check_succeeded" none) s.db in
    elim moved.0 [
      | Rows.err e ↦ check_failed service w t.id s
      | Rows.fault ↦ check_failed service w t.id s
      | Rows.ok t' ↦
          if w.stores && not (any (λ (f : SourceCheckFact). f.fact_task_id == t.id) s.facts)
          then (
            ok t',
            record (with_db s moved.1) {
              facts = s.facts ++ (fact_of std t.id w.later ttl item source d ∷ []);
            },
          )
          else check_failed service w t.id s
    ]

-- The commit expired the rows: the task and the item are loaded again once the answer is there, and
-- where one is gone, that raises. `source` was loaded again for the request.
unfoldable pub reread :
    Std
    → Service
    → CheckWorld
    → ℕ
    → ItemSource
    → ℕ
    → Detail
    → Store
    → Option OperationTask
    → Option Item
    → CheckOutcome
reread std service w ttl source i d s (some t) (some item) =
    record_fact std service w ttl item source t d s
reread std service w ttl source i d s _ _ = check_failed service w i s

unfoldable pub answered :
    Std → Service → CheckWorld → ℕ → ℕ → ItemSource → ℕ → Option Detail → Store → CheckOutcome
answered std service w ttl item_id source i none s = check_failed service w i s
answered std service w ttl item_id source i (some d) s =
    reread std service w ttl source i d s (find_row i s.db.tasks) (item_row item_id s.items)

-- The request names the source as it is loaded then; where its row is gone, the loading raises.
unfoldable pub requested :
    Std → Service → CheckWorld → ℕ → ℕ → ℕ → Option ItemSource → Store → CheckOutcome
requested std service w ttl item_id i none s = check_failed service w i s
requested std service w ttl item_id i (some source) s =
    answered std service w ttl item_id source i w.answer (w.meanwhile s)

-- The task is created and started, and both are committed, before the provider is called.
unfoldable pub begin_check :
    Std → Service → CheckWorld → ℕ → ℕ → ℕ → ItemSource → Store → CheckOutcome
begin_check std service w ttl item_id source_id source s =
    let made =
      create service w.now (λ d. d) w.new_task_id
        (check_task std w.check_key item_id source_id source) s.db in
    elim made.0 [
      | Rows.err e ↦ (value_error, s)
      | Rows.fault ↦ (value_error, s)
      | Rows.ok t ↦
          let moved =
            transition service w.now (λ db. db)
              (check_move t.0.id t.0.version running "source_check_started" none) made.1 in
          elim moved.0 [
            | Rows.err e ↦ (value_error, s)
            | Rows.fault ↦ (value_error, s)
            | Rows.ok t' ↦
                let s1 = w.between (with_db s moved.1) in
                requested std service w ttl item_id t'.id (source_row source_id s1.sources) s1
          ]
    ]

abbrev pub linked : Option ItemSource → ℕ → Option ItemSource
linked none i = none
linked (some o) i = if o.owner_id == i then some o else none

unfoldable pub check_rows :
    Std → Service → CheckWorld → ℕ → ℕ → ℕ → Option Item → Option ItemSource → Store → CheckOutcome
check_rows std service w ttl item_id source_id (some item) (some source) s =
    if not (is_some source.provider_key)
      || not (is_some source.external_id)
      || not (leb 30 ttl && leb ttl 1800)
    then (err source_not_available, s)
    else begin_check std service w ttl item_id source_id source s
check_rows std service w ttl item_id source_id _ _ s = (err source_not_available, s)

unfoldable pub execute_source_check : Std → Service → CheckWorld → ℕ → ℕ → ℕ → Store → CheckOutcome
execute_source_check std service w item_id source_id ttl s =
    check_rows std service w ttl item_id source_id (item_row item_id s.items)
      (linked (source_row source_id s.sources) item_id) s
