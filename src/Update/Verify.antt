-- ===== src/Update/Verify.antt =====
-- app/source_update/service.py: the values an update is to leave, and the three independent readings
-- that compare them with the tables.
use nsfwtrack.Base.{
  ℕ, String, Bool, true, false, ◌&&◌, Option, none, some, List, [], ◌∷◌, map, filter, length, leb,
  ◌==◌, str_eq, is_none, sorted_by,
}
use nsfwtrack.Tasks.Contracts.{TaskType, metadata_update, TaskState, running, succeeded, state_eq}
use nsfwtrack.Tasks.Store.{OperationTask, TaskEvent, find_row}
use nsfwtrack.Tasks.Service.{has_key}
use nsfwtrack.Update.Contracts.{
  Item, ItemSource, SourceCheckFact, Store, item_row, source_row, fact_row, Json, number, string,
  null, json_opt, Std, text_or_empty, Field, item_summary, item_release_date, source_title_field,
  source_last_checked_at, source_metadata_hash, ManualFieldChange, ManualUpdatePlan,
}
use nsfwtrack.Update.Plan.{same_option, current_value}

abbrev pub json_time : Option ℕ → Json
json_time none = null
json_time (some t) = number t

abbrev pub same_json : Json → Json → Bool
same_json (number a) (number b) = a == b
same_json (string a) (string b) = str_eq a b
same_json null null = true
same_json _ _ = false

abbrev pub same_proof : List Json → List Json → Bool
same_proof [] [] = true
same_proof (a ∷ xs) (b ∷ ys) = same_json a b && same_proof xs ys
same_proof _ _ = false

-- `_item_proof_values`
unfoldable pub item_proof : Item → List Json
item_proof i =
    number i.item_id
    ∷ string i.item_title
    ∷ json_opt i.cover_path
    ∷ json_opt i.summary
    ∷ json_opt i.release_date
    ∷ json_opt i.extra
    ∷ number i.item_created_at
    ∷ []

-- `_source_proof_values`
unfoldable pub source_proof : ItemSource → List Json
source_proof s =
    number s.source_id
    ∷ number s.owner_id
    ∷ string s.url
    ∷ string s.normalized_url
    ∷ json_opt s.source_title
    ∷ json_opt s.provider_key
    ∷ json_opt s.external_id
    ∷ json_time s.last_checked_at
    ∷ json_opt s.metadata_hash
    ∷ number s.source_created_at
    ∷ []

abbrev pub set_item : Field → Option String → Item → Item
set_item item_summary new i = record i { summary = new }
set_item item_release_date new i = record i { release_date = new }
set_item _ new i = i

-- None where `datetime.fromisoformat` raises.
abbrev pub set_time : Option ℕ → ItemSource → Option ItemSource
set_time none s = none
set_time (some t) s = some (record s { last_checked_at = some t })

abbrev pub set_source : Std → Field → Option String → ItemSource → Option ItemSource
set_source std source_title_field new s = some (record s { source_title = new })
set_source std source_last_checked_at new s = set_time (std.fromisoformat (text_or_empty new)) s
set_source std source_metadata_hash new s = some (record s { metadata_hash = new })
set_source std _ new s = some s

-- `_expected_manual_values`, for the item and for the source.
unfoldable pub changed_item : List ManualFieldChange → Item → Item
changed_item [] i = i
changed_item (c ∷ cs) i = changed_item cs (set_item c.field c.new i)

abbrev pub bind_source : Option ItemSource → (ItemSource → Option ItemSource) → Option ItemSource
bind_source none f = none
bind_source (some s) f = f s

unfoldable pub changed_source : Std → List ManualFieldChange → ItemSource → Option ItemSource
changed_source std [] s = some s
changed_source std (c ∷ cs) s = bind_source (set_source std c.field c.new s) (changed_source std cs)

abbrev pub holds {ℓ} : {A : Type ℓ} → (A → Bool) → Option A → Bool
holds p none = false
holds p (some a) = p a

-- The tasks of the plan's intent key.
abbrev pub tasks_of : String → Store → List OperationTask
tasks_of key s = filter (has_key key) s.db.tasks

abbrev pub only : {A : Type 0} → (A → Bool) → List A → Bool
only p (x ∷ []) = p x
only p _ = false

-- The types of a task's events in the order of their versions.
abbrev pub event_types : ℕ → Store → List String
event_types i s =
    map (λ (e : TaskEvent). e.event_type)
      (sorted_by (λ (e f : TaskEvent). leb e.version f.version)
        (filter (λ (e : TaskEvent). e.task_id == i) s.db.events))

abbrev pub same_texts : List String → List String → Bool
same_texts [] [] = true
same_texts (a ∷ xs) (b ∷ ys) = str_eq a b && same_texts xs ys
same_texts _ _ = false

abbrev pub expected_events : TaskState → List String
expected_events running = "created" ∷ "metadata_apply_started" ∷ []
expected_events _ = "created" ∷ "metadata_apply_started" ∷ "metadata_apply_succeeded" ∷ []

abbrev pub is_update : TaskType → Bool
is_update metadata_update = true
is_update _ = false

abbrev pub is_num : ℕ → Option ℕ → Bool
is_num n none = false
is_num n (some m) = m == n

-- What is expected of the tables: the item's and the source's values, and the task.
pub record Expected : Type 0 where
  pub plan : ManualUpdatePlan
  pub task_id : ℕ
  pub version : ℕ
  pub item_after : Item
  pub source_after : ItemSource
  pub item_before : Item
  pub source_before : ItemSource

unfoldable pub task_matches : Expected → TaskState → String → ℕ → OperationTask → Bool
task_matches x state stage version t =
    t.id == x.task_id
    && is_update t.task_type
    && state_eq t.state state
    && str_eq t.stage stage
    && t.version == version
    && is_num x.plan.plan_item_id t.item_id
    && is_num x.plan.plan_source_id t.source_id
    && same_option t.provider_key (some x.plan.plan_provider_key)
    && same_option t.snapshot_hash (some x.plan.plan_detail_hash)
    && is_none t.external_identity_hash
    && is_none t.asset_identity_hash
    && is_none t.relative_target

unfoldable pub check_matches : Expected → Store → Bool
check_matches x s =
    holds
      (λ (f : SourceCheckFact).
        str_eq f.detail_hash x.plan.plan_detail_hash
        && str_eq f.item_snapshot_hash x.plan.plan_item_hash
        && str_eq f.source_snapshot_hash x.plan.plan_source_hash)
      (fact_row x.plan.check_task_id s.facts)
    && holds (λ (t : OperationTask). state_eq t.state succeeded)
        (find_row x.plan.check_task_id s.db.tasks)

-- The rows have these values, up to the time of the last update.
unfoldable pub rows_match : ManualUpdatePlan → Item → ItemSource → Store → Bool
rows_match plan item source s =
    holds (λ i. same_proof (item_proof i) (item_proof item)) (item_row plan.plan_item_id s.items)
    && holds (λ o. same_proof (source_proof o) (source_proof source))
        (source_row plan.plan_source_id s.sources)

-- `_verify_manual_update_state`, for the digest of the plan as its intent key.
unfoldable pub verify_state : String → Expected → TaskState → String → ℕ → Store → Bool
verify_state key x state stage version s =
    rows_match x.plan x.item_after x.source_after s
    && only (task_matches x state stage version) (tasks_of key s)
    && same_texts (event_types x.task_id s) (expected_events state)
    && check_matches x s

-- `_verify_manual_pre_state`
unfoldable pub verify_pre : String → Expected → Store → Bool
verify_pre key x s =
    rows_match x.plan x.item_before x.source_before s && length (tasks_of key s) == 0

-- Each change's value is the current one.
abbrev pub all_current : Std → Item → ItemSource → List ManualFieldChange → Bool
all_current std i o [] = true
all_current std i o (c ∷ cs) =
    same_option (current_value std i o c.field) c.new && all_current std i o cs

-- `_verify_manual_replay`
unfoldable pub verify_replay : Std → String → ManualUpdatePlan → ℕ → Store → Bool
verify_replay std key plan i s =
    holds
      (λ item.
        holds (λ source. all_current std item source plan.selected)
          (source_row plan.plan_source_id s.sources))
      (item_row plan.plan_item_id s.items)
    && only
        (λ t.
          t.id == i
          && state_eq t.state succeeded
          && str_eq t.stage "committed_verified"
          && same_option t.snapshot_hash (some plan.plan_detail_hash)
          && is_num plan.plan_item_id t.item_id
          && is_num plan.plan_source_id t.source_id
          && same_option t.provider_key (some plan.plan_provider_key))
        (tasks_of key s)
    && length (filter (λ (e : TaskEvent). e.task_id == i) s.db.events) == 3
