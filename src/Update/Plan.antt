-- ===== src/Update/Plan.antt =====
-- app/source_update/service.py, `build_manual_update_plan`.
use nsfwtrack.Base.{
  ℕ, String, Bool, true, false, not, ◌&&◌, ◌||◌, Option, none, some, List, [], ◌∷◌, map, all, leb,
  member, str_eq, if◌then◌else◌,
}
use nsfwtrack.Tasks.Contracts.{succeeded, state_eq}
use nsfwtrack.Tasks.Store.{OperationTask, find_row}
use nsfwtrack.Update.Contracts.{
  invalid_request, check_expired, nothing_to_apply, stale_plan, Result, ok, err, bind, Item,
  ItemSource, SourceCheckFact, Store, item_row, source_row, fact_row, Std, datetime_text,
  text_or_empty, item_snapshot, source_snapshot, Field, item_summary, item_release_date,
  source_title_field, source_last_checked_at, source_metadata_hash, field_name, update_fields,
  ManualFieldChange, make_change, ManualUpdatePlan, is_empty, valid_plan,
}

abbrev pub same_option : Option String → Option String → Bool
same_option none none = true
same_option (some a) (some b) = str_eq a b
same_option _ _ = false

-- `values[field]`: the current and the proposed value.
unfoldable pub current_value : Std → Item → ItemSource → Field → Option String
current_value std item source item_summary = item.summary
current_value std item source item_release_date = item.release_date
current_value std item source source_title_field = source.source_title
current_value std item source source_last_checked_at = datetime_text std source.last_checked_at
current_value std item source source_metadata_hash = source.metadata_hash

unfoldable pub proposed_value : Std → SourceCheckFact → Field → Option String
proposed_value std fact item_summary = fact.proposed_summary
proposed_value std fact item_release_date = fact.proposed_release_date
proposed_value std fact source_title_field = fact.proposed_source_title
proposed_value std fact source_last_checked_at = some (std.isoformat fact.proposed_checked_at)
proposed_value std fact source_metadata_hash = some fact.proposed_metadata_hash

-- `new is None and old not in {None, ""}`
abbrev pub clears : Option String → Option String → Bool
clears (some s) none = not (str_eq s "")
clears _ _ = false

-- Whether the loop appends a change for the field.
unfoldable pub changes_field : List String → Option String → Option String → Field → Bool
changes_field selected old new f =
    member (field_name f) selected && not (clears old new) && not (same_option old new)

-- The loop over the fields, in their order.
unfoldable pub collect :
    Std
    → Item
    → ItemSource
    → SourceCheckFact
    → List String
    → List Field
    → Result (List ManualFieldChange)
collect std item source fact selected [] = ok []
collect std item source fact selected (f ∷ fs) =
    let old = current_value std item source f in
    let new = proposed_value std fact f in
    let rest = collect std item source fact selected fs in
    if changes_field selected old new f
    then (bind (make_change f old new) λ c. bind rest λ cs. ok (c ∷ cs))
    else rest

abbrev pub known_fields : List String
known_fields = map field_name update_fields

abbrev pub plan_from :
    OperationTask → Item → ItemSource → SourceCheckFact → List ManualFieldChange → ManualUpdatePlan
plan_from task item source fact changes = record {
  check_task_id = task.id;
  plan_item_id = item.item_id;
  plan_source_id = source.source_id;
  plan_provider_key = text_or_empty task.provider_key;
  plan_item_hash = fact.item_snapshot_hash;
  plan_source_hash = fact.source_snapshot_hash;
  selected = changes;
  plan_detail_hash = fact.detail_hash;
}

unfoldable pub finish_plan :
    OperationTask
    → Item
    → ItemSource
    → SourceCheckFact
    → List ManualFieldChange
    → Result ManualUpdatePlan
finish_plan task item source fact changes =
    if is_empty changes
    then err nothing_to_apply
    else if not (valid_plan (plan_from task item source fact changes))
    then err invalid_request
    else ok (plan_from task item source fact changes)

-- `db.get(Item, task.item_id)`
abbrev pub item_of : Option ℕ → Store → Option Item
item_of none s = none
item_of (some i) s = item_row i s.items

abbrev pub source_of : Option ℕ → Store → Option ItemSource
source_of none s = none
source_of (some i) s = source_row i s.sources

-- After the task, its fact and the time are accepted.
unfoldable pub plan_rows :
    Std
    → List String
    → OperationTask
    → SourceCheckFact
    → Option Item
    → Option ItemSource
    → Result ManualUpdatePlan
plan_rows std selected task fact none source = err stale_plan
plan_rows std selected task fact (some item) none = err stale_plan
plan_rows std selected task fact (some item) (some source) =
    if not (str_eq (item_snapshot std item) fact.item_snapshot_hash)
      || not (str_eq (source_snapshot std source) fact.source_snapshot_hash)
    then err stale_plan
    else bind (collect std item source fact selected update_fields)
        (finish_plan task item source fact)

unfoldable pub plan_check :
    Std
    → List String
    → ℕ
    → Store
    → Option OperationTask
    → Option SourceCheckFact
    → Result ManualUpdatePlan
plan_check std selected now s none fact = err invalid_request
plan_check std selected now s (some task) none = err invalid_request
plan_check std selected now s (some task) (some fact) =
    if not (state_eq task.state succeeded)
    then err invalid_request
    else if leb fact.expires_at now
    then err check_expired
    else plan_rows std selected task fact (item_of task.item_id s) (source_of task.source_id s)

-- `build_manual_update_plan`
unfoldable pub build_manual_update_plan :
    Std → ℕ → List String → ℕ → Store → Result ManualUpdatePlan
build_manual_update_plan std check_task_id selected now s =
    if not (all (λ f. member f known_fields) selected)
    then err invalid_request
    else plan_check std selected now s (find_row check_task_id s.db.tasks)
        (fact_row check_task_id s.facts)
