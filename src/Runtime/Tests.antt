-- ===== src/Runtime/Tests.antt =====
-- app/provider_runtime at concrete rows: two providers, one enabled and waiting for its health check.
use nsfwtrack.Runtime.Sync.{Complete, sync_known_states_settles}
use nsfwtrack.Base.{
  true, false, none, some, [], ◌∷◌, ◌≡◌, refl, member, ◌↔◌, map, take, length, inr,
}
use nsfwtrack.Runtime.Contracts.{
  ProviderRuntimeState, definition_of, egress_profile_supported, Env, is_space,
  local_session_status, concurrent_update, ready, blocked, valid, not_required, available,
}
use nsfwtrack.Runtime.Store.{
  local_runtime_ready, in_production_catalog, is_ok, find_state, default_state,
  effective_session_status, view_row, view, new_state, missing_definitions, sync_known_states,
  list_views, get, state_for_write, err,
}
use nsfwtrack.Runtime.Registry.{
  Rows, written, stamped, mutate, with_state, save_configuration, set_enabled, local_blocker,
  prepare_health_check, final_error, health_status, checked, complete_health_check, clear_error,
  imported, record_session_import,
}
use nsfwtrack.Runtime.Catalog.{
  enabled_ready_keys, package_of, collect, insert_by, sort_by, build_runtime_catalog,
  run_runtime_health_check, passed, timed_out,
}
use nsfwtrack.Runtime.Writes.{apply, save, switch}
use nsfwtrack.Runtime.Fence.{apply_race}
use nsfwtrack.Runtime.Answers.{Answer, run_runtime_health_check_answers}
use nsfwtrack.Runtime.Ready.{Listed, enabled_ready_keys_iff}
use nsfwtrack.Runtime.Unready.{apply_unready}

abbrev noon : Env
noon = record { now = 1000; cookie = some (b'a' ∷ b'=' ∷ b'1' ∷ []) }

abbrev javdb_row : ProviderRuntimeState
javdb_row = record {
  provider_key = "javdb_metadata";
  enabled = true;
  runtime_status = blocked;
  configuration_status = valid;
  egress_profile = "direct";
  session_status = available;
  session_updated_at = some 900;
  session_expires_at = some 2000;
  last_health_check_at = none;
  last_success_at = none;
  last_error_code = none;
  last_error_at = none;
  configuration_version = 2;
  optimistic_version = 4;
  created_at = 100;
  updated_at = 900;
}

abbrev vod_row : ProviderRuntimeState
vod_row = record javdb_row {
  provider_key = "zuidapi_vod";
  runtime_status = ready;
  session_status = not_required;
  session_expires_at = none;
}

abbrev stored : Rows
stored = javdb_row ∷ vod_row ∷ []

abbrev same : Rows → Rows
same rows = rows

opened : Unit {0}
unfolding definition_of egress_profile_supported local_session_status is_space local_runtime_ready
    in_production_catalog find_state default_state effective_session_status view_row view new_state
    missing_definitions sync_known_states list_views get state_for_write written stamped mutate
    with_state save_configuration set_enabled local_blocker prepare_health_check final_error
    health_status checked complete_health_check clear_error imported record_session_import
    enabled_ready_keys collect package_of insert_by sort_by build_runtime_catalog
    run_runtime_health_check apply
opened = tt

keys_before : enabled_ready_keys noon stored ≡ "zuidapi_vod" ∷ []
unfolding opened
keys_before = refl

-- A health check whose probe passes brings the provider into the catalog.
keys_after :
    enabled_ready_keys noon
      (run_runtime_health_check noon (λ v. passed) same same "javdb_metadata" 4 stored).1
    ≡ "javdb_metadata" ∷ "zuidapi_vod" ∷ []
unfolding opened
keys_after = refl

-- Both requests below expect version 4: the second is refused.
second_refused :
    (clear_error noon same "javdb_metadata" 4
      (set_enabled noon same "javdb_metadata" false 4 stored).1).0
    ≡ err concurrent_update
unfolding opened
second_refused = refl

synced :
    map (λ (r : ProviderRuntimeState). r.provider_key) (sync_known_states noon stored)
    ≡ "javdb_metadata" ∷ "zuidapi_vod" ∷ "copymanga" ∷ "jiuse_vod" ∷ "comic_local_fixture" ∷ []
unfolding opened
synced = refl

-- Both writes read version 4 in the same tables.
apply_race_example :
    is_ok
      (apply noon
        (λ _. (apply noon same (switch false) "javdb_metadata" 4 stored).1)
        (save "default")
        "javdb_metadata"
        4
        stored).0
    ≡ false
unfolding opened
apply_race_example =
    apply_race noon noon same same (switch false) (save "default") "javdb_metadata" 4 stored stored
      refl refl (λ rows' h. h)

enabled_ready_keys_iff_example :
    (member "zuidapi_vod" (enabled_ready_keys noon stored) ≡ true)
    ↔ Listed noon stored "zuidapi_vod"
enabled_ready_keys_iff_example = enabled_ready_keys_iff noon "zuidapi_vod" stored

apply_unready_example :
    member "zuidapi_vod"
      (enabled_ready_keys noon (apply noon same (switch true) "zuidapi_vod" 4 stored).1)
    ≡ false
unfolding opened
apply_unready_example =
    apply_unready noon noon same (switch true) "zuidapi_vod" 4 stored refl refl refl refl

-- Another session switches the provider off while its probe runs.
abbrev switched_off : Rows → Rows
switched_off rows = (apply noon same (switch false) "javdb_metadata" 4 rows).1

run_runtime_health_check_answers_example :
    Answer noon
      (λ v. timed_out)
      "javdb_metadata"
      4
      stored
      javdb_row
      switched_off
      (run_runtime_health_check noon (λ v. timed_out) switched_off same "javdb_metadata" 4 stored)
unfolding opened
run_runtime_health_check_answers_example =
    run_runtime_health_check_answers noon (λ v. timed_out) "javdb_metadata" 4 stored javdb_row
      switched_off refl refl (λ d e. refl) (inr (record { there = refl; none_at = refl }))

sync_known_states_settles_example :
    Complete (sync_known_states noon stored)
    × (take (length stored) (sync_known_states noon stored) ≡ stored)
    × (sync_known_states noon (sync_known_states noon stored) ≡ sync_known_states noon stored)
sync_known_states_settles_example = sync_known_states_settles noon noon stored
