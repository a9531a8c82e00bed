-- ===== src/Runtime/Store.antt =====
-- app/provider_runtime/service.py: what a reader is shown of a row, the lookup of rows and the
-- creation of missing ones.
use nsfwtrack.Base.{
  ℕ, String, Bool, true, false, ◌&&◌, ◌||◌, not, Option, none, some, List, ◌++◌, map, leb, find,
  any, str_eq, if◌then◌else◌, filter,
}
use nsfwtrack.Runtime.Contracts.{
  ProviderRuntimeErrorCode, Scope, RuntimeStatus, disabled, ConfigurationStatus, not_configured,
  invalid, SessionStatus, not_required, expired, ProviderRuntimeDefinition, ProviderRuntimeState,
  provider_definitions, egress_profile_supported, Env, local_session_status, is_ready, is_valid,
  is_available, is_production, definition_of, unknown_provider, invalid_request,
}

pub record ProviderRuntimeView : Type 0 where
  pub provider_key : String
  pub display_name : String
  pub scope : Scope
  pub cookie_required : Bool
  pub manageable : Bool
  pub egress_policy : String
  pub enabled : Bool
  pub runtime_status : RuntimeStatus
  pub configuration_status : ConfigurationStatus
  pub egress_profile : String
  pub session_status : SessionStatus
  pub session_updated_at : Option ℕ
  pub session_expires_at : Option ℕ
  pub last_health_check_at : Option ℕ
  pub last_success_at : Option ℕ
  pub last_error_code : Option String
  pub last_error_at : Option ℕ
  pub configuration_version : ℕ
  pub optimistic_version : ℕ

unfoldable pub local_runtime_ready : ProviderRuntimeView → Bool
local_runtime_ready v =
    v.manageable
    && is_production v.scope
    && v.enabled
    && is_valid v.configuration_status
    && (not v.cookie_required || is_available v.session_status)

-- Also `can_search` and `can_detail`.
unfoldable pub in_production_catalog : ProviderRuntimeView → Bool
unfolding local_runtime_ready
in_production_catalog v = local_runtime_ready v && is_ready v.runtime_status

-- The result of a call, a `ProviderRuntimeError` as its code.
pub data Result (A : Type 0) : Type 0 where
  ok : A → Result A
  err : ProviderRuntimeErrorCode → Result A

abbrev pub is_ok : {A : Type 0} → Result A → Bool
is_ok (ok _) = true
is_ok (err _) = false

abbrev pub has_key : String → ProviderRuntimeState → Bool
has_key key row = str_eq row.provider_key key

-- `db.get(ProviderRuntimeState, key)`
unfoldable pub find_state : String → List ProviderRuntimeState → Option ProviderRuntimeState
find_state key = find (has_key key)

-- `_default_state`
unfoldable pub default_state : Env → ProviderRuntimeDefinition → ProviderRuntimeView
default_state env d = record {
  provider_key = d.provider_key;
  display_name = d.display_name;
  scope = d.scope;
  cookie_required = d.cookie_required;
  manageable = d.manageable;
  egress_policy = d.egress_policy;
  enabled = false;
  runtime_status = disabled;
  configuration_status = not_configured;
  egress_profile = "default";
  session_status = local_session_status env d;
  session_updated_at = none;
  session_expires_at = none;
  last_health_check_at = none;
  last_success_at = none;
  last_error_code = none;
  last_error_at = none;
  configuration_version = 1;
  optimistic_version = 1;
}

-- `expires_at is not None and expires_at <= _now()`
abbrev pub is_past : Env → Option ℕ → Bool
is_past env none = false
is_past env (some t) = leb t env.now

-- `_effective_session_status` of a row
unfoldable pub effective_session_status :
    Env → ProviderRuntimeDefinition → ProviderRuntimeState → SessionStatus
effective_session_status env d state =
    let local_status = local_session_status env d in
    if is_past env state.session_expires_at
    then expired
    else if d.cookie_required && not (is_available local_status)
    then local_status
    else state.session_status

-- `_view` of a row
unfoldable pub view_row :
    Env → ProviderRuntimeDefinition → ProviderRuntimeState → ProviderRuntimeView
view_row env d state = record {
  provider_key = d.provider_key;
  display_name = d.display_name;
  scope = d.scope;
  cookie_required = d.cookie_required;
  manageable = d.manageable;
  egress_policy = d.egress_policy;
  enabled = state.enabled;
  runtime_status = state.runtime_status;
  configuration_status =
      if egress_profile_supported state.egress_profile then state.configuration_status else invalid;
  egress_profile = state.egress_profile;
  session_status = effective_session_status env d state;
  session_updated_at = state.session_updated_at;
  session_expires_at = state.session_expires_at;
  last_health_check_at = state.last_health_check_at;
  last_success_at = state.last_success_at;
  last_error_code = state.last_error_code;
  last_error_at = state.last_error_at;
  configuration_version = state.configuration_version;
  optimistic_version = state.optimistic_version;
}

-- `_view`
unfoldable pub view :
    Env → ProviderRuntimeDefinition → Option ProviderRuntimeState → ProviderRuntimeView
view env d none = default_state env d
view env d (some state) = view_row env d state

-- The row that `sync_known_states` adds; the columns it leaves out have the model's defaults.
unfoldable pub new_state : Env → ProviderRuntimeDefinition → ProviderRuntimeState
new_state env d = record {
  provider_key = d.provider_key;
  enabled = false;
  runtime_status = disabled;
  configuration_status = not_configured;
  egress_profile = "default";
  session_status = if d.cookie_required then local_session_status env d else not_required;
  session_updated_at = none;
  session_expires_at = none;
  last_health_check_at = none;
  last_success_at = none;
  last_error_code = none;
  last_error_at = none;
  configuration_version = 1;
  optimistic_version = 1;
  created_at = env.now;
  updated_at = env.now;
}

-- The definitions without a row.
unfoldable pub missing_definitions : List ProviderRuntimeState → List ProviderRuntimeDefinition
missing_definitions rows =
    filter (λ d. not (any (has_key d.provider_key) rows)) provider_definitions

unfoldable pub sync_known_states : Env → List ProviderRuntimeState → List ProviderRuntimeState
unfolding missing_definitions
sync_known_states env rows = rows ++ map (new_state env) (missing_definitions rows)

-- `list`
unfoldable pub list_views : Env → List ProviderRuntimeState → List ProviderRuntimeView
list_views env rows = map (λ d. view env d (find_state d.provider_key rows)) provider_definitions

-- `get`
unfoldable pub get : Env → String → List ProviderRuntimeState → Result ProviderRuntimeView
get env key rows = elim (definition_of key) [
  | none ↦ err unknown_provider
  | some d ↦ ok (view env d (find_state key rows))
]

-- `_state_for_write`: the definition and the row, with the rows after a missing one is created.
unfoldable pub state_for_write :
    Env
    → String
    → List ProviderRuntimeState
    → Result (ProviderRuntimeDefinition × ProviderRuntimeState) × List ProviderRuntimeState
state_for_write env key rows = elim (definition_of key) [
  | none ↦ (err unknown_provider, rows)
  | some d ↦ elim (find_state key rows) [
    | some state ↦ (ok (d, state), rows)
    | none ↦ elim (find_state key (sync_known_states env rows)) [
      | some state ↦ (ok (d, state), sync_known_states env rows)
      | none ↦ (err invalid_request, sync_known_states env rows)
    ]
  ]
]
