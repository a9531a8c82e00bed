-- ===== src/Runtime/Registry.antt =====
-- app/provider_runtime/service.py, the writes of `ProviderRuntimeRegistry`. `other` is what other
-- sessions commit between the row's read and the statement.
use nsfwtrack.Base.{
  ℕ, ◌+◌, String, Bool, true, false, ◌&&◌, not, Option, none, some, List, [], ◌∷◌, ◌==◌, leb,
  str_eq, if◌then◌else◌, update_where, count_where, member, length, codes, or_else, is_none,
}
use nsfwtrack.Runtime.Contracts.{
  RuntimeStatus, disabled, ready, blocked, error, valid, SessionStatus, missing, available,
  ProviderRuntimeDefinition, ProviderRuntimeState, egress_profile_supported, Env, is_valid,
  is_available, is_expired, invalid_request, invalid_egress_profile, fixture_provider,
  concurrent_update,
}
use nsfwtrack.Runtime.Store.{
  ProviderRuntimeView, Result, ok, err, has_key, find_state, view_row, effective_session_status,
  state_for_write,
}

abbrev pub Rows : Type 0
Rows = List ProviderRuntimeState

-- What a call gives and leaves.
abbrev pub Call : Type 0
Call = Result ProviderRuntimeView × Rows

-- `where(provider_key == …, optimistic_version == expected_version)`
abbrev pub at_version : String → ℕ → ProviderRuntimeState → Bool
at_version key expected row = has_key key row && row.optimistic_version == expected

-- The rest of a write once its statement ran: `rowcount`, and the row read back.
unfoldable pub written : Env → ProviderRuntimeDefinition → String → ℕ → Rows → Call
written env d key rowcount rows =
    if rowcount == 1
    then elim (find_state key rows) [
      | none ↦ (err concurrent_update, rows)
      | some updated ↦ (ok (view_row env d updated), rows)
    ]
    else (err concurrent_update, rows)

-- The columns that `_mutate` adds to the `values` of its caller.
unfoldable pub stamped :
    Env
    → ℕ
    → ProviderRuntimeState
    → Bool
    → (ProviderRuntimeState → ProviderRuntimeState)
    → ProviderRuntimeState
    → ProviderRuntimeState
stamped env expected state configuration_changed values row = record (values row) {
  optimistic_version = expected + 1;
  updated_at = env.now;
  configuration_version =
      if configuration_changed then state.configuration_version + 1 else row.configuration_version;
}

-- `_mutate`, and the view of the row that it returns.
unfoldable pub mutate :
    Env
    → (Rows → Rows)
    → ProviderRuntimeDefinition
    → ProviderRuntimeState
    → ℕ
    → Bool
    → (ProviderRuntimeState → ProviderRuntimeState)
    → Rows
    → Call
mutate env other d state expected configuration_changed values rows =
    let p = at_version state.provider_key expected in
    let found = other rows in
    let set = stamped env expected state configuration_changed values in
    if leb 1 expected
    then written env d state.provider_key (count_where p found) (update_where p set found)
    else (err invalid_request, rows)

-- A write: `_state_for_write`, and then the body on the definition and the row.
unfoldable pub with_state :
    Env → String → Rows → (ProviderRuntimeDefinition → ProviderRuntimeState → Rows → Call) → Call
with_state env key rows body =
    let rows' = (state_for_write env key rows).1 in
    elim (state_for_write env key rows).0 [
      | err code ↦ (err code, rows')
      | ok found ↦ body found.0 found.1 rows'
    ]

-- `"disabled" if not state.enabled else "blocked"`
abbrev pub unproved : Bool → RuntimeStatus
unproved false = disabled
unproved true = blocked

abbrev pub configured : String → ProviderRuntimeState → ProviderRuntimeState → ProviderRuntimeState
configured profile state row = record row {
  egress_profile = profile;
  configuration_status = valid;
  runtime_status = unproved state.enabled;
  last_error_code = none;
  last_error_at = none;
}

unfoldable pub save_configuration : Env → (Rows → Rows) → String → String → ℕ → Rows → Call
save_configuration env other key profile expected rows = with_state env key rows (λ d state rows'.
    if not d.manageable
    then (err fixture_provider, rows')
    else if not (egress_profile_supported profile)
    then (err invalid_egress_profile, rows')
    else mutate env other d state expected true (configured profile state) rows')

abbrev pub switched : Bool → ProviderRuntimeState → ProviderRuntimeState
switched enabled row = record row { enabled = enabled; runtime_status = unproved enabled }

unfoldable pub set_enabled : Env → (Rows → Rows) → String → Bool → ℕ → Rows → Call
set_enabled env other key enabled expected rows = with_state env key rows (λ d state rows'.
    if not d.manageable
    then (err fixture_provider, rows')
    else mutate env other d state expected false (switched enabled) rows')

-- The prerequisites that both halves of a health check test.
unfoldable pub local_blocker :
    Env → ProviderRuntimeDefinition → ProviderRuntimeState → Option String
local_blocker env d state =
    let session_status = effective_session_status env d state in
    if not d.manageable
    then some "fixture_provider"
    else if not state.enabled
    then some "provider_disabled"
    else if not (is_valid state.configuration_status)
    then some "configuration_required"
    else if not (egress_profile_supported state.egress_profile)
    then some "egress_profile_unavailable"
    else if d.cookie_required && not (is_available session_status)
    then some (if is_expired session_status then "session_expired" else "session_missing")
    else none

pub record ProviderRuntimeHealthPlan : Type 0 where
  pub provider : ProviderRuntimeView
  pub expected_version : ℕ
  pub blocker_code : Option String

abbrev pub health_plan :
    Env → ℕ → ProviderRuntimeDefinition → ProviderRuntimeState → ProviderRuntimeHealthPlan
health_plan env expected d state = record {
  provider = view_row env d state;
  expected_version = expected;
  blocker_code = local_blocker env d state;
}

unfoldable pub prepare_health_check :
    Env → String → ℕ → Rows → Result ProviderRuntimeHealthPlan × Rows
prepare_health_check env key expected rows =
    let rows' = (state_for_write env key rows).1 in
    elim (state_for_write env key rows).0 [
      | err code ↦ (err code, rows')
      | ok found ↦
          if not (leb 1 expected)
          then (err invalid_request, rows')
          else if not (found.1.optimistic_version == expected)
          then (err concurrent_update, rows')
          else (ok (health_plan env expected found.0 found.1), rows')
    ]

-- The argument check on `error_code`.
abbrev pub error_code_ok : Option String → Bool
error_code_ok none = true
error_code_ok (some code) = leb 1 (length (codes code)) && leb (length (codes code)) 64

unfoldable pub final_error : Bool → Option String → Option String → Option String
final_error success blocker error_code =
    if success && is_none blocker
    then none
    else some (or_else blocker (or_else error_code "runtime_probe_failed"))

unfoldable pub health_status : Option String → RuntimeStatus
health_status none = ready
health_status (some code) =
    if str_eq code "provider_disabled"
    then disabled
    else if member code (
        "configuration_required" ∷ "session_missing" ∷ "session_expired" ∷ "fixture_provider"
        ∷ "egress_profile_unavailable" ∷ [])
    then blocked
    else error

unfoldable pub checked :
    Env
    → SessionStatus
    → Option String
    → ProviderRuntimeState
    → ProviderRuntimeState
    → ProviderRuntimeState
checked env session final state row = record row {
  runtime_status = health_status final;
  session_status = session;
  session_updated_at = if is_available session then some env.now else state.session_updated_at;
  last_health_check_at = some env.now;
  last_success_at = if is_none final then some env.now else state.last_success_at;
  last_error_code = final;
  last_error_at = if is_none final then none else some env.now;
}

unfoldable pub complete_health_check :
    Env → (Rows → Rows) → String → ℕ → Bool → Option String → Rows → Call
complete_health_check env other key expected success error_code rows =
    with_state env key rows (λ d state rows'.
      if not (error_code_ok error_code)
      then (err invalid_request, rows')
      else let final = final_error success (local_blocker env d state) error_code in
        let session = effective_session_status env d state in
        mutate env other d state expected false (checked env session final state) rows')

abbrev pub cleared : ProviderRuntimeState → ProviderRuntimeState → ProviderRuntimeState
cleared state row = record row {
  last_error_code = none;
  last_error_at = none;
  runtime_status = unproved state.enabled;
}

unfoldable pub clear_error : Env → (Rows → Rows) → String → ℕ → Rows → Call
clear_error env other key expected rows =
    with_state env key rows
      (λ d state rows'. mutate env other d state expected false (cleared state) rows')

-- `state.enabled and not available`
abbrev pub lost : ProviderRuntimeState → Bool → Bool
lost state is_there = state.enabled && not is_there

unfoldable pub imported :
    ℕ → Bool → Option ℕ → ProviderRuntimeState → ProviderRuntimeState → ProviderRuntimeState
imported timestamp is_there expires_at state row = record row {
  session_status = if is_there then available else missing;
  session_updated_at = if is_there then some timestamp else none;
  session_expires_at = expires_at;
  runtime_status = if lost state is_there then blocked else state.runtime_status;
  last_error_code = if lost state is_there then some "session_missing" else none;
  last_error_at = if lost state is_there then some timestamp else none;
  optimistic_version = row.optimistic_version + 1;
  updated_at = timestamp;
}

unfoldable pub record_session_import :
    Env → (Rows → Rows) → String → Bool → Option ℕ → Option ℕ → Rows → Call
record_session_import env other key is_there updated_at expires_at rows =
    with_state env key rows (λ d state rows'.
      if not d.manageable
      then (err fixture_provider, rows')
      else let found = other rows' in
        let p = has_key state.provider_key in
        let set = imported (or_else updated_at env.now) is_there expires_at state in
        written env d state.provider_key (count_where p found) (update_where p set found))
