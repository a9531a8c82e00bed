-- ===== src/Runtime/Health.antt =====
-- app/provider_runtime/catalog.py, `run_runtime_health_check`: what it returns and stores for a row at
-- the expected version.
use mathlib.Core.Path.{subst}
use nsfwtrack.Base.{
  ℕ, ◌+◌, String, Bool, true, false, Option, none, some, leb, if◌then◌else◌, update_where,
  count_where, ◌≡◌, refl, ap, arith, ==_iff, ◌↔◌,
}
use nsfwtrack.Runtime.Contracts.{
  ProviderRuntimeDefinition, ProviderRuntimeState, Env, definition_of, ready,
}
use nsfwtrack.Runtime.Store.{
  ProviderRuntimeView, ok, find_state, has_key, view_row, state_for_write, effective_session_status,
}
use nsfwtrack.Runtime.Registry.{
  Rows, at_version, written, stamped, mutate, with_state, local_blocker, prepare_health_check,
  error_code_ok, final_error, health_status, checked, complete_health_check, health_plan,
}
use nsfwtrack.Runtime.Catalog.{
  Probe, passed, probe_success, probe_error, run_runtime_health_check, catalog_error, timed_out,
  raised,
}
use nsfwtrack.Runtime.Writes.{find_state-key}
use nsfwtrack.Runtime.Rows.{count-at, find-updated}

-- A provider's row as a write finds it: known, unique, at the expected version.
pub record Present (key : String) (expected : ℕ) (rows : Rows) (d : ProviderRuntimeDefinition)
    (r : ProviderRuntimeState) : Type 0 where
  pub known : definition_of key ≡ some d
  pub there : find_state key rows ≡ some r
  pub unique : count_where (has_key key) rows ≡ 1
  pub current : r.optimistic_version ≡ expected
  pub counted : leb 1 expected ≡ true

pub state_for_write-Present :
    (env : Env) (key : String) (expected : ℕ) (rows : Rows) (d : ProviderRuntimeDefinition)
    (r : ProviderRuntimeState)
    → Present key expected rows d r
    → state_for_write env key rows ≡ (ok (d, r), rows)
unfolding state_for_write
state_for_write-Present env key expected rows d r p = rw (state_for_write, p.known, p.there) refl

stamped-key :
    (env : Env) (expected : ℕ) (r : ProviderRuntimeState) (b : Bool)
    (values : ProviderRuntimeState → ProviderRuntimeState) (x : ProviderRuntimeState)
    → (values x).provider_key ≡ x.provider_key
    → (stamped env expected r b values x).provider_key ≡ x.provider_key
unfolding stamped
stamped-key env expected r b values x e = e

-- Without interference a write at the current version succeeds, and stores what it set.
pub mutate-Present :
    (env : Env) (expected : ℕ) (rows : Rows) (d : ProviderRuntimeDefinition)
    (r : ProviderRuntimeState) (b : Bool) (values : ProviderRuntimeState → ProviderRuntimeState)
    → Present r.provider_key expected rows d r
    → ((x : ProviderRuntimeState) → (values x).provider_key ≡ x.provider_key)
    → let found =
        update_where (at_version r.provider_key expected) (stamped env expected r b values) rows in
      (mutate env (λ t. t) d r expected b values rows
        ≡ (ok (view_row env d (stamped env expected r b values r)), found))
      × (find_state r.provider_key found ≡ some (stamped env expected r b values r))
unfolding mutate written
mutate-Present env expected rows d r b values p keeps =
    let key = r.provider_key in
    let one = count-at key expected rows r p.unique p.there p.current in
    let found =
      find-updated key expected (stamped env expected r b values) rows r p.there p.current
        (λ x. stamped-key env expected r b values x (keeps x)) in
    (rw (p.counted, one, found) refl, found)

-- The error that a health check ends with: the local blocker, or else the probe's.
abbrev pub health_error : Option String → Probe → Option String
health_error none seen = probe_error seen
health_error (some code) seen = some code

-- The row that a health check stores.
abbrev pub health_row :
    Env
    → ℕ
    → ProviderRuntimeDefinition
    → ProviderRuntimeState
    → Option String
    → ProviderRuntimeState
health_row env expected d r final =
    stamped env expected r false (checked env (effective_session_status env d r) final r) r

checked-key :
    (env : Env) (s : _) (final : Option String) (r x : ProviderRuntimeState)
    → (checked env s final r x).provider_key ≡ x.provider_key
unfolding checked
checked-key env s final r x = refl

complete-Present :
    (env : Env) (expected : ℕ) (rows : Rows) (d : ProviderRuntimeDefinition)
    (r : ProviderRuntimeState) (success : Bool) (code final : Option String)
    → Present r.provider_key expected rows d r
    → error_code_ok code ≡ true
    → final_error success (local_blocker env d r) code ≡ final
    → let c = complete_health_check env (λ t. t) r.provider_key expected success code rows in
      (c.0 ≡ ok (view_row env d (health_row env expected d r final)))
      × (find_state r.provider_key c.1 ≡ some (health_row env expected d r final))
unfolding complete_health_check with_state
complete-Present env expected rows d r success code final p e f =
    let w = state_for_write-Present env r.provider_key expected rows d r p in
    let m =
      mutate-Present env expected rows d r false
        (checked env (effective_session_status env d r) final r) p
        (checked-key env (effective_session_status env d r) final r) in
    rw (complete_health_check, with_state, ap (λ t. t.0) w, ap (λ t. t.1) w, e, f, m.0) (refl, m.1)

prepare-Present :
    (env : Env) (expected : ℕ) (rows : Rows) (d : ProviderRuntimeDefinition)
    (r : ProviderRuntimeState)
    → Present r.provider_key expected rows d r
    → prepare_health_check env r.provider_key expected rows
      ≡ (ok (health_plan env expected d r), rows)
unfolding prepare_health_check
prepare-Present env expected rows d r p =
    let w = state_for_write-Present env r.provider_key expected rows d r p in
    rw (prepare_health_check, ap (λ t. t.0) w, ap (λ t. t.1) w, p.counted, (==_iff _ _).1 p.current)
      refl

if-ok :
    (b : Bool) (x y : Option String)
    → error_code_ok x ≡ true
    → error_code_ok y ≡ true
    → error_code_ok (if b then x else y) ≡ true
if-ok true x y h k = h
if-ok false x y h k = k

session-ok :
    (b : Bool) → error_code_ok (some (if b then "session_expired" else "session_missing")) ≡ true
session-ok true = refl
session-ok false = refl

blocker-ok :
    (env : Env) (d : ProviderRuntimeDefinition) (r : ProviderRuntimeState)
    → error_code_ok (local_blocker env d r) ≡ true
unfolding local_blocker
blocker-ok env d r = search (if-ok, session-ok) depth 14

probe-final :
    (seen : Probe) → final_error (probe_success seen) none (probe_error seen) ≡ probe_error seen
unfolding final_error
probe-final seen = ground arith

checked_at_key :
    (env : Env) (probe : ProviderRuntimeView → Probe) (expected : ℕ) (rows : Rows)
    (d : ProviderRuntimeDefinition) (r : ProviderRuntimeState) (o : Option String)
    → local_blocker env d r ≡ o
    → Present r.provider_key expected rows d r
    → error_code_ok (probe_error (probe (view_row env d r))) ≡ true
    → let c = run_runtime_health_check env probe (λ t. t) (λ t. t) r.provider_key expected rows in
      let stored = health_row env expected d r (health_error o (probe (view_row env d r))) in
      (c.0 ≡ ok (view_row env d stored)) × (find_state r.provider_key c.1 ≡ some stored)
unfolding run_runtime_health_check final_error
checked_at_key env probe expected rows d r none e p k =
    let w = prepare-Present env expected rows d r p in
    let seen = probe (view_row env d r) in
    let done =
      complete-Present env expected rows d r (probe_success seen) (probe_error seen)
        (probe_error seen) p k (rw e (probe-final seen)) in
    rw (run_runtime_health_check, ap (λ t. t.0) w, e, ap (λ t. t.1) w) done
checked_at_key env probe expected rows d r (some code) e p k =
    let w = prepare-Present env expected rows d r p in
    let any_ok = blocker-ok env d r in
    let blocked_ok = rw e at any_ok in
    let done =
      complete-Present env expected rows d r false (some code) (some code) p blocked_ok
        (rw e refl) in
    rw (run_runtime_health_check, ap (λ t. t.0) w, e, ap (λ t. t.1) w) done

-- What a health check stores, and when that is a positive result.
pub record HealthStored (env : Env) (expected : ℕ) (d : ProviderRuntimeDefinition)
    (r : ProviderRuntimeState) (seen : Probe) (stored : ProviderRuntimeState) : Type 0 where
  pub ready_iff :
      (stored.runtime_status ≡ ready) ↔ ((local_blocker env d r ≡ none) × (seen ≡ passed))
  pub code : stored.last_error_code ≡ health_error (local_blocker env d r) seen
  pub version : stored.optimistic_version ≡ expected + 1
  pub others :
      (stored.enabled ≡ r.enabled)
      × (stored.egress_profile ≡ r.egress_profile)
      × (stored.configuration_version ≡ r.configuration_version)

status-none : (o : Option String) → health_status o ≡ ready → o ≡ none
unfolding health_status
status-none none h = refl
status-none (some code) h = ground arith

error-none :
    (o : Option String) (seen : Probe) → health_error o seen ≡ none → (o ≡ none) × (seen ≡ passed)
error-none none passed h = (refl, refl)
error-none none (catalog_error code) h = absurd (cc)
error-none none timed_out h = absurd (cc)
error-none none raised h = absurd (cc)
error-none (some code) seen h = absurd (cc)

health_row-Stored :
    (env : Env) (expected : ℕ) (d : ProviderRuntimeDefinition) (r : ProviderRuntimeState)
    (seen : Probe)
    → HealthStored env expected d r seen
        (health_row env expected d r (health_error (local_blocker env d r) seen))
unfolding stamped checked health_status
health_row-Stored env expected d r seen = record {
  ready_iff =
      (λ h. error-none (local_blocker env d r) seen (status-none _ h), λ h. rw (h.0, h.1) refl);
  code = refl;
  version = refl;
  others = (refl, refl, refl);
}

-- Without interference, a health check of a known provider whose one row is at the expected version
-- succeeds, whatever its probe does (a package error has a code that may be stored): the row then
-- holds, and the caller is shown, status `ready` exactly if no local prerequisite was missing and the
-- probe passed, the first missing prerequisite or else the probe's error, and the next version;
-- the switch and the configuration are untouched.
pub run_runtime_health_check_result :
    (env : Env) (probe : ProviderRuntimeView → Probe) (key : String) (expected : ℕ) (rows : Rows)
    (d : ProviderRuntimeDefinition) (r : ProviderRuntimeState)
    → Present key expected rows d r
    → error_code_ok (probe_error (probe (view_row env d r))) ≡ true
    → let c = run_runtime_health_check env probe (λ t. t) (λ t. t) key expected rows in
      (stored : ProviderRuntimeState) × (c.0 ≡ ok (view_row env d stored))
      × (find_state key c.1 ≡ some stored)
      × HealthStored env expected d r (probe (view_row env d r)) stored
run_runtime_health_check_result env probe key expected rows d r p k =
    let seen = probe (view_row env d r) in
    let blocker = local_blocker env d r in
    let stored = health_row env expected d r (health_error blocker seen) in
    let run =
      λ (name : String). run_runtime_health_check env probe (λ t. t) (λ t. t) name expected rows in
    let done =
      subst
        (λ name.
          Present name expected rows d r
          → ((run name).0 ≡ ok (view_row env d stored))
            × (find_state name (run name).1 ≡ some stored))
        (find_state-key key rows r p.there)
        (λ q. checked_at_key env probe expected rows d r blocker refl q k) p in
    (stored, done.0, done.1, health_row-Stored env expected d r seen)
