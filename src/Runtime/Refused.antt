-- ===== src/Runtime/Refused.antt =====
-- app/provider_runtime/catalog.py, `run_runtime_health_check`: its steps and its refusals, one by one.
use mathlib.Core.Path.{subst}
use nsfwtrack.Base.{
  ℕ, String, Bool, true, false, Option, none, some, leb, count_where, ◌≡◌, refl, ap, sym, ◌==◌,
  Option-cases, inl, inr, is_some,
}
use nsfwtrack.Runtime.Contracts.{
  ProviderRuntimeDefinition, ProviderRuntimeState, ProviderRuntimeErrorCode, Env, definition_of,
  unknown_provider, invalid_request, concurrent_update,
}
use nsfwtrack.Runtime.Store.{ProviderRuntimeView, ok, err, find_state, view_row, state_for_write}
use nsfwtrack.Runtime.Registry.{
  Rows, Call, at_version, written, mutate, with_state, local_blocker, prepare_health_check,
  error_code_ok, health_plan, complete_health_check,
}
use nsfwtrack.Runtime.Catalog.{Probe, probe_success, probe_error, run_runtime_health_check}
use nsfwtrack.Runtime.Writes.{find_state-key}

-- Tables in which the provider has a row, but none at the expected version.
pub record Moved (key : String) (expected : ℕ) (rows : Rows) : Type 0 where
  pub there : is_some (find_state key rows) ≡ true
  pub none_at : count_where (at_version key expected) rows ≡ 0

pub found :
    (env : Env) (key : String) (rows : Rows) (r : ProviderRuntimeState)
    (d : ProviderRuntimeDefinition)
    → find_state key rows ≡ some r
    → definition_of key ≡ some d
    → state_for_write env key rows ≡ (ok (d, r), rows)
unfolding state_for_write
found env key rows r d there e = rw (state_for_write, e, there) refl

module _ (env : Env) (probe : ProviderRuntimeView → Probe) (key : String) (expected : ℕ)
    (rows : Rows) (r : ProviderRuntimeState) (there : find_state key rows ≡ some r)
    (during : Rows → Rows) where
  abbrev pub run : Call
  run = run_runtime_health_check env probe during (λ t. t) key expected rows

  unfound : definition_of key ≡ none → state_for_write env key rows ≡ (err unknown_provider, rows)
  unfolding state_for_write
  unfound e = rw (e, state_for_write) refl

  run-refused :
      (code : ProviderRuntimeErrorCode)
      → prepare_health_check env key expected rows ≡ (err code, rows)
      → run ≡ (err code, rows)
  unfolding run_runtime_health_check
  run-refused code e = rw (run_runtime_health_check, ap (λ t. t.0) e, ap (λ t. t.1) e) refl

  pub run-unknown : definition_of key ≡ none → run ≡ (err unknown_provider, rows)
  unfolding prepare_health_check
  run-unknown e =
      let w = unfound e in
      run-refused unknown_provider
        (rw (prepare_health_check, ap (λ t. t.0) w, ap (λ t. t.1) w) refl)

  pub run-uncounted :
      (d : ProviderRuntimeDefinition)
      → definition_of key ≡ some d
      → leb 1 expected ≡ false
      → run ≡ (err invalid_request, rows)
  unfolding prepare_health_check
  run-uncounted d e k =
      let w = found env key rows r d there e in
      run-refused invalid_request
        (rw (prepare_health_check, ap (λ t. t.0) w, ap (λ t. t.1) w, k) refl)

  pub run-outdated :
      (d : ProviderRuntimeDefinition)
      → definition_of key ≡ some d
      → leb 1 expected ≡ true
      → (r.optimistic_version == expected) ≡ false
      → run ≡ (err concurrent_update, rows)
  unfolding prepare_health_check
  run-outdated d e k m =
      let w = found env key rows r d there e in
      run-refused concurrent_update
        (rw (prepare_health_check, ap (λ t. t.0) w, ap (λ t. t.1) w, k, m) refl)

  pub prepared :
      (d : ProviderRuntimeDefinition)
      → definition_of key ≡ some d
      → leb 1 expected ≡ true
      → (r.optimistic_version == expected) ≡ true
      → prepare_health_check env key expected rows ≡ (ok (health_plan env expected d r), rows)
  unfolding prepare_health_check
  prepared d e k m =
      let w = found env key rows r d there e in
      rw (prepare_health_check, ap (λ t. t.0) w, ap (λ t. t.1) w, k, m) refl

  pub run-blocked :
      (d : ProviderRuntimeDefinition)
      → prepare_health_check env key expected rows ≡ (ok (health_plan env expected d r), rows)
      → (o : Option String) → local_blocker env d r ≡ o
      → (o ≡ none → during rows ≡ rows)
      → run_runtime_health_check env probe (λ t. t) (λ t. t) key expected rows ≡ run
  unfolding run_runtime_health_check
  run-blocked d w none e quiet =
      rw (run_runtime_health_check, ap (λ t. t.0) w, e, ap (λ t. t.1) w, quiet refl) refl
  run-blocked d w (some code) e quiet =
      rw (run_runtime_health_check, ap (λ t. t.0) w, e, ap (λ t. t.1) w) refl

  pub run-probed :
      (d : ProviderRuntimeDefinition)
      → prepare_health_check env key expected rows ≡ (ok (health_plan env expected d r), rows)
      → local_blocker env d r ≡ none
      → let seen = probe (view_row env d r) in
        run
        ≡ complete_health_check env
            (λ t. t)
            key
            expected
            (probe_success seen)
            (probe_error seen)
            (during rows)
  unfolding run_runtime_health_check
  run-probed d w e = rw (run_runtime_health_check, ap (λ t. t.0) w, e, ap (λ t. t.1) w) refl

-- The second half of a check, on tables without a row at the expected version.
pub complete-Moved :
    (env : Env) (key : String) (expected : ℕ) (rows : Rows) (d : ProviderRuntimeDefinition)
    (success : Bool) (code : Option String)
    → definition_of key ≡ some d
    → leb 1 expected ≡ true
    → error_code_ok code ≡ true
    → Moved key expected rows
    → (complete_health_check env (λ t. t) key expected success code rows).0 ≡ err concurrent_update
unfolding complete_health_check with_state mutate written
complete-Moved env key expected rows d success code e k c m =
    elim (Option-cases (find_state key rows)) [
      | inl f ↦ absurd (cc (m.there, f))
      | inr (r, f) ↦
          let none_at : count_where (at_version r.provider_key expected) rows ≡ 0 =
            subst (λ name. count_where (at_version name expected) rows ≡ 0)
              (sym (find_state-key key rows r f)) m.none_at in
          let w = found env key rows r d f e in
          rw
            (
              complete_health_check,
              with_state,
              ap (λ t. t.0) w,
              ap (λ t. t.1) w,
              c,
              mutate,
              k,
              none_at,
              written,
            )
            refl
    ]
