-- ===== src/Runtime/Answers.antt =====
-- app/provider_runtime/catalog.py, `run_runtime_health_check`: the refusals beside the stored result.
use nsfwtrack.Base.{
  ℕ, String, true, false, none, some, leb, count_where, ◌≡◌, refl, ap, sym, ◌∙◌, ==_iff, ◌==◌,
  Option-cases, Bool-cases, inl, inr, ◌⊎◌,
}
use nsfwtrack.Runtime.Contracts.{
  ProviderRuntimeDefinition, ProviderRuntimeState, Env, definition_of, unknown_provider,
  invalid_request, concurrent_update,
}
use nsfwtrack.Runtime.Store.{ProviderRuntimeView, ok, err, find_state, has_key, view_row}
use nsfwtrack.Runtime.Registry.{Rows, Call, local_blocker, error_code_ok}
use nsfwtrack.Runtime.Catalog.{Probe, probe_success, probe_error, run_runtime_health_check}
use nsfwtrack.Runtime.Health.{Present, HealthStored, run_runtime_health_check_result}
use nsfwtrack.Runtime.Refused.{
  Moved, run-unknown, run-uncounted, run-outdated, prepared, run-blocked, run-probed,
  complete-Moved,
}

-- How a health check of the stored row `r` ends: `c` is what it returns and leaves, and `during` what
-- other sessions commit while the probe runs.
pub data Answer (env : Env) (probe : ProviderRuntimeView → Probe) (key : String) (expected : ℕ)
    (rows : Rows) (r : ProviderRuntimeState) (during : Rows → Rows) (c : Call) : Type 0 where
  unknown :
      definition_of key ≡ none
      → c ≡ (err unknown_provider, rows)
      → Answer env probe key expected rows r during c
  uncounted :
      {d : ProviderRuntimeDefinition}
      → definition_of key ≡ some d
      → leb 1 expected ≡ false
      → c ≡ (err invalid_request, rows)
      → Answer env probe key expected rows r during c
  outdated :
      {d : ProviderRuntimeDefinition}
      → definition_of key ≡ some d
      → leb 1 expected ≡ true
      → (r.optimistic_version == expected) ≡ false
      → c ≡ (err concurrent_update, rows)
      → Answer env probe key expected rows r during c
  overtaken :
      {d : ProviderRuntimeDefinition}
      → definition_of key ≡ some d
      → leb 1 expected ≡ true
      → r.optimistic_version ≡ expected
      → local_blocker env d r ≡ none
      → Moved key expected (during rows)
      → c.0 ≡ err concurrent_update
      → Answer env probe key expected rows r during c
  stores :
      {d : ProviderRuntimeDefinition}
      → definition_of key ≡ some d
      → leb 1 expected ≡ true
      → r.optimistic_version ≡ expected
      → (local_blocker env d r ≡ none → during rows ≡ rows)
      → (stored : ProviderRuntimeState) → c.0 ≡ ok (view_row env d stored)
      → find_state key c.1 ≡ some stored
      → HealthStored env expected d r (probe (view_row env d r)) stored
      → Answer env probe key expected rows r during c

module _ (env : Env) (probe : ProviderRuntimeView → Probe) (key : String) (expected : ℕ)
    (rows : Rows) (r : ProviderRuntimeState) (there : find_state key rows ≡ some r)
    (during : Rows → Rows) (unique : count_where (has_key key) rows ≡ 1)
    (d : ProviderRuntimeDefinition) (known : definition_of key ≡ some d)
    (counted : leb 1 expected ≡ true) (at : (r.optimistic_version == expected) ≡ true)
    (storable : error_code_ok (probe_error (probe (view_row env d r))) ≡ true) where
  abbrev checked_run : Call
  checked_run = run_runtime_health_check env probe during (λ t. t) key expected rows

  run-stores :
      (local_blocker env d r ≡ none → during rows ≡ rows)
      → Answer env probe key expected rows r during checked_run
  run-stores quiet =
      let current = (==_iff _ _).0 at in
      let p : Present key expected rows d r = record {
        known = known;
        there = there;
        unique = unique;
        current = current;
        counted = counted;
      } in
      let (stored, returned, left, held) =
        run_runtime_health_check_result env probe key expected rows d r p storable in
      let same =
        run-blocked env probe key expected rows r there during d
          (prepared env probe key expected rows r there during d known counted at)
          (local_blocker env d r) refl quiet in
      stores known counted current quiet stored (ap (λ c. c.0) (sym same) ∙ returned)
        (ap (λ (c : Call). find_state key c.1) (sym same) ∙ left) held

  run-Answer :
      (during rows ≡ rows) ⊎ Moved key expected (during rows)
      → Answer env probe key expected rows r during checked_run
  run-Answer (inl same) = run-stores (λ e. same)
  run-Answer (inr moved) = elim (Option-cases (local_blocker env d r)) [
    | inr (code, e) ↦ run-stores (λ f. absurd (cc (e, f)))
    | inl e ↦
        let w = prepared env probe key expected rows r there during d known counted at in
        let seen = probe (view_row env d r) in
        overtaken known counted ((==_iff _ _).0 at) e moved (
          ap (λ c. c.0) (run-probed env probe key expected rows r there during d w e)
          ∙ complete-Moved env key expected (during rows) d (probe_success seen) (probe_error seen)
              known counted storable moved)
  ]

-- A health check of a row that stands once, where other sessions either leave the rows as they are
-- while the probe runs or leave the provider without a row at the expected version. An unknown
-- provider, an expected version of 0 and a version that is not the row's are refused, each with its
-- error and with the rows as they were; so is a check whose probe ran and whose version others have
-- moved meanwhile. Otherwise the check succeeds, whatever its probe does (a package error has a code
-- that may be stored): the row then holds, and the caller is shown, status `ready` exactly if no local
-- prerequisite was missing and the probe passed, the first missing prerequisite or else the probe's
-- error, and the next version; the switch and the configuration are untouched.
pub run_runtime_health_check_answers :
    (env : Env) (probe : ProviderRuntimeView → Probe) (key : String) (expected : ℕ) (rows : Rows)
    (r : ProviderRuntimeState) (during : Rows → Rows)
    → find_state key rows ≡ some r
    → count_where (has_key key) rows ≡ 1
    → ((d : ProviderRuntimeDefinition)
        → definition_of key ≡ some d
        → error_code_ok (probe_error (probe (view_row env d r))) ≡ true)
    → (during rows ≡ rows) ⊎ Moved key expected (during rows)
    → Answer env probe key expected rows r during
        (run_runtime_health_check env probe during (λ t. t) key expected rows)
run_runtime_health_check_answers env probe key expected rows r during there unique storable others =
    elim (Option-cases (definition_of key)) [
      | inl e ↦ unknown e (run-unknown env probe key expected rows r there during e)
      | inr (d, e) ↦ elim (Bool-cases (leb 1 expected)) [
        | inr k ↦ uncounted e k (run-uncounted env probe key expected rows r there during d e k)
        | inl k ↦ elim (Bool-cases (r.optimistic_version == expected)) [
          | inr m ↦ outdated e k m (run-outdated env probe key expected rows r there during d e k m)
          | inl m ↦
              run-Answer env probe key expected rows r there during unique d e k m (storable d e)
                others
        ]
      ]
    ]
