-- ===== src/Runtime/Catalog.antt =====
-- app/provider_runtime/service.py, `enabled_ready_keys`, and app/provider_runtime/catalog.py, the
-- catalog and the health check. A provider's package and its probe come from a factory, which is a
-- parameter.
use nsfwtrack.Base.{
  ℕ, String, Bool, true, false, ◌&&◌, not, Option, none, some, List, [], ◌∷◌, map, filter, ◌||◌,
  ltb, ◌==◌, codes, if◌then◌else◌,
}
use nsfwtrack.Runtime.Contracts.{Env, is_ready}
use nsfwtrack.Runtime.Store.{
  ProviderRuntimeView, ok, err, list_views, local_runtime_ready, in_production_catalog,
}
use nsfwtrack.Runtime.Registry.{Rows, Call, prepare_health_check, complete_health_check}

unfoldable pub enabled_ready_keys : Env → Rows → List String
unfolding in_production_catalog list_views
enabled_ready_keys env rows =
    map (λ v. v.provider_key) (filter in_production_catalog (list_views env rows))

pub record RuntimeCatalogSnapshot (P : Type 0) : Type 0 where
  pub packages : List P
  pub excluded : List String

-- `view.local_runtime_ready` and `view.runtime_status == "ready"`, and then the package, if any.
unfoldable pub package_of :
    {P : Type 0} → (ProviderRuntimeView → Option P) → ProviderRuntimeView → Option P
package_of factory v =
    if not (local_runtime_ready v)
    then none
    else if not (is_ready v.runtime_status)
    then none
    else factory v

-- The loop of `build_runtime_catalog`: the packages with their keys, and the keys left out.
-- `factory` gives none where the factory raises.
unfoldable pub collect :
    {P : Type 0}
    → (ProviderRuntimeView → Option P)
    → List ProviderRuntimeView
    → List (String × P) × List String
collect factory [] = ([], [])
collect factory (v ∷ views) =
    let (packages, excluded) = collect factory views in
    elim (package_of factory v) [
      | some made ↦ ((v.provider_key, made) ∷ packages, excluded)
      | none ↦ (packages, v.provider_key ∷ excluded)
    ]

-- The order of texts by code points.
abbrev pub codes_leb : List ℕ → List ℕ → Bool
codes_leb [] bs = true
codes_leb (a ∷ s) [] = false
codes_leb (a ∷ s) (b ∷ t) = ltb a b || a == b && codes_leb s t

-- A stable sort by key.
unfoldable pub insert_by : {A : Type 0} → (A → String) → A → List A → List A
insert_by key x [] = x ∷ []
insert_by key x (y ∷ ys) =
    let rest = insert_by key x ys in
    if codes_leb (codes (key x)) (codes (key y)) then x ∷ y ∷ ys else y ∷ rest

unfoldable pub sort_by : {A : Type 0} → (A → String) → List A → List A
unfolding insert_by
sort_by key [] = []
sort_by key (x ∷ xs) = insert_by key x (sort_by key xs)

unfoldable pub build_runtime_catalog :
    {P : Type 0} → Env → (ProviderRuntimeView → Option P) → Rows → RuntimeCatalogSnapshot P
unfolding collect sort_by
build_runtime_catalog env factory rows =
    let found = collect factory (list_views env rows) in
    record {
      packages = map (λ p. p.1) (sort_by (λ p. p.0) found.0);
      excluded = sort_by (λ k. k) found.1;
    }

-- How the package's making and its probe end.
pub data Probe : Type 0 where
  passed : Probe
  catalog_error : String → Probe
  timed_out : Probe
  raised : Probe

abbrev pub probe_success : Probe → Bool
probe_success passed = true
probe_success _ = false

abbrev pub probe_error : Probe → Option String
probe_error passed = none
probe_error (catalog_error code) = some code
probe_error timed_out = some "runtime_timeout"
probe_error raised = some "runtime_probe_failed"

-- `run_runtime_health_check`: `during` is what other sessions commit while the probe runs.
unfoldable pub run_runtime_health_check :
    Env → (ProviderRuntimeView → Probe) → (Rows → Rows) → (Rows → Rows) → String → ℕ → Rows → Call
run_runtime_health_check env probe during other key expected rows =
    let rows' = (prepare_health_check env key expected rows).1 in
    elim (prepare_health_check env key expected rows).0 [
      | err code ↦ (err code, rows')
      | ok plan ↦ elim plan.blocker_code [
        | some code ↦
            complete_health_check env other key plan.expected_version false (some code) rows'
        | none ↦
            let seen = probe plan.provider in
            let later = during rows' in
            complete_health_check env other key plan.expected_version (probe_success seen)
              (probe_error seen) later
      ]
    ]
