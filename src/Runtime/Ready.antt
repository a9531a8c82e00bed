-- ===== src/Runtime/Ready.antt =====
-- app/provider_runtime: who enters the production catalog.
use nsfwtrack.Base.{
  String, Bool, true, false, ◌&&◌, Option, none, some, List, [], ◌∷◌, str_eq, ◌≡◌, refl, sym, ap,
  ◌∙◌, arith, Bool-cases, Option-cases, inl, inr, str_eq_iff, member, map, filter, any, ◌↔◌, find,
}
use nsfwtrack.Runtime.Contracts.{
  ProviderRuntimeDefinition, ProviderRuntimeState, Env, definition_of, provider_definitions,
  production, ready, valid, available, egress_profile_supported, local_session_status, is_ready,
  Scope, RuntimeStatus, ConfigurationStatus, SessionStatus, is_valid, is_available, is_production,
}
use nsfwtrack.Runtime.Store.{
  ProviderRuntimeView, find_state, view, view_row, default_state, list_views, local_runtime_ready,
  in_production_catalog, effective_session_status, is_past,
}
use nsfwtrack.Runtime.Registry.{Rows}
use nsfwtrack.Runtime.Catalog.{enabled_ready_keys}

-- The keys of the views that pass a test, searched one by one.
member-keys :
    (key : String) (p : ProviderRuntimeView → Bool)
    (f : ProviderRuntimeDefinition → ProviderRuntimeView) (ds : List ProviderRuntimeDefinition)
    → ((d : ProviderRuntimeDefinition) → (f d).provider_key ≡ d.provider_key)
    → member key (map (λ v. v.provider_key) (filter p (map f ds)))
      ≡ any (λ d. p (f d) && str_eq key d.provider_key) ds
member-keys key p f [] h = refl
member-keys key p f (d ∷ ds) h = elim (Bool-cases (p (f d))) [
  | inl e ↦ rw (e, h d, member-keys key p f ds h) refl
  | inr e ↦ rw (e, member-keys key p f ds h) refl
]

view-key :
    (env : Env) (d : ProviderRuntimeDefinition) (o : Option ProviderRuntimeState)
    → (view env d o).provider_key ≡ d.provider_key
unfolding view view_row default_state
view-key env d none = refl
view-key env d (some r) = refl

abbrev of_definition : (ProviderRuntimeDefinition → Bool) → Option ProviderRuntimeDefinition → Bool
of_definition p none = false
of_definition p (some d) = p d

str_eq-sym : (a b : String) → str_eq a b ≡ str_eq b a
str_eq-sym a b = ground (arith, str_eq_iff a b, str_eq_iff b a)

-- Keys are distinct, so that a search by key and test finds what the lookup gives.
find-any :
    (key : String) (p : ProviderRuntimeDefinition → Bool)
    → any (λ d. p d && str_eq key d.provider_key) provider_definitions
      ≡ of_definition p (definition_of key)
unfolding definition_of
find-any key p = elim (Bool-cases (str_eq key "javdb_metadata")) [
  | inl e ↦ rw ((str_eq_iff _ _).0 e) (ground arith)
  | inr e ↦ elim (Bool-cases (str_eq key "zuidapi_vod")) [
    | inl f ↦ rw ((str_eq_iff _ _).0 f) (ground arith)
    | inr f ↦ elim (Bool-cases (str_eq key "copymanga")) [
      | inl g ↦ rw ((str_eq_iff _ _).0 g) (ground arith)
      | inr g ↦ elim (Bool-cases (str_eq key "jiuse_vod")) [
        | inl h ↦ rw ((str_eq_iff _ _).0 h) (ground arith)
        | inr h ↦ elim (Bool-cases (str_eq key "comic_local_fixture")) [
          | inl k ↦ rw ((str_eq_iff _ _).0 k) (ground arith)
          | inr k ↦ ground (
            arith,
            str_eq-sym key "javdb_metadata",
            str_eq-sym key "zuidapi_vod",
            str_eq-sym key "copymanga",
            str_eq-sym key "jiuse_vod",
            str_eq-sym key "comic_local_fixture",
          )
        ]
      ]
    ]
  ]
]

-- Whether `get` shows a provider that can be searched.
abbrev pub searchable : Env → Rows → ProviderRuntimeDefinition → Bool
searchable env rows d = in_production_catalog (view env d (find_state d.provider_key rows))

pub enabled_ready_keys-get :
    (env : Env) (key : String) (rows : Rows)
    → member key (enabled_ready_keys env rows)
      ≡ of_definition (searchable env rows) (definition_of key)
unfolding enabled_ready_keys list_views
enabled_ready_keys-get env key rows =
    member-keys key in_production_catalog (λ d. view env d (find_state d.provider_key rows))
      provider_definitions (λ d. view-key env d (find_state d.provider_key rows))
    ∙ find-any key (searchable env rows)

-- What the catalog asks of a provider and of its row.
pub record Usable (env : Env) (d : ProviderRuntimeDefinition) (r : ProviderRuntimeState)
    : Type 0 where
  pub reviewed : (d.manageable ≡ true) × (d.scope ≡ production)
  pub switched_on : r.enabled ≡ true
  pub proved : r.runtime_status ≡ ready
  pub configured :
      (r.configuration_status ≡ valid) × (egress_profile_supported r.egress_profile ≡ true)
  pub session :
      d.cookie_required ≡ true
      → (local_session_status env d ≡ available)
        × (r.session_status ≡ available)
        × (is_past env r.session_expires_at ≡ false)

is_ready-eq : (s : RuntimeStatus) → is_ready s ≡ true → s ≡ ready
is_ready-eq s h = ground arith

is_valid-eq : (s : ConfigurationStatus) → is_valid s ≡ true → s ≡ valid
is_valid-eq s h = ground arith

is_available-eq : (s : SessionStatus) → is_available s ≡ true → s ≡ available
is_available-eq s h = ground arith

is_production-eq : (s : Scope) → is_production s ≡ true → s ≡ production
is_production-eq s h = ground arith

session-available :
    (env : Env) (d : ProviderRuntimeDefinition) (r : ProviderRuntimeState)
    → d.cookie_required ≡ true
    → is_available (effective_session_status env d r) ≡ true
    → (is_available (local_session_status env d) ≡ true)
      × (is_available r.session_status ≡ true)
      × (is_past env r.session_expires_at ≡ false)
unfolding effective_session_status
session-available env d r c h = ground arith

catalog-tests :
    (env : Env) (d : ProviderRuntimeDefinition) (r : ProviderRuntimeState)
    → in_production_catalog (view_row env d r) ≡ true
    → (d.manageable ≡ true)
      × (is_production d.scope ≡ true)
      × (r.enabled ≡ true)
      × (is_ready r.runtime_status ≡ true)
      × (is_valid r.configuration_status ≡ true)
      × (egress_profile_supported r.egress_profile ≡ true)
      × (d.cookie_required ≡ true → is_available (effective_session_status env d r) ≡ true)
unfolding in_production_catalog local_runtime_ready view_row
catalog-tests env d r h = ground arith

catalog-Usable :
    (env : Env) (d : ProviderRuntimeDefinition) (r : ProviderRuntimeState)
    → in_production_catalog (view_row env d r) ≡ true
    → Usable env d r
catalog-Usable env d r h =
    let t = catalog-tests env d r h in
    record {
      reviewed = (t.0, is_production-eq _ t.1);
      switched_on = t.2;
      proved = is_ready-eq _ t.3;
      configured = (is_valid-eq _ t.4, t.5);
      session = λ c.
          let s = session-available env d r c (t.6 c) in
          (is_available-eq _ s.0, is_available-eq _ s.1, s.2);
    }

Usable-catalog :
    (env : Env) (d : ProviderRuntimeDefinition) (r : ProviderRuntimeState)
    → Usable env d r
    → in_production_catalog (view_row env d r) ≡ true
unfolding in_production_catalog local_runtime_ready view_row effective_session_status
Usable-catalog env d r u =
    ground (arith, u.reviewed, u.switched_on, u.proved, u.configured, u.session)

definition_of-key :
    (key : String) (d : ProviderRuntimeDefinition)
    → definition_of key ≡ some d
    → d.provider_key ≡ key
unfolding definition_of
definition_of-key key d h = find-key provider_definitions h
  where
    find-key :
        (ds : List ProviderRuntimeDefinition)
        → find (λ e. str_eq e.provider_key key) ds ≡ some d
        → d.provider_key ≡ key
    find-key [] h = absurd (cc)
    find-key (x ∷ ds) h = ground (arith, str_eq_iff x.provider_key key, find-key ds)

view-none :
    (env : Env) (d : ProviderRuntimeDefinition) → in_production_catalog (view env d none) ≡ false
unfolding in_production_catalog local_runtime_ready view default_state
view-none env d = ground arith

view-some :
    (env : Env) (d : ProviderRuntimeDefinition) (r : ProviderRuntimeState)
    → view env d (some r) ≡ view_row env d r
unfolding view
view-some env d r = refl

-- The row behind a provider of the catalog.
abbrev pub Listed : Env → Rows → String → Type 0
Listed env rows key =
    (d : ProviderRuntimeDefinition) × (r : ProviderRuntimeState) × (definition_of key ≡ some d)
    × (find_state key rows ≡ some r)
    × Usable env d r

searchable-at :
    (env : Env) (key : String) (rows : Rows) (d : ProviderRuntimeDefinition)
    → definition_of key ≡ some d
    → searchable env rows d ≡ in_production_catalog (view env d (find_state key rows))
searchable-at env key rows d e =
    ap (λ k. in_production_catalog (view env d (find_state k rows))) (definition_of-key key d e)

searchable-Listed :
    (env : Env) (key : String) (rows : Rows) (d : ProviderRuntimeDefinition)
    → definition_of key ≡ some d
    → in_production_catalog (view env d (find_state key rows)) ≡ true
    → Listed env rows key
searchable-Listed env key rows d e h = elim (Option-cases (find_state key rows)) [
  | inl f ↦ absurd (ground (arith, view-none env d, rw f at h))
  | inr (r, f) ↦
      let shown = rw (f, view-some env d r) at h in (d, r, e, f, catalog-Usable env d r shown)
]

-- The production catalog holds exactly the providers with a code-owned definition that is manageable
-- and of scope PRODUCTION, and with a row that is enabled, ready and validly configured for a
-- supported egress profile; where the provider needs a cookie, the loader must give one now, the row
-- must say that it is available, and its session must not have expired.
pub enabled_ready_keys_iff :
    (env : Env) (key : String) (rows : Rows)
    → (member key (enabled_ready_keys env rows) ≡ true) ↔ Listed env rows key
enabled_ready_keys_iff env key rows =
    (λ h. forth (sym (enabled_ready_keys-get env key rows) ∙ h), back)
  where
    forth : of_definition (searchable env rows) (definition_of key) ≡ true → Listed env rows key
    forth h = elim (Option-cases (definition_of key)) [
      | inl e ↦ absurd (ground (arith, rw e at h))
      | inr (d, e) ↦
          searchable-Listed env key rows d e (sym (searchable-at env key rows d e) ∙ (rw e at h))
    ]

    back : Listed env rows key → member key (enabled_ready_keys env rows) ≡ true
    back (d, r, e, f, u) =
        enabled_ready_keys-get env key rows
        ∙ ap (of_definition (searchable env rows)) e
        ∙ searchable-at env key rows d e
        ∙ ap (λ o. in_production_catalog (view env d o)) f
        ∙ ap in_production_catalog (view-some env d r)
        ∙ Usable-catalog env d r u
