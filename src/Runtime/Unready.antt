-- ===== src/Runtime/Unready.antt =====
-- app/provider_runtime/service.py: the writes that take a provider out of the production catalog.
use nsfwtrack.Base.{
  ℕ, String, Bool, true, false, not, Option, some, [], ◌∷◌, if◌then◌else◌, update_where,
  count_where, ◌≡◌, refl, sym, ap, ◌∙◌, arith, Bool-cases, inl, inr, is_some, member, str_eq,
}
use mathlib.Core.Option.{some-injective}
use nsfwtrack.Runtime.Contracts.{
  ProviderRuntimeErrorCode, ProviderRuntimeDefinition, ProviderRuntimeState, Env, is_ready,
  egress_profile_supported, fixture_provider, invalid_egress_profile, invalid_request,
}
use nsfwtrack.Runtime.Store.{err, is_ok, has_key, find_state, state_for_write}
use nsfwtrack.Runtime.Registry.{
  Rows, Call, at_version, stamped, mutate, with_state, save_configuration, set_enabled,
  complete_health_check, clear_error, checked, error_code_ok, health_status, final_error,
  local_blocker, unproved,
}
use nsfwtrack.Runtime.Catalog.{enabled_ready_keys}
use nsfwtrack.Runtime.Writes.{
  Change, save, switch, complete, clear, apply, with_state-ok, state_for_write-found,
  state_for_write-kept, find_state-key, mutate-once,
}
use nsfwtrack.Runtime.Rows.{none-at}
use nsfwtrack.Runtime.Ready.{enabled_ready_keys_iff}

find-later :
    (key : String) (v : ℕ) (f : ProviderRuntimeState → ProviderRuntimeState)
    (x : ProviderRuntimeState) (rows : Rows) (r : ProviderRuntimeState)
    → has_key key x ≡ false
    → find_state key (update_where (at_version key v) f rows) ≡ some r
    → find_state key (update_where (at_version key v) f (x ∷ rows)) ≡ some r
unfolding find_state
find-later key v f x rows r n h = rw (n, n) h

-- The statement's one row is the one that is read back.
find-set :
    (key : String) (v : ℕ) (f : ProviderRuntimeState → ProviderRuntimeState) (rows : Rows)
    → count_where (at_version key v) rows ≡ 1
    → count_where (has_key key) rows ≡ 1
    → ((x : ProviderRuntimeState) → (f x).provider_key ≡ x.provider_key)
    → (x : ProviderRuntimeState) × (find_state key (update_where (at_version key v) f rows)
        ≡ some (f x))
unfolding find_state
find-set key v f [] one unique keeps = absurd (omega (arith, one))
find-set key v f (x ∷ rows) one unique keeps = elim (Bool-cases (has_key key x)) [
  | inl y ↦
      let rest = none-at key v rows (omega (arith, rw y at unique)) in
      let there : at_version key v x ≡ true = ground (arith) in
      (x, rw (there, ap (λ s. str_eq s key) (keeps x) ∙ y) refl)
  | inr n ↦
      let found =
        find-set key v f rows (omega (arith, rw n at one)) (omega (arith, rw n at unique)) keeps in
      (found.0, find-later key v f x rows (f found.0) n found.1)
]

-- The row that is read back after a call that succeeds is not ready.
abbrev pub Unready : (Rows → Rows) → String → Rows → Call → Type 0
Unready other key rows c =
    is_ok c.0 ≡ true
    → count_where (has_key key) (other rows) ≡ 1
    → (r : ProviderRuntimeState) × (find_state key c.1 ≡ some r)
      × (is_ready r.runtime_status ≡ false)

mutate-Unready :
    (env : Env) (other : Rows → Rows) (d : ProviderRuntimeDefinition) (state : ProviderRuntimeState)
    (expected : ℕ) (b : Bool) (values : ProviderRuntimeState → ProviderRuntimeState) (rows : Rows)
    → ((x : ProviderRuntimeState) → (values x).provider_key ≡ x.provider_key)
    → ((x : ProviderRuntimeState) → is_ready (values x).runtime_status ≡ false)
    → Unready other state.provider_key rows (mutate env other d state expected b values rows)
unfolding stamped
mutate-Unready env other d state expected b values rows keeps off h unique =
    let once = mutate-once env other d state expected b values rows h in
    let set = stamped env expected state b values in
    let found = find-set state.provider_key expected set (other rows) once.1 unique keeps in
    (set found.0, rw once.2 found.1, off found.0)

with_state-Unready :
    (env : Env) (other : Rows → Rows) (key : String) (rows : Rows)
    (body : ProviderRuntimeDefinition → ProviderRuntimeState → Rows → Call)
    → is_some (find_state key rows) ≡ true
    → ((d : ProviderRuntimeDefinition) (state : ProviderRuntimeState)
        → Unready other state.provider_key rows (body d state rows))
    → Unready other key rows (with_state env key rows body)
with_state-Unready env other key rows body there k h unique =
    let ran = with_state-ok env key rows body h in
    let found = state_for_write-found env key rows ran.0 ran.1 in
    let kept = state_for_write-kept env key rows ran.0 ran.1 there in
    let same = find_state-key key (state_for_write env key rows).1 ran.0.1 found.1 in
    let off = k ran.0.0 ran.0.1 (rw (ran.2, kept) at h) in
    let off' = rw same at off in rw (ran.2, kept) (off' unique)

if-Unready :
    (other : Rows → Rows) (key : String) (rows : Rows) (b : Bool) (code : ProviderRuntimeErrorCode)
    (rows' : Rows) (c : Call)
    → Unready other key rows c
    → Unready other key rows (if b then (err code, rows') else c)
if-Unready other key rows true code rows' c h k = absurd (cc)
if-Unready other key rows false code rows' c h k = h k

-- Every change but a health check that passed.
abbrev pub unproving : Change → Bool
unproving (complete true _) = false
unproving _ = true

failed-final :
    (blocker code : Option String)
    → is_ready (health_status (final_error false blocker code)) ≡ false
unfolding final_error health_status
failed-final blocker code = ground arith

unproved-off : (b : Bool) → is_ready (unproved b) ≡ false
unproved-off true = refl
unproved-off false = refl

apply-Unready :
    (env : Env) (other : Rows → Rows) (c : Change) (key : String) (expected : ℕ) (rows : Rows)
    → unproving c ≡ true
    → is_some (find_state key rows) ≡ true
    → Unready other key rows (apply env other c key expected rows)
unfolding apply save_configuration set_enabled complete_health_check clear_error checked
apply-Unready env other (save profile) key expected rows u there =
    with_state-Unready env other key rows _ there (λ d state.
      if-Unready other _ rows (not d.manageable) fixture_provider _ _ (
        if-Unready other _ rows (not (egress_profile_supported profile)) invalid_egress_profile _ _
          (mutate-Unready env other d state expected true _ rows (λ x. refl)
            (λ x. unproved-off state.enabled))))
apply-Unready env other (switch enabled) key expected rows u there =
    with_state-Unready env other key rows _ there (λ d state.
      if-Unready other _ rows (not d.manageable) fixture_provider _ _ (
        mutate-Unready env other d state expected false _ rows (λ x. refl)
          (λ x. unproved-off enabled)))
apply-Unready env other (complete true code) key expected rows u there = absurd (cc)
apply-Unready env other (complete false code) key expected rows u there =
    with_state-Unready env other key rows _ there (λ d state.
      if-Unready other _ rows (not (error_code_ok code)) invalid_request _ _ (
        mutate-Unready env other d state expected false _ rows (λ x. refl)
          (λ x. failed-final (local_blocker env d state) code)))
apply-Unready env other clear key expected rows u there =
    with_state-Unready env other key rows _ there (λ d state.
      mutate-Unready env other d state expected false _ rows (λ x. refl)
        (λ x. unproved-off state.enabled))

-- A configuration that is saved, a switch in either direction, an error that is cleared and a health
-- check that failed take a stored provider out of the production catalog at once, whatever other
-- sessions commit before the statement, if its key stands in one row when the statement runs: the
-- provider is then not in the catalog, at any time and for any cookie.
pub apply_unready :
    (env env' : Env) (other : Rows → Rows) (c : Change) (key : String) (expected : ℕ) (rows : Rows)
    → unproving c ≡ true
    → is_some (find_state key rows) ≡ true
    → count_where (has_key key) (other rows) ≡ 1
    → is_ok (apply env other c key expected rows).0 ≡ true
    → member key (enabled_ready_keys env' (apply env other c key expected rows).1) ≡ false
apply_unready env env' other c key expected rows u there unique h =
    let rows' = (apply env other c key expected rows).1 in
    let (r, found, off) = apply-Unready env other c key expected rows u there h unique in
    elim (Bool-cases (member key (enabled_ready_keys env' rows'))) [
      | inr e ↦ e
      | inl e ↦
          let (d, r', known, found', usable) = (enabled_ready_keys_iff env' key rows').0 e in
          let same = some-injective r' r (sym found' ∙ found) in
          let on = ap (λ t. is_ready t.runtime_status) same in
          absurd (ground (arith, usable.proved, on, off))
    ]
