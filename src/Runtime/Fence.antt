-- ===== src/Runtime/Fence.antt =====
-- app/provider_runtime/service.py, `_mutate`: the version fence of every write that takes an
-- expected version, under any interference between the row's read and the statement.
use nsfwtrack.Base.{
  ℕ, String, Bool, true, false, not, [], ◌∷◌, leb, if◌then◌else◌, update_where, count_where, ◌≡◌,
  refl, arith, Bool-cases, inl, inr, is_some,
}
use nsfwtrack.Runtime.Contracts.{
  ProviderRuntimeDefinition, ProviderRuntimeState, Env, ProviderRuntimeErrorCode,
  egress_profile_supported, fixture_provider, invalid_egress_profile, invalid_request,
}
use nsfwtrack.Runtime.Store.{err, is_ok, find_state, state_for_write}
use nsfwtrack.Runtime.Registry.{
  Rows, Call, at_version, stamped, mutate, with_state, save_configuration, set_enabled,
  complete_health_check, clear_error, error_code_ok,
}
use nsfwtrack.Runtime.Writes.{
  Change, apply, find_state-key, state_for_write-found, state_for_write-kept, with_state-ok,
  mutate-once, save, switch, complete, clear,
}

count-updated :
    (key : String) (expected : ℕ) (f : ProviderRuntimeState → ProviderRuntimeState) (rows : Rows)
    (q : ProviderRuntimeState → Bool)
    → ((r : ProviderRuntimeState) → at_version key expected (f r) ≡ false)
    → ((r : ProviderRuntimeState) → q r ≡ false → at_version key expected r ≡ false)
    → count_where (at_version key expected) (update_where q f rows) ≡ 0
count-updated key expected f [] q h k = refl
count-updated key expected f (x ∷ rows) q h k = elim (Bool-cases (q x)) [
  | inl e ↦ rw (e, h x) (omega (arith, count-updated key expected f rows q h k))
  | inr e ↦ rw (e, k x e) (omega (arith, count-updated key expected f rows q h k))
]

-- A call that succeeds leaves no row with the key at the version it expected.
abbrev pub Spent : String → ℕ → Call → Type 0
Spent key expected c =
    is_ok c.0 ≡ true
    → (leb 1 expected ≡ true)
      × (count_where (at_version key expected) c.1 ≡ 0)
      × (is_some (find_state key c.1) ≡ true)

pub mutate-Spent :
    (env : Env) (other : Rows → Rows) (d : ProviderRuntimeDefinition) (state : ProviderRuntimeState)
    (expected : ℕ) (b : Bool) (values : ProviderRuntimeState → ProviderRuntimeState) (rows : Rows)
    → Spent state.provider_key expected (mutate env other d state expected b values rows)
unfolding stamped
mutate-Spent env other d state expected b values rows h =
    let once = mutate-once env other d state expected b values rows h in
    let key = state.provider_key in
    let gone =
      count-updated key expected (stamped env expected state b values) (other rows)
        (at_version key expected) (λ r. ground arith) (λ r e. e) in
    (once.0, rw once.2 gone, once.3)

with_state-Spent :
    (env : Env) (key : String) (expected : ℕ) (rows : Rows)
    (body : ProviderRuntimeDefinition → ProviderRuntimeState → Rows → Call)
    → ((d : ProviderRuntimeDefinition) (state : ProviderRuntimeState) (rows' : Rows)
        → Spent state.provider_key expected (body d state rows'))
    → Spent key expected (with_state env key rows body)
with_state-Spent env key expected rows body k h =
    let ran = with_state-ok env key rows body h in
    let found = state_for_write-found env key rows ran.0 ran.1 in
    let same = find_state-key key (state_for_write env key rows).1 ran.0.1 found.1 in
    let spent = k ran.0.0 ran.0.1 (state_for_write env key rows).1 (rw ran.2 at h) in
    rw ran.2 (rw same at spent)

-- A guard in front of a body, and a refusal.
if-Spent :
    (key : String) (expected : ℕ) (b : Bool) (c c' : Call)
    → Spent key expected c
    → Spent key expected c'
    → Spent key expected (if b then c else c')
if-Spent key expected true c c' h k = h
if-Spent key expected false c c' h k = k

err-Spent :
    (key : String) (expected : ℕ) (code : ProviderRuntimeErrorCode) (rows : Rows)
    → Spent key expected (err code, rows)
err-Spent key expected code rows h = absurd (cc)

pub apply-Spent :
    (env : Env) (other : Rows → Rows) (c : Change) (key : String) (expected : ℕ) (rows : Rows)
    → Spent key expected (apply env other c key expected rows)
unfolding apply save_configuration set_enabled complete_health_check clear_error
apply-Spent env other (save profile) key expected rows =
    with_state-Spent env key expected rows _ (λ d state rows'.
      if-Spent _ _ (not d.manageable) _ _ (err-Spent _ _ fixture_provider _) (
        if-Spent _ _ (not (egress_profile_supported profile)) _ _
          (err-Spent _ _ invalid_egress_profile _)
          (mutate-Spent env other d state expected true _ rows')))
apply-Spent env other (switch enabled) key expected rows =
    with_state-Spent env key expected rows _ (λ d state rows'.
      if-Spent _ _ (not d.manageable) _ _ (err-Spent _ _ fixture_provider _)
        (mutate-Spent env other d state expected false _ rows'))
apply-Spent env other (complete success code) key expected rows =
    with_state-Spent env key expected rows _ (λ d state rows'.
      if-Spent _ _ (not (error_code_ok code)) _ _ (err-Spent _ _ invalid_request _)
        (mutate-Spent env other d state expected false _ rows'))
apply-Spent env other clear key expected rows =
    with_state-Spent env key expected rows _
      (λ d state rows'. mutate-Spent env other d state expected false _ rows')

-- A call that succeeds found one row with the key at the version it expected when its statement ran.
abbrev pub Found : (Rows → Rows) → String → ℕ → Rows → Call → Type 0
Found other key expected rows c =
    is_ok c.0 ≡ true → count_where (at_version key expected) (other rows) ≡ 1

mutate-Found :
    (env : Env) (other : Rows → Rows) (d : ProviderRuntimeDefinition) (state : ProviderRuntimeState)
    (expected : ℕ) (b : Bool) (values : ProviderRuntimeState → ProviderRuntimeState) (rows : Rows)
    → Found other state.provider_key expected rows (mutate env other d state expected b values rows)
mutate-Found env other d state expected b values rows h =
    (mutate-once env other d state expected b values rows h).1

with_state-Found :
    (env : Env) (other : Rows → Rows) (key : String) (expected : ℕ) (rows : Rows)
    (body : ProviderRuntimeDefinition → ProviderRuntimeState → Rows → Call)
    → is_some (find_state key rows) ≡ true
    → ((d : ProviderRuntimeDefinition) (state : ProviderRuntimeState)
        → Found other state.provider_key expected rows (body d state rows))
    → Found other key expected rows (with_state env key rows body)
with_state-Found env other key expected rows body there k h =
    let ran = with_state-ok env key rows body h in
    let found = state_for_write-found env key rows ran.0 ran.1 in
    let kept = state_for_write-kept env key rows ran.0 ran.1 there in
    let same = find_state-key key (state_for_write env key rows).1 ran.0.1 found.1 in
    let one = k ran.0.0 ran.0.1 (rw (ran.2, kept) at h) in rw same at one

if-Found :
    (other : Rows → Rows) (key : String) (expected : ℕ) (rows : Rows) (b : Bool)
    (code : ProviderRuntimeErrorCode) (rows' : Rows) (c : Call)
    → Found other key expected rows c
    → Found other key expected rows (if b then (err code, rows') else c)
if-Found other key expected rows true code rows' c h k = absurd (cc)
if-Found other key expected rows false code rows' c h k = h k

apply-Found :
    (env : Env) (other : Rows → Rows) (c : Change) (key : String) (expected : ℕ) (rows : Rows)
    → is_some (find_state key rows) ≡ true
    → Found other key expected rows (apply env other c key expected rows)
unfolding apply save_configuration set_enabled complete_health_check clear_error
apply-Found env other (save profile) key expected rows there =
    with_state-Found env other key expected rows _ there (λ d state.
      if-Found other _ _ rows (not d.manageable) fixture_provider _ _ (
        if-Found other _ _ rows (not (egress_profile_supported profile)) invalid_egress_profile _ _
          (mutate-Found env other d state expected true _ rows)))
apply-Found env other (switch enabled) key expected rows there =
    with_state-Found env other key expected rows _ there (λ d state.
      if-Found other _ _ rows (not d.manageable) fixture_provider _ _
        (mutate-Found env other d state expected false _ rows))
apply-Found env other (complete success code) key expected rows there =
    with_state-Found env other key expected rows _ there (λ d state.
      if-Found other _ _ rows (not (error_code_ok code)) invalid_request _ _
        (mutate-Found env other d state expected false _ rows))
apply-Found env other clear key expected rows there =
    with_state-Found env other key expected rows _ there
      (λ d state. mutate-Found env other d state expected false _ rows)

-- Of two writes of one provider that expect the same version, at most one succeeds. The first is any
-- write that succeeded, whatever other sessions committed before its statement. The second may have
-- read any tables in which the provider has a row, those that the first read among them; its
-- statement runs on what the first has left and other sessions have made of that. It is refused,
-- provided that those bring no row back to the expected version.
pub apply_race :
    (env env' : Env) (other between : Rows → Rows) (c c' : Change) (key : String) (expected : ℕ)
    (rows seen : Rows)
    → is_ok (apply env other c key expected rows).0 ≡ true
    → is_some (find_state key seen) ≡ true
    → ((rows' : Rows)
        → count_where (at_version key expected) rows' ≡ 0
        → count_where (at_version key expected) (between rows') ≡ 0)
    → is_ok
        (apply env' (λ _. between (apply env other c key expected rows).1) c' key expected seen).0
      ≡ false
apply_race env env' other between c c' key expected rows seen h there keeps =
    let found : Rows → Rows = λ _. between (apply env other c key expected rows).1 in
    elim (Bool-cases (is_ok (apply env' found c' key expected seen).0)) [
      | inr e ↦ e
      | inl e ↦
          let one = apply-Found env' found c' key expected seen there e in
          let spent = apply-Spent env other c key expected rows h in
          absurd (omega (arith, one, keeps (apply env other c key expected rows).1 spent.1))
    ]
