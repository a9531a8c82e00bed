-- ===== src/Runtime/Writes.antt =====
-- app/provider_runtime/service.py: what every write that takes an expected version has in common.
use nsfwtrack.Base.{
  ℕ, String, Bool, true, Option, none, some, [], ◌∷◌, ◌==◌, leb, update_where, count_where, ◌≡◌,
  refl, arith, Bool-cases, inl, inr, Option-cases, is_some, str_eq_iff, ◌⊎◌,
}
use nsfwtrack.Runtime.Contracts.{
  ProviderRuntimeDefinition, ProviderRuntimeState, Env, definition_of,
}
use nsfwtrack.Runtime.Store.{Result, ok, err, is_ok, find_state, state_for_write, sync_known_states}
use nsfwtrack.Runtime.Registry.{
  Rows, Call, at_version, written, stamped, mutate, with_state, save_configuration, set_enabled,
  complete_health_check, clear_error,
}

-- The writes that take an expected version.
pub data Change : Type 0 where
  save : String → Change
  switch : Bool → Change
  complete : Bool → Option String → Change
  clear : Change

unfoldable pub apply : Env → (Rows → Rows) → Change → String → ℕ → Rows → Call
apply env other (save profile) key expected rows =
    save_configuration env other key profile expected rows
apply env other (switch enabled) key expected rows = set_enabled env other key enabled expected rows
apply env other (complete success code) key expected rows =
    complete_health_check env other key expected success code rows
apply env other clear key expected rows = clear_error env other key expected rows

-- The rows that a write's last step leaves are those of its statement.
pub written-rows :
    (env : Env) (d : ProviderRuntimeDefinition) (key : String) (n : ℕ) (rows : Rows)
    → (written env d key n rows).1 ≡ rows
unfolding written
written-rows env d key n rows = elim (Bool-cases (n == 1)) [
  | inr e ↦ rw e refl
  | inl e ↦ elim (Option-cases (find_state key rows)) [
    | inl f ↦ rw (e, f) refl
    | inr (r, f) ↦ rw (e, f) refl
  ]
]

pub written-ok :
    (env : Env) (d : ProviderRuntimeDefinition) (key : String) (n : ℕ) (rows : Rows)
    → is_ok (written env d key n rows).0 ≡ true
    → (n ≡ 1) × (is_some (find_state key rows) ≡ true)
unfolding written
written-ok env d key n rows h = ground arith

-- `db.get(…)` gives a row with the key it was asked for.
pub find_state-key :
    (key : String) (rows : Rows) (r : ProviderRuntimeState)
    → find_state key rows ≡ some r
    → r.provider_key ≡ key
unfolding find_state
find_state-key key [] r h = ground arith
find_state-key key (x ∷ rows) r h =
    ground (arith, str_eq_iff x.provider_key key, find_state-key key rows r)

-- Where the row of a write comes from: it was there, or it has just been created.
pub state_for_write-found :
    (env : Env) (key : String) (rows : Rows) (f : ProviderRuntimeDefinition × ProviderRuntimeState)
    → (state_for_write env key rows).0 ≡ ok f
    → (definition_of key ≡ some f.0)
      × (find_state key (state_for_write env key rows).1 ≡ some f.1)
      × (((state_for_write env key rows).1 ≡ rows)
          ⊎ (find_state key rows ≡ none)
            × ((state_for_write env key rows).1 ≡ sync_known_states env rows))
unfolding state_for_write
state_for_write-found env key rows f h = ground arith

pub state_for_write-kept :
    (env : Env) (key : String) (rows : Rows) (f : ProviderRuntimeDefinition × ProviderRuntimeState)
    → (state_for_write env key rows).0 ≡ ok f
    → is_some (find_state key rows) ≡ true
    → (state_for_write env key rows).1 ≡ rows
state_for_write-kept env key rows f h there = ground (arith, state_for_write-found env key rows f h)

-- A write that succeeds ran its body on the row with the key.
pub with_state-ok :
    (env : Env) (key : String) (rows : Rows)
    (body : ProviderRuntimeDefinition → ProviderRuntimeState → Rows → Call)
    → is_ok (with_state env key rows body).0 ≡ true
    → (f : ProviderRuntimeDefinition × ProviderRuntimeState) × ((state_for_write env key rows).0
        ≡ ok f)
      × (with_state env key rows body ≡ body f.0 f.1 (state_for_write env key rows).1)
unfolding with_state
with_state-ok env key rows body h = read (state_for_write env key rows).0 refl
  where
    read :
        (g : Result (ProviderRuntimeDefinition × ProviderRuntimeState))
        → (state_for_write env key rows).0 ≡ g
        → (f : ProviderRuntimeDefinition × ProviderRuntimeState) × ((state_for_write env key rows).0
            ≡ ok f)
          × (with_state env key rows body ≡ body f.0 f.1 (state_for_write env key rows).1)
    read (err code) e = absurd (cc (rw (e, with_state, is_ok) at h))
    read (ok f) e = (f, e, rw (e, with_state) refl)

pub mutate-once :
    (env : Env) (other : Rows → Rows) (d : ProviderRuntimeDefinition) (state : ProviderRuntimeState)
    (expected : ℕ) (b : Bool) (values : ProviderRuntimeState → ProviderRuntimeState) (rows : Rows)
    → is_ok (mutate env other d state expected b values rows).0 ≡ true
    → (leb 1 expected ≡ true)
      × (count_where (at_version state.provider_key expected) (other rows) ≡ 1)
      × ((mutate env other d state expected b values rows).1
          ≡ update_where
              (at_version state.provider_key expected)
              (stamped env expected state b values)
              (other rows))
      × (is_some (find_state state.provider_key (mutate env other d state expected b values rows).1)
          ≡ true)
unfolding mutate
mutate-once env other d state expected b values rows h = elim (Bool-cases (leb 1 expected)) [
  | inr e ↦ absurd (cc (rw e at h))
  | inl e ↦
      let p = at_version state.provider_key expected in
      let n = count_where p (other rows) in
      let found = update_where p (stamped env expected state b values) (other rows) in
      let w = written-ok env d state.provider_key n found (rw e at h) in
      rw (e, written-rows env d state.provider_key n found) (refl, w.0, refl, w.1)
]
