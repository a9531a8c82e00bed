-- ===== src/Runtime/Sync.antt =====
-- app/provider_runtime/service.py, `sync_known_states`.
use nsfwtrack.Base.{
  Bool, true, ◌||◌, not, List, [], ◌∷◌, ◌++◌, map, filter, any, All, ◌≡◌, refl, arith, Bool-cases,
  inl, inr, String, ap, ◌∙◌, ◌&&◌, take, length,
}
use nsfwtrack.Runtime.Contracts.{ProviderRuntimeDefinition, Env, provider_definitions}
use nsfwtrack.Runtime.Store.{has_key, new_state, missing_definitions, sync_known_states}
use nsfwtrack.Runtime.Registry.{Rows}

any-append : {A : Type 0} (p : A → Bool) (xs ys : List A) → any p (xs ++ ys) ≡ any p xs || any p ys
any-append p [] ys = refl
any-append p (x ∷ xs) ys = ground (arith, any-append p xs ys)

-- Every code-owned key has a row.
abbrev pub Complete : Rows → Type 0
Complete rows =
    All (λ (d : ProviderRuntimeDefinition). any (has_key d.provider_key) rows ≡ true)
      provider_definitions

take-append : {A : Type 0} (xs ys : List A) → take (length xs) (xs ++ ys) ≡ xs
take-append [] [] = refl
take-append [] (y ∷ ys) = refl
take-append (x ∷ xs) ys = ap (λ t. x ∷ t) (take-append xs ys)

any-filter :
    {A B : Type 0} (p : B → Bool) (f : A → B) (q : A → Bool) (xs : List A)
    → any p (map f (filter q xs)) ≡ any (λ x. q x && p (f x)) xs
any-filter p f q [] = refl
any-filter p f q (x ∷ xs) = elim (Bool-cases (q x)) [
  | inl e ↦ rw (e, any-filter p f q xs) refl
  | inr e ↦ rw (e, any-filter p f q xs) refl
]

-- A key has a row after the call if it had one or a definition without a row has the key.
synced :
    (env : Env) (rows : Rows) (key : String)
    → any (has_key key) (sync_known_states env rows)
      ≡ any (has_key key) rows
        || any
            (λ d. not (any (has_key d.provider_key) rows) && has_key key (new_state env d))
            provider_definitions
unfolding sync_known_states missing_definitions
synced env rows key =
    let added = map (new_state env) (missing_definitions rows) in
    any-append (has_key key) rows added
    ∙ ap (λ b. any (has_key key) rows || b)
        (any-filter (has_key key) (new_state env) (λ d. not (any (has_key d.provider_key) rows))
          provider_definitions)

sync_known_states-Complete : (env : Env) (rows : Rows) → Complete (sync_known_states env rows)
unfolding new_state
sync_known_states-Complete env rows =
    let a : any (has_key "javdb_metadata") (sync_known_states env rows) ≡ true =
      synced env rows "javdb_metadata" ∙ ground arith in
    let b : any (has_key "zuidapi_vod") (sync_known_states env rows) ≡ true =
      synced env rows "zuidapi_vod" ∙ ground arith in
    let c : any (has_key "copymanga") (sync_known_states env rows) ≡ true =
      synced env rows "copymanga" ∙ ground arith in
    let d : any (has_key "jiuse_vod") (sync_known_states env rows) ≡ true =
      synced env rows "jiuse_vod" ∙ ground arith in
    let e : any (has_key "comic_local_fixture") (sync_known_states env rows) ≡ true =
      synced env rows "comic_local_fixture" ∙ ground arith in
    (a, (b, (c, (d, (e, tt)))))

none-missing : (rows : Rows) → Complete rows → missing_definitions rows ≡ []
unfolding missing_definitions
none-missing rows c = rw (c.0, c.1.0, c.1.1.0, c.1.1.1.0, c.1.1.1.1.0) refl

append-nil : {A : Type 0} (xs : List A) → xs ++ [] ≡ xs
append-nil [] = refl
append-nil (x ∷ xs) = ap (λ t. x ∷ t) (append-nil xs)

-- The start-up synchronisation gives every code-owned provider a row, keeps the rows that are there as
-- they are and where they are, and does nothing when it runs again, at any time and with any cookie.
pub sync_known_states_settles :
    (env env' : Env) (rows : Rows)
    → Complete (sync_known_states env rows)
      × (take (length rows) (sync_known_states env rows) ≡ rows)
      × (sync_known_states env' (sync_known_states env rows) ≡ sync_known_states env rows)
unfolding sync_known_states
sync_known_states_settles env env' rows =
    let c = sync_known_states-Complete env rows in
    let rows' = sync_known_states env rows in
    let again =
      ap (λ ds. rows' ++ map (new_state env') ds) (none-missing rows' c) ∙ append-nil rows' in
    (c, take-append rows (map (new_state env) (missing_definitions rows)), again)
