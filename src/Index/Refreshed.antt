-- ===== src/Index/Refreshed.antt =====
-- app/services/media_index.py, `refresh_media_index`: what it leaves, on every way it ends.
use mathlib.Core.Path.{subst}
use nsfwtrack.Base.{
  String, Bool, true, false, not, Option, none, some, List, or_else, if◌then◌else◌, ◌≡◌, refl, ap,
  ◌⊎◌, inl, inr,
}
use nsfwtrack.Index.Contracts.{
  MediaIndexEntry, MediaIndexState, new_state, IndexStore, Sealer, state_signature, state_payload,
  state_values, sign_state,
}
use nsfwtrack.Index.Load.{
  Result, ok, index_corrupt, LocalMedia, MediaIndexSnapshot, load_index_snapshot,
}
use nsfwtrack.Index.Failure.{record_scan_failure}
use nsfwtrack.Index.Diff.{trusted_old_media_rows, changes_of}
use nsfwtrack.Index.Refresh.{
  Observation, Surroundings, Coded, good, failed, chain, scan_kind_of, resolve_source, bad_source,
  fresh_state,
}
use nsfwtrack.Index.Run.{
  paths_of, scans, all_values, prepared, failure_of, after_commit, conclude, refresh_media_index,
}
use nsfwtrack.Index.Invalidate.{trusts, trusted}
use nsfwtrack.Index.Sealed.{load_index_snapshot-Sealed}

abbrev Good : {A : Type 0} → (A → Type 0) → Coded A → Type 0
Good P (good a) = P a
Good P (failed code) = Unit

chain-Good :
    {A B : Type 0} (Q : B → Type 0) (r : Coded A) (f : A → Coded B)
    → ((a : A) → Good Q (f a))
    → Good Q (chain r f)
chain-Good Q (good a) f k = k a
chain-Good Q (failed code) f k = tt

-- A state that a refresh of this kind writes.
abbrev pub IsFresh : Surroundings → Bool → MediaIndexState → Type 0
IsFresh w full s =
    (s.state_valid ≡ true)
    × (s.last_success_at ≡ some w.observed_at)
    × (s.last_attempt_at ≡ some w.started_at)
    × (s.last_scan_kind ≡ some (scan_kind_of full))
    × (s.last_scan_result ≡ "success")

-- The tables after a scan that failed: as they were, or the same rows under a state that says so, is
-- as valid as the state was, and is signed.
abbrev pub Recorded : Sealer → IndexStore → IndexStore → Type 0
Recorded z before after =
    (after ≡ before)
    ⊎ ((s : MediaIndexState) × (after.state ≡ some s)
        × (after.rows ≡ before.rows)
        × (s.last_scan_result ≡ "failed")
        × (s.state_valid ≡ (or_else before.state new_state).state_valid)
        × (s.snapshot_signature ≡ state_signature z s before.rows))

abbrev pub Leaves :
    Sealer
    → LocalMedia
    → Surroundings
    → Bool
    → IndexStore
    → Coded MediaIndexSnapshot
    → IndexStore
    → Type 0
Leaves z l w full before (good snap) after =
    (load_index_snapshot z l after ≡ ok (some snap)) × IsFresh w full snap.from_state
Leaves z l w full before (failed code) after =
    Recorded z before after
    ⊎ ((trusted z l after ≡ false) × ((code ≡ "commit_failed") ⊎ (code ≡ "index_corrupt")))

module _ (z : Sealer) (l : LocalMedia) (w : Surroundings) (full : Bool) (store : IndexStore) where
  if_Leaves :
      (b : Bool) (x y : Coded MediaIndexSnapshot × IndexStore)
      → Leaves z l w full store x.0 x.1
      → Leaves z l w full store y.0 y.1
      → let r = if b then x else y in Leaves z l w full store r.0 r.1
  if_Leaves true x y h k = h
  if_Leaves false x y h k = k

module _ (z : Sealer) (l : LocalMedia) (w : Surroundings) (full : Bool) (source : String)
    (store : IndexStore) where
  prepared-IsFresh :
      Good
        (λ (v : List MediaIndexEntry × MediaIndexState). IsFresh w full v.1)
        (prepared z l w full source store)
  unfolding prepared fresh_state
  prepared-IsFresh =
      let trusted = trusted_old_media_rows z l store.rows in
      let Q : List MediaIndexEntry × MediaIndexState → Type 0 = λ v. IsFresh w full v.1 in
      let state_from : Observation
          → List MediaIndexEntry
          → Coded (List MediaIndexEntry × MediaIndexState) =
        λ o rows. good (
          rows,
          sign_state z rows (
              fresh_state w full source store.state o
                (changes_of (paths_of store.rows) trusted o.observed_entries)),
        ) in
      chain-Good Q (scans l w full trusted)
        (λ p. chain (all_values z l w store.rows p.0 p.1) (state_from p.0))
        λ p.
          chain-Good Q (all_values z l w store.rows p.0 p.1) (state_from p.0)
            λ rows. (refl, refl, refl, refl, refl)

  record_scan_failure-Recorded :
      (commits : Bool) (code : String)
      → Recorded z store (record_scan_failure z commits (failure_of w full source code) store)
  unfolding record_scan_failure state_signature state_payload state_values
  record_scan_failure-Recorded true code = inr (_, refl, refl, refl, refl, refl)
  record_scan_failure-Recorded false code = inl refl

  after_commit-Leaves :
      (after : IndexStore) (s : MediaIndexState) (r : Result (Option MediaIndexSnapshot))
      → after.state ≡ some s
      → IsFresh w full s
      → load_index_snapshot z l after ≡ r
      → Leaves z l w full store (after_commit r) after
  after_commit-Leaves after s (ok (some snap)) at fresh e =
      let same : s ≡ snap.from_state =
        let h = (load_index_snapshot-Sealed z l after snap e).0 in cc in
      (e, subst (λ t. IsFresh w full t) same fresh)
  after_commit-Leaves after s (ok none) at fresh e = inr (ap trusts e, inl refl)
  after_commit-Leaves after s index_corrupt at fresh e = inr (ap trusts e, inr refl)

  conclude-Leaves :
      (v : Coded (List MediaIndexEntry × MediaIndexState))
      → Good (λ (v : List MediaIndexEntry × MediaIndexState). IsFresh w full v.1) v
      → let r = conclude z l w full source store v in Leaves z l w full store r.0 r.1
  unfolding conclude
  conclude-Leaves (failed code) fresh = inl (record_scan_failure-Recorded w.records code)
  conclude-Leaves (good v) fresh =
      let written : IndexStore = record store { rows = v.0; state = some v.1 } in
      if_Leaves z l w full store w.writes (after_commit (load_index_snapshot z l written), written)
        (
          failed "scan_failed",
          record_scan_failure z w.records (failure_of w full source "scan_failed") store,
        )
        (after_commit-Leaves written v.1 (load_index_snapshot z l written) refl fresh refl)
        (inl (record_scan_failure-Recorded w.records "scan_failed"))

-- A refresh that returns a snapshot has left tables from which a load returns that snapshot, under a
-- valid state of its own times and kind. One that raises has left the tables as they were, or their
-- rows under a state that says that the scan failed, is as valid as before and is signed anew; or the
-- write was committed, its load did not return a snapshot, and none is loaded from the tables, and
-- then the code is `commit_failed` or `index_corrupt`.
pub refresh_media_index_result :
    (z : Sealer) (l : LocalMedia) (w : Surroundings) (full : Bool) (refresh_source : Option String)
    (store : IndexStore)
    → let r = refresh_media_index z l w full refresh_source store in Leaves z l w full store r.0 r.1
unfolding refresh_media_index
refresh_media_index_result z l w full refresh_source store =
    let source = resolve_source full refresh_source in
    let run = conclude z l w full source store (prepared z l w full source store) in
    let by_source : Coded MediaIndexSnapshot × IndexStore =
      if bad_source full source then (failed "invalid_refresh_source", store) else run in
    if_Leaves z l w full store (not store.schema_available)
      (failed "schema_upgrade_required", store) by_source (inl (inl refl))
      (if_Leaves z l w full store (bad_source full source) (failed "invalid_refresh_source", store)
        run (inl (inl refl))
        (conclude-Leaves z l w full source store (prepared z l w full source store)
          (prepared-IsFresh z l w full source store)))
