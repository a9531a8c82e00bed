-- ===== src/Index/Run.antt =====
-- app/services/media_index.py, `refresh_media_index`: the scan, the write and the load after it.
use nsfwtrack.Base.{String, Bool, not, Option, none, some, List, ◌++◌, map, str_eq, if◌then◌else◌}
use nsfwtrack.Index.Contracts.{MediaIndexEntry, MediaIndexState, IndexStore, Sealer, sign_state}
use nsfwtrack.Index.Load.{
  Result, ok, index_corrupt, LocalMediaEntry, MediaDirectory, LocalMedia, MediaIndexSnapshot,
  of_type, load_index_snapshot,
}
use nsfwtrack.Index.Rows.{media_row_values, directory_row_values}
use nsfwtrack.Index.Diff.{
  TrustedMediaRow, look_up, or_first, trusted_old_media_rows, trusted_directories, changes_of,
}
use nsfwtrack.Index.Failure.{ScanFailure, record_scan_failure}
use nsfwtrack.Index.Status.{same_root}
use nsfwtrack.Index.Refresh.{
  Observation, Surroundings, Coded, good, failed, chain, or_code, each_coded, scan_kind_of,
  resolve_source, bad_source, parents_held, fresh_state,
}

abbrev pub paths_of : List MediaIndexEntry → List String
paths_of rows = map (λ (r : MediaIndexEntry). r.media_path) (of_type "media" rows)

-- The two scans and what has to agree between them.
unfoldable pub scans :
    LocalMedia
    → Surroundings
    → Bool
    → List (String × TrustedMediaRow)
    → Coded (Observation × List MediaDirectory)
scans l w full trusted =
    let cached = map (λ (p : String × TrustedMediaRow). (p.0, p.1.entry)) trusted in
    chain (or_code "scan_failed" (w.scan_incremental cached full)) λ o.
      if str_eq o.observed_root ""
      then failed "storage_unavailable"
      else chain (or_code "scan_failed" w.scan_directories) λ directories.
        if not (same_root l o.observed_root directories)
        then failed "media_root_changed"
        else if not (parents_held l directories o.observed_entries)
        then failed "parent_mapping_changed"
        else good (o, directories)

-- `media_values` and `directory_values`; a row keeps the time when its path was first seen.
unfoldable pub all_values :
    Sealer
    → LocalMedia
    → Surroundings
    → List MediaIndexEntry
    → Observation
    → List MediaDirectory
    → Coded (List MediaIndexEntry)
all_values z l w old o directories =
    let trusted = trusted_old_media_rows z l old in
    let since = trusted_directories z old in
    let media : LocalMediaEntry → Coded MediaIndexEntry = λ e. or_code "scan_incomplete" (
      media_row_values z l
        (or_first (λ (t : TrustedMediaRow). t.trusted_since) w.observed_at
          (look_up e.entry_path trusted))
        w.observed_at e) in
    let directory : MediaDirectory → MediaIndexEntry = λ d.
      directory_row_values z l (w.no_parts d)
        (or_first (λ (s : String). s) w.observed_at (look_up d.directory_path since)) w.observed_at
        d in
    chain (each_coded media o.observed_entries) λ rows. good (rows ++ map directory directories)

-- What is to be written: the rows and the signed state.
unfoldable pub prepared :
    Sealer
    → LocalMedia
    → Surroundings
    → Bool
    → String
    → IndexStore
    → Coded (List MediaIndexEntry × MediaIndexState)
prepared z l w full source store =
    let trusted = trusted_old_media_rows z l store.rows in
    chain (scans l w full trusted) λ (o, directories).
      chain (all_values z l w store.rows o directories) λ rows. good (
        rows,
        sign_state z rows (
            fresh_state w full source store.state o
              (changes_of (paths_of store.rows) trusted o.observed_entries)),
      )

abbrev pub failure_of : Surroundings → Bool → String → String → ScanFailure
failure_of w full source code = record {
  scan_kind = scan_kind_of full;
  attempted_at = w.started_at;
  failed_after_ms = w.failed_ms;
  error_code = code;
  encode_again = w.recode_changes source;
}

-- The load after the commit.
abbrev pub after_commit : Result (Option MediaIndexSnapshot) → Coded MediaIndexSnapshot
after_commit (ok (some snap)) = good snap
after_commit (ok none) = failed "commit_failed"
after_commit index_corrupt = failed "index_corrupt"

-- The `try` block's end: what it was to write, or a code that is recorded and raised again.
unfoldable pub conclude :
    Sealer
    → LocalMedia
    → Surroundings
    → Bool
    → String
    → IndexStore
    → Coded (List MediaIndexEntry × MediaIndexState)
    → Coded MediaIndexSnapshot × IndexStore
conclude z l w full source store (failed code) =
    (failed code, record_scan_failure z w.records (failure_of w full source code) store)
conclude z l w full source store (good v) =
    let written : IndexStore = record store { rows = v.0; state = some v.1 } in
    if w.writes then (after_commit (load_index_snapshot z l written), written) else (
      failed "scan_failed",
      record_scan_failure z w.records (failure_of w full source "scan_failed") store,
    )

-- `refresh_media_index`: how it ends, and the tables.
unfoldable pub refresh_media_index :
    Sealer
    → LocalMedia
    → Surroundings
    → Bool
    → Option String
    → IndexStore
    → Coded MediaIndexSnapshot × IndexStore
refresh_media_index z l w full refresh_source store =
    let source = resolve_source full refresh_source in
    if not store.schema_available
    then (failed "schema_upgrade_required", store)
    else if bad_source full source
    then (failed "invalid_refresh_source", store)
    else conclude z l w full source store (prepared z l w full source store)
