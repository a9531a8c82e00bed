-- ===== src/Index/Tests.antt =====
-- A stored index with the media root and one image, and its loads.
use nsfwtrack.Base.{
  if◌then◌else◌, str_eq, sorted_by, String, Bool, true, false, ◌&&◌, inl, arith, none, some, [],
  ◌∷◌, pos, ◌≡◌, refl, lex_leb, sorted_by, insert_sorted,
}
use nsfwtrack.Index.Contracts.{
  MediaIndexEntry, MediaIndexState, new_state, IndexStore, Sealer, row_payload, row_is_signed,
  valid_token, state_values, state_payload, state_signature,
}
use nsfwtrack.Index.Load.{
  ok, index_corrupt, MediaDirectory, LocalMedia, entry_of, MediaIndexSnapshot, media_misfit,
  content_misfit, media_entry_from_row, directory_misfit, directory_from_row, each, integrity_valid,
  agrees, snapshot_from, load_state, load_index_snapshot,
}
use nsfwtrack.Index.Rows.{media_row_values, directory_row_values}
use nsfwtrack.Index.Diff.{
  changes_of, change_details, distinct, look_up, trusted_old_media_rows, trusted_directories,
}
use nsfwtrack.Index.Refresh.{
  Observation, Surroundings, Coded, good, failed, bad_source, parents_held, fresh_state,
}
use nsfwtrack.Index.Run.{scans, all_values, prepared, conclude, refresh_media_index}
use nsfwtrack.Index.Refreshed.{Leaves, refresh_media_index_result}
use nsfwtrack.Index.Renewed.{by_entry_path, by_directory_path}
use nsfwtrack.Index.Succeeds.{IsQuiet, refresh_media_index_succeeds}
use nsfwtrack.Index.Status.{found, raises_path, Scan, load_preferred_media_snapshot}
use nsfwtrack.Index.Failure.{ScanFailure, record_scan_failure}
use nsfwtrack.Index.Preferred.{Ends, load_preferred_media_snapshot_result}
use nsfwtrack.Index.Invalidate.{trusted}
use nsfwtrack.Index.Sealed.{Sealed, load_index_snapshot-Sealed}

abbrev seal : String
seal = "00000000000000000000000000000000000000000000000000000000000000ff"

abbrev sealer : Sealer
sealer = record { hmac = λ payload. seal; casefold = λ s. s; first = λ n s. s }

abbrev root : MediaDirectory
root = record {
  directory_path = "/media";
  last_part = "media";
  directory_mode = pos 16877;
  directory_device = pos 8;
  directory_inode = pos 2;
  directory_modified_ns = pos 50;
  directory_changed_ns = pos 60;
}

abbrev covers : MediaDirectory
covers = record root {
  directory_path = "/media/covers";
  last_part = "covers";
  directory_inode = pos 5;
}

abbrev files : LocalMedia
files = record {
  normalize = λ path. some path;
  without_prefix = λ path. "a.jpg";
  parent = λ path. "/media";
  name = λ path. "a.jpg";
  suffix = λ path. ".jpg";
  directory_from_index = λ path json. some (if str_eq path "/media" then root else covers);
  token_of = λ d. seal;
  json_of = λ d. "{}";
  is_regular = λ mode. true;
  decode_skips = λ s. some [];
}

abbrev image : MediaIndexEntry
image = record {
  record_type = "media";
  media_path = "/media/a.jpg";
  basename = "a.jpg";
  parent_directory = "/media";
  extension = ".jpg";
  mime_type = "image/jpeg";
  size = pos 1200;
  sha256 = seal;
  valid = true;
  detail = "";
  recovered = false;
  mode = pos 33188;
  device = pos 8;
  inode = pos 3;
  modified_ns = pos 40;
  changed_ns = pos 41;
  directory_mapping_token = seal;
  directory_identity_json = "{}";
  cache_signature = seal;
  first_seen_at = "2026-01-01T00:00:00.000000";
  last_seen_at = "2026-01-02T00:00:00.000000";
  indexed_at = "2026-01-02T00:00:00.000000";
}

abbrev root_row : MediaIndexEntry
root_row = record image {
  record_type = "directory";
  media_path = "/media";
  basename = "media";
  parent_directory = "/";
  extension = "";
  mime_type = "";
  size = pos 0;
  sha256 = "";
  mode = pos 16877;
  inode = pos 2;
  modified_ns = pos 50;
  changed_ns = pos 60;
}

abbrev state_of_two : MediaIndexState
state_of_two = record new_state {
  state_valid = true;
  stale_reason = "";
  current_media_root_identity = seal;
  entry_count = 1;
  valid_count = 1;
  snapshot_signature = seal;
}

abbrev store : IndexStore
store = record { schema_available = true; rows = image ∷ root_row ∷ []; state = some state_of_two }

abbrev snapshot : MediaIndexSnapshot
snapshot = record {
  entries = entry_of files image ∷ [];
  skips = [];
  directories = root ∷ [];
  from_state = state_of_two;
}

-- A root is found, but its directories cannot be listed any more.
abbrev lost_root : Scan
lost_root = record {
  observed = found (record { root_identity = "r"; scanned = []; scan_skips = [] });
  scanned_directories = raises_path;
}

unfolded : Unit {0}
unfolding load_index_snapshot load_state snapshot_from integrity_valid agrees each
    media_entry_from_row directory_from_row media_misfit content_misfit directory_misfit
    row_is_signed valid_token state_signature state_payload state_values row_payload sorted_by
    insert_sorted lex_leb
unfolded = tt

store_loads : load_index_snapshot sealer files store ≡ ok (some snapshot)
unfolding unfolded
store_loads = refl

load_index_snapshot-Sealed_example :
    (store.state ≡ some snapshot.from_state) × Sealed sealer files store.rows snapshot
load_index_snapshot-Sealed_example =
    load_index_snapshot-Sealed sealer files store snapshot store_loads

-- The state was changed without the key.
abbrev forged : IndexStore
forged = record store {
  state = some (record state_of_two { last_scan_error = "x"; snapshot_signature = "" });
}

load_preferred_media_snapshot_result_example :
    Ends files lost_root
      (load_index_snapshot sealer files forged)
      (load_preferred_media_snapshot sealer files lost_root forged)
load_preferred_media_snapshot_result_example =
    load_preferred_media_snapshot_result sealer files lost_root forged

abbrev failure : ScanFailure
failure = record {
  scan_kind = "full";
  attempted_at = "2026-01-03T00:00:00.000000";
  failed_after_ms = 7;
  error_code = "media_root_changed";
  encode_again = λ s. s;
}

forged_refused : load_index_snapshot sealer files forged ≡ index_corrupt
unfolding unfolded
forged_refused = refl

-- A scan that failed signs the changed state, and the load takes it.
forged_taken : trusted sealer files (record_scan_failure sealer true failure forged) ≡ true
unfolding unfolded record_scan_failure
forged_taken = refl

-- A scan that finds the image, over empty tables.
abbrev sighted : Observation
sighted = record {
  observed_root = seal;
  observed_entries = entry_of files image ∷ [];
  observed_skips = [];
  reused_paths = [];
  rehashed_paths = "/media/a.jpg" ∷ [];
}

abbrev surroundings : Surroundings
surroundings = record {
  scan_incremental = λ cached full. some sighted;
  scan_directories = some (root ∷ covers ∷ []);
  no_parts = λ d. str_eq d.directory_path "/media";
  started_at = "2026-01-03T00:00:00.000000";
  observed_at = "2026-01-03T00:00:01.000000";
  took_ms = 900;
  failed_ms = 900;
  encode_changes = λ source changes. "{}";
  encode_skips = λ skips. "[]";
  recode_changes = λ source s. s;
  writes = true;
  records = true;
}

abbrev no_index : IndexStore
no_index = record { schema_available = true; rows = []; state = none }

abbrev is_good : Coded MediaIndexSnapshot → Bool
is_good (good snap) = true
is_good (failed code) = false

abbrev scan_reads : Coded MediaIndexSnapshot × IndexStore
scan_reads = refresh_media_index sealer files surroundings true none no_index

scan_is_read : is_good scan_reads.0 && trusted sealer files scan_reads.1 ≡ true
unfolding unfolded refresh_media_index bad_source conclude prepared scans all_values parents_held
    fresh_state changes_of change_details distinct look_up trusted_old_media_rows
    trusted_directories media_row_values directory_row_values
scan_is_read = refl

refresh_media_index_result_example :
    Leaves sealer files surroundings true no_index scan_reads.0 scan_reads.1
refresh_media_index_result_example =
    refresh_media_index_result sealer files surroundings true none no_index

quiet : IsQuiet sealer files surroundings true no_index sighted root (covers ∷ [])
unfolding valid_token lex_leb parents_held look_up
quiet = record {
  signs = λ payload. (refl, refl);
  schema = refl;
  sees = refl;
  lists = refl;
  identified = λ e. absurd (cc);
  agreed_root = refl;
  root_path = refl;
  root_first = (refl, tt);
  parents = refl;
  scanned = (
    record {
      file_mode = pos 33188;
      file_device = pos 8;
      file_inode = pos 3;
      file_modified = pos 40;
      file_changed = pos 41;
      folder = root;
      placed = refl;
      normal = refl;
      found = refl;
      mapped = refl;
      token = refl;
      regular = refl;
      numbers = (omega arith, omega arith, omega arith, omega arith, omega arith);
      content = inl (refl, refl, λ e. absurd (cc), refl);
    },
    tt,
  );
  directories_placed =
      (record { named = refl; partless = refl }, (record { named = refl; partless = refl }, tt));
  skips_kept = refl;
  written = refl;
}

refresh_media_index_succeeds_example :
    (snap : MediaIndexSnapshot) × (scan_reads.0 ≡ good snap)
    × (snap.entries ≡ sorted_by by_entry_path (entry_of files image ∷ []))
    × (snap.skips ≡ [])
    × (snap.directories ≡ sorted_by by_directory_path (root ∷ covers ∷ []))
    × (load_index_snapshot sealer files scan_reads.1 ≡ ok (some snap))
unfolding bad_source
refresh_media_index_succeeds_example =
    refresh_media_index_succeeds sealer files surroundings true none no_index sighted root
      (covers ∷ []) quiet refl
