-- ===== src/Media/Tests.antt =====
-- The media lock and the coordination at concrete answers of the system.
use nsfwtrack.Base.{
  ℕ, ◌*◌, String, true, false, none, some, List, [], ◌∷◌, ◌≡◌, refl, is_some, arith, ◌==◌,
  if◌then◌else◌,
}
use nsfwtrack.Media.Identity.{
  LockIdentity, valid_directory, valid_lock, same_directory_identity, same_identity, Observed,
  verify,
}
use nsfwtrack.Media.Lock.{
  Flock, Descriptors, System, opens, close, locks, unlock_quietly, open_error, Objects,
  abandon_directory, abandon_both, open_lock_file, open_lock_objects, attempt, try_flock, release,
  hold_locks, media_operation_lock, done, taken, would_block, returned,
}
use nsfwtrack.Media.Classify.{
  Failure, expected_error_name, left_unknown, classify_media_operation_error, classify_batch_result,
  filesystem_changed_known,
}
use nsfwtrack.Media.Coordination.{
  not_invalidated, invalidate_index, refresh_index, synchronize_media_index_after_mutation,
  verify_outcome, Mutation, Coordinated, coordinate_body, coordinate_media_mutation,
  post_mutation_refresh_failed, result,
}
use nsfwtrack.Media.Wait.{media_operation_lock_returns}
use nsfwtrack.Media.Release.{Restored, media_operation_lock_restores}
use nsfwtrack.Media.Guard.{Guarded, media_operation_lock-Guarded}
use nsfwtrack.Index.Contracts.{new_state, IndexStore, Sealer}
use nsfwtrack.Index.Load.{LocalMedia}
use nsfwtrack.Index.Invalidate.{invalidate_media_index}
use nsfwtrack.Index.Coordinated.{
  Session, refresh_from, stored_index, Stands, coordinate_media_mutation-Stands,
}
use nsfwtrack.Index.Refresh.{Surroundings, bad_source}
use nsfwtrack.Index.Run.{scans, prepared, conclude, refresh_media_index}
use nsfwtrack.Index.Diff.{trusted_old_media_rows}
use nsfwtrack.Index.Failure.{record_scan_failure}

-- `drwx------` and `-rw-------` of user 1000
abbrev directory : LockIdentity
directory = record { mode = 16832; device = 1; inode = 10; owner = 1000; links = 2 }

abbrev file : LockIdentity
file = record { mode = 33152; device = 1; inode = 11; owner = 1000; links = 1 }

abbrev in_place : Observed
in_place = record {
  current_directory = some directory;
  mapped_directory = some directory;
  current_lock = some file;
  mapped_lock = some file;
}

-- The first attempt at the lock file meets another holder.
abbrev second_try : ℕ → Flock
second_try n = if n == 0 then would_block else taken

abbrev system : System
system = record {
  euid = 1000;
  open_directory = done 5;
  stat_directory = done directory;
  open_lock = done 6;
  stat_lock = done file;
  opened_seen = in_place;
  start = 0;
  flock_directory = λ n. taken;
  clock_directory = λ n. 25 * n;
  flock_lock = second_try;
  clock_lock = λ n. 25 * n;
  locked_seen = in_place;
  closes = λ fd. true;
  unlocks = λ fd. false;
}

abbrev open_already : Descriptors
open_already = record { opened = 3 ∷ []; held = 3 ∷ [] }

opened : Unit {0}
unfolding valid_directory valid_lock same_directory_identity same_identity verify opens close locks
    unlock_quietly open_error abandon_directory abandon_both open_lock_file open_lock_objects
    attempt try_flock release hold_locks media_operation_lock expected_error_name left_unknown
    classify_media_operation_error classify_batch_result not_invalidated invalidate_index
    refresh_index synchronize_media_index_after_mutation verify_outcome coordinate_body
    coordinate_media_mutation
opened = tt

-- The body sees both descriptors open and both locks held.
abbrev body : Objects → Descriptors → List ℕ × Descriptors
body o ds = (ds.held, ds)

body_sees :
    media_operation_lock system 1000 41 body open_already
    ≡ some (returned (6 ∷ 5 ∷ 3 ∷ []), open_already)
unfolding opened
body_sees = refl

media_operation_lock_returns_example :
    is_some (media_operation_lock system 1000 41 body open_already) ≡ true
media_operation_lock_returns_example =
    media_operation_lock_returns system 1000 41 body open_already (λ n. omega arith)
      (λ n. omega arith) (omega arith)

media_operation_lock_restores_example :
    Restored (media_operation_lock system 1000 41 body open_already) open_already
media_operation_lock_restores_example =
    media_operation_lock_restores system 1000 41 body open_already (λ o d. refl) (λ fd. refl)
      (λ d e. ground arith, λ l e. ground arith)

media_operation_lock-Guarded_example : Guarded system 1000 41 open_already
media_operation_lock-Guarded_example =
    media_operation_lock-Guarded system 1000 41 body open_already (6 ∷ 5 ∷ 3 ∷ []) open_already
      body_sees

-- An upload over the stored index, whose refresh fails.
abbrev sealer : Sealer
sealer = record { hmac = λ payload. "ab"; casefold = λ s. s; first = λ n s. s }

abbrev media_files : LocalMedia
media_files = record {
  normalize = λ path. some path;
  without_prefix = λ path. path;
  parent = λ path. "/media";
  name = λ path. path;
  suffix = λ path. "";
  directory_from_index = λ path json. none;
  token_of = λ d. "ab";
  json_of = λ d. "{}";
  is_regular = λ mode. true;
  decode_skips = λ s. some [];
}

-- The media root is missing, and the database does not record that the scan failed.
abbrev rootless : Surroundings
rootless = record {
  scan_incremental = λ cached full. some (record {
    observed_root = "";
    observed_entries = [];
    observed_skips = [];
    reused_paths = [];
    rehashed_paths = [];
  });
  scan_directories = some [];
  no_parts = λ d. true;
  started_at = "2026-01-03T00:00:00.000000";
  observed_at = "2026-01-03T00:00:01.000000";
  took_ms = 1;
  failed_ms = 1;
  encode_changes = λ source changes. "{}";
  encode_skips = λ skips. "[]";
  recode_changes = λ source s. s;
  writes = true;
  records = false;
}

abbrev session : Session
session = record {
  rolls_back = λ s. true;
  commits = λ reason s. true;
  surrounds = λ source s. rootless;
}

abbrev stored : IndexStore
stored = record {
  schema_available = true;
  rows = [];
  state = some (record new_state { state_valid = true });
}

abbrev stored_upload : Mutation IndexStore String Failure
stored_upload = record {
  source = "post_upload";
  operation = λ s. (result "a.jpg", s);
  classify_result = λ r. filesystem_changed_known;
  classify_error = classify_media_operation_error "upload";
  invalidation_reason = none;
  result_invalidation_reason = none;
}

abbrev stored_uploaded : Coordinated String Failure
stored_uploaded = record {
  ended = result "a.jpg";
  outcome = filesystem_changed_known;
  index = record {
    status = post_mutation_refresh_failed;
    source = "post_upload";
    error_code = some "storage_unavailable";
  };
}

abbrev distrusted : IndexStore
distrusted = invalidate_media_index sealer "post_mutation_refresh_failed" stored

stored_upload_runs :
    coordinate_media_mutation
      (stored_index sealer media_files session)
      stored_upload
      system
      1000
      41
      in_place
      stored
      open_already
    ≡ some (returned (stored_uploaded, distrusted), open_already)
unfolding opened stored_index invalidate_media_index refresh_from refresh_media_index bad_source
    conclude prepared scans trusted_old_media_rows record_scan_failure
stored_upload_runs = refl

coordinate_media_mutation-Stands_example :
    Stands sealer media_files session stored post_mutation_refresh_failed distrusted
coordinate_media_mutation-Stands_example =
    coordinate_media_mutation-Stands sealer media_files session stored_upload system 1000 41
      in_place stored open_already stored_uploaded distrusted open_already stored_upload_runs
