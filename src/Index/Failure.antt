-- ===== src/Index/Failure.antt =====
-- app/services/media_index.py, `_record_scan_failure`: what a refresh that failed leaves.
use nsfwtrack.Base.{ℕ, String, Bool, some, or_else, if◌then◌else◌}
use nsfwtrack.Index.Contracts.{MediaIndexState, new_state, IndexStore, Sealer, sign_state}

-- The arguments, with the payload of the changes that the state has, encoded again under the source:
-- `_encode_change_payload(refresh_source, _decode_change_details(…))`.
pub record ScanFailure : Type 0 where
  pub scan_kind : String
  pub attempted_at : String
  pub failed_after_ms : ℕ
  pub error_code : String
  pub encode_again : String → String

abbrev pub failed_state : Sealer → ScanFailure → MediaIndexState → MediaIndexState
failed_state z f s = record s {
  stale_reason = "scan_failed";
  last_attempt_at = some f.attempted_at;
  last_scan_kind = some f.scan_kind;
  last_scan_result = "failed";
  last_scan_error = z.first 200 f.error_code;
  duration_ms = f.failed_after_ms;
  change_details_json = f.encode_again s.change_details_json;
}

-- `_record_scan_failure`, by whether the database takes the transaction; the new state is signed,
-- whatever signature the state had.
unfoldable pub record_scan_failure : Sealer → Bool → ScanFailure → IndexStore → IndexStore
record_scan_failure z commits f store =
    if commits
    then record store {
      state = some (sign_state z store.rows (failed_state z f (or_else store.state new_state)));
    }
    else store
