-- ===== src/Index/Refresh.antt =====
-- app/services/media_index.py, `refresh_media_index`.
use nsfwtrack.Base.{
  count_where, ℕ, String, Bool, true, false, not, ◌&&◌, ◌||◌, Option, none, some, List, [], ◌∷◌,
  map, length, member, str_eq, if◌then◌else◌, pos,
}
use nsfwtrack.Index.Contracts.{MediaIndexState}
use nsfwtrack.Index.Load.{LocalMediaEntry, MediaDirectory, LocalMediaScanSkip, LocalMedia}
use nsfwtrack.Index.Diff.{look_up, Changes, change_details}

-- `LocalMediaIncrementalScan`
pub record Observation : Type 0 where
  pub observed_root : String
  pub observed_entries : List LocalMediaEntry
  pub observed_skips : List LocalMediaScanSkip
  pub reused_paths : List String
  pub rehashed_paths : List String

-- What one refresh meets: the scans, none where they raise, the clock, the encoders, and whether the
-- database takes the two transactions.
pub record Surroundings : Type 0 where
  pub scan_incremental : List (String × LocalMediaEntry) → Bool → Option Observation
  pub scan_directories : Option (List MediaDirectory)
  pub no_parts : MediaDirectory → Bool
  pub started_at : String
  pub observed_at : String
  pub took_ms : ℕ
  pub failed_ms : ℕ
  pub encode_changes : String → List (String × String) → String
  pub encode_skips : List LocalMediaScanSkip → String
  pub recode_changes : String → String → String
  pub writes : Bool
  pub records : Bool

-- A result, or a `MediaIndexError` with its code.
pub data Coded (A : Type 0) : Type 0 where
  good : A → Coded A
  failed : String → Coded A

abbrev pub chain : {A B : Type 0} → Coded A → (A → Coded B) → Coded B
chain (good a) f = f a
chain (failed code) f = failed code

abbrev pub or_code : {A : Type 0} → String → Option A → Coded A
or_code code none = failed code
or_code code (some a) = good a

abbrev pub each_coded : {A B : Type 0} → (A → Coded B) → List A → Coded (List B)
each_coded f [] = good []
each_coded f (x ∷ xs) = chain (f x) λ y. chain (each_coded f xs) λ ys. good (y ∷ ys)

abbrev pub scan_kind_of : Bool → String
scan_kind_of full = if full then "full" else "incremental"

-- `refresh_source or …`
abbrev pub resolve_source : Bool → Option String → String
resolve_source full none = if full then "manual_full" else "manual_incremental"
resolve_source full (some s) =
    if str_eq s "" then (if full then "manual_full" else "manual_incremental") else s

abbrev pub refresh_sources : List String
refresh_sources =
    "manual_incremental" ∷ "manual_full" ∷ "post_upload" ∷ "post_rename" ∷ "post_move"
    ∷ "post_batch" ∷ "post_cleanup" ∷ "post_recovery" ∷ "post_root_init" ∷ "post_directory"
    ∷ "asset_download" ∷ []

unfoldable pub bad_source : Bool → String → Bool
bad_source full source =
    not (member source refresh_sources)
    || full && not (str_eq source "manual_full")
    || not full && str_eq source "manual_full"

abbrev pub holds_entry : LocalMedia → LocalMediaEntry → Option MediaDirectory → Bool
holds_entry l e none = false
holds_entry l e (some d) = str_eq (l.token_of d) e.mapping_token

-- Every entry's directory is among those scanned, with the mapping token that the entry has.
unfoldable pub parents_held : LocalMedia → List MediaDirectory → List LocalMediaEntry → Bool
parents_held l directories [] = true
parents_held l directories (e ∷ es) =
    holds_entry l e (
      look_up (l.parent e.entry_path)
        (map (λ (d : MediaDirectory). (d.directory_path, d)) directories))
    && parents_held l directories es

abbrev pub past : {A : Type 0} → (A → Option String) → Option A → Option String
past f none = none
past f (some a) = f a

-- `state_values`, without the signature.
unfoldable pub fresh_state :
    Surroundings → Bool → String → Option MediaIndexState → Observation → Changes → MediaIndexState
fresh_state w full source existing o c = record {
  index_format_version = pos 1;
  state_valid = true;
  stale_reason = "";
  current_media_root_identity = o.observed_root;
  last_incremental_scan_at =
      if not full
      then some w.observed_at
      else past (λ (s : MediaIndexState). s.last_incremental_scan_at) existing;
  last_full_verification_at =
      if full
      then some w.observed_at
      else past (λ (s : MediaIndexState). s.last_full_verification_at) existing;
  last_attempt_at = some w.started_at;
  last_success_at = some w.observed_at;
  last_scan_kind = some (scan_kind_of full);
  last_scan_result = "success";
  last_scan_error = "";
  duration_ms = w.took_ms;
  entry_count = length o.observed_entries;
  valid_count = count_where (λ (e : LocalMediaEntry). e.available) o.observed_entries;
  damaged_count = count_where (λ (e : LocalMediaEntry). not e.available) o.observed_entries;
  recovered_count = count_where (λ (e : LocalMediaEntry). e.is_recovered) o.observed_entries;
  skipped_count = length o.observed_skips;
  reused_count = length o.reused_paths;
  new_count = length c.new_paths;
  changed_count = length c.changed_paths;
  removed_count = length c.removed_paths;
  rehashed_count = length o.rehashed_paths;
  change_details_json = w.encode_changes source (change_details c);
  skipped_details_json = w.encode_skips o.observed_skips;
  snapshot_signature = "";
}
