-- ===== src/Index/Status.antt =====
-- app/services/media_index.py, `get_media_index_status` and `load_preferred_media_snapshot`.
use nsfwtrack.Base.{
  String, Bool, true, false, not, ◌&&◌, ◌||◌, Option, none, some, List, [], ◌∷◌, str_eq, or_else,
  if◌then◌else◌,
}
use nsfwtrack.Index.Contracts.{MediaIndexState, IndexStore, Sealer, valid_token}
use nsfwtrack.Index.Load.{
  Result, ok, index_corrupt, LocalMediaEntry, MediaDirectory, LocalMediaScanSkip, LocalMedia,
  MediaIndexSnapshot, load_index_snapshot,
}

-- `MediaIndexStatus`: `reported` is the state whose columns it repeats, none for their defaults.
pub record MediaIndexStatus : Type 0 where
  pub has_schema : Bool
  pub is_valid : Bool
  pub has_integrity : Bool
  pub status_reason : String
  pub reported : Option MediaIndexState

-- `MediaIndexStatus.usable` and `possibly_stale`
unfoldable pub usable : MediaIndexStatus → Bool
usable t = t.has_schema && t.is_valid && t.has_integrity

unfoldable pub possibly_stale : MediaIndexStatus → Bool
possibly_stale t = not (usable t) || not (str_eq t.status_reason "")

-- `_status_from_state`; every reason that is passed is not empty.
unfoldable pub status_from_state :
    Option MediaIndexState → Bool → Bool → Option String → MediaIndexStatus
status_from_state none schema integrity reason = record {
  has_schema = schema;
  is_valid = false;
  has_integrity = integrity;
  status_reason = or_else reason "never_scanned";
  reported = none;
}
status_from_state (some s) schema integrity reason = record {
  has_schema = schema;
  is_valid = s.state_valid;
  has_integrity = integrity;
  status_reason = or_else reason s.stale_reason;
  reported = some s;
}

-- The `status` of a snapshot that is loaded.
abbrev pub status_of : MediaIndexSnapshot → MediaIndexStatus
status_of snap = status_from_state (some snap.from_state) true true none

-- The status of a state that claims to be valid, by what the load says of it.
abbrev pub loaded_status :
    MediaIndexState → Result (Option MediaIndexSnapshot) → Option MediaIndexStatus
loaded_status s (ok (some snap)) = some (status_of snap)
loaded_status s (ok none) = none
loaded_status s index_corrupt = some (status_from_state (some s) true false (some "index_corrupt"))

unfoldable pub status_in :
    Sealer → Option MediaIndexState → Result (Option MediaIndexSnapshot) → Option MediaIndexStatus
status_in z none loaded = some (status_from_state none true false (some "state_missing"))
status_in z (some s) loaded =
    if not s.state_valid
    then some (
        status_from_state (some s) true
          (str_eq s.snapshot_signature "" || valid_token z s.snapshot_signature) none)
    else loaded_status s loaded

-- `get_media_index_status`; none where the `assert` fails.
unfoldable pub get_media_index_status : Sealer → LocalMedia → IndexStore → Option MediaIndexStatus
get_media_index_status z l store =
    if not store.schema_available
    then some (status_from_state none false false (some "schema_upgrade_required"))
    else status_in z store.state (load_index_snapshot z l store)

-- What a scan of app/services/local_media.py gives: a value, a `LocalMediaPathError` or an `OSError`.
pub data Scanned (A : Type 0) : Type 0 where
  found : A → Scanned A
  raises_path : Scanned A
  raises_os : Scanned A

-- What `scan_local_media_incremental` finds.
pub record Observed : Type 0 where
  pub root_identity : String
  pub scanned : List LocalMediaEntry
  pub scan_skips : List LocalMediaScanSkip

-- `scan_local_media_incremental` and then `scan_local_media_directories`.
pub record Scan : Type 0 where
  pub observed : Scanned Observed
  pub scanned_directories : Scanned (List MediaDirectory)

pub data Source : Type 0 where
  index : Source
  filesystem : Source

-- A snapshot by its source; the scan and the directories stand in `shown_entries` and so on.
pub record Preferred : Type 0 where
  pub shown_entries : List LocalMediaEntry
  pub shown_skips : List LocalMediaScanSkip
  pub shown_directories : List MediaDirectory
  pub shown_status : MediaIndexStatus
  pub shown_source : Source

-- How `load_preferred_media_snapshot` ends: a snapshot, a `LocalMediaPathError`, an `OSError` or a
-- failed `assert`.
pub data Shown : Type 0 where
  preferred : Preferred → Shown
  path_error : Shown
  os_error : Shown
  assertion_error : Shown

abbrev pub same_root : LocalMedia → String → List MediaDirectory → Bool
same_root l identity [] = false
same_root l identity (d ∷ ds) = str_eq (l.token_of d) identity

-- The directories, once the scan is there.
unfoldable pub listed_instead :
    LocalMedia → MediaIndexStatus → Observed → Scanned (List MediaDirectory) → Shown
listed_instead l status o raises_path = path_error
listed_instead l status o raises_os = os_error
listed_instead l status o (found directories) =
    if not (same_root l o.root_identity directories)
    then path_error
    else preferred (record {
      shown_entries = o.scanned;
      shown_skips = o.scan_skips;
      shown_directories = directories;
      shown_status = status;
      shown_source = filesystem;
    })

unfoldable pub observed_instead :
    LocalMedia → MediaIndexStatus → Scanned (List MediaDirectory) → Scanned Observed → Shown
observed_instead l status directories raises_path = path_error
observed_instead l status directories raises_os = os_error
observed_instead l status directories (found o) =
    if str_eq o.root_identity "" then path_error else listed_instead l status o directories

abbrev pub scan_instead : LocalMedia → Scan → MediaIndexStatus → Shown
scan_instead l scan status = observed_instead l status scan.scanned_directories scan.observed

abbrev pub scan_under : LocalMedia → Scan → Option MediaIndexStatus → Shown
scan_under l scan none = assertion_error
scan_under l scan (some status) = scan_instead l scan status

abbrev pub prefer :
    LocalMedia → Scan → Option MediaIndexStatus → Result (Option MediaIndexSnapshot) → Shown
prefer l scan status (ok (some snap)) = preferred (record {
  shown_entries = snap.entries;
  shown_skips = snap.skips;
  shown_directories = snap.directories;
  shown_status = status_of snap;
  shown_source = index;
})
prefer l scan status _ = scan_under l scan status

-- `load_preferred_media_snapshot`
unfoldable pub load_preferred_media_snapshot : Sealer → LocalMedia → Scan → IndexStore → Shown
load_preferred_media_snapshot z l scan store =
    prefer l scan (get_media_index_status z l store) (load_index_snapshot z l store)
