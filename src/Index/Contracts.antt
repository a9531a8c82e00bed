-- ===== src/Index/Contracts.antt =====
-- app/services/media_index.py and app/models.py: the rows of the media index, its state, and the
-- signatures over them.
use nsfwtrack.Base.{
  text_before, ℕ, String, Bool, false, ◌&&◌, ◌||◌, Option, none, some, List, [], ◌∷◌, ◌++◌, map,
  all, length, codes, leb, ◌==◌, str_eq, ℤ, sorted_by, pos,
}

-- A value of a payload; a time is its ISO text.
pub data PayloadValue : Type 0 where
  number : ℤ → PayloadValue
  string : String → PayloadValue
  flag : Bool → PayloadValue
  null : PayloadValue

pub record MediaIndexEntry : Type 0 where
  pub record_type : String
  pub media_path : String
  pub basename : String
  pub parent_directory : String
  pub extension : String
  pub mime_type : String
  pub size : ℤ
  pub sha256 : String
  pub valid : Bool
  pub detail : String
  pub recovered : Bool
  pub mode : ℤ
  pub device : ℤ
  pub inode : ℤ
  pub modified_ns : ℤ
  pub changed_ns : ℤ
  pub directory_mapping_token : String
  pub directory_identity_json : String
  pub cache_signature : String
  pub first_seen_at : String
  pub last_seen_at : String
  pub indexed_at : String

pub record MediaIndexState : Type 0 where
  pub index_format_version : ℤ
  pub state_valid : Bool
  pub stale_reason : String
  pub current_media_root_identity : String
  pub last_incremental_scan_at : Option String
  pub last_full_verification_at : Option String
  pub last_attempt_at : Option String
  pub last_success_at : Option String
  pub last_scan_kind : Option String
  pub last_scan_result : String
  pub last_scan_error : String
  pub duration_ms : ℕ
  pub entry_count : ℕ
  pub valid_count : ℕ
  pub damaged_count : ℕ
  pub recovered_count : ℕ
  pub skipped_count : ℕ
  pub reused_count : ℕ
  pub new_count : ℕ
  pub changed_count : ℕ
  pub removed_count : ℕ
  pub rehashed_count : ℕ
  pub change_details_json : String
  pub skipped_details_json : String
  pub snapshot_signature : String

-- The columns' defaults.
abbrev pub new_state : MediaIndexState
new_state = record {
  index_format_version = pos 1;
  state_valid = false;
  stale_reason = "never_scanned";
  current_media_root_identity = "";
  last_incremental_scan_at = none;
  last_full_verification_at = none;
  last_attempt_at = none;
  last_success_at = none;
  last_scan_kind = none;
  last_scan_result = "never";
  last_scan_error = "";
  duration_ms = 0;
  entry_count = 0;
  valid_count = 0;
  damaged_count = 0;
  recovered_count = 0;
  skipped_count = 0;
  reused_count = 0;
  new_count = 0;
  changed_count = 0;
  removed_count = 0;
  rehashed_count = 0;
  change_details_json = "[]";
  skipped_details_json = "[]";
  snapshot_signature = "";
}

-- The two tables, and whether they exist.
pub record IndexStore : Type 0 where
  pub schema_available : Bool
  pub rows : List MediaIndexEntry
  pub state : Option MediaIndexState

-- hmac over the canonical JSON of a payload, `casefold`, and the first characters of a text.
pub record Sealer : Type 0 where
  pub hmac : List PayloadValue → String
  pub casefold : String → String
  pub first : ℕ → String → String

abbrev pub is_hex : ℕ → Bool
is_hex c = leb 48 c && leb c 57 || leb 97 c && leb c 102

-- `_valid_token`
unfoldable pub valid_token : Sealer → String → Bool
valid_token z s = let cs = codes (z.casefold s) in length cs == 64 && all is_hex cs

-- `_row_payload(_row_values(row))`
unfoldable pub row_payload : MediaIndexEntry → List PayloadValue
row_payload r =
    string r.record_type
    ∷ string r.media_path
    ∷ string r.basename
    ∷ string r.parent_directory
    ∷ string r.extension
    ∷ string r.mime_type
    ∷ number r.size
    ∷ string r.sha256
    ∷ flag r.valid
    ∷ string r.detail
    ∷ flag r.recovered
    ∷ number r.mode
    ∷ number r.device
    ∷ number r.inode
    ∷ number r.modified_ns
    ∷ number r.changed_ns
    ∷ string r.directory_mapping_token
    ∷ string r.directory_identity_json
    ∷ string r.first_seen_at
    ∷ string r.last_seen_at
    ∷ string r.indexed_at
    ∷ []

-- `_row_is_signed`
unfoldable pub row_is_signed : Sealer → MediaIndexEntry → Bool
row_is_signed z r =
    valid_token z r.cache_signature
    && str_eq (z.casefold r.cache_signature) (z.hmac (row_payload r))

abbrev pub opt : Option String → PayloadValue
opt none = null
opt (some s) = string s

abbrev pub count : ℕ → PayloadValue
count n = number (pos n)

-- `_state_values`
unfoldable pub state_values : MediaIndexState → List PayloadValue
state_values s =
    count 1
    ∷ number s.index_format_version
    ∷ flag s.state_valid
    ∷ string s.stale_reason
    ∷ string s.current_media_root_identity
    ∷ opt s.last_incremental_scan_at
    ∷ opt s.last_full_verification_at
    ∷ opt s.last_attempt_at
    ∷ opt s.last_success_at
    ∷ opt s.last_scan_kind
    ∷ string s.last_scan_result
    ∷ string s.last_scan_error
    ∷ count s.duration_ms
    ∷ count s.entry_count
    ∷ count s.valid_count
    ∷ count s.damaged_count
    ∷ count s.recovered_count
    ∷ count s.skipped_count
    ∷ count s.reused_count
    ∷ count s.new_count
    ∷ count s.changed_count
    ∷ count s.removed_count
    ∷ count s.rehashed_count
    ∷ string s.change_details_json
    ∷ string s.skipped_details_json
    ∷ []

-- `_state_payload`
unfoldable pub state_payload : MediaIndexState → List String → List PayloadValue
state_payload s signatures = state_values s ++ map string (sorted_by text_before signatures)

abbrev pub signatures_of : List MediaIndexEntry → List String
signatures_of rows = map (λ (r : MediaIndexEntry). r.cache_signature) rows

-- The signature that the state is to have with these rows.
unfoldable pub state_signature : Sealer → MediaIndexState → List MediaIndexEntry → String
state_signature z s rows = z.hmac (state_payload s (signatures_of rows))

-- `state.snapshot_signature = _signature(…)`
abbrev pub sign_state : Sealer → List MediaIndexEntry → MediaIndexState → MediaIndexState
sign_state z rows s = record s { snapshot_signature = state_signature z s rows }
