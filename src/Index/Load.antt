-- ===== src/Index/Load.antt =====
-- app/services/media_index.py, `_load_index_snapshot`: the snapshot that the tables hold, checked.
use nsfwtrack.Base.{
  count_where, text_before, String, Bool, false, not, ◌&&◌, ◌||◌, Option, none, some, List, [], ◌∷◌,
  filter, length, ◌==◌, str_eq, if◌then◌else◌, ℤ, pos, ltb_ℤ, leb_ℤ, sorted_by,
}
use nsfwtrack.Index.Contracts.{
  MediaIndexEntry, MediaIndexState, IndexStore, Sealer, valid_token, row_is_signed, state_signature,
}

-- A `MediaIndexError` by its code.
pub data Result (A : Type 0) : Type 0 where
  ok : A → Result A
  index_corrupt : Result A

abbrev pub bind : {A B : Type 0} → Result A → (A → Result B) → Result B
bind (ok a) f = f a
bind index_corrupt f = index_corrupt

-- `LocalMediaEntry`
pub record LocalMediaEntry : Type 0 where
  pub entry_path : String
  pub filename : String
  pub entry_size : ℤ
  pub entry_sha256 : String
  pub entry_mime_type : String
  pub available : Bool
  pub entry_detail : String
  pub is_recovered : Bool
  pub entry_mode : Option ℤ
  pub entry_device : Option ℤ
  pub entry_inode : Option ℤ
  pub entry_modified_ns : Option ℤ
  pub entry_changed_ns : Option ℤ
  pub mapping_token : String
  pub identity_json : String

-- `ValidatedLocalMediaDirectory`
pub record MediaDirectory : Type 0 where
  pub directory_path : String
  pub last_part : String
  pub directory_mode : ℤ
  pub directory_device : ℤ
  pub directory_inode : ℤ
  pub directory_modified_ns : ℤ
  pub directory_changed_ns : ℤ

pub record LocalMediaScanSkip : Type 0 where
  pub skip_path : String
  pub reason : String

-- What is called of app/services/local_media.py, of pathlib, stat and json; none where it raises.
pub record LocalMedia : Type 0 where
  pub normalize : String → Option String
  pub without_prefix : String → String
  pub parent : String → String
  pub name : String → String
  pub suffix : String → String
  pub directory_from_index : String → String → Option MediaDirectory
  pub token_of : MediaDirectory → String
  pub json_of : MediaDirectory → String
  pub is_regular : ℤ → Bool
  pub decode_skips : String → Option (List LocalMediaScanSkip)

abbrev pub or_corrupt : {A : Type 0} → Option A → Result A
or_corrupt none = index_corrupt
or_corrupt (some a) = ok a

abbrev pub entry_of : LocalMedia → MediaIndexEntry → LocalMediaEntry
entry_of l r = record {
  entry_path = r.media_path;
  filename = l.without_prefix r.media_path;
  entry_size = r.size;
  entry_sha256 = r.sha256;
  entry_mime_type = r.mime_type;
  available = r.valid;
  entry_detail = r.detail;
  is_recovered = r.recovered;
  entry_mode = some r.mode;
  entry_device = some r.device;
  entry_inode = some r.inode;
  entry_modified_ns = some r.modified_ns;
  entry_changed_ns = some r.changed_ns;
  mapping_token = r.directory_mapping_token;
  identity_json = r.directory_identity_json;
}

abbrev pub negative : ℤ → Bool
negative n = ltb_ℤ n (pos 0)

-- The columns that do not fit the path, the directory or the kind of file.
unfoldable pub media_misfit : Sealer → LocalMedia → MediaIndexEntry → MediaDirectory → Bool
media_misfit z l r d =
    not (str_eq r.basename (l.name (l.without_prefix r.media_path)))
    || not (str_eq r.parent_directory (l.parent r.media_path))
    || not (str_eq r.extension (z.casefold (l.suffix (l.without_prefix r.media_path))))
    || not (l.is_regular r.mode)
    || negative r.size
    || negative r.device
    || negative r.inode
    || negative r.modified_ns
    || negative r.changed_ns
    || not (valid_token z r.directory_mapping_token)
    || not (str_eq (l.token_of d) r.directory_mapping_token)

-- The digest, the type and the detail do not fit whether the file is readable.
unfoldable pub content_misfit : Sealer → MediaIndexEntry → Bool
content_misfit z r =
    let digest = z.casefold r.sha256 in
    if r.valid
    then not (valid_token z digest) || str_eq r.mime_type "" || not (str_eq r.detail "")
    else not (str_eq r.mime_type "")
      || not (str_eq r.detail "invalid_image")
      || not (str_eq digest "") && not (valid_token z digest)

-- `_media_entry_from_row`
unfoldable pub media_entry_from_row : Sealer → LocalMedia → MediaIndexEntry → Result LocalMediaEntry
media_entry_from_row z l r =
    if not (str_eq r.record_type "media") || not (row_is_signed z r)
    then index_corrupt
    else bind (or_corrupt (l.normalize r.media_path)) λ normalized.
      if not (str_eq normalized r.media_path)
      then index_corrupt
      else bind
          (or_corrupt (l.directory_from_index (l.parent r.media_path) r.directory_identity_json))
          λ d.
            if media_misfit z l r d || content_misfit z r then index_corrupt else ok (entry_of l r)

abbrev pub same_number : ℤ → ℤ → Bool
same_number a b = leb_ℤ a b && leb_ℤ b a

unfoldable pub directory_misfit : LocalMedia → MediaIndexEntry → MediaDirectory → Bool
directory_misfit l r d =
    let root = str_eq r.media_path "/media" in
    not r.valid
    || not (str_eq r.basename (if root then "media" else d.last_part))
    || not (str_eq r.parent_directory (if root then "/" else l.parent r.media_path))
    || not (str_eq r.extension "")
    || not (str_eq r.mime_type "")
    || not (same_number r.size (pos 0))
    || not (str_eq r.sha256 "")
    || not (str_eq r.detail "")
    || r.recovered
    || not (same_number r.mode d.directory_mode)
    || not (same_number r.device d.directory_device)
    || not (same_number r.inode d.directory_inode)
    || not (same_number r.modified_ns d.directory_modified_ns)
    || not (same_number r.changed_ns d.directory_changed_ns)
    || not (str_eq (l.token_of d) r.directory_mapping_token)

-- `_directory_from_row`
unfoldable pub directory_from_row : Sealer → LocalMedia → MediaIndexEntry → Result MediaDirectory
directory_from_row z l r =
    if not (str_eq r.record_type "directory") || not (row_is_signed z r)
    then index_corrupt
    else bind (or_corrupt (l.directory_from_index r.media_path r.directory_identity_json))
        λ d. if directory_misfit l r d then index_corrupt else ok d

-- `tuple(f(row) for row in rows)`
unfoldable pub each : {A B : Type 0} → (A → Result B) → List A → Result (List B)
each f [] = ok []
each f (x ∷ xs) = bind (f x) λ y. bind (each f xs) λ ys. ok (y ∷ ys)

abbrev pub of_type : String → List MediaIndexEntry → List MediaIndexEntry
of_type t rows = filter (λ (r : MediaIndexEntry). str_eq r.record_type t) rows

pub record MediaIndexSnapshot : Type 0 where
  pub entries : List LocalMediaEntry
  pub skips : List LocalMediaScanSkip
  pub directories : List MediaDirectory
  pub from_state : MediaIndexState

-- The integrity of the state over the rows.
unfoldable pub integrity_valid : Sealer → MediaIndexState → List MediaIndexEntry → Bool
integrity_valid z s rows =
    same_number s.index_format_version (pos 1)
    && valid_token z s.snapshot_signature
    && str_eq (z.casefold s.snapshot_signature) (state_signature z s rows)

abbrev pub first_is_root : LocalMedia → String → List MediaDirectory → Bool
first_is_root l token [] = false
first_is_root l token (d ∷ ds) = str_eq d.directory_path "/media" && str_eq (l.token_of d) token

-- The counts and the root agree with the state.
unfoldable pub agrees :
    LocalMedia
    → MediaIndexState
    → List LocalMediaEntry
    → List LocalMediaScanSkip
    → List MediaDirectory
    → Bool
agrees l s entries skips directories =
    length entries == s.entry_count
    && count_where (λ (e : LocalMediaEntry). e.available) entries == s.valid_count
    && count_where (λ (e : LocalMediaEntry). not e.available) entries == s.damaged_count
    && count_where (λ (e : LocalMediaEntry). e.is_recovered) entries == s.recovered_count
    && length skips == s.skipped_count
    && first_is_root l s.current_media_root_identity directories

abbrev pub by_path : MediaIndexEntry → MediaIndexEntry → Bool
by_path a b = text_before a.media_path b.media_path

unfoldable pub snapshot_from :
    Sealer → LocalMedia → MediaIndexState → List MediaIndexEntry → Result MediaIndexSnapshot
snapshot_from z l s rows =
    if not (integrity_valid z s rows)
    then index_corrupt
    else bind (each (media_entry_from_row z l) (of_type "media" rows)) λ entries.
      bind (each (directory_from_row z l) (of_type "directory" rows)) λ directories.
        bind (or_corrupt (l.decode_skips s.skipped_details_json)) λ skips.
          if not (agrees l s entries skips directories)
          then index_corrupt
          else ok (record {
            entries = entries;
            skips = skips;
            directories = directories;
            from_state = s;
          })

abbrev pub map_some : {A : Type 0} → Result A → Result (Option A)
map_some (ok a) = ok (some a)
map_some index_corrupt = index_corrupt

unfoldable pub load_state :
    Sealer
    → LocalMedia
    → List MediaIndexEntry
    → Option MediaIndexState
    → Result (Option MediaIndexSnapshot)
load_state z l rows none = ok none
load_state z l rows (some s) =
    if s.state_valid then map_some (snapshot_from z l s (sorted_by by_path rows)) else ok none

-- `_load_index_snapshot`
unfoldable pub load_index_snapshot :
    Sealer → LocalMedia → IndexStore → Result (Option MediaIndexSnapshot)
load_index_snapshot z l store =
    if store.schema_available then load_state z l store.rows store.state else ok none
