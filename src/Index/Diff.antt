-- ===== src/Index/Diff.antt =====
-- app/services/media_index.py, `refresh_media_index`: what the scan is compared with.
use nsfwtrack.Base.{
  text_before, String, Bool, true, false, not, ◌&&◌, Option, none, some, List, [], ◌∷◌, ◌++◌, map,
  filter, take, member, str_eq, if◌then◌else◌, ℤ, sorted_by,
}
use nsfwtrack.Index.Contracts.{MediaIndexEntry, Sealer, row_is_signed}
use nsfwtrack.Index.Load.{
  Result, ok, index_corrupt, LocalMediaEntry, LocalMedia, media_entry_from_row, same_number,
  of_type,
}

-- `_TrustedMediaRow`
pub record TrustedMediaRow : Type 0 where
  pub entry : LocalMediaEntry
  pub trusted_since : String

-- A dict by paths: of two values of a path the last is kept.
abbrev pub later {ℓ} : {A : Type ℓ} → Option A → Option A → Option A
later none o = o
later (some a) o = some a

unfoldable pub look_up : {A : Type 0} → String → List (String × A) → Option A
look_up path [] = none
look_up path (p ∷ ps) =
    let rest = look_up path ps in later rest (if str_eq path p.0 then some p.1 else none)

abbrev pub or_first {ℓ} : {A : Type ℓ} → (A → String) → String → Option A → String
or_first f s none = s
or_first f s (some a) = f a

abbrev pub add_trusted :
    MediaIndexEntry
    → Result LocalMediaEntry
    → List (String × TrustedMediaRow)
    → List (String × TrustedMediaRow)
add_trusted r (ok e) rest =
    (r.media_path, record { entry = e; trusted_since = r.first_seen_at }) ∷ rest
add_trusted r index_corrupt rest = rest

abbrev pub trust_each : Sealer → LocalMedia → List MediaIndexEntry → List (String × TrustedMediaRow)
trust_each z l [] = []
trust_each z l (r ∷ rs) = add_trusted r (media_entry_from_row z l r) (trust_each z l rs)

-- `_trusted_old_media_rows`
unfoldable pub trusted_old_media_rows :
    Sealer → LocalMedia → List MediaIndexEntry → List (String × TrustedMediaRow)
trusted_old_media_rows z l rows = trust_each z l (of_type "media" rows)

unfoldable pub trusted_directories : Sealer → List MediaIndexEntry → List (String × String)
trusted_directories z rows =
    map (λ (r : MediaIndexEntry). (r.media_path, r.first_seen_at))
      (filter (λ (r : MediaIndexEntry). row_is_signed z r) (of_type "directory" rows))

abbrev pub same_maybe : Option ℤ → Option ℤ → Bool
same_maybe none none = true
same_maybe (some a) (some b) = same_number a b
same_maybe _ _ = false

-- Equality of `_entry_change_key`
unfoldable pub same_key : LocalMediaEntry → LocalMediaEntry → Bool
same_key a b =
    str_eq a.filename b.filename
    && same_number a.entry_size b.entry_size
    && str_eq a.entry_sha256 b.entry_sha256
    && str_eq a.entry_mime_type b.entry_mime_type
    && (if a.available then b.available else not b.available)
    && str_eq a.entry_detail b.entry_detail
    && (if a.is_recovered then b.is_recovered else not b.is_recovered)
    && same_maybe a.entry_mode b.entry_mode
    && same_maybe a.entry_device b.entry_device
    && same_maybe a.entry_inode b.entry_inode
    && same_maybe a.entry_modified_ns b.entry_modified_ns
    && same_maybe a.entry_changed_ns b.entry_changed_ns
    && str_eq a.mapping_token b.mapping_token

-- The elements of `set(xs)`.
unfoldable pub distinct : List String → List String
distinct [] = []
distinct (x ∷ xs) = let rest = distinct xs in if member x rest then rest else x ∷ rest

abbrev pub is_changed : Option LocalMediaEntry → Option TrustedMediaRow → Bool
is_changed (some e) (some old) = not (same_key e old.entry)
is_changed _ _ = true

-- `new_paths`, `changed_paths` and `removed_paths`
pub record Changes : Type 0 where
  pub new_paths : List String
  pub changed_paths : List String
  pub removed_paths : List String

unfoldable pub changes_of :
    List String → List (String × TrustedMediaRow) → List LocalMediaEntry → Changes
changes_of old_paths trusted entries =
    let by_entry_path = map (λ (e : LocalMediaEntry). (e.entry_path, e)) entries in
    let current = distinct (map (λ (e : LocalMediaEntry). e.entry_path) entries) in
    record {
      new_paths = filter (λ path. not (member path old_paths)) current;
      changed_paths =
          filter
            (λ path.
              member path old_paths
              && is_changed (look_up path by_entry_path) (look_up path trusted))
            current;
      removed_paths = filter (λ path. not (member path current)) (distinct old_paths);
    }

-- A change and its path.
abbrev pub tagged : String → List String → List (String × String)
tagged change paths = map (λ path. (change, path)) (sorted_by text_before paths)

-- `change_details`
unfoldable pub change_details : Changes → List (String × String)
change_details c = take 200 (
    tagged "new" c.new_paths
    ++ tagged "changed" c.changed_paths
    ++ tagged "removed" c.removed_paths)
