-- ===== src/Index/Rows.antt =====
-- app/services/media_index.py, `_media_row_values` and `_directory_row_values`: the rows that a
-- refresh writes, and how a load reads them.
use nsfwtrack.Base.{
  String, Bool, true, false, not, ◌||◌, List, Option, none, some, str_eq, str_eq_iff, if◌then◌else◌,
  ℤ, pos, ◌≤ℤ◌, ◌≡◌, ◌≢◌, refl, ap, ◌∙◌, ◌⊎◌, inl, inr, arith,
}
use nsfwtrack.Index.Contracts.{
  PayloadValue, MediaIndexEntry, Sealer, valid_token, row_payload, row_is_signed,
}
use nsfwtrack.Index.Load.{
  Result, ok, index_corrupt, bind, or_corrupt, LocalMediaEntry, MediaDirectory, LocalMedia,
  entry_of, media_misfit, content_misfit, media_entry_from_row,
}

-- `values["cache_signature"] = _signature(_row_payload(values))`
abbrev pub sign_row : Sealer → MediaIndexEntry → MediaIndexEntry
sign_row z r = record r { cache_signature = z.hmac (row_payload r) }

abbrev pub row_of :
    Sealer → LocalMedia → String → String → LocalMediaEntry → ℤ → ℤ → ℤ → ℤ → ℤ → MediaIndexEntry
row_of z l first_seen observed e mode device inode modified changed = record {
  record_type = "media";
  media_path = e.entry_path;
  basename = l.name e.filename;
  parent_directory = l.parent e.entry_path;
  extension = z.casefold (l.suffix e.filename);
  mime_type = e.entry_mime_type;
  size = e.entry_size;
  sha256 = e.entry_sha256;
  valid = e.available;
  detail = e.entry_detail;
  recovered = e.is_recovered;
  mode = mode;
  device = device;
  inode = inode;
  modified_ns = modified;
  changed_ns = changed;
  directory_mapping_token = e.mapping_token;
  directory_identity_json = e.identity_json;
  cache_signature = "";
  first_seen_at = first_seen;
  last_seen_at = observed;
  indexed_at = observed;
}

-- `any(values[key] is None for key in identity_fields)`
abbrev pub with_identity {ℓ} :
    {A : Type ℓ}
    → (ℤ → ℤ → ℤ → ℤ → ℤ → A)
    → Option ℤ
    → Option ℤ
    → Option ℤ
    → Option ℤ
    → Option ℤ
    → Option A
with_identity f (some a) (some b) (some c) (some d) (some e) = some (f a b c d e)
with_identity f _ _ _ _ _ = none

-- `_media_row_values`; none where it raises `scan_incomplete`.
unfoldable pub media_row_values :
    Sealer → LocalMedia → String → String → LocalMediaEntry → Option MediaIndexEntry
media_row_values z l first_seen observed e =
    with_identity
      (λ mode device inode modified changed.
        sign_row z (row_of z l first_seen observed e mode device inode modified changed))
      e.entry_mode e.entry_device e.entry_inode e.entry_modified_ns e.entry_changed_ns

-- `_directory_row_values`; the media root is the directory without parts.
unfoldable pub directory_row_values :
    Sealer → LocalMedia → Bool → String → String → MediaDirectory → MediaIndexEntry
directory_row_values z l no_parts first_seen observed d = sign_row z (record {
  record_type = "directory";
  media_path = d.directory_path;
  basename = if no_parts then "media" else d.last_part;
  parent_directory = if no_parts then "/" else l.parent d.directory_path;
  extension = "";
  mime_type = "";
  size = pos 0;
  sha256 = "";
  valid = true;
  detail = "";
  recovered = false;
  mode = d.directory_mode;
  device = d.directory_device;
  inode = d.directory_inode;
  modified_ns = d.directory_modified_ns;
  changed_ns = d.directory_changed_ns;
  directory_mapping_token = l.token_of d;
  directory_identity_json = l.json_of d;
  cache_signature = "";
  first_seen_at = first_seen;
  last_seen_at = observed;
  indexed_at = observed;
})

pub if_false : {A : Type 0} (b : Bool) (x y : A) → b ≡ false → (if b then x else y) ≡ y
if_false true x y h = absurd (cc)
if_false false x y h = refl

module _ (z : Sealer) (l : LocalMedia) where
  accepted :
      (r : MediaIndexEntry) (d : MediaDirectory)
      → (not (str_eq r.record_type "media") || not (row_is_signed z r)) ≡ false
      → l.normalize r.media_path ≡ some r.media_path
      → l.directory_from_index (l.parent r.media_path) r.directory_identity_json ≡ some d
      → (media_misfit z l r d || content_misfit z r) ≡ false
      → media_entry_from_row z l r ≡ ok (entry_of l r)
  unfolding media_entry_from_row
  accepted r d signed normal held fits =
      let body : MediaDirectory → Result LocalMediaEntry = λ d.
        if media_misfit z l r d || content_misfit z r then index_corrupt else ok (entry_of l r) in
      let reading : Option MediaDirectory → Result LocalMediaEntry =
        λ o. bind (or_corrupt o) body in
      let found = l.directory_from_index (l.parent r.media_path) r.directory_identity_json in
      let from : String → Result LocalMediaEntry =
        λ n. if not (str_eq n r.media_path) then index_corrupt else reading found in
      if_false (not (str_eq r.record_type "media") || not (row_is_signed z r)) index_corrupt
        (bind (or_corrupt (l.normalize r.media_path)) from) signed
      ∙ ap (λ (o : Option String). bind (or_corrupt o) from) normal
      ∙ if_false (not (str_eq r.media_path r.media_path)) index_corrupt (reading found)
          (let same = (str_eq_iff r.media_path r.media_path).1 refl in ground (arith, same))
      ∙ ap reading held
      ∙ if_false (media_misfit z l r d || content_misfit z r) index_corrupt (ok (entry_of l r)) fits

  -- What a scan says of a file that it could read, or could not.
  abbrev pub Content : LocalMediaEntry → Type 0
  Content e =
      ((e.available ≡ true)
        × (valid_token z (z.casefold e.entry_sha256) ≡ true)
        × (e.entry_mime_type ≢ "")
        × (e.entry_detail ≡ ""))
      ⊎ ((e.available ≡ false)
          × ((z.casefold e.entry_sha256 ≡ "") ⊎ (valid_token z (z.casefold e.entry_sha256) ≡ true))
          × (e.entry_mime_type ≡ "")
          × (e.entry_detail ≡ "invalid_image"))

  -- An entry of a scan: with the numbers that identify its file, under the name its path gives it.
  abbrev pub located : LocalMediaEntry → ℤ → ℤ → ℤ → ℤ → ℤ → LocalMediaEntry
  located e mode device inode modified changed = record e {
    filename = l.without_prefix e.entry_path;
    entry_mode = some mode;
    entry_device = some device;
    entry_inode = some inode;
    entry_modified_ns = some modified;
    entry_changed_ns = some changed;
  }

  Content-fits :
      (r : MediaIndexEntry) (e : LocalMediaEntry)
      → r ≡ record r {
        valid = e.available;
        sha256 = e.entry_sha256;
        mime_type = e.entry_mime_type;
        detail = e.entry_detail;
      }
      → Content e
      → content_misfit z r ≡ false
  unfolding content_misfit
  Content-fits r e same (inl h) =
      rw same (ground (arith, h, str_eq_iff e.entry_mime_type "", str_eq_iff e.entry_detail ""))
  Content-fits r e same (inr h) = rw same (
      ground (
        arith,
        h,
        str_eq_iff e.entry_mime_type "",
        str_eq_iff e.entry_detail "invalid_image",
        str_eq_iff (z.casefold e.entry_sha256) "",
      ))

  module _
      (hex : (payload : List PayloadValue)
        → (valid_token z (z.hmac payload) ≡ true)
          × (z.casefold (z.hmac payload) ≡ z.hmac payload)) where
    pub sign_row-signed : (r : MediaIndexEntry) → row_is_signed z (sign_row z r) ≡ true
    unfolding row_is_signed row_payload
    sign_row-signed r =
        let mac = z.hmac (row_payload r) in
        ground (arith, hex (row_payload r), str_eq_iff (z.casefold mac) mac)

    -- The row that a refresh writes of a scanned entry is read back as that entry: where its path is
    -- normal, its directory is known by the identity it carries and has its mapping token, it is a
    -- regular file with numbers that are not negative, and its content is one a scan reports. The
    -- signature of a row is a token in small letters.
    pub media_row_values-read :
        (first_seen observed : String) (e : LocalMediaEntry)
        (mode device inode modified changed : ℤ) (d : MediaDirectory)
        → l.normalize e.entry_path ≡ some e.entry_path
        → l.directory_from_index (l.parent e.entry_path) e.identity_json ≡ some d
        → l.token_of d ≡ e.mapping_token
        → valid_token z e.mapping_token ≡ true
        → l.is_regular mode ≡ true
        → (pos 0 ≤ℤ e.entry_size)
          × (pos 0 ≤ℤ device)
          × (pos 0 ≤ℤ inode)
          × (pos 0 ≤ℤ modified)
          × (pos 0 ≤ℤ changed)
        → Content e
        → let seen = located e mode device inode modified changed in
          (r : MediaIndexEntry) × (media_row_values z l first_seen observed seen ≡ some r)
          × (media_entry_from_row z l r ≡ ok seen)
    unfolding media_row_values media_misfit
    media_row_values-read first_seen observed e mode device inode modified changed d normal held
          token tokens regular numbers content =
        let seen = located e mode device inode modified changed in
        let r =
          sign_row z (row_of z l first_seen observed seen mode device inode modified changed) in
        let fits = Content-fits r seen refl content in
        let signed =
          sign_row-signed
            (row_of z l first_seen observed seen mode device inode modified changed) in
        (
          r,
          refl,
          accepted r d (ground (arith, signed)) normal held (
              ground (
                arith,
                fits,
                tokens,
                regular,
                numbers,
                str_eq_iff r.basename r.basename,
                str_eq_iff r.parent_directory r.parent_directory,
                str_eq_iff r.extension r.extension,
                str_eq_iff (l.token_of d) e.mapping_token,
                token,
              )),
        )
