-- ===== src/Index/Written.antt =====
-- app/services/media_index.py: the rows that a refresh writes of what was scanned, read back.
use mathlib.Core.Path.{subst}
use nsfwtrack.Base.{
  Both, String, Bool, true, false, not, ◌||◌, Option, none, some, List, [], ◌∷◌, map, All, str_eq,
  str_eq_iff, if◌then◌else◌, ℤ, pos, ◌≤ℤ◌, ◌≡◌, refl, sym, ap, ◌∙◌, arith,
}
use nsfwtrack.Index.Contracts.{
  PayloadValue, MediaIndexEntry, Sealer, valid_token, row_payload, row_is_signed,
}
use nsfwtrack.Index.Load.{
  Result, ok, index_corrupt, bind, or_corrupt, LocalMediaEntry, MediaDirectory, LocalMedia,
  media_entry_from_row, same_number, directory_misfit, directory_from_row,
}
use nsfwtrack.Index.Rows.{
  with_identity, row_of, sign_row, media_row_values, directory_row_values, if_false, Content,
  located, sign_row-signed, media_row_values-read,
}
use nsfwtrack.Index.Refresh.{Coded, good, each_coded}

-- hexdigest: a signature is a token in small letters.
abbrev pub IsHexdigest : Sealer → Type 0
IsHexdigest z =
    (payload : List PayloadValue)
    → (valid_token z (z.hmac payload) ≡ true) × (z.casefold (z.hmac payload) ≡ z.hmac payload)

-- An entry as a scan finds it: of a regular file with its numbers, none of them negative, under a
-- normal path, in a directory that its identity names, with a content that a scan reports.
pub record IsScanned (z : Sealer) (l : LocalMedia) (e : LocalMediaEntry) : Type 0 where
  pub file_mode : ℤ
  pub file_device : ℤ
  pub file_inode : ℤ
  pub file_modified : ℤ
  pub file_changed : ℤ
  pub folder : MediaDirectory
  pub placed : e ≡ located z l e file_mode file_device file_inode file_modified file_changed
  pub normal : l.normalize e.entry_path ≡ some e.entry_path
  pub found : l.directory_from_index (l.parent e.entry_path) e.identity_json ≡ some folder
  pub mapped : l.token_of folder ≡ e.mapping_token
  pub token : valid_token z e.mapping_token ≡ true
  pub regular : l.is_regular file_mode ≡ true
  pub numbers :
      (pos 0 ≤ℤ e.entry_size)
      × (pos 0 ≤ℤ file_device)
      × (pos 0 ≤ℤ file_inode)
      × (pos 0 ≤ℤ file_modified)
      × (pos 0 ≤ℤ file_changed)
  pub content : Content z l e

-- A directory that its own identity names, and that is the root exactly where it has no parts.
pub record IsPlaced (l : LocalMedia) (no_parts : MediaDirectory → Bool) (d : MediaDirectory)
    : Type 0 where
  pub named : l.directory_from_index d.directory_path (l.json_of d) ≡ some d
  pub partless : no_parts d ≡ str_eq d.directory_path "/media"

-- A row that is read as an entry, and one that is read as a directory.
abbrev pub ReadsMedia : Sealer → LocalMedia → MediaIndexEntry → LocalMediaEntry → Type 0
ReadsMedia z l r e =
    (r.record_type ≡ "media") × (r.media_path ≡ e.entry_path) × (media_entry_from_row z l r ≡ ok e)

abbrev pub ReadsDirectory : Sealer → LocalMedia → MediaIndexEntry → MediaDirectory → Type 0
ReadsDirectory z l r d =
    (r.record_type ≡ "directory")
    × (r.media_path ≡ d.directory_path)
    × (directory_from_row z l r ≡ ok d)

with_identity-keeps {κ} :
    {A : Type 0} (P : A → Type κ) (f : ℤ → ℤ → ℤ → ℤ → ℤ → A) (a b c d e : Option ℤ) (r : A)
    → ((m v i t u : ℤ) → P (f m v i t u))
    → with_identity f a b c d e ≡ some r
    → P r
with_identity-keeps P f (some a) (some b) (some c) (some d) (some e) r k h =
    subst P (cc) (k a b c d e)
with_identity-keeps P f none b c d e r k h = absurd (cc)
with_identity-keeps P f (some a) none c d e r k h = absurd (cc)
with_identity-keeps P f (some a) (some b) none d e r k h = absurd (cc)
with_identity-keeps P f (some a) (some b) (some c) none e r k h = absurd (cc)
with_identity-keeps P f (some a) (some b) (some c) (some d) none r k h = absurd (cc)

module _ (z : Sealer) (l : LocalMedia) (hex : IsHexdigest z) where
  pub scanned-ReadsMedia :
      (first_seen observed : String) (e : LocalMediaEntry)
      → IsScanned z l e
      → (r : MediaIndexEntry) × (media_row_values z l first_seen observed e ≡ some r)
        × ReadsMedia z l r e
  unfolding media_row_values
  scanned-ReadsMedia first_seen observed e s =
      let read =
        media_row_values-read z l hex first_seen observed e s.file_mode s.file_device s.file_inode
          s.file_modified s.file_changed s.folder s.normal s.found s.mapped s.token s.regular
          s.numbers s.content in
      let here : (r : MediaIndexEntry) × (media_row_values z l first_seen observed e ≡ some r)
          × (media_entry_from_row z l r ≡ ok e) =
        subst
          (λ x.
            (r : MediaIndexEntry) × (media_row_values z l first_seen observed x ≡ some r)
            × (media_entry_from_row z l r ≡ ok x))
          (sym s.placed) read in
      let kind =
        with_identity-keeps
          (λ (r : MediaIndexEntry). (r.record_type ≡ "media") × (r.media_path ≡ e.entry_path))
          (λ mode device inode modified changed.
            sign_row z (row_of z l first_seen observed e mode device inode modified changed))
          e.entry_mode e.entry_device e.entry_inode e.entry_modified_ns e.entry_changed_ns here.0
          (λ m v i t u. (refl, refl)) here.1 in
      (here.0, here.1, (kind.0, kind.1, here.2))

  directory-read :
      (r : MediaIndexEntry) (d : MediaDirectory)
      → (not (str_eq r.record_type "directory") || not (row_is_signed z r)) ≡ false
      → l.directory_from_index r.media_path r.directory_identity_json ≡ some d
      → directory_misfit l r d ≡ false
      → directory_from_row z l r ≡ ok d
  unfolding directory_from_row
  directory-read r d signed found fits =
      let body : MediaDirectory → Result MediaDirectory =
        λ d. if directory_misfit l r d then index_corrupt else ok d in
      if_false (not (str_eq r.record_type "directory") || not (row_is_signed z r)) index_corrupt
        (bind (or_corrupt (l.directory_from_index r.media_path r.directory_identity_json)) body)
        signed
      ∙ ap (λ (o : Option MediaDirectory). bind (or_corrupt o) body) found
      ∙ if_false (directory_misfit l r d) index_corrupt (ok d) fits

  same_number_refl : (n : ℤ) → same_number n n ≡ true
  same_number_refl n = ground arith

  str_eq_refl : (s : String) → str_eq s s ≡ true
  str_eq_refl s = (str_eq_iff s s).1 refl

  pub placed-ReadsDirectory :
      (no_parts : MediaDirectory → Bool) (first_seen observed : String) (d : MediaDirectory)
      → IsPlaced l no_parts d
      → ReadsDirectory z l (directory_row_values z l (no_parts d) first_seen observed d) d
  unfolding directory_row_values directory_misfit row_payload
  placed-ReadsDirectory no_parts first_seen observed d p =
      let r = directory_row_values z l (no_parts d) first_seen observed d in
      (
        refl,
        refl,
        directory-read r d (ground (arith, sign_row-signed z l hex r)) p.named (
            rw p.partless (
              let root = str_eq d.directory_path "/media" in
              ground (
                arith,
                str_eq_refl (if root then "media" else d.last_part),
                str_eq_refl (if root then "/" else l.parent d.directory_path),
                str_eq_refl (l.token_of d),
                same_number_refl d.directory_mode,
                same_number_refl d.directory_device,
                same_number_refl d.directory_inode,
                same_number_refl d.directory_modified_ns,
                same_number_refl d.directory_changed_ns,
              ))),
      )

  -- A list of scanned entries is written as rows that are read as them.
  pub each_coded-Both :
      (f : LocalMediaEntry → Coded MediaIndexEntry) (es : List LocalMediaEntry)
      → ((e : LocalMediaEntry)
          → IsScanned z l e
          → (r : MediaIndexEntry) × (f e ≡ good r) × ReadsMedia z l r e)
      → All (IsScanned z l) es
      → (rows : List MediaIndexEntry) × (each_coded f es ≡ good rows)
        × Both (ReadsMedia z l) rows es
  each_coded-Both f [] k h = ([], refl, tt)
  each_coded-Both f (e ∷ es) k h =
      let one = k e h.0 in
      let more = each_coded-Both f es k h.1 in (one.0 ∷ more.0, rw (one.1, more.1), (one.2, more.2))

  pub map-Both :
      (f : MediaDirectory → MediaIndexEntry) (ds : List MediaDirectory)
      (no_parts : MediaDirectory → Bool)
      → ((d : MediaDirectory) → IsPlaced l no_parts d → ReadsDirectory z l (f d) d)
      → All (IsPlaced l no_parts) ds
      → Both (ReadsDirectory z l) (map f ds) ds
  map-Both f [] no_parts k h = tt
  map-Both f (d ∷ ds) no_parts k h = (k d h.0, map-Both f ds no_parts k h.1)
