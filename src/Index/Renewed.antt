-- ===== src/Index/Renewed.antt =====
-- app/services/media_index.py: the load accepts what a refresh has written.
use nsfwtrack.Base.{
  Both, sorted_by-Both, filter-append_left, filter-append_right, String, Bool, true, false, not,
  Option, none, some, List, [], ◌∷◌, ◌++◌, map, str_eq, str_eq_iff, length, count_where,
  if◌then◌else◌, pos, ◌≡◌, refl, sym, ap, ◌∙◌, arith, sorted_by, IsOrder, text_before,
  text_before-IsOrder, text_before_antisym, sorted_by-map-sorted_by, count_where-sorted_by,
  filter-sorted_by, length-sorted_by,
}
use nsfwtrack.Index.Contracts.{
  MediaIndexEntry, MediaIndexState, string, IndexStore, Sealer, valid_token, state_values,
  state_payload, state_signature, signatures_of, sign_state,
}
use nsfwtrack.Index.Load.{
  Result, ok, LocalMediaEntry, MediaDirectory, LocalMediaScanSkip, LocalMedia, MediaIndexSnapshot,
  media_entry_from_row, directory_from_row, same_number, each, of_type, by_path, integrity_valid,
  first_is_root, agrees, snapshot_from, map_some, load_state, load_index_snapshot,
}
use nsfwtrack.Index.Written.{IsHexdigest, ReadsMedia, ReadsDirectory}

abbrev pub by_entry_path : LocalMediaEntry → LocalMediaEntry → Bool
by_entry_path a b = text_before a.entry_path b.entry_path

abbrev pub by_directory_path : MediaDirectory → MediaDirectory → Bool
by_directory_path a b = text_before a.directory_path b.directory_path

by_path-IsOrder : IsOrder by_path
by_path-IsOrder = record {
  trans = λ a b c. text_before-IsOrder.trans a.media_path b.media_path c.media_path;
  total = λ a b. text_before-IsOrder.total a.media_path b.media_path;
}

pub if_true : {A : Type 0} (b : Bool) (x y : A) → b ≡ true → (if b then x else y) ≡ x
if_true true x y h = refl
if_true false x y h = absurd (cc)

each-ok :
    {A B : Type 0} (R : A → B → Type 0) (f : A → Result B) (xs : List A) (ys : List B)
    → ((x : A) (y : B) → R x y → f x ≡ ok y)
    → Both R xs ys
    → each f xs ≡ ok ys
unfolding each
each-ok R f [] [] k h = refl
each-ok R f [] (y ∷ ys) k h = absurd h
each-ok R f (x ∷ xs) [] k h = absurd h
each-ok R f (x ∷ xs) (y ∷ ys) k h = rw (k x y h.0, each-ok R f xs ys k h.1)

-- The rows of a table whose media rows are read as the entries and whose directory rows as the
-- directories.
module _ (z : Sealer) (l : LocalMedia) (rows_m rows_d : List MediaIndexEntry)
    (es : List LocalMediaEntry) (ds : List MediaDirectory) (media : Both (ReadsMedia z l) rows_m es)
    (folders : Both (ReadsDirectory z l) rows_d ds) where
  kinds :
      (of_type "media" (rows_m ++ rows_d) ≡ rows_m)
      × (of_type "directory" (rows_m ++ rows_d) ≡ rows_d)
  kinds = (
    filter-append_left (ReadsMedia z l) (ReadsDirectory z l)
        (λ (r : MediaIndexEntry). str_eq r.record_type "media") rows_m es rows_d ds media folders
        (λ r e h. (str_eq_iff r.record_type "media").1 h.0) (λ r d h. rw h.0 refl),
    filter-append_right (ReadsMedia z l) (ReadsDirectory z l)
        (λ (r : MediaIndexEntry). str_eq r.record_type "directory") rows_m es rows_d ds media
        folders (λ r e h. rw h.0 refl) (λ r d h. (str_eq_iff r.record_type "directory").1 h.0),
  )

  reads :
      (each (media_entry_from_row z l) (of_type "media" (sorted_by by_path (rows_m ++ rows_d)))
        ≡ ok (sorted_by by_entry_path es))
      × (each (directory_from_row z l) (of_type "directory" (sorted_by by_path (rows_m ++ rows_d)))
          ≡ ok (sorted_by by_directory_path ds))
  reads =
      let is : String → MediaIndexEntry → Bool = λ t r. str_eq r.record_type t in
      (
        rw (filter-sorted_by by_path (is "media") by_path-IsOrder (rows_m ++ rows_d), kinds.0)
            (each-ok (ReadsMedia z l) (media_entry_from_row z l) (sorted_by by_path rows_m)
              (sorted_by by_entry_path es) (λ r e h. h.2)
              (sorted_by-Both (ReadsMedia z l) by_path by_entry_path
                (λ r r' e e' h h'. rw (h.1, h'.1)) rows_m es media)),
        rw (filter-sorted_by by_path (is "directory") by_path-IsOrder (rows_m ++ rows_d), kinds.1)
            (each-ok (ReadsDirectory z l) (directory_from_row z l) (sorted_by by_path rows_d)
              (sorted_by by_directory_path ds) (λ r e h. h.2)
              (sorted_by-Both (ReadsDirectory z l) by_path by_directory_path
                (λ r r' e e' h h'. rw (h.1, h'.1)) rows_d ds folders)),
      )

  module _ (hex : IsHexdigest z) (s : MediaIndexState)
      (version : s.index_format_version ≡ pos 1) where
    -- The state is signed over the rows in whatever order they are read.
    signed_in_order :
        state_signature z (sign_state z (rows_m ++ rows_d) s) (sorted_by by_path (rows_m ++ rows_d))
        ≡ state_signature z s (rows_m ++ rows_d)
    unfolding state_signature state_payload state_values
    signed_in_order =
        ap (λ (t : List String). z.hmac (state_values s ++ map string t))
          (sorted_by-map-sorted_by text_before text_before-IsOrder text_before_antisym
            (λ (r : MediaIndexEntry). r.cache_signature) by_path (rows_m ++ rows_d))

    state_token :
        (valid_token z (state_signature z s (rows_m ++ rows_d)) ≡ true)
        × (z.casefold (state_signature z s (rows_m ++ rows_d))
            ≡ state_signature z s (rows_m ++ rows_d))
    unfolding state_signature
    state_token = hex (state_payload s (signatures_of (rows_m ++ rows_d)))

    integrity :
        integrity_valid z (sign_state z (rows_m ++ rows_d) s) (sorted_by by_path (rows_m ++ rows_d))
        ≡ true
    unfolding integrity_valid
    integrity =
        let sig = state_signature z s (rows_m ++ rows_d) in
        let sorted_sig =
          state_signature z (sign_state z (rows_m ++ rows_d) s)
            (sorted_by by_path (rows_m ++ rows_d)) in
        let format : same_number s.index_format_version (pos 1) ≡ true = rw version refl in
        let folded : z.casefold sig ≡ sorted_sig = state_token.1 ∙ sym signed_in_order in
        ground (arith, format, state_token.0, folded, str_eq_iff (z.casefold sig) sorted_sig)

    -- With the counts of the entries and the skips, and the root as the first directory, the load takes
    -- the tables and shows the entries in the order of their paths.
    module _ (skips : List LocalMediaScanSkip) (valid : s.state_valid ≡ true)
        (decoded : l.decode_skips s.skipped_details_json ≡ some skips)
        (entry_count : s.entry_count ≡ length es)
        (valid_count : s.valid_count ≡ count_where (λ (e : LocalMediaEntry). e.available) es)
        (damaged_count : s.damaged_count
          ≡ count_where (λ (e : LocalMediaEntry). not e.available) es)
        (recovered_count : s.recovered_count
          ≡ count_where (λ (e : LocalMediaEntry). e.is_recovered) es)
        (skipped_count : s.skipped_count ≡ length skips)
        (rooted : first_is_root l s.current_media_root_identity (sorted_by by_directory_path ds)
          ≡ true) where
      agreed :
          agrees l
            (sign_state z (rows_m ++ rows_d) s)
            (sorted_by by_entry_path es)
            skips
            (sorted_by by_directory_path ds)
          ≡ true
      unfolding agrees
      agreed = ground (
        arith,
        rooted,
        entry_count,
        valid_count,
        damaged_count,
        recovered_count,
        skipped_count,
        length-sorted_by by_entry_path es,
        count_where-sorted_by by_entry_path (λ (e : LocalMediaEntry). e.available) es,
        count_where-sorted_by by_entry_path (λ (e : LocalMediaEntry). not e.available) es,
        count_where-sorted_by by_entry_path (λ (e : LocalMediaEntry). e.is_recovered) es,
      )

      abbrev pub renewed : MediaIndexSnapshot
      renewed = record {
        entries = sorted_by by_entry_path es;
        skips = skips;
        directories = sorted_by by_directory_path ds;
        from_state = sign_state z (rows_m ++ rows_d) s;
      }

      snapshot-renewed :
          snapshot_from z l
            (sign_state z (rows_m ++ rows_d) s)
            (sorted_by by_path (rows_m ++ rows_d))
          ≡ ok renewed
      unfolding snapshot_from
      snapshot-renewed = rw (integrity, reads.0, reads.1, decoded, agreed) refl

      pub load-renewed :
          (store : IndexStore)
          → store.schema_available ≡ true
          → load_index_snapshot z l (record store {
            rows = rows_m ++ rows_d;
            state = some (sign_state z (rows_m ++ rows_d) s);
          })
            ≡ ok (some renewed)
      unfolding load_index_snapshot load_state
      load-renewed store schema =
          let loaded : Result (Option MediaIndexSnapshot) = map_some (
            snapshot_from z l (sign_state z (rows_m ++ rows_d) s)
              (sorted_by by_path (rows_m ++ rows_d))) in
          if_true store.schema_available
            (load_state z l (rows_m ++ rows_d) (some (sign_state z (rows_m ++ rows_d) s))) (ok none)
            schema
          ∙ if_true s.state_valid loaded (ok none) valid
          ∙ ap map_some snapshot-renewed
