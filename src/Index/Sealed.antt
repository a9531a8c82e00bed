-- ===== src/Index/Sealed.antt =====
-- app/services/media_index.py, `_load_index_snapshot`: what a snapshot that it returns has behind it.
use mathlib.Core.Path.{subst}
use nsfwtrack.Base.{
  Both, count_where, ◌+◌, String, Bool, true, false, not, Option, none, some, List, [], ◌∷◌, length,
  str_eq_iff, if◌then◌else◌, ℤ, pos, negsuc, sorted_by, ◌≡◌, refl, sym, ap, arith, Bool-cases, inl,
  inr,
}
use nsfwtrack.Index.Contracts.{
  MediaIndexEntry, MediaIndexState, IndexStore, Sealer, state_signature,
}
use nsfwtrack.Index.Load.{
  Result, ok, index_corrupt, bind, LocalMediaEntry, MediaDirectory, LocalMediaScanSkip, LocalMedia,
  or_corrupt, media_entry_from_row, directory_from_row, each, of_type, MediaIndexSnapshot,
  integrity_valid, first_is_root, agrees, by_path, same_number, snapshot_from, map_some, load_state,
  load_index_snapshot,
}
use nsfwtrack.Index.Reading.{
  Okay, bind-Okay, if_corrupt-Okay, or_corrupt-some, IsMedia, IsDirectory,
  media_entry_from_row-IsMedia, directory_from_row-IsDirectory,
}

each-Both :
    {A B : Type 0} (R : A → B → Type 0) (f : A → Result B) (xs : List A)
    → ((x : A) → Okay (R x) (f x))
    → Okay (Both R xs) (each f xs)
unfolding each
each-Both R f [] k = tt
each-Both {A = A} {B = B} R f (x ∷ xs) k =
    bind-Okay (Both R (x ∷ xs)) (f x) (λ y. bind (each f xs) λ ys. ok (y ∷ ys))
      λ y ey.
        bind-Okay (Both R (x ∷ xs)) (each f xs) (λ ys. ok (y ∷ ys))
          λ ys eys. (subst (Okay (R x)) ey (k x), subst (Okay (Both R xs)) eys (each-Both R f xs k))

count_where-not :
    {A : Type 0} (p : A → Bool) (xs : List A)
    → count_where p xs + count_where (λ x. not (p x)) xs ≡ length xs
count_where-not p [] = refl
count_where-not p (x ∷ xs) = elim (Bool-cases (p x)) [
  | inl y ↦ rw y (omega (arith, count_where-not p xs))
  | inr n ↦ rw n (omega (arith, count_where-not p xs))
]

same_number-eq : (n : ℤ) → same_number n (pos 1) ≡ true → n ≡ pos 1
same_number-eq (pos n) h = ap pos (ground (arith, h))
same_number-eq (negsuc n) h = absurd (ground (arith, h))

-- A directory list that begins with the media root, of the given identity.
abbrev pub RootFirst : LocalMedia → String → List MediaDirectory → Type 0
RootFirst l token [] = ⊥
RootFirst l token (d ∷ ds) = (d.directory_path ≡ "/media") × (l.token_of d ≡ token)

first_is_root-RootFirst :
    (l : LocalMedia) (token : String) (ds : List MediaDirectory)
    → first_is_root l token ds ≡ true
    → RootFirst l token ds
first_is_root-RootFirst l token [] h = absurd (cc)
first_is_root-RootFirst l token (d ∷ ds) h = (
  ground (arith, h, str_eq_iff d.directory_path "/media"),
  ground (arith, h, str_eq_iff (l.token_of d) token),
)

-- What a snapshot has behind it: its state is the one signed for the rows of the table, of this
-- format; each row of a media file or of a directory, in the order of the paths, is signed itself and
-- is what the snapshot shows; and the counts of the state are those of the snapshot.
pub record Sealed (z : Sealer) (l : LocalMedia) (rows : List MediaIndexEntry)
    (snap : MediaIndexSnapshot) : Type 0 where
  pub in_force : snap.from_state.state_valid ≡ true
  pub this_format : snap.from_state.index_format_version ≡ pos 1
  pub state_signed :
      z.casefold snap.from_state.snapshot_signature
      ≡ state_signature z snap.from_state (sorted_by by_path rows)
  pub media : Both (IsMedia z l) (of_type "media" (sorted_by by_path rows)) snap.entries
  pub directory :
      Both (IsDirectory z l) (of_type "directory" (sorted_by by_path rows)) snap.directories
  pub skipped : l.decode_skips snap.from_state.skipped_details_json ≡ some snap.skips
  pub counted : length snap.entries ≡ snap.from_state.entry_count
  pub parted :
      snap.from_state.valid_count + snap.from_state.damaged_count ≡ snap.from_state.entry_count
  pub skip_count : length snap.skips ≡ snap.from_state.skipped_count
  pub rooted : RootFirst l snap.from_state.current_media_root_identity snap.directories

module _ (z : Sealer) (l : LocalMedia) (rows : List MediaIndexEntry) (s : MediaIndexState) where
  agrees-Sealed :
      (entries : List LocalMediaEntry) (skips : List LocalMediaScanSkip)
      (directories : List MediaDirectory)
      → s.state_valid ≡ true
      → integrity_valid z s (sorted_by by_path rows) ≡ true
      → Both (IsMedia z l) (of_type "media" (sorted_by by_path rows)) entries
      → Both (IsDirectory z l) (of_type "directory" (sorted_by by_path rows)) directories
      → l.decode_skips s.skipped_details_json ≡ some skips
      → agrees l s entries skips directories ≡ true
      → Sealed z l rows
          (record { entries = entries; skips = skips; directories = directories; from_state = s })
  unfolding agrees integrity_valid
  agrees-Sealed entries skips directories valid integrity media directory decoded agreed =
      let total = count_where-not (λ (e : LocalMediaEntry). e.available) entries in
      record {
        in_force = valid;
        this_format = same_number-eq s.index_format_version (ground (arith, integrity));
        state_signed = ground (
          arith,
          integrity,
          str_eq_iff (z.casefold s.snapshot_signature)
              (state_signature z s (sorted_by by_path rows)),
        );
        media = media;
        directory = directory;
        skipped = decoded;
        counted = ground (arith, agreed);
        parted = ground (arith, agreed, total);
        skip_count = ground (arith, agreed);
        rooted =
            first_is_root-RootFirst l s.current_media_root_identity directories
              (ground (arith, agreed));
      }

  pub snapshot_from-Sealed :
      s.state_valid ≡ true
      → Okay
          (λ snap. Sealed z l rows snap × (snap.from_state ≡ s))
          (snapshot_from z l s (sorted_by by_path rows))
  unfolding snapshot_from
  snapshot_from-Sealed valid =
      let sorted = sorted_by by_path rows in
      let Q : MediaIndexSnapshot → Type 0 = λ snap. Sealed z l rows snap × (snap.from_state ≡ s) in
      let snap : List LocalMediaEntry
          → List MediaDirectory
          → List LocalMediaScanSkip
          → MediaIndexSnapshot =
        λ entries directories skips. record {
          entries = entries;
          skips = skips;
          directories = directories;
          from_state = s;
        } in
      let ending : List LocalMediaEntry
          → List MediaDirectory
          → List LocalMediaScanSkip
          → Result MediaIndexSnapshot =
        λ entries directories skips.
          if not (agrees l s entries skips directories)
          then index_corrupt
          else ok (snap entries directories skips) in
      let media = each (media_entry_from_row z l) (of_type "media" sorted) in
      let directory = each (directory_from_row z l) (of_type "directory" sorted) in
      let skipping = or_corrupt (l.decode_skips s.skipped_details_json) in
      let third : List LocalMediaEntry → List MediaDirectory → Result MediaIndexSnapshot =
        λ entries directories. bind skipping (ending entries directories) in
      let second : List LocalMediaEntry → Result MediaIndexSnapshot =
        λ entries. bind directory (third entries) in
      if_corrupt-Okay Q (not (integrity_valid z s sorted)) (bind media second) λ integrity.
        bind-Okay Q media second λ entries e1.
          bind-Okay Q directory (third entries) λ directories e2.
            bind-Okay Q skipping (ending entries directories) λ skips e3.
              if_corrupt-Okay Q (not (agrees l s entries skips directories))
                (ok (snap entries directories skips))
                λ agreed. (
                  agrees-Sealed entries skips directories valid (ground (arith, integrity))
                      (subst (Okay (Both (IsMedia z l) (of_type "media" sorted))) e1 (
                        each-Both (IsMedia z l) (media_entry_from_row z l) (of_type "media" sorted)
                          (media_entry_from_row-IsMedia z l)))
                      (subst (Okay (Both (IsDirectory z l) (of_type "directory" sorted))) e2 (
                        each-Both (IsDirectory z l) (directory_from_row z l)
                          (of_type "directory" sorted) (directory_from_row-IsDirectory z l)))
                      (or_corrupt-some (l.decode_skips s.skipped_details_json) skips e3)
                      (ground (arith, agreed)),
                  refl,
                )

abbrev Loaded :
    Sealer
    → LocalMedia
    → List MediaIndexEntry
    → Option MediaIndexState
    → Option MediaIndexSnapshot
    → Type 0
Loaded z l rows s none = Unit
Loaded z l rows s (some snap) = (s ≡ some snap.from_state) × Sealed z l rows snap

map_some-Okay :
    (z : Sealer) (l : LocalMedia) (rows : List MediaIndexEntry) (s : MediaIndexState)
    (r : Result MediaIndexSnapshot)
    → Okay (λ snap. Sealed z l rows snap × (snap.from_state ≡ s)) r
    → Okay (Loaded z l rows (some s)) (map_some r)
map_some-Okay z l rows s (ok snap) h = (ap some (sym h.1), h.0)
map_some-Okay z l rows s index_corrupt h = tt

if_ok-Okay {κ} :
    {A : Type 0} (Q : Option A → Type κ) (b : Bool) (r : Result (Option A))
    → Q none
    → (b ≡ true → Okay Q r)
    → Okay Q (if b then r else ok none)
if_ok-Okay Q true r n h = h refl
if_ok-Okay Q false r n h = n

load_state-Loaded :
    (z : Sealer) (l : LocalMedia) (rows : List MediaIndexEntry) (s : Option MediaIndexState)
    → Okay (Loaded z l rows s) (load_state z l rows s)
unfolding load_state
load_state-Loaded z l rows none = tt
load_state-Loaded z l rows (some s) =
    let snap = snapshot_from z l s (sorted_by by_path rows) in
    if_ok-Okay (Loaded z l rows (some s)) s.state_valid (map_some snap) tt
      λ valid. map_some-Okay z l rows s snap (snapshot_from-Sealed z l rows s valid)

load_index_snapshot-Loaded :
    (z : Sealer) (l : LocalMedia) (store : IndexStore)
    → Okay (Loaded z l store.rows store.state) (load_index_snapshot z l store)
unfolding load_index_snapshot
load_index_snapshot-Loaded z l store =
    if_ok-Okay (Loaded z l store.rows store.state) store.schema_available
      (load_state z l store.rows store.state) tt λ e. load_state-Loaded z l store.rows store.state

-- A snapshot that is loaded stands on the stored state, which is valid, of format 1 and signed over
-- all that it says and the signatures of all rows. Each row of a media file, in the order of the
-- paths, is signed over its own values, has a normal path, a directory whose mapping token it repeats
-- and a size that is not negative, has a digest where it is readable, and is the snapshot's entry in
-- that place; each row of a directory is signed and is the snapshot's directory in that place, and
-- the media root of the state's identity comes first. The entries, the readable and damaged ones
-- together, and the skips are as many as the state counts.
pub load_index_snapshot-Sealed :
    (z : Sealer) (l : LocalMedia) (store : IndexStore) (snap : MediaIndexSnapshot)
    → load_index_snapshot z l store ≡ ok (some snap)
    → (store.state ≡ some snap.from_state) × Sealed z l store.rows snap
load_index_snapshot-Sealed z l store snap h =
    subst (Okay (Loaded z l store.rows store.state)) h (load_index_snapshot-Loaded z l store)
