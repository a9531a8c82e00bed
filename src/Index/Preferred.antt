-- ===== src/Index/Preferred.antt =====
-- app/services/media_index.py: what the reported status and the preferred snapshot say of the tables.
use nsfwtrack.Base.{
  Bool, true, false, not, ◌||◌, Option, none, some, List, sorted_by, str_eq, str_eq_iff,
  if◌then◌else◌, ◌≡◌, ◌≢◌, refl, ap, ◌∙◌, ◌⊎◌, inl, inr, arith, Bool-cases,
}
use nsfwtrack.Index.Contracts.{MediaIndexEntry, MediaIndexState, IndexStore, Sealer, valid_token}
use nsfwtrack.Index.Load.{
  Result, ok, index_corrupt, LocalMedia, MediaDirectory, MediaIndexSnapshot, snapshot_from,
  map_some, by_path, load_state, load_index_snapshot,
}
use nsfwtrack.Index.Invalidate.{trusts}
use nsfwtrack.Index.Status.{
  MediaIndexStatus, usable, status_from_state, loaded_status, status_in, get_media_index_status,
  Scanned, found, raises_path, raises_os, Observed, Scan, Source, index, filesystem, Preferred,
  Shown, preferred, path_error, os_error, assertion_error, same_root, listed_instead,
  observed_instead, scan_under, prefer, load_preferred_media_snapshot,
}
use nsfwtrack.Index.Reading.{Okay}
use nsfwtrack.Index.Sealed.{Sealed, snapshot_from-Sealed, load_index_snapshot-Sealed}

-- A status is given, and calls the index usable exactly where the load returns a snapshot.
abbrev pub Told : Option MediaIndexStatus → Result (Option MediaIndexSnapshot) → Type 0
Told none r = ⊥
Told (some t) r = usable t ≡ trusts r

module _ (z : Sealer) (l : LocalMedia) (s : MediaIndexState) where
  by_valid-Told :
      (b : Bool) (integrity : Bool) (q : Result MediaIndexSnapshot)
      → s.state_valid ≡ b
      → (b ≡ true → Okay (λ snap. snap.from_state ≡ s) q)
      → let r : Result (Option MediaIndexSnapshot) = if b then map_some q else ok none in
        Told
          (if not b
            then some (status_from_state (some s) true integrity none)
            else loaded_status s r)
          r
  unfolding status_from_state usable
  by_valid-Told false integrity q e h = ground (arith, e)
  by_valid-Told true integrity (ok snap) e h =
      ground (arith, ap (λ (t : MediaIndexState). t.state_valid) (h refl) ∙ e)
  by_valid-Told true integrity index_corrupt e h = ground arith

  from_same_state :
      (rows : List MediaIndexEntry) (q : Result MediaIndexSnapshot)
      → Okay (λ snap. Sealed z l rows snap × (snap.from_state ≡ s)) q
      → Okay (λ snap. snap.from_state ≡ s) q
  from_same_state rows (ok snap) h = h.1
  from_same_state rows index_corrupt h = tt

status_in-Told :
    (z : Sealer) (l : LocalMedia) (rows : List MediaIndexEntry) (s : Option MediaIndexState)
    → Told (status_in z s (load_state z l rows s)) (load_state z l rows s)
unfolding status_in load_state status_from_state usable
status_in-Told z l rows none = refl
status_in-Told z l rows (some s) =
    let q = snapshot_from z l s (sorted_by by_path rows) in
    by_valid-Told z l s s.state_valid
      (str_eq s.snapshot_signature "" || valid_token z s.snapshot_signature) q refl
      λ valid. from_same_state z l s rows q (snapshot_from-Sealed z l rows s valid)

by_schema-Told :
    (z : Sealer) (s : Option MediaIndexState) (b : Bool)
    (loaded : Result (Option MediaIndexSnapshot))
    → Told (status_in z s loaded) loaded
    → let r : Result (Option MediaIndexSnapshot) = if b then loaded else ok none in
      Told
        (if not b
          then some (status_from_state none false false (some "schema_upgrade_required"))
          else status_in z s r)
        r
unfolding status_from_state usable
by_schema-Told z s true loaded h = h
by_schema-Told z s false loaded h = refl

get_media_index_status-Told :
    (z : Sealer) (l : LocalMedia) (store : IndexStore)
    → Told (get_media_index_status z l store) (load_index_snapshot z l store)
unfolding get_media_index_status load_index_snapshot
get_media_index_status-Told z l store =
    by_schema-Told z store.state store.schema_available (load_state z l store.rows store.state)
      (status_in-Told z l store.rows store.state)

-- The scan found a root, and its first directory is that root.
pub record Agrees (l : LocalMedia) (scan : Scan) (o : Observed) (directories : List MediaDirectory)
    : Type 0 where
  pub seen : scan.observed ≡ found o
  pub listed : scan.scanned_directories ≡ found directories
  pub rooted : o.root_identity ≢ ""
  pub same : same_root l o.root_identity directories ≡ true

-- What a snapshot that is preferred shows, by its source.
abbrev pub Shows :
    LocalMedia → Scan → Result (Option MediaIndexSnapshot) → Preferred → Source → Type 0
Shows l scan r p index =
    (snap : MediaIndexSnapshot) × (r ≡ ok (some snap))
    × (p.shown_entries ≡ snap.entries)
    × (p.shown_directories ≡ snap.directories)
    × (usable p.shown_status ≡ true)
Shows l scan r p filesystem =
    (o : Observed) × (directories : List MediaDirectory) × Agrees l scan o directories
    × (trusts r ≡ false)
    × (p.shown_entries ≡ o.scanned)
    × (p.shown_directories ≡ directories)
    × (usable p.shown_status ≡ false)

-- Both scans are asked for: the first has found a root.
abbrev pub Rooted : Scan → Observed → Type 0
Rooted scan o = (scan.observed ≡ found o) × (o.root_identity ≢ "")

-- Why a path error is raised: by a scan, or for want of a root, or for another root.
abbrev pub NoPath : LocalMedia → Scan → Type 0
NoPath l scan =
    (scan.observed ≡ raises_path)
    ⊎ ((o : Observed) × (scan.observed ≡ found o) × (o.root_identity ≡ ""))
    ⊎ ((o : Observed) × Rooted scan o × (scan.scanned_directories ≡ raises_path))
    ⊎ ((o : Observed) × (directories : List MediaDirectory) × Rooted scan o
        × (scan.scanned_directories ≡ found directories)
        × (same_root l o.root_identity directories ≡ false))

abbrev pub NoSystem : Scan → Type 0
NoSystem scan =
    (scan.observed ≡ raises_os)
    ⊎ ((o : Observed) × Rooted scan o × (scan.scanned_directories ≡ raises_os))

abbrev pub Ends : LocalMedia → Scan → Result (Option MediaIndexSnapshot) → Shown → Type 0
Ends l scan r (preferred p) = Shows l scan r p p.shown_source
Ends l scan r path_error = (trusts r ≡ false) × NoPath l scan
Ends l scan r os_error = (trusts r ≡ false) × NoSystem scan
Ends l scan r assertion_error = ⊥

module _ (l : LocalMedia) (scan : Scan) (r : Result (Option MediaIndexSnapshot)) where
  listed_instead-Ends :
      (t : MediaIndexStatus) (o : Observed) (q : Scanned (List MediaDirectory))
      → trusts r ≡ false
      → usable t ≡ false
      → Rooted scan o
      → scan.scanned_directories ≡ q
      → Ends l scan r (listed_instead l t o q)
  unfolding listed_instead
  listed_instead-Ends t o raises_path d u h e = (d, inr (inr (inl (o, h, e))))
  listed_instead-Ends t o raises_os d u h e = (d, inr (o, h, e))
  listed_instead-Ends t o (found directories) d u h e =
      elim (Bool-cases (same_root l o.root_identity directories)) [
        | inl y ↦
            rw (listed_instead, y)
              (
                o,
                directories,
                record { seen = h.0; listed = e; rooted = h.1; same = y },
                d,
                refl,
                refl,
                u,
              )
        | inr n ↦ rw (listed_instead, n) (d, inr (inr (inr (o, directories, h, e, n))))
      ]

  observed_instead-Ends :
      (t : MediaIndexStatus) (q : Scanned Observed)
      → trusts r ≡ false
      → usable t ≡ false
      → scan.observed ≡ q
      → Ends l scan r (observed_instead l t scan.scanned_directories q)
  unfolding observed_instead
  observed_instead-Ends t raises_path d u e = (d, inl e)
  observed_instead-Ends t raises_os d u e = (d, inl e)
  observed_instead-Ends t (found o) d u e =
      let root = str_eq_iff o.root_identity "" in
      elim (Bool-cases (str_eq o.root_identity "")) [
        | inl y ↦ rw (observed_instead, y) (d, inr (inl (o, e, root.0 y)))
        | inr n ↦
            rw (observed_instead, n)
              (listed_instead-Ends t o scan.scanned_directories d u
                (e, λ at. absurd (let t = root.1 at in cc)) refl)
      ]

  scan_under-Ends :
      (t : Option MediaIndexStatus)
      → trusts r ≡ false
      → Told t r
      → Ends l scan r (scan_under l scan t)
  scan_under-Ends none d h = h
  scan_under-Ends (some t) d h = observed_instead-Ends t scan.observed d (h ∙ d) refl

prefer-Ends :
    (l : LocalMedia) (scan : Scan) (t : Option MediaIndexStatus)
    (r : Result (Option MediaIndexSnapshot))
    → ((snap : MediaIndexSnapshot) → r ≡ ok (some snap) → snap.from_state.state_valid ≡ true)
    → Told t r
    → Ends l scan r (prefer l scan t r)
unfolding status_from_state usable
prefer-Ends l scan t (ok (some snap)) valid h =
    (snap, refl, refl, refl, ground (arith, valid snap refl))
prefer-Ends l scan t (ok none) valid h = scan_under-Ends l scan (ok none) t refl h
prefer-Ends l scan t index_corrupt valid h = scan_under-Ends l scan index_corrupt t refl h

-- `load_preferred_media_snapshot` shows the index, under a status that calls it usable, exactly where
-- the load returns a snapshot, and shows that snapshot. Otherwise it shows what the scans have found,
-- under a status that does not call the index usable, exactly where both return, the first finds a root
-- and the first directory is that root; it raises a path error where a scan raises one, no root was
-- found or the first directory is another one, and an `OSError` where a scan raises one. The assertion
-- of the status never fails.
pub load_preferred_media_snapshot_result :
    (z : Sealer) (l : LocalMedia) (scan : Scan) (store : IndexStore)
    → Ends l scan (load_index_snapshot z l store) (load_preferred_media_snapshot z l scan store)
unfolding load_preferred_media_snapshot
load_preferred_media_snapshot_result z l scan store =
    prefer-Ends l scan (get_media_index_status z l store) (load_index_snapshot z l store)
      (λ snap e. (load_index_snapshot-Sealed z l store snap e).1.in_force)
      (get_media_index_status-Told z l store)
