-- ===== src/Index/Succeeds.antt =====
-- app/services/media_index.py, `refresh_media_index`: where nothing fails, it returns what was scanned.
use mathlib.Core.Path.{subst}
use nsfwtrack.Base.{
  Both, String, Bool, true, false, not, Option, some, List, ◌∷◌, ◌++◌, map, All, str_eq, str_eq_iff,
  if◌then◌else◌, ◌≡◌, ◌≢◌, refl, ap, ◌∙◌, arith, sorted_by, text_before, sorted_by-head,
}
use nsfwtrack.Index.Contracts.{MediaIndexEntry, IndexStore, Sealer, sign_state}
use nsfwtrack.Index.Load.{
  ok, LocalMediaEntry, MediaDirectory, LocalMedia, MediaIndexSnapshot, first_is_root,
  load_index_snapshot,
}
use nsfwtrack.Index.Rows.{media_row_values, directory_row_values, if_false}
use nsfwtrack.Index.Diff.{
  TrustedMediaRow, look_up, or_first, trusted_old_media_rows, trusted_directories, changes_of,
}
use nsfwtrack.Index.Refresh.{
  Observation, Surroundings, Coded, good, failed, chain, or_code, resolve_source, bad_source,
  parents_held, fresh_state,
}
use nsfwtrack.Index.Run.{paths_of, scans, all_values, prepared, conclude, refresh_media_index}
use nsfwtrack.Index.Refreshed.{Leaves, refresh_media_index_result}
use nsfwtrack.Index.Written.{
  IsHexdigest, IsScanned, IsPlaced, ReadsMedia, ReadsDirectory, scanned-ReadsMedia,
  placed-ReadsDirectory, each_coded-Both, map-Both,
}
use nsfwtrack.Index.Renewed.{by_entry_path, by_directory_path, load-renewed}

-- The dict of the rows that a scan may reuse.
abbrev pub cached_of : Sealer → LocalMedia → IndexStore → List (String × LocalMediaEntry)
cached_of z l store =
    map (λ (p : String × TrustedMediaRow). (p.0, p.1.entry)) (trusted_old_media_rows z l store.rows)

-- A refresh that nothing disturbs: both scans return, agree on the root and on every parent, and find
-- entries and directories as they are, with the root first in the order of the paths; the skips survive
-- their JSON; and the database takes the write.
pub record IsQuiet (z : Sealer) (l : LocalMedia) (w : Surroundings) (full : Bool)
    (store : IndexStore) (o : Observation) (root : MediaDirectory) (rest : List MediaDirectory)
    : Type 0 where
  pub signs : IsHexdigest z
  pub schema : store.schema_available ≡ true
  pub sees : w.scan_incremental (cached_of z l store) full ≡ some o
  pub lists : w.scan_directories ≡ some (root ∷ rest)
  pub identified : o.observed_root ≢ ""
  pub agreed_root : l.token_of root ≡ o.observed_root
  pub root_path : root.directory_path ≡ "/media"
  pub root_first :
      All (λ (d : MediaDirectory). text_before root.directory_path d.directory_path ≡ true) rest
  pub parents : parents_held l (root ∷ rest) o.observed_entries ≡ true
  pub scanned : All (IsScanned z l) o.observed_entries
  pub directories_placed : All (IsPlaced l w.no_parts) (root ∷ rest)
  pub skips_kept : l.decode_skips (w.encode_skips o.observed_skips) ≡ some o.observed_skips
  pub written : w.writes ≡ true

module _ (z : Sealer) (l : LocalMedia) (w : Surroundings) (full : Bool) (source : String)
    (store : IndexStore) (o : Observation) (root : MediaDirectory) (rest : List MediaDirectory)
    (q : IsQuiet z l w full store o root rest) where
  scans-good : scans l w full (trusted_old_media_rows z l store.rows) ≡ good (o, root ∷ rest)
  unfolding scans
  scans-good =
      let named : str_eq o.observed_root "" ≡ false =
        let same = str_eq_iff o.observed_root "" in ground (arith, same, q.identified) in
      let agreed : str_eq (l.token_of root) o.observed_root ≡ true =
        (str_eq_iff (l.token_of root) o.observed_root).1 q.agreed_root in
      rw (q.sees, named, q.lists, agreed, q.parents) refl

  values-good :
      (rows_m : List MediaIndexEntry) × (rows_d : List MediaIndexEntry) × (all_values z l w
          store.rows o
          (root ∷ rest)
        ≡ good (rows_m ++ rows_d))
      × Both (ReadsMedia z l) rows_m o.observed_entries
      × Both (ReadsDirectory z l) rows_d (root ∷ rest)
  unfolding all_values
  values-good =
      let trusted = trusted_old_media_rows z l store.rows in
      let since = trusted_directories z store.rows in
      let seen : LocalMediaEntry → String = λ e.
        or_first (λ (t : TrustedMediaRow). t.trusted_since) w.observed_at
          (look_up e.entry_path trusted) in
      let known : MediaDirectory → String =
        λ d. or_first (λ (s : String). s) w.observed_at (look_up d.directory_path since) in
      let media : LocalMediaEntry → Coded MediaIndexEntry =
        λ e. or_code "scan_incomplete" (media_row_values z l (seen e) w.observed_at e) in
      let folder : MediaDirectory → MediaIndexEntry =
        λ d. directory_row_values z l (w.no_parts d) (known d) w.observed_at d in
      let rows =
        each_coded-Both z l q.signs media o.observed_entries
          (λ e s.
            let r = scanned-ReadsMedia z l q.signs (seen e) w.observed_at e s in
            (r.0, ap (or_code "scan_incomplete") r.1, r.2))
          q.scanned in
      (
        rows.0,
        map folder (root ∷ rest),
        ap
            (λ (c : Coded (List MediaIndexEntry)).
              chain c λ rows. good (rows ++ map folder (root ∷ rest)))
            rows.1,
        rows.2,
        map-Both z l q.signs folder (root ∷ rest) w.no_parts
            (λ d p. placed-ReadsDirectory z l q.signs w.no_parts (known d) w.observed_at d p)
            q.directories_placed,
      )

  root_is_first : first_is_root l o.observed_root (sorted_by by_directory_path (root ∷ rest)) ≡ true
  root_is_first = rw (sorted_by-head by_directory_path root rest q.root_first) (
      ground (
        arith,
        str_eq_iff root.directory_path "/media",
        q.root_path,
        str_eq_iff (l.token_of root) o.observed_root,
        q.agreed_root,
      ))

  conclude-Renews :
      (snap : MediaIndexSnapshot) × ((conclude z l w full source store
          (prepared z l w full source store)).0
        ≡ good snap)
      × (snap.entries ≡ sorted_by by_entry_path o.observed_entries)
      × (snap.skips ≡ o.observed_skips)
      × (snap.directories ≡ sorted_by by_directory_path (root ∷ rest))
  unfolding conclude prepared fresh_state
  conclude-Renews =
      let trusted = trusted_old_media_rows z l store.rows in
      let v = values-good in
      let s =
        fresh_state w full source store.state o
          (changes_of (paths_of store.rows) trusted o.observed_entries) in
      let loaded =
        load-renewed z l v.0 v.1 o.observed_entries (root ∷ rest) v.3 v.4 q.signs s refl
          o.observed_skips refl q.skips_kept refl refl refl refl refl root_is_first store
          q.schema in
      let snap : MediaIndexSnapshot = record {
        entries = sorted_by by_entry_path o.observed_entries;
        skips = o.observed_skips;
        directories = sorted_by by_directory_path (root ∷ rest);
        from_state = sign_state z (v.0 ++ v.1) s;
      } in
      (snap, rw (scans-good, v.2, q.written, loaded) refl, refl, refl, refl)

left-loaded :
    (z : Sealer) (l : LocalMedia) (w : Surroundings) (full : Bool) (before after : IndexStore)
    (r : Coded MediaIndexSnapshot) (snap : MediaIndexSnapshot)
    → Leaves z l w full before r after
    → r ≡ good snap
    → load_index_snapshot z l after ≡ ok (some snap)
left-loaded z l w full before after r snap h e =
    (subst (λ c. Leaves z l w full before c after) e h).0

-- A refresh from a known source that nothing disturbs returns a snapshot: of all the scanned entries
-- in the order of their paths, the scanned skips, and the directories in the order of their paths,
-- whatever the tables held before; and a load from the tables that it leaves returns that snapshot.
pub refresh_media_index_succeeds :
    (z : Sealer) (l : LocalMedia) (w : Surroundings) (full : Bool) (refresh_source : Option String)
    (store : IndexStore) (o : Observation) (root : MediaDirectory) (rest : List MediaDirectory)
    → IsQuiet z l w full store o root rest
    → bad_source full (resolve_source full refresh_source) ≡ false
    → let r = refresh_media_index z l w full refresh_source store in
      (snap : MediaIndexSnapshot) × (r.0 ≡ good snap)
      × (snap.entries ≡ sorted_by by_entry_path o.observed_entries)
      × (snap.skips ≡ o.observed_skips)
      × (snap.directories ≡ sorted_by by_directory_path (root ∷ rest))
      × (load_index_snapshot z l r.1 ≡ ok (some snap))
unfolding refresh_media_index
refresh_media_index_succeeds z l w full refresh_source store o root rest q known =
    let source = resolve_source full refresh_source in
    let run = conclude z l w full source store (prepared z l w full source store) in
    let by_source : Coded MediaIndexSnapshot × IndexStore =
      if bad_source full source then (failed "invalid_refresh_source", store) else run in
    let r = refresh_media_index z l w full refresh_source store in
    let done = conclude-Renews z l w full source store o root rest q in
    let same : r ≡ run =
      if_false (not store.schema_available) (failed "schema_upgrade_required", store) by_source
        (ap not q.schema)
      ∙ if_false (bad_source full source) (failed "invalid_refresh_source", store) run known in
    let ended : r.0 ≡ good done.0 =
      ap (λ (p : Coded MediaIndexSnapshot × IndexStore). p.0) same ∙ done.1 in
    (
      done.0,
      ended,
      done.2,
      done.3,
      done.4,
      left-loaded z l w full store r.1 r.0 done.0
          (refresh_media_index_result z l w full refresh_source store) ended,
    )
