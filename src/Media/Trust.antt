-- ===== src/Media/Trust.antt =====
-- app/services/media_write_coordination.py: what the media index is worth after an operation.
use mathlib.Core.Path.{subst}
use nsfwtrack.Media.Guard.{media_operation_lock-result}
use nsfwtrack.Base.{
  ℕ, String, Bool, true, false, Option, none, some, ◌≡◌, refl, arith, ◌⊎◌, inl, inr, Bool-cases,
}
use nsfwtrack.Media.Identity.{Observed, verify}
use nsfwtrack.Media.Lock.{System, Objects, Descriptors, returned, open_lock_objects}
use nsfwtrack.Media.Classify.{
  MediaFilesystemOutcome, no_filesystem_change, filesystem_outcome_unknown,
  filesystem_changed_known, filesystem_changed_partial_known,
}
use nsfwtrack.Media.Coordination.{
  MediaIndex, IndexStatus, Refresh, refreshed, index_error, scan_error, not_needed, synchronized,
  invalidated, post_mutation_refresh_failed, invalidation_failed, invalidate_index, not_invalidated,
  refresh_index, synchronize_media_index_after_mutation, Mutation, Coordinated, coordinate_body,
  coordinate_media_mutation, verify_outcome, classified, reason_of, refresh_code, or_text,
}

-- What the code relies on of the index: a call to invalidate it that returns leaves it untrusted, a
-- refresh that returns leaves it in accord with the tree.
pub record IndexLaws {S : Type 0} (index : MediaIndex S) : Type 1 where
  pub trusted : S → Bool
  pub fresh : S → Type 0
  pub invalidate_law :
      (reason : String) (s : S)
      → (index.invalidate reason s).0 ≡ true
      → trusted (index.invalidate reason s).1 ≡ false
  pub refresh_law :
      (source : String) (s : S)
      → (index.refresh source s).0 ≡ refreshed
      → fresh (index.refresh source s).1

-- A rollback or a call to invalidate that raised.
abbrev pub CannotMark : {S : Type 0} → MediaIndex S → Type 0
CannotMark {S = S} index =
    (s : S) × (((index.rollback s).0 ≡ false)
      ⊎ ((reason : String) × ((index.invalidate reason s).0 ≡ false)))

module _ {S : Type 0} {index : MediaIndex S} (laws : IndexLaws index) where
  -- What a status says of the store, after an operation with the given outcome that left `before`.
  abbrev pub Says : MediaFilesystemOutcome → S → IndexStatus → S → Type 0
  Says outcome before not_needed s = (outcome ≡ no_filesystem_change) × (s ≡ before)
  Says outcome before synchronized s = laws.fresh s
  Says outcome before invalidated s =
      (outcome ≡ filesystem_outcome_unknown) × (laws.trusted s ≡ false)
  Says outcome before post_mutation_refresh_failed s = laws.trusted s ≡ false
  Says outcome before invalidation_failed s = CannotMark index

  not_invalidated-status :
      (source : String) (code : Option String) (s : S)
      → (not_invalidated index source code s).0.status ≡ invalidation_failed
  unfolding not_invalidated
  not_invalidated-status source code s = refl

  invalidate_index-Says :
      (source reason : String) (status : IndexStatus) (code : Option String) (s before : S)
      (outcome : MediaFilesystemOutcome)
      → ((s' : S) → laws.trusted s' ≡ false → Says outcome before status s')
      → let r = invalidate_index index source reason status code s in
        Says outcome before r.0.status r.1
  unfolding invalidate_index not_invalidated
  invalidate_index-Says source reason status code s before outcome k =
      elim (Bool-cases (index.rollback s).0) [
        | inr e ↦ rw (invalidate_index, e) (s, inl e)
        | inl e ↦ elim (Bool-cases (index.invalidate reason (index.rollback s).1).0) [
          | inr f ↦ rw (invalidate_index, e, f) ((index.rollback s).1, inr (reason, f))
          | inl f ↦
              rw (invalidate_index, e, f)
                (k (index.invalidate reason (index.rollback s).1).1
                  (laws.invalidate_law reason (index.rollback s).1 f))
        ]
      ]

  refresh_index-Says :
      (source : String) (s before : S) (outcome : MediaFilesystemOutcome)
      → let r = refresh_index index source s in Says outcome before r.0.status r.1
  unfolding refresh_index
  refresh_index-Says source s before outcome = read (index.refresh source s).0 refl
    where
      read :
          (g : Refresh)
          → (index.refresh source s).0 ≡ g
          → Says outcome before
              (refresh_index index source s).0.status
              (refresh_index index source s).1
      read refreshed e = rw (refresh_index, e) (laws.refresh_law source s e)
      read (index_error code) e =
          rw (refresh_index, e)
            (invalidate_index-Says source "post_mutation_refresh_failed"
              post_mutation_refresh_failed (some (refresh_code index (index.refresh source s).0))
              (index.refresh source s).1 before outcome (λ s' h. h))
      read scan_error e =
          rw (refresh_index, e)
            (invalidate_index-Says source "post_mutation_refresh_failed"
              post_mutation_refresh_failed (some (refresh_code index (index.refresh source s).0))
              (index.refresh source s).1 before outcome (λ s' h. h))

  pub synchronize-Says :
      (outcome : MediaFilesystemOutcome) (source : String) (reason : Option String) (s : S)
      → let r = synchronize_media_index_after_mutation index outcome source reason s in
        Says outcome s r.0.status r.1
  unfolding synchronize_media_index_after_mutation
  synchronize-Says no_filesystem_change source reason s = (refl, refl)
  synchronize-Says filesystem_outcome_unknown source reason s =
      invalidate_index-Says source (or_text reason "filesystem_outcome_unknown") invalidated
        (some (or_text reason "filesystem_outcome_unknown")) s s filesystem_outcome_unknown
        (λ s' h. (refl, h))
  synchronize-Says filesystem_changed_known source reason s =
      refresh_index-Says source s s filesystem_changed_known
  synchronize-Says filesystem_changed_partial_known source reason s =
      refresh_index-Says source s s filesystem_changed_partial_known

module _ {S T E : Type 0} {index : MediaIndex S} (laws : IndexLaws index) (m : Mutation S T E) where
  -- What a coordinated operation reports, and what is so.
  pub record Honest (euid : ℕ) (o : Objects) (seen : Observed) (s : S) (c : Coordinated T E)
      (s' : S) : Type 0 where
    pub ran : c.ended ≡ (m.operation s).0
    pub moved :
        (verify euid o.directory_identity o.lock_identity seen ≡ none
          × c.outcome ≡ classified index m (m.operation s).0)
        ⊎ (c.outcome ≡ filesystem_outcome_unknown)
    pub index_says : Says laws c.outcome (m.operation s).1 c.index.status s'

  verify_outcome-cases :
      (euid : ℕ) (o : Objects) (seen : Observed) (outcome : MediaFilesystemOutcome)
      → (verify euid o.directory_identity o.lock_identity seen ≡ none
          × verify_outcome euid o seen outcome ≡ outcome)
        ⊎ (verify_outcome euid o seen outcome ≡ filesystem_outcome_unknown)
  unfolding verify_outcome
  verify_outcome-cases euid o seen outcome = ground arith

  coordinate_body-Honest :
      (euid : ℕ) (o : Objects) (seen : Observed) (s : S)
      → let r = coordinate_body index m euid seen o s in Honest euid o seen s r.0 r.1
  unfolding coordinate_body
  coordinate_body-Honest euid o seen s =
      let outcome = verify_outcome euid o seen (classified index m (m.operation s).0) in
      record {
        ran = refl;
        moved = verify_outcome-cases euid o seen (classified index m (m.operation s).0);
        index_says =
            synchronize-Says laws outcome m.source (reason_of index m (m.operation s).0 outcome)
              (m.operation s).1;
      }

  -- An operation that ran under the lock is reported with how it ended, by a result or an exception,
  -- and with the classifier's outcome only if the lock's objects still stand, and otherwise with the
  -- unknown one. The index's status is then true of the store: nothing changed and nothing was
  -- touched; or a refresh has brought the index in accord with the tree; or the index is no longer
  -- trusted, as it must be after an unknown outcome; or it could not be marked, since the database
  -- raised.
  pub coordinate_media_mutation-Honest :
      (sys : System) (timeout fuel : ℕ) (seen : Observed) (s : S) (ds : Descriptors)
      (c : Coordinated T E) (s' : S) (ds' : Descriptors)
      → coordinate_media_mutation index m sys timeout fuel seen s ds ≡ some (returned (c, s'), ds')
      → (o : Objects) × ((open_lock_objects sys ds).0 ≡ returned o) × Honest sys.euid o seen s c s'
  unfolding coordinate_media_mutation
  coordinate_media_mutation-Honest sys timeout fuel seen s ds c s' ds' h =
      let ran =
        media_operation_lock-result sys timeout fuel
          (λ o d. (coordinate_body index m sys.euid seen o s, d)) ds (c, s') ds' h in
      (
        ran.0,
        ran.1,
        subst (λ (r : Coordinated T E × S). Honest sys.euid ran.0 seen s r.0 r.1) ran.2
            (coordinate_body-Honest sys.euid ran.0 seen s),
      )
