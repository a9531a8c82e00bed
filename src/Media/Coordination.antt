-- ===== src/Media/Coordination.antt =====
-- app/services/media_write_coordination.py: an operation on the media tree under the lock, and the
-- media index brought up to date, or marked stale, after it. The index is an interface.
use nsfwtrack.Base.{ℕ, String, Bool, true, false, Option, none, some, if◌then◌else◌, str_eq}
use nsfwtrack.Media.Identity.{Observed, verify}
use nsfwtrack.Media.Lock.{System, Ending, Objects, Descriptors, media_operation_lock}
use nsfwtrack.Media.Classify.{
  MediaFilesystemOutcome, no_filesystem_change, filesystem_outcome_unknown,
}

pub data IndexStatus : Type 0 where
  not_needed synchronized invalidated post_mutation_refresh_failed invalidation_failed : IndexStatus

-- `MediaIndexCoordinationResult`
pub record IndexResult : Type 0 where
  pub status : IndexStatus
  pub source : String
  pub error_code : Option String

-- How `refresh_media_index` ends: normally, with a `MediaIndexError`, with another exception.
pub data Refresh : Type 0 where
  refreshed : Refresh
  index_error : String → Refresh
  scan_error : Refresh

-- What the code calls of the session and of app/services/media_index.py, over the state `S` that the
-- database keeps: `rollback` and `invalidate reason`, which is `db.begin()` around
-- `invalidate_media_index`, say whether they returned.
pub record MediaIndex (S : Type 0) : Type 0 where
  pub rollback : S → Bool × S
  pub invalidate : String → S → Bool × S
  pub refresh : String → S → Refresh × S

-- Python's `a or b` on a text that may be missing.
abbrev pub or_text : Option String → String → String
or_text none b = b
or_text (some a) b = if str_eq a "" then b else a

module _ {S : Type 0} (index : MediaIndex S) where
  -- The `except` branch of `_invalidate`.
  unfoldable pub not_invalidated : String → Option String → S → IndexResult × S
  not_invalidated source error_code s = (
    record {
      status = invalidation_failed;
      source = source;
      error_code = some (or_text error_code "index_invalidation_failed");
    },
    (index.rollback s).1,
  )

  -- `_invalidate`
  unfoldable pub invalidate_index :
      String → String → IndexStatus → Option String → S → IndexResult × S
  unfolding not_invalidated
  invalidate_index source reason failed_status error_code s =
      let clean = index.rollback s in
      elim clean.0 [
        | false ↦ not_invalidated source error_code clean.1
        | true ↦
            let marked = index.invalidate reason clean.1 in
            elim marked.0 [
              | false ↦ not_invalidated source error_code marked.1
              | true ↦ (
                record { status = failed_status; source = source; error_code = error_code },
                marked.1,
              )
            ]
      ]

  -- The error code of a refresh that raised.
  abbrev pub refresh_code : Refresh → String
  refresh_code refreshed = ""
  refresh_code (index_error code) = code
  refresh_code scan_error = "scan_failed"

  -- `synchronize_media_index_after_mutation` where the tree has changed in a known way.
  unfoldable pub refresh_index : String → S → IndexResult × S
  unfolding invalidate_index
  refresh_index source s =
      let scan = index.refresh source s in
      let code = some (refresh_code scan.0) in
      elim scan.0 [
        | refreshed ↦ (record { status = synchronized; source = source; error_code = none }, scan.1)
        | _ ↦
            invalidate_index source "post_mutation_refresh_failed" post_mutation_refresh_failed code
              scan.1
      ]

  unfoldable pub synchronize_media_index_after_mutation :
      MediaFilesystemOutcome → String → Option String → S → IndexResult × S
  unfolding invalidate_index refresh_index
  synchronize_media_index_after_mutation outcome source invalidation_reason s =
      let reason = or_text invalidation_reason "filesystem_outcome_unknown" in
      elim outcome [
        | no_filesystem_change ↦
            (record { status = not_needed; source = source; error_code = none }, s)
        | filesystem_outcome_unknown ↦ invalidate_index source reason invalidated (some reason) s
        | _ ↦ refresh_index source s
      ]

-- `_verify_outcome`
unfoldable pub verify_outcome :
    ℕ → Objects → Observed → MediaFilesystemOutcome → MediaFilesystemOutcome
verify_outcome euid o seen outcome = elim (verify euid o.directory_identity o.lock_identity seen) [
  | none ↦ outcome
  | some code ↦ filesystem_outcome_unknown
]

-- How an operation ends: with a result or an exception.
pub data Operation (T E : Type 0) : Type 0 where
  result : T → Operation T E
  raised : E → Operation T E

-- What the caller supplies: `none` for a classifier that is not given.
pub record Mutation (S T E : Type 0) : Type 0 where
  pub source : String
  pub operation : S → Operation T E × S
  pub classify_result : T → MediaFilesystemOutcome
  pub classify_error : E → MediaFilesystemOutcome
  pub invalidation_reason : Option (E → Option String)
  pub result_invalidation_reason : Option (T → Option String)

-- `CoordinatedMediaMutation`, or `MediaMutationExecutionError` where the operation raised.
pub record Coordinated (T E : Type 0) : Type 0 where
  pub ended : Operation T E
  pub outcome : MediaFilesystemOutcome
  pub index : IndexResult

abbrev pub is_unknown : MediaFilesystemOutcome → Bool
is_unknown filesystem_outcome_unknown = true
is_unknown _ = false

abbrev pub reason_by : {A : Type 0} → Option (A → Option String) → A → Option String
reason_by none a = none
reason_by (some f) a = f a

module _ {S T E : Type 0} (index : MediaIndex S) (m : Mutation S T E) where
  -- The classifier's word on how the operation ended.
  abbrev pub classified : Operation T E → MediaFilesystemOutcome
  classified (result t) = m.classify_result t
  classified (raised e) = m.classify_error e

  abbrev pub reason_of : Operation T E → MediaFilesystemOutcome → Option String
  reason_of (raised e) outcome = reason_by m.invalidation_reason e
  reason_of (result t) outcome =
      if is_unknown outcome then reason_by m.result_invalidation_reason t else none

  -- The body under the lock: `seen` is what `verify` finds after the operation.
  unfoldable pub coordinate_body : ℕ → Observed → Objects → S → Coordinated T E × S
  unfolding verify_outcome synchronize_media_index_after_mutation
  coordinate_body euid seen o s =
      let ran = m.operation s in
      let outcome = verify_outcome euid o seen (classified ran.0) in
      let reason = reason_of ran.0 outcome in
      let synced = synchronize_media_index_after_mutation index outcome m.source reason ran.1 in
      (record { ended = ran.0; outcome = outcome; index = synced.0 }, synced.1)

  -- `coordinate_media_mutation`:
  -- the call's end, the store, and the process's descriptors; none where the fuel for a wait runs out.
  unfoldable pub coordinate_media_mutation :
      System
      → ℕ
      → ℕ
      → Observed
      → S
      → Descriptors
      → Option (Ending (Coordinated T E × S) × Descriptors)
  unfolding coordinate_body
  coordinate_media_mutation sys timeout fuel seen s ds =
      media_operation_lock sys timeout fuel (λ o d. (coordinate_body sys.euid seen o s, d)) ds

  -- `coordinate_media_mutation_async`: the operation is awaited while the lock is held.
  unfoldable pub coordinate_media_mutation_async :
      System
      → ℕ
      → ℕ
      → Observed
      → S
      → Descriptors
      → Option (Ending (Coordinated T E × S) × Descriptors)
  unfolding coordinate_body
  coordinate_media_mutation_async sys timeout fuel seen s ds =
      media_operation_lock sys timeout fuel (λ o d. (coordinate_body sys.euid seen o s, d)) ds
