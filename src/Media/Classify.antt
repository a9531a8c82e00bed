-- ===== src/Media/Classify.antt =====
-- app/services/media_write_coordination.py: how the result or the error of an operation on the media
-- tree is read as what happened to the tree. An attribute that an object lacks is `none`, or the
-- default that the code gives.
use nsfwtrack.Base.{
  String, Bool, false, ◌&&◌, ◌||◌, not, Option, none, some, List, [], ◌∷◌, any, member, str_eq,
  if◌then◌else◌,
}

pub data MediaFilesystemOutcome : Type 0 where
  no_filesystem_change filesystem_changed_known : MediaFilesystemOutcome
  filesystem_changed_partial_known filesystem_outcome_unknown : MediaFilesystemOutcome

-- `value == text` where the value may be missing.
abbrev pub is_text : Option String → String → Bool
is_text none t = false
is_text (some s) t = str_eq s t

abbrev pub is_one_of : Option String → List String → Bool
is_one_of none ts = false
is_one_of (some s) ts = member s ts

-- An exception: its class, its `code` and its `created`.
pub record Failure : Type 0 where
  pub type_name : String
  pub code : Option String
  pub created : Bool

-- `expected_error_names`
unfoldable pub expected_error_name : String → Option String
expected_error_name operation =
    if str_eq operation "upload"
    then some "LocalMediaUploadError"
    else if str_eq operation "rename"
    then some "MediaFileRenameError"
    else if str_eq operation "move"
    then some "MediaFileRenameError"
    else if str_eq operation "batch"
    then some "MediaBatchError"
    else if str_eq operation "alias"
    then some "MediaAliasNormalizationError"
    else if str_eq operation "duplicate"
    then some "MediaDuplicateCleanupError"
    else if str_eq operation "damaged"
    then some "MediaDamagedCleanupError"
    else if str_eq operation "recovery"
    then some "MediaCleanupRestoreError"
    else if str_eq operation "anchor_delete"
    then some "MediaCleanupDeleteError"
    else if str_eq operation "residue_delete"
    then some "MediaUploadResidueCleanupError"
    else if str_eq operation "root_init"
    then some "MediaRootDiagnosticError"
    else none

-- The first five tests of `classify_media_operation_error`.
unfoldable pub left_unknown : String → Failure → Bool
left_unknown operation error =
    str_eq operation "upload" && is_text error.code "storage_unavailable"
    || member operation ("rename" ∷ "move" ∷ []) && is_text error.code "target_cleanup_failed"
    || str_eq operation "duplicate" && is_text error.code "anchor_cleanup_failed"
    || str_eq operation "recovery" && is_text error.code "recovery_cleanup_failed"
    || str_eq operation "root_init" && error.created

unfoldable pub classify_media_operation_error : String → Failure → MediaFilesystemOutcome
classify_media_operation_error operation error =
    if left_unknown operation error
    then filesystem_outcome_unknown
    else if is_text (expected_error_name operation) error.type_name
    then no_filesystem_change
    else filesystem_outcome_unknown

-- `classify_upload_result`, on the result's `filesystem_changed`.
unfoldable pub classify_upload_result : Bool → MediaFilesystemOutcome
classify_upload_result changed = if changed then filesystem_changed_known else no_filesystem_change

-- `classify_rename_result`, on the result's `warning_code` and `source_removed`.
unfoldable pub classify_rename_result : Option String → Bool → MediaFilesystemOutcome
classify_rename_result warning_code source_removed =
    if is_text warning_code "commit_outcome_unknown"
    then filesystem_outcome_unknown
    else if not source_removed
    then filesystem_changed_partial_known
    else filesystem_changed_known

pub record BatchItem : Type 0 where
  pub status : Option String
  pub code : Option String

abbrev pub item_unknown : BatchItem → Bool
item_unknown item =
    is_text item.status "unknown"
    || is_one_of item.code
        ("commit_outcome_unknown" ∷ "target_cleanup_failed" ∷ "unexpected_failure" ∷ [])

abbrev pub item_changed : BatchItem → Bool
item_changed item = is_one_of item.status ("success" ∷ "source_retained" ∷ [])

abbrev pub item_failed : BatchItem → Bool
item_failed item = is_text item.status "failed"

abbrev pub item_retained : BatchItem → Bool
item_retained item = is_text item.status "source_retained"

unfoldable pub classify_batch_result : List BatchItem → MediaFilesystemOutcome
classify_batch_result items =
    if any item_unknown items
    then filesystem_outcome_unknown
    else if not (any item_changed items)
    then no_filesystem_change
    else if any item_failed items
    then filesystem_changed_partial_known
    else if any item_retained items
    then filesystem_changed_partial_known
    else filesystem_changed_known

-- `classify_alias_result`, on the result's `database_outcome` and the `status` of each of its paths.
unfoldable pub classify_alias_result : Option String → List (Option String) → MediaFilesystemOutcome
classify_alias_result database_outcome paths =
    if is_text database_outcome "unknown"
    then filesystem_outcome_unknown
    else if not (any (λ p. is_text p "deleted") paths)
    then no_filesystem_change
    else if any (λ p. is_text p "retained") paths
    then filesystem_changed_partial_known
    else filesystem_changed_known

-- `classify_duplicate_result`, on whether `deletion_failures` has an entry.
unfoldable pub classify_duplicate_result : Bool → MediaFilesystemOutcome
classify_duplicate_result failures =
    if failures then filesystem_changed_partial_known else filesystem_changed_known

-- `classify_recovery_result`, on the result's `anchor_removed`.
unfoldable pub classify_recovery_result : Bool → MediaFilesystemOutcome
classify_recovery_result anchor_removed =
    if not anchor_removed then filesystem_changed_partial_known else filesystem_changed_known

unfoldable pub classify_known_filesystem_change : {R : Type 0} → R → MediaFilesystemOutcome
classify_known_filesystem_change result = filesystem_changed_known
