-- ===== src/Media/Identity.antt =====
-- app/services/media_operation_lock.py: what the lock's directory and file must be. A mode is a
-- number: its format in bits 12 to 15, its permissions in the twelve below.
use nsfwtrack.Base.{ℕ, ◌/◌, ◌%◌, Bool, ◌&&◌, ◌||◌, not, Option, none, some, ◌==◌, if◌then◌else◌}

pub data LockErrorCode : Type 0 where
  media_lock_changed media_lock_unsafe media_lock_unavailable media_busy : LockErrorCode

pub record LockIdentity : Type 0 where
  pub mode : ℕ
  pub device : ℕ
  pub inode : ℕ
  pub owner : ℕ
  pub links : ℕ

-- `stat.S_IFMT(mode)`, as its four bits.
abbrev pub file_format : ℕ → ℕ
file_format mode = mode / 4096 % 16

abbrev pub is_directory : ℕ → Bool
is_directory mode = file_format mode == 4

abbrev pub is_regular : ℕ → Bool
is_regular mode = file_format mode == 8

-- `stat.S_IMODE(mode) & 0o022`
abbrev pub others_write : ℕ → Bool
others_write mode = mode / 16 % 2 == 1 || mode / 2 % 2 == 1

-- `stat.S_IMODE(mode) & 0o077`
abbrev pub others_access : ℕ → Bool
others_access mode = not (mode % 64 == 0)

-- `_validate_directory_identity`, whether it passes.
unfoldable pub valid_directory : ℕ → LockIdentity → Bool
valid_directory euid i =
    not (not (is_directory i.mode) || not (i.owner == euid) || others_write i.mode)

-- `_validate_lock_identity`, whether it passes.
unfoldable pub valid_lock : ℕ → LockIdentity → Bool
valid_lock euid i =
    not (
      not (is_regular i.mode)
      || not (i.owner == euid)
      || not (i.links == 1)
      || others_access i.mode)

unfoldable pub same_directory_identity : LockIdentity → LockIdentity → Bool
same_directory_identity first second =
    file_format first.mode == file_format second.mode
    && first.device == second.device
    && first.inode == second.inode
    && first.owner == second.owner

-- `==` of two identities
unfoldable pub same_identity : LockIdentity → LockIdentity → Bool
same_identity first second =
    first.mode == second.mode
    && first.device == second.device
    && first.inode == second.inode
    && first.owner == second.owner
    && first.links == second.links

-- What the four calls of `verify` find, none where one of them raises `OSError`.
pub record Observed : Type 0 where
  pub current_directory : Option LockIdentity
  pub mapped_directory : Option LockIdentity
  pub current_lock : Option LockIdentity
  pub mapped_lock : Option LockIdentity

-- `MediaOperationLock.verify`, with the error that it raises.
unfoldable pub verify : ℕ → LockIdentity → LockIdentity → Observed → Option LockErrorCode
verify euid directory lock seen = elim seen.current_directory [
  | none ↦ some media_lock_changed
  | some cd ↦ elim seen.mapped_directory [
    | none ↦ some media_lock_changed
    | some md ↦ elim seen.current_lock [
      | none ↦ some media_lock_changed
      | some cl ↦ elim seen.mapped_lock [
        | none ↦ some media_lock_changed
        | some ml ↦
            if not (same_directory_identity cd directory)
              || not (same_directory_identity md directory)
              || not (same_identity cl lock)
              || not (same_identity ml lock)
            then some media_lock_changed
            else if not (valid_directory euid cd)
            then some media_lock_unsafe
            else if not (valid_lock euid cl)
            then some media_lock_unsafe
            else none
      ]
    ]
  ]
]
