-- ===== src/Media/Lock.antt =====
-- app/services/media_operation_lock.py: opening the lock's objects, waiting for the two locks, and
-- the context manager. The operating system's answers are parameters; times are milliseconds.
use nsfwtrack.Base.{
  ℕ, zero, suc, ◌+◌, Bool, true, false, ◌||◌, not, Option, none, some, List, ◌∷◌, ◌==◌, leb,
  if◌then◌else◌, filter,
}
use nsfwtrack.Media.Identity.{
  LockErrorCode, media_lock_unsafe, media_lock_unavailable, media_busy, LockIdentity,
  valid_directory, valid_lock, Observed, verify,
}

-- A system call: its value, or the `errno` of its `OSError`.
pub data Sys (A : Type 0) : Type 0 where
  done : A → Sys A
  failed : ℕ → Sys A

-- One `flock` call: taken, `BlockingIOError`, or another `OSError`.
pub data Flock : Type 0 where
  taken would_block : Flock
  flock_error : ℕ → Flock

-- The process's open descriptors and the locks that it holds through them.
pub record Descriptors : Type 0 where
  pub opened : List ℕ
  pub held : List ℕ

-- What the system answers in one use of the lock: `flock_directory n` and `flock_lock n` are the
-- answers to the n-th attempt, and `clock_directory n` and `clock_lock n` the time read after it;
-- `closes fd` says whether `os.close(fd)` returns, `unlocks fd` whether `LOCK_UN` does.
pub record System : Type 0 where
  pub euid : ℕ
  pub open_directory : Sys ℕ
  pub stat_directory : Sys LockIdentity
  pub open_lock : Sys ℕ
  pub stat_lock : Sys LockIdentity
  pub opened_seen : Observed
  pub start : ℕ
  pub flock_directory : ℕ → Flock
  pub clock_directory : ℕ → ℕ
  pub flock_lock : ℕ → Flock
  pub clock_lock : ℕ → ℕ
  pub locked_seen : Observed
  pub closes : ℕ → Bool
  pub unlocks : ℕ → Bool

-- How a part of the code ends: normally, with a lock error, or with an `OSError` of its own.
pub data Ending (A : Type 0) : Type 0 where
  returned : A → Ending A
  lock_error : LockErrorCode → Ending A
  os_error : Ending A

abbrev pub drop_fd : ℕ → List ℕ → List ℕ
drop_fd fd = filter (λ x. not (x == fd))

unfoldable pub opens : ℕ → Descriptors → Descriptors
opens fd ds = record { opened = fd ∷ ds.opened; held = ds.held }

-- A descriptor is gone after `close`, even where the call raises, and so is its lock.
unfoldable pub close : ℕ → Descriptors → Descriptors
close fd ds = record { opened = drop_fd fd ds.opened; held = drop_fd fd ds.held }

unfoldable pub locks : ℕ → Descriptors → Descriptors
locks fd ds = record { opened = ds.opened; held = fd ∷ ds.held }

-- `_unlock_quietly`
unfoldable pub unlock_quietly : System → ℕ → Descriptors → Descriptors
unlock_quietly sys fd ds =
    if sys.unlocks fd then record { opened = ds.opened; held = drop_fd fd ds.held } else ds

-- `errno in {ELOOP, EISDIR, ENXIO}`
unfoldable pub open_error : ℕ → LockErrorCode
open_error errno =
    if errno == 40 || errno == 21 || errno == 6 then media_lock_unsafe else media_lock_unavailable

pub record Objects : Type 0 where
  pub directory_fd : ℕ
  pub lock_fd : ℕ
  pub directory_identity : LockIdentity
  pub lock_identity : LockIdentity

-- The `except` branches of `_open_lock_objects`: the descriptors that are open are closed, the
-- lock's first; an `os.close` that raises replaces the error and skips the rest.
unfoldable pub abandon_directory :
    System → ℕ → LockErrorCode → Descriptors → Ending Objects × Descriptors
abandon_directory sys dir code ds =
    (if sys.closes dir then lock_error code else os_error, close dir ds)

unfoldable pub abandon_both :
    System → ℕ → ℕ → LockErrorCode → Descriptors → Ending Objects × Descriptors
unfolding abandon_directory
abandon_both sys dir lock code ds = elim (sys.closes lock) [
  | true ↦ abandon_directory sys dir code (close lock ds)
  | false ↦ (os_error, close lock ds)
]

abbrev pub objects : ℕ → ℕ → LockIdentity → LockIdentity → Objects
objects dir lock directory_identity lock_identity = record {
  directory_fd = dir;
  lock_fd = lock;
  directory_identity = directory_identity;
  lock_identity = lock_identity;
}

-- `_open_lock_objects` from the lock file's opening on.
unfoldable pub open_lock_file :
    System → ℕ → LockIdentity → Descriptors → Ending Objects × Descriptors
unfolding abandon_both
open_lock_file sys dir directory ds = elim sys.open_lock [
  | failed errno ↦ abandon_directory sys dir (open_error errno) ds
  | done lock ↦ elim sys.stat_lock [
    | failed errno ↦ abandon_both sys dir lock (open_error errno) (opens lock ds)
    | done i ↦ elim (valid_lock sys.euid i) [
      | false ↦ abandon_both sys dir lock media_lock_unsafe (opens lock ds)
      | true ↦ elim (verify sys.euid directory i sys.opened_seen) [
        | some code ↦ abandon_both sys dir lock code (opens lock ds)
        | none ↦ (returned (objects dir lock directory i), opens lock ds)
      ]
    ]
  ]
]

unfoldable pub open_lock_objects : System → Descriptors → Ending Objects × Descriptors
unfolding open_lock_file abandon_directory
open_lock_objects sys ds = elim sys.open_directory [
  | failed errno ↦ (lock_error (open_error errno), ds)
  | done dir ↦ elim sys.stat_directory [
    | failed errno ↦ abandon_directory sys dir (open_error errno) (opens dir ds)
    | done i ↦ elim (valid_directory sys.euid i) [
      | false ↦ abandon_directory sys dir media_lock_unsafe (opens dir ds)
      | true ↦ open_lock_file sys dir i (opens dir ds)
    ]
  ]
]

-- What one attempt of `_try_flock` leads to.
pub data Attempt : Type 0 where
  acquired poll : Attempt
  give_up : LockErrorCode → Attempt

-- `EACCES` and `EAGAIN` are polled like `BlockingIOError`.
unfoldable pub attempt : Flock → ℕ → ℕ → Attempt
attempt taken now deadline = acquired
attempt would_block now deadline = if leb deadline now then give_up media_busy else poll
attempt (flock_error errno) now deadline =
    if not (errno == 13 || errno == 11)
    then give_up media_lock_unavailable
    else if leb deadline now
    then give_up media_busy
    else poll

-- `_try_flock` from the n-th attempt on: none where the fuel runs out, otherwise the error, if any.
unfoldable pub try_flock : (ℕ → Flock) → (ℕ → ℕ) → ℕ → ℕ → ℕ → Option (Option LockErrorCode)
try_flock flock clock deadline zero n = none
try_flock flock clock deadline (suc fuel) n =
    let rest = try_flock flock clock deadline fuel (suc n) in
    elim (attempt (flock n) (clock n) deadline) [
      | acquired ↦ some none
      | give_up code ↦ some (some code)
      | poll ↦ rest
    ]

-- The `finally` block once both descriptors are open.
unfoldable pub release : System → Objects → Bool → Bool → Descriptors → Descriptors
unfolding unlock_quietly close
release sys o directory_locked file_locked ds =
    let unlocked = if file_locked then unlock_quietly sys o.lock_fd ds else ds in
    let free = if directory_locked then unlock_quietly sys o.directory_fd unlocked else unlocked in
    close o.directory_fd (close o.lock_fd free)

-- The `with` statement from the two locks on, and the `finally` block: none where the fuel for a wait
-- runs out.
unfoldable pub hold_locks :
    {R : Type 0}
    → System
    → ℕ
    → ℕ
    → (Objects → Descriptors → R × Descriptors)
    → Objects
    → Descriptors
    → Option (Ending R × Descriptors)
unfolding try_flock release
hold_locks sys deadline fuel body o ds =
    let one = locks o.directory_fd ds in
    let both = locks o.lock_fd one in
    let ran = body o both in
    elim (try_flock sys.flock_directory sys.clock_directory deadline fuel 0) [
      | none ↦ none
      | some (some code) ↦ some (lock_error code, release sys o false false ds)
      | some none ↦ elim (try_flock sys.flock_lock sys.clock_lock deadline fuel 0) [
        | none ↦ none
        | some (some code) ↦ some (lock_error code, release sys o true false one)
        | some none ↦ elim (verify sys.euid o.directory_identity o.lock_identity sys.locked_seen) [
          | some code ↦ some (lock_error code, release sys o true true both)
          | none ↦ some (returned ran.0, release sys o true true ran.1)
        ]
      ]
    ]

-- `media_operation_lock` around a body, with the fuel for each of the two waits. The body takes the
-- objects and the descriptors; how it ends passes through.
unfoldable pub media_operation_lock :
    {R : Type 0}
    → System
    → ℕ
    → ℕ
    → (Objects → Descriptors → R × Descriptors)
    → Descriptors
    → Option (Ending R × Descriptors)
unfolding open_lock_objects hold_locks
media_operation_lock sys timeout fuel body ds =
    let ds' = (open_lock_objects sys ds).1 in
    elim (open_lock_objects sys ds).0 [
      | lock_error code ↦ some (lock_error code, ds')
      | os_error ↦ some (os_error, ds')
      | returned o ↦ hold_locks sys (sys.start + timeout) fuel body o ds'
    ]
