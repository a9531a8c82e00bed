-- ===== src/Media/Guard.antt =====
-- app/services/media_operation_lock.py: what is known of the lock's objects when the body runs.
use nsfwtrack.Base.{ℕ, ◌/◌, ◌%◌, true, false, Option, none, some, ◌==◌, ◌≡◌, refl, arith, ◌+◌}
use nsfwtrack.Media.Identity.{
  LockIdentity, Observed, verify, valid_directory, valid_lock, same_directory_identity,
  same_identity, file_format,
}
use nsfwtrack.Media.Lock.{
  System, Descriptors, Objects, Ending, returned, open_lock_objects, try_flock, hold_locks,
  media_operation_lock, lock_error, os_error, locks,
}

-- The directory as a safe place: a directory of the user that group and others cannot write to.
pub record SafeDirectory (euid : ℕ) (i : LockIdentity) : Type 0 where
  pub format : i.mode / 4096 % 16 ≡ 4
  pub owned : i.owner ≡ euid
  pub group_write : i.mode / 16 % 2 ≡ 0
  pub other_write : i.mode / 2 % 2 ≡ 0

-- The lock file as a private one: a regular file of the user, with one name, of which group and
-- others have no permission.
pub record PrivateFile (euid : ℕ) (i : LockIdentity) : Type 0 where
  pub format : i.mode / 4096 % 16 ≡ 8
  pub owned : i.owner ≡ euid
  pub one_name : i.links ≡ 1
  pub private : i.mode % 64 ≡ 0

valid_directory-tests :
    (euid : ℕ) (i : LockIdentity)
    → valid_directory euid i ≡ true
    → (file_format i.mode ≡ 4)
      × (i.owner ≡ euid)
      × ((i.mode / 16 % 2 == 1) ≡ false)
      × ((i.mode / 2 % 2 == 1) ≡ false)
unfolding valid_directory
valid_directory-tests euid i h = ground arith

valid_directory-Safe :
    (euid : ℕ) (i : LockIdentity) → valid_directory euid i ≡ true → SafeDirectory euid i
valid_directory-Safe euid i h =
    let t = valid_directory-tests euid i h in
    record {
      format = t.0;
      owned = t.1;
      group_write = ground (arith, t.2);
      other_write = ground (arith, t.3);
    }

valid_lock-Private : (euid : ℕ) (i : LockIdentity) → valid_lock euid i ≡ true → PrivateFile euid i
unfolding valid_lock
valid_lock-Private euid i h = record {
  format = ground (arith, h);
  owned = ground (arith, h);
  one_name = ground (arith, h);
  private = ground (arith, h);
}

-- What `verify` has seen when it passes.
pub record Verified (euid : ℕ) (directory lock : LockIdentity) (seen : Observed) : Type 0 where
  pub directory_now : LockIdentity
  pub directory_mapped : LockIdentity
  pub lock_now : LockIdentity
  pub lock_mapped : LockIdentity
  pub answers :
      (seen.current_directory ≡ some directory_now)
      × (seen.mapped_directory ≡ some directory_mapped)
      × (seen.current_lock ≡ some lock_now)
      × (seen.mapped_lock ≡ some lock_mapped)
  pub unchanged :
      (same_directory_identity directory_now directory ≡ true)
      × (same_directory_identity directory_mapped directory ≡ true)
      × (same_identity lock_now lock ≡ true)
      × (same_identity lock_mapped lock ≡ true)
  pub safe : SafeDirectory euid directory_now
  pub private : PrivateFile euid lock_now

verify-tests :
    (euid : ℕ) (directory lock cd md cl ml : LockIdentity)
    → verify euid directory lock (record {
      current_directory = some cd;
      mapped_directory = some md;
      current_lock = some cl;
      mapped_lock = some ml;
    })
      ≡ none
    → (same_directory_identity cd directory ≡ true)
      × (same_directory_identity md directory ≡ true)
      × (same_identity cl lock ≡ true)
      × (same_identity ml lock ≡ true)
      × (valid_directory euid cd ≡ true)
      × (valid_lock euid cl ≡ true)
unfolding verify
verify-tests euid directory lock cd md cl ml h = ground arith

pub verify-Verified :
    (euid : ℕ) (directory lock : LockIdentity) (cd md cl ml : Option LockIdentity)
    → verify euid directory lock (record {
      current_directory = cd;
      mapped_directory = md;
      current_lock = cl;
      mapped_lock = ml;
    })
      ≡ none
    → Verified euid directory lock (record {
      current_directory = cd;
      mapped_directory = md;
      current_lock = cl;
      mapped_lock = ml;
    })
unfolding verify
verify-Verified euid directory lock none md cl ml h = absurd (cc)
verify-Verified euid directory lock (some cd) none cl ml h = absurd (cc)
verify-Verified euid directory lock (some cd) (some md) none ml h = absurd (cc)
verify-Verified euid directory lock (some cd) (some md) (some cl) none h = absurd (cc)
verify-Verified euid directory lock (some cd) (some md) (some cl) (some ml) h =
    let t = verify-tests euid directory lock cd md cl ml h in
    record {
      directory_now = cd;
      directory_mapped = md;
      lock_now = cl;
      lock_mapped = ml;
      answers = (refl, refl, refl, refl);
      unchanged = (t.0, t.1, t.2, t.3);
      safe = valid_directory-Safe euid cd t.4;
      private = valid_lock-Private euid cl t.5;
    }

hold_locks-returned :
    {R : Type 0} (sys : System) (deadline fuel : ℕ) (body : Objects → Descriptors → R × Descriptors)
    (o : Objects) (now : Descriptors) (r : R) (ds' : Descriptors)
    → hold_locks sys deadline fuel body o now ≡ some (returned r, ds')
    → (try_flock sys.flock_directory sys.clock_directory deadline fuel 0 ≡ some none)
      × (try_flock sys.flock_lock sys.clock_lock deadline fuel 0 ≡ some none)
      × (verify sys.euid o.directory_identity o.lock_identity sys.locked_seen ≡ none)
unfolding hold_locks
hold_locks-returned sys deadline fuel body o now r ds' h = ground arith

hold_locks-result :
    {R : Type 0} (sys : System) (deadline fuel : ℕ) (body : Objects → Descriptors → R × Descriptors)
    (o : Objects) (now : Descriptors) (r : R) (ds' : Descriptors)
    → hold_locks sys deadline fuel body o now ≡ some (returned r, ds')
    → (body o (locks o.lock_fd (locks o.directory_fd now))).0 ≡ r
unfolding hold_locks
hold_locks-result sys deadline fuel body o now r ds' h = ground arith

-- A use of the lock that gives a result gives the body's.
pub media_operation_lock-result :
    {R : Type 0} (sys : System) (timeout fuel : ℕ) (body : Objects → Descriptors → R × Descriptors)
    (ds : Descriptors) (r : R) (ds' : Descriptors)
    → media_operation_lock sys timeout fuel body ds ≡ some (returned r, ds')
    → (o : Objects) × ((open_lock_objects sys ds).0 ≡ returned o)
      × ((body o (locks o.lock_fd (locks o.directory_fd (open_lock_objects sys ds).1))).0 ≡ r)
unfolding media_operation_lock
media_operation_lock-result {R = R} sys timeout fuel body ds r ds' h =
    read (open_lock_objects sys ds).0 refl
  where
    read :
        (g : Ending Objects)
        → (open_lock_objects sys ds).0 ≡ g
        → (o : Objects) × ((open_lock_objects sys ds).0 ≡ returned o)
          × ((body o (locks o.lock_fd (locks o.directory_fd (open_lock_objects sys ds).1))).0 ≡ r)
    read (lock_error code) e = absurd (cc (rw (media_operation_lock, e) at h))
    read os_error e = absurd (cc (rw (media_operation_lock, e) at h))
    read (returned o) e = (
      o,
      e,
      hold_locks-result sys (sys.start + timeout) fuel body o (open_lock_objects sys ds).1 r ds'
          (rw (media_operation_lock, e) at h),
    )

-- The lock's objects as they are when the body runs.
abbrev pub Guarded : System → ℕ → ℕ → Descriptors → Type 0
Guarded sys timeout fuel ds =
    (o : Objects) × ((open_lock_objects sys ds).0 ≡ returned o)
    × (try_flock sys.flock_directory sys.clock_directory (sys.start + timeout) fuel 0 ≡ some none)
    × (try_flock sys.flock_lock sys.clock_lock (sys.start + timeout) fuel 0 ≡ some none)
    × Verified sys.euid o.directory_identity o.lock_identity sys.locked_seen

-- The body runs only behind both locks and a check: where a use of the lock gives the body's result,
-- both `flock` calls succeeded, and after them the open objects and those at the path were the ones
-- opened before, the directory one of the process's user that group and others cannot write to, the
-- file a regular one of that user with a single name and no permission for group or others.
pub media_operation_lock-Guarded :
    {R : Type 0} (sys : System) (timeout fuel : ℕ) (body : Objects → Descriptors → R × Descriptors)
    (ds : Descriptors) (r : R) (ds' : Descriptors)
    → media_operation_lock sys timeout fuel body ds ≡ some (returned r, ds')
    → Guarded sys timeout fuel ds
unfolding media_operation_lock
media_operation_lock-Guarded sys timeout fuel body ds r ds' h =
    read (open_lock_objects sys ds).0 refl
  where
    read : (g : Ending Objects) → (open_lock_objects sys ds).0 ≡ g → Guarded sys timeout fuel ds
    read (lock_error code) e = absurd (cc (rw (media_operation_lock, e) at h))
    read os_error e = absurd (cc (rw (media_operation_lock, e) at h))
    read (returned o) e =
        let t =
          hold_locks-returned sys (sys.start + timeout) fuel body o (open_lock_objects sys ds).1 r
            ds' (rw (media_operation_lock, e) at h) in
        (o, e, t.0, t.1, verify-Verified sys.euid o.directory_identity o.lock_identity _ _ _ _ t.2)
