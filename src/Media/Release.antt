-- ===== src/Media/Release.antt =====
-- app/services/media_operation_lock.py: what an operation under the lock leaves of the process's
-- descriptors and locks.
use nsfwtrack.Base.{
  ℕ, true, false, Option, none, some, ◌∷◌, ◌≡◌, refl, ap, ◌∙◌, arith, Bool-cases, inl, inr, ◌+◌,
}
use nsfwtrack.Media.Identity.{
  LockErrorCode, verify, valid_lock, valid_directory, media_lock_unsafe, LockIdentity,
}
use nsfwtrack.Media.Lock.{
  System, Descriptors, drop_fd, opens, close, locks, Objects, Sys, done, failed, Ending, returned,
  lock_error, os_error, open_lock_objects, open_lock_file, abandon_directory, abandon_both,
  media_operation_lock, try_flock, open_error, hold_locks,
}
use nsfwtrack.Media.Descriptors.{Clean-cons_d, Clean-cons_l, Owed, Same, release-Same}

-- A descriptor that is neither open nor holds a lock.
abbrev pub Absent : ℕ → Descriptors → Type 0
Absent fd ds = (drop_fd fd ds.opened ≡ ds.opened) × (drop_fd fd ds.held ≡ ds.held)

-- The system opens new descriptors only.
abbrev pub Fresh : System → Descriptors → Type 0
Fresh sys ds =
    ((d : ℕ) → sys.open_directory ≡ done d → Absent d ds)
    × ((l : ℕ) → sys.open_lock ≡ done l → Absent l ds)

abbrev pub Closes : System → Type 0
Closes sys = (fd : ℕ) → sys.closes fd ≡ true

-- Opened objects are owed; a failure leaves nothing.
abbrev pub Settled : Ending Objects × Descriptors → Descriptors → Type 0
Settled (returned o, now) ds = Owed o.directory_fd o.lock_fd now ds
Settled (lock_error code, now) ds = Same now ds
Settled (os_error, now) ds = Same now ds

abandon_directory-Settled :
    (sys : System) (d : ℕ) (code : LockErrorCode) (ds : Descriptors)
    → Closes sys
    → Absent d ds
    → Settled (abandon_directory sys d code (opens d ds)) ds
unfolding abandon_directory opens close
abandon_directory-Settled sys d code ds c a = rw (c d) (ground (arith, a))

opens-Owed :
    (d l : ℕ) (ds : Descriptors) → Absent d ds → Absent l ds → Owed d l (opens l (opens d ds)) ds
unfolding opens
opens-Owed d l ds a b = (
  Clean-cons_l d l (d ∷ ds.opened) ds.opened
      (Clean-cons_d d l ds.opened ds.opened (ap (drop_fd d) b.0 ∙ a.0)),
  ap (drop_fd d) b.1 ∙ a.1,
)

abandon_both-Settled :
    (sys : System) (d l : ℕ) (code : LockErrorCode) (ds : Descriptors)
    → Closes sys
    → Absent d ds
    → Absent l ds
    → Settled (abandon_both sys d l code (opens l (opens d ds))) ds
unfolding abandon_both abandon_directory close
abandon_both-Settled sys d l code ds c a b =
    let owed = opens-Owed d l ds a b in rw (abandon_both, c l, abandon_directory, c d) owed

open_lock_file-Settled :
    (sys : System) (d : ℕ) (i : LockIdentity) (ds : Descriptors)
    → Closes sys
    → Absent d ds
    → ((l : ℕ) → sys.open_lock ≡ done l → Absent l ds)
    → Settled (open_lock_file sys d i (opens d ds)) ds
unfolding open_lock_file
open_lock_file-Settled sys d i ds c a fresh = first sys.open_lock refl
  where
    third :
        (l : ℕ) (j : LockIdentity)
        → sys.open_lock ≡ done l
        → sys.stat_lock ≡ done j
        → (o : Option LockErrorCode) → verify sys.euid i j sys.opened_seen ≡ o
        → valid_lock sys.euid j ≡ true
        → Settled (open_lock_file sys d i (opens d ds)) ds
    third l j e f none g h = rw (open_lock_file, e, f, h, g) (opens-Owed d l ds a (fresh l e))
    third l j e f (some code) g h =
        rw (open_lock_file, e, f, h, g) (abandon_both-Settled sys d l code ds c a (fresh l e))

    second :
        (l : ℕ)
        → sys.open_lock ≡ done l
        → (s : Sys LockIdentity) → sys.stat_lock ≡ s
        → Settled (open_lock_file sys d i (opens d ds)) ds
    second l e (failed errno) f =
        rw (open_lock_file, e, f)
          (abandon_both-Settled sys d l (open_error errno) ds c a (fresh l e))
    second l e (done j) f = elim (Bool-cases (valid_lock sys.euid j)) [
      | inl g ↦ third l j e f (verify sys.euid i j sys.opened_seen) refl g
      | inr g ↦
          rw (open_lock_file, e, f, g)
            (abandon_both-Settled sys d l media_lock_unsafe ds c a (fresh l e))
    ]

    first : (s : Sys ℕ) → sys.open_lock ≡ s → Settled (open_lock_file sys d i (opens d ds)) ds
    first (failed errno) e =
        rw (open_lock_file, e) (abandon_directory-Settled sys d (open_error errno) ds c a)
    first (done l) e = second l e sys.stat_lock refl

open_lock_objects-Settled :
    (sys : System) (ds : Descriptors)
    → Closes sys
    → Fresh sys ds
    → Settled (open_lock_objects sys ds) ds
unfolding open_lock_objects
open_lock_objects-Settled sys ds c fresh = first sys.open_directory refl
  where
    second :
        (d : ℕ)
        → sys.open_directory ≡ done d
        → (s : Sys LockIdentity) → sys.stat_directory ≡ s
        → Settled (open_lock_objects sys ds) ds
    second d e (failed errno) f =
        rw (open_lock_objects, e, f)
          (abandon_directory-Settled sys d (open_error errno) ds c (fresh.0 d e))
    second d e (done i) f = elim (Bool-cases (valid_directory sys.euid i)) [
      | inl g ↦
          rw (open_lock_objects, e, f, g)
            (open_lock_file-Settled sys d i ds c (fresh.0 d e) fresh.1)
      | inr g ↦
          rw (open_lock_objects, e, f, g)
            (abandon_directory-Settled sys d media_lock_unsafe ds c (fresh.0 d e))
    ]

    first : (s : Sys ℕ) → sys.open_directory ≡ s → Settled (open_lock_objects sys ds) ds
    first (failed errno) e = rw (open_lock_objects, e) (refl, refl)
    first (done d) e = second d e sys.stat_directory refl

-- The same descriptors and locks after a use of the lock that ends.
abbrev pub Restored : {R : Type 0} → Option (Ending R × Descriptors) → Descriptors → Type 0
Restored none ds = Unit
Restored (some (e, now)) ds = Same now ds

-- A body that gives back what it opens and locks.
abbrev pub Neutral : {R : Type 0} → (Objects → Descriptors → R × Descriptors) → Type 0
Neutral body = (o : Objects) (now : Descriptors) → (body o now).1 ≡ now

locks-Owed_d : (d l : ℕ) (now ds : Descriptors) → Owed d l now ds → Owed d l (locks d now) ds
unfolding locks
locks-Owed_d d l now ds o = (o.0, Clean-cons_d d l now.held ds.held o.1)

locks-Owed_l : (d l : ℕ) (now ds : Descriptors) → Owed d l now ds → Owed d l (locks l now) ds
unfolding locks
locks-Owed_l d l now ds o = (o.0, Clean-cons_l d l now.held ds.held o.1)

hold_locks-Restored :
    {R : Type 0} (sys : System) (deadline fuel : ℕ) (body : Objects → Descriptors → R × Descriptors)
    (o : Objects) (now ds : Descriptors)
    → Neutral body
    → Owed o.directory_fd o.lock_fd now ds
    → Restored (hold_locks sys deadline fuel body o now) ds
unfolding hold_locks
hold_locks-Restored sys deadline fuel body o now ds neutral owed =
    first (try_flock sys.flock_directory sys.clock_directory deadline fuel 0) refl
  where
    one : Owed o.directory_fd o.lock_fd (locks o.directory_fd now) ds
    one = locks-Owed_d o.directory_fd o.lock_fd now ds owed

    both : Owed o.directory_fd o.lock_fd (locks o.lock_fd (locks o.directory_fd now)) ds
    both = locks-Owed_l o.directory_fd o.lock_fd (locks o.directory_fd now) ds one

    third :
        try_flock sys.flock_directory sys.clock_directory deadline fuel 0 ≡ some none
        → try_flock sys.flock_lock sys.clock_lock deadline fuel 0 ≡ some none
        → (v : Option LockErrorCode)
        → verify sys.euid o.directory_identity o.lock_identity sys.locked_seen ≡ v
        → Restored (hold_locks sys deadline fuel body o now) ds
    third e f (some code) g = rw (hold_locks, e, f, g) (release-Same sys o true true _ ds both)
    third e f none g =
        rw (hold_locks, e, f, g, neutral o (locks o.lock_fd (locks o.directory_fd now)))
          (release-Same sys o true true _ ds both)

    second :
        try_flock sys.flock_directory sys.clock_directory deadline fuel 0 ≡ some none
        → (v : Option (Option LockErrorCode))
        → try_flock sys.flock_lock sys.clock_lock deadline fuel 0 ≡ v
        → Restored (hold_locks sys deadline fuel body o now) ds
    second e none f = rw (hold_locks, e, f) tt
    second e (some (some code)) f = rw (hold_locks, e, f) (release-Same sys o true false _ ds one)
    second e (some none) f =
        third e f (verify sys.euid o.directory_identity o.lock_identity sys.locked_seen) refl

    first :
        (v : Option (Option LockErrorCode))
        → try_flock sys.flock_directory sys.clock_directory deadline fuel 0 ≡ v
        → Restored (hold_locks sys deadline fuel body o now) ds
    first none e = rw (hold_locks, e) tt
    first (some (some code)) e = rw (hold_locks, e) (release-Same sys o false false now ds owed)
    first (some none) e = second e (try_flock sys.flock_lock sys.clock_lock deadline fuel 0) refl

-- However a use of the lock ends, by success, by a refusal at any step or by an error of the system,
-- and whether or not the unlocking calls succeed, the process has the descriptors and the locks that
-- it had before, if the body gives back its own, the system opens new descriptors only, and `close`
-- does not raise.
pub media_operation_lock_restores :
    {R : Type 0} (sys : System) (timeout fuel : ℕ) (body : Objects → Descriptors → R × Descriptors)
    (ds : Descriptors)
    → Neutral body
    → Closes sys
    → Fresh sys ds
    → Restored (media_operation_lock sys timeout fuel body ds) ds
unfolding media_operation_lock
media_operation_lock_restores sys timeout fuel body ds neutral closes fresh =
    read (open_lock_objects sys ds).0 refl
  where
    settled : Settled ((open_lock_objects sys ds).0, (open_lock_objects sys ds).1) ds
    settled = open_lock_objects-Settled sys ds closes fresh

    read :
        (g : Ending Objects)
        → (open_lock_objects sys ds).0 ≡ g
        → Restored (media_operation_lock sys timeout fuel body ds) ds
    read (lock_error code) e = rw (media_operation_lock, e) (rw e at settled)
    read os_error e = rw (media_operation_lock, e) (rw e at settled)
    read (returned o) e =
        rw (media_operation_lock, e)
          (hold_locks-Restored sys (sys.start + timeout) fuel body o (open_lock_objects sys ds).1 ds
            neutral (rw e at settled))
