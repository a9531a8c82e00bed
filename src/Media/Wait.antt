-- ===== src/Media/Wait.antt =====
-- app/services/media_operation_lock.py, `_try_flock`: the wait for a lock ends.
use nsfwtrack.Base.{ℕ, zero, suc, ◌+◌, ◌*◌, ◌≤◌, true, false, leb, ◌≡◌, refl, arith, is_some}
use nsfwtrack.Media.Lock.{
  Flock, System, attempt, try_flock, media_operation_lock, Attempt, poll, acquired, give_up,
  Objects, Descriptors, hold_locks,
}

-- A clock that has advanced by the sleep of 25 ms at every further attempt.
abbrev pub Advances : ℕ → (ℕ → ℕ) → Type 0
Advances start clock = (n : ℕ) → start + 25 * n ≤ clock n

attempt-poll :
    (f : Flock) (now deadline : ℕ) → attempt f now deadline ≡ poll → leb deadline now ≡ false
unfolding attempt
attempt-poll f now deadline h = ground arith

try_flock-step :
    (flock : ℕ → Flock) (clock : ℕ → ℕ) (deadline fuel n : ℕ) (r : Attempt)
    → attempt (flock n) (clock n) deadline ≡ r
    → (r ≡ poll → is_some (try_flock flock clock deadline fuel (suc n)) ≡ true)
    → is_some (try_flock flock clock deadline (suc fuel) n) ≡ true
unfolding try_flock
try_flock-step flock clock deadline fuel n acquired e k = rw (try_flock, e) refl
try_flock-step flock clock deadline fuel n (give_up code) e k = rw (try_flock, e) refl
try_flock-step flock clock deadline fuel n poll e k = rw (try_flock, e) (k refl)

leb-false : (a b : ℕ) → leb a b ≡ false → suc b ≤ a
leb-false a b h = ground arith

pub try_flock-is_some :
    (flock : ℕ → Flock) (clock : ℕ → ℕ) (start deadline fuel n : ℕ)
    → Advances start clock
    → deadline + 25 ≤ start + 25 * (n + fuel)
    → 1 ≤ fuel
    → is_some (try_flock flock clock deadline fuel n) ≡ true
try_flock-is_some flock clock start deadline zero n a h one = absurd (omega (arith, one))
try_flock-is_some flock clock start deadline (suc fuel) n a h one =
    try_flock-step flock clock deadline fuel n (attempt (flock n) (clock n) deadline) refl (λ e.
      let early = leb-false deadline (clock n) (attempt-poll (flock n) (clock n) deadline e) in
      let left : 1 ≤ fuel = omega (arith, early, a n, h) in
      try_flock-is_some flock clock start deadline fuel (suc n) a (omega (arith, h)) left)

-- The use of the lock always ends, however long others hold it: for a wait of `timeout` milliseconds,
-- as many attempts as there are 25 ms sleeps in it, and one more, are enough fuel, if the clock
-- advances by at least the sleep between two attempts and never runs behind the start.
pub media_operation_lock_returns :
    {R : Type 0} (sys : System) (timeout fuel : ℕ) (body : Objects → Descriptors → R × Descriptors)
    (ds : Descriptors)
    → Advances sys.start sys.clock_directory
    → Advances sys.start sys.clock_lock
    → timeout + 25 ≤ 25 * fuel
    → is_some (media_operation_lock sys timeout fuel body ds) ≡ true
unfolding media_operation_lock hold_locks
media_operation_lock_returns sys timeout fuel body ds a b h =
    let one : 1 ≤ fuel = omega (arith, h) in
    let first =
      try_flock-is_some sys.flock_directory sys.clock_directory sys.start (sys.start + timeout) fuel
        0 a (omega (arith, h)) one in
    let second =
      try_flock-is_some sys.flock_lock sys.clock_lock sys.start (sys.start + timeout) fuel 0 b
        (omega (arith, h)) one in
    ground (arith, first, second)
