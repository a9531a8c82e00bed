-- ===== src/Egress/Failures.antt =====
-- app/egress/pool.py: what failed probes mean for the proxies that `select` returns later.
use mathlib.Core.Path.{subst}
use nsfwtrack.Base.{
  ℕ, ◌<◌, String, Bool, Option, none, some, List, length, ◌≡◌, ◌≢◌, arith, pos, ◌≤ℤ◌,
}
use nsfwtrack.Egress.Contracts.{
  Py, Result, ok, err, ProxyEndpoint, ProxyHealth, ProxyPoolPolicy, ProxyPool, health_of,
  after_seconds,
}
use nsfwtrack.Egress.Pool.{get, ProbeRun, previous_fails, probe_one, select}
use nsfwtrack.Egress.Policy.{Admissible}
use nsfwtrack.Egress.Choice.{Selects, select_result}
use nsfwtrack.Egress.Probing.{
  Failed, AllFailed, probe_runs, probe_runs_count, Probes-Failed, probe_one_result, fails_of,
}

-- A returned proxy is admissible.
selected-Admissible :
    (py : Py) (now : ℕ) (b : Bool) (pool : ProxyPool) (r : Result ProxyEndpoint) (p : ProxyEndpoint)
    → Selects py now b pool r
    → r ≡ ok p
    → Admissible py pool.policy now p (health_of p.id pool.health)
selected-Admissible py now b pool (ok q) p s e = (subst (λ r. Selects py now b pool r) e s).1.0
selected-Admissible py now b pool (err x) p s e = absurd (cc)

too_many-not_Admissible :
    (py : Py) (policy : ProxyPoolPolicy) (now : ℕ) (p : ProxyEndpoint) (o : Option ProxyHealth)
    (n : ℕ)
    → 0 < n
    → pos n ≤ℤ previous_fails o
    → policy.max_fail_count_before_disable ≤ℤ pos n
    → ¬ Admissible py policy now p o
too_many-not_Admissible py policy now p none n some_ fails most a =
    absurd (omega (arith, fails, some_))
too_many-not_Admissible py policy now p (some h) n some_ fails most a =
    ground (arith, fails, most, a.2)

-- Once a proxy has failed as many probes in a row as disable it, and at least one, `select` does not
-- return a proxy of that id at any time, whatever cooldown they set.
pub select-disabled :
    (py : Py) (key : String) (runs : List ProbeRun) (pool : ProxyPool) (now : ℕ) (b : Bool)
    (p : ProxyEndpoint)
    → AllFailed py key runs pool
    → pos 0 ≤ℤ fails_of key pool
    → 0 < length runs
    → pool.policy.max_fail_count_before_disable ≤ℤ pos (length runs)
    → select py now b (probe_runs py key runs pool) ≡ ok p
    → p.id ≢ key
select-disabled py key runs pool now b p failed start one most e same =
    let after = probe_runs py key runs pool in
    let count = probe_runs_count py key runs 0 pool failed start in
    let fails : pos (length runs) ≤ℤ previous_fails (health_of p.id after.health) =
      rw same (omega (arith, count.0)) in
    let limit : after.policy.max_fail_count_before_disable ≤ℤ pos (length runs) = rw count.1 most in
    too_many-not_Admissible py after.policy now p (health_of p.id after.health) (length runs) one
      fails limit
      (selected-Admissible py now b after (select py now b after) p (select_result py now after b)
        e)

cooling-not_Admissible :
    (py : Py) (policy : ProxyPoolPolicy) (now : ℕ) (p : ProxyEndpoint) (o : Option ProxyHealth)
    (h : ProxyHealth)
    → o ≡ some h
    → now < h.cooldown_until
    → ¬ Admissible py policy now p o
cooling-not_Admissible py policy now p none h e c a = absurd (cc)
cooling-not_Admissible py policy now p (some g) h e c a = ground (arith, e, a.1)

-- After a probe that failed, `select` does not return a proxy of that id before the policy's cooldown
-- has passed since the probe's end.
pub select-cooldown :
    (py : Py) (key : String) (run : ProbeRun) (pool : ProxyPool) (now : ℕ) (b : Bool)
    (p : ProxyEndpoint)
    → Failed (probe_one py key run pool).0
    → now < after_seconds run.finished_at pool.policy.cooldown_seconds
    → select py now b (probe_one py key run pool).1 ≡ ok p
    → p.id ≢ key
select-cooldown py key run pool now b p failed soon e same =
    let after = (probe_one py key run pool).1 in
    let one =
      Probes-Failed py key run pool (get key pool) (probe_one py key run pool)
        (probe_one_result py key run pool) failed in
    let h = one.2.0 in
    let until : now < h.cooldown_until = rw one.2.2 soon in
    cooling-not_Admissible py after.policy now p (health_of p.id after.health) h (rw same one.2.1)
      until
      (selected-Admissible py now b after (select py now b after) p (select_result py now after b)
        e)
