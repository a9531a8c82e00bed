-- ===== src/Egress/Probing.antt =====
-- app/egress/pool.py, `probe_one`: what a probe records, and what failures in a row lead to.
use mathlib.Core.Path.{subst}
use nsfwtrack.Base.{
  ℕ, suc, ◌+◌, String, true, false, Option, none, some, List, [], ◌∷◌, length, find, if◌then◌else◌,
  str_eq, str_eq_iff, ◌≡◌, refl, ◌∙◌, ap, arith, Option-cases, inl, inr, ◌⊎◌, ℤ, pos, ◌≤ℤ◌, suc_ℤ,
  is_some,
}
use nsfwtrack.Egress.Contracts.{
  Py, Result, ok, err, unknown_proxy, ProxyEndpoint, ProxyHealth, ProxyPoolPolicy, GeoResult,
  ProxyPool, health_of, set_health, after_seconds,
}
use nsfwtrack.Egress.Pool.{
  get, policy_reject_reason, ProbeRun, measured, unreachable, judged, located, exited,
  probed_health, previous_fails, probe_one,
}
use nsfwtrack.Egress.Policy.{Passes, accepted-Passes, Passes-accepted}

pub set-health_of :
    (key : String) (h : ProxyHealth) (hs : List ProxyHealth)
    → health_of key (set_health h hs) ≡ (if str_eq h.proxy_id key then some h else health_of key hs)
unfolding set_health health_of
set-health_of key h [] = refl
set-health_of key h (x ∷ xs) = ground (
  arith,
  set-health_of key h xs,
  str_eq_iff x.proxy_id h.proxy_id,
  str_eq_iff h.proxy_id key,
  str_eq_iff x.proxy_id key,
)

-- What a probe may record of a proxy that has failed `fails` times in a row.
pub record Recorded (py : Py) (policy : ProxyPoolPolicy) (proxy : ProxyEndpoint) (run : ProbeRun)
    (fails : ℤ) (h : ProxyHealth) : Type 0 where
  pub named : h.proxy_id ≡ proxy.id
  pub success :
      h.ok ≡ true
      → (ip : String) × (geo : GeoResult) × (run.exit_ip ≡ ok ip)
        × (run.geo ip ≡ ok geo)
        × (h ≡ measured proxy.id run ip geo)
        × Passes py policy proxy h
  pub failure :
      h.ok ≡ false
      → (h.fail_count ≡ suc_ℤ fails)
        × (h.cooldown_until ≡ after_seconds run.finished_at policy.cooldown_seconds)
        × (is_some h.error ≡ true)
  pub complete :
      (ip : String) (geo : GeoResult)
      → run.exit_ip ≡ ok ip
      → run.geo ip ≡ ok geo
      → Passes py policy proxy (measured proxy.id run ip geo)
      → h.ok ≡ true

module _ (py : Py) (policy : ProxyPoolPolicy) (proxy : ProxyEndpoint) (run : ProbeRun)
    (fails : ℤ) where
  Recorded-unreachable :
      ((ip : String) (geo : GeoResult) → run.exit_ip ≡ ok ip → run.geo ip ≡ ok geo → ⊥)
      → Recorded py policy proxy run fails (unreachable py policy proxy.id run fails)
  unfolding unreachable
  Recorded-unreachable missing = record {
    named = refl;
    success = λ e. absurd (cc);
    failure = λ e. (refl, refl, refl);
    complete = λ ip geo e g p. absurd (missing ip geo e g);
  }

  Recorded-judged :
      (ip : String) (geo : GeoResult)
      → run.exit_ip ≡ ok ip
      → run.geo ip ≡ ok geo
      → Recorded py policy proxy run fails
          (judged py policy proxy run fails (measured proxy.id run ip geo))
  unfolding judged
  Recorded-judged ip geo e g = verdict (Option-cases _)
    where
      verdict :
          (policy_reject_reason py policy proxy (measured proxy.id run ip geo) ≡ none)
            ⊎ ((r : String) × (policy_reject_reason py policy proxy (measured proxy.id run ip geo)
                  ≡ some r))
          → Recorded py policy proxy run fails
              (judged py policy proxy run fails (measured proxy.id run ip geo))
      verdict (inl n) =
          rw (judged, n)
            record {
              named = unfold measured in refl;
              success = λ t. (
                ip,
                geo,
                e,
                g,
                refl,
                accepted-Passes py policy proxy (measured proxy.id run ip geo) n,
              );
              failure = unfold measured in λ f. absurd (cc);
              complete = unfold measured in λ ip' geo' e' g' p. refl;
            }
      verdict (inr (r, s)) =
          rw (judged, s)
            record {
              named = unfold measured in refl;
              success = λ t. absurd (cc);
              failure = λ f. (refl, refl, refl);
              complete = λ ip' geo' e' g' p.
                  absurd (cc (Passes-accepted py policy proxy (measured proxy.id run ip' geo') p));
            }

  located-Recorded :
      (ip : String) (g : Result GeoResult)
      → run.exit_ip ≡ ok ip
      → run.geo ip ≡ g
      → Recorded py policy proxy run fails (located py policy proxy run fails ip g)
  unfolding located
  located-Recorded ip (ok geo) e h = Recorded-judged ip geo e h
  located-Recorded ip (err x) e h = Recorded-unreachable (λ ip' geo e' h'. cc)

  exited-Recorded :
      (r : Result String)
      → run.exit_ip ≡ r
      → Recorded py policy proxy run fails (exited py policy proxy run fails r)
  unfolding exited
  exited-Recorded (ok ip) e = located-Recorded ip (run.geo ip) e refl
  exited-Recorded (err x) e = Recorded-unreachable (λ ip geo e' h. cc)

  probed_health-Recorded :
      Recorded py policy proxy run fails (probed_health py policy proxy run fails)
  unfolding probed_health
  probed_health-Recorded = exited-Recorded run.exit_ip refl

-- What `probe_one` returns and leaves behind: the error of an unknown id with the pool as it was, or an
-- entry for the proxy, recorded under its id and nowhere else.
abbrev pub Probes :
    Py
    → String
    → ProbeRun
    → ProxyPool
    → Option ProxyEndpoint
    → Result ProxyHealth × ProxyPool
    → Type 0
Probes py key run pool none r = r ≡ (err unknown_proxy, pool)
Probes py key run pool (some proxy) (err e, after) = ⊥
Probes py key run pool (some proxy) (ok h, after) =
    Recorded py pool.policy proxy run (previous_fails (health_of key pool.health)) h
    × (after.proxies ≡ pool.proxies)
    × (after.policy ≡ pool.policy)
    × ((other : String)
        → health_of other after.health
          ≡ (if str_eq key other then some h else health_of other pool.health))

get-id :
    (key : String) (ps : List ProxyEndpoint) (proxy : ProxyEndpoint)
    → find (λ (p : ProxyEndpoint). str_eq p.id key) ps ≡ some proxy
    → proxy.id ≡ key
get-id key [] proxy e = cc
get-id key (p ∷ ps) proxy e = ground (arith, get-id key ps proxy, str_eq_iff p.id key)

-- `probe_one` of an unknown id raises and changes nothing. Otherwise it stores one entry under the id
-- and returns it. The entry is ok exactly when an exit address and a location were found and pass the
-- policy, and then holds just what was measured, with no failures and no cooldown; else it has one
-- failure more than the entry before, a cooldown from now on and an error. No other entry, proxy or
-- setting changes.
pub probe_one_result :
    (py : Py) (key : String) (run : ProbeRun) (pool : ProxyPool)
    → Probes py key run pool (get key pool) (probe_one py key run pool)
unfolding probe_one
probe_one_result py key run pool = by_get (get key pool) refl
  where
    by_get :
        (o : Option ProxyEndpoint)
        → get key pool ≡ o
        → Probes py key run pool o (probe_one py key run pool)
    by_get none e = rw (probe_one, e) refl
    by_get (some proxy) e =
        let fails = previous_fails (health_of key pool.health) in
        let recorded = probed_health-Recorded py pool.policy proxy run fails in
        rw (probe_one, e)
          (
            recorded,
            refl,
            refl,
            λ other.
                rw (set-health_of other (probed_health py pool.policy proxy run fails) pool.health)
                  (rw (recorded.named, get-id key pool.proxies proxy (unfold get in e)) refl),
          )

-- A sequence of probes of one proxy, and that all of them failed.
unfoldable pub probe_runs : Py → String → List ProbeRun → ProxyPool → ProxyPool
probe_runs py key [] pool = pool
probe_runs py key (run ∷ runs) pool = probe_runs py key runs (probe_one py key run pool).1

abbrev pub Failed : Result ProxyHealth → Type 0
Failed (ok h) = h.ok ≡ false
Failed (err e) = ⊥

unfoldable pub AllFailed : Py → String → List ProbeRun → ProxyPool → Type 0
AllFailed py key [] pool = Unit
AllFailed py key (run ∷ runs) pool =
    Failed (probe_one py key run pool).0 × AllFailed py key runs (probe_one py key run pool).1

abbrev pub fails_of : String → ProxyPool → ℤ
fails_of key pool = previous_fails (health_of key pool.health)

pub Probes-Failed :
    (py : Py) (key : String) (run : ProbeRun) (pool : ProxyPool) (o : Option ProxyEndpoint)
    (r : Result ProxyHealth × ProxyPool)
    → Probes py key run pool o r
    → Failed r.0
    → (fails_of key r.1 ≡ suc_ℤ (fails_of key pool))
      × (r.1.policy ≡ pool.policy)
      × ((h : ProxyHealth) × (health_of key r.1.health ≡ some h)
          × (h.cooldown_until ≡ after_seconds run.finished_at pool.policy.cooldown_seconds))
Probes-Failed py key run pool none r p f = absurd (subst Failed (ap (λ t. t.0) p) f)
Probes-Failed py key run pool (some proxy) (err e, after) p f = absurd f
Probes-Failed py key run pool (some proxy) (ok h, after) p f =
    let stored : health_of key after.health ≡ some h =
      ground (arith, p.3 key, str_eq_iff key key) in
    let failure = p.0.failure f in
    (ap previous_fails stored ∙ failure.0, p.2, (h, stored, failure.1))

suc_ℤ_up : (a b : ℤ) (k n : ℕ) → a ≡ suc_ℤ b → pos k ≤ℤ b → pos (suc k) ≤ℤ a
suc_ℤ_up a b k n e h = ground (arith, e)

pub probe_runs_count :
    (py : Py) (key : String) (runs : List ProbeRun) (k : ℕ) (pool : ProxyPool)
    → AllFailed py key runs pool
    → pos k ≤ℤ fails_of key pool
    → (pos (k + length runs) ≤ℤ fails_of key (probe_runs py key runs pool))
      × ((probe_runs py key runs pool).policy ≡ pool.policy)
unfolding probe_runs AllFailed
probe_runs_count py key [] k pool f h = (omega (arith, h), refl)
probe_runs_count py key (run ∷ runs) k pool f h =
    let one =
      Probes-Failed py key run pool (get key pool) (probe_one py key run pool)
        (probe_one_result py key run pool) f.0 in
    let next = (probe_one py key run pool).1 in
    let more =
      probe_runs_count py key runs (suc k) next f.1
        (suc_ℤ_up (fails_of key next) (fails_of key pool) k 0 one.0 h) in
    (omega (arith, more.0), more.1 ∙ one.1)
