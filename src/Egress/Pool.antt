-- ===== src/Egress/Pool.antt =====
-- app/egress/pool.py, `ProxyPool`: lookup, policy, probing of one proxy, eligibility, selection.
use nsfwtrack.Base.{
  ℕ, String, Bool, true, false, not, ◌&&◌, Option, none, some, List, [], ◌∷◌, map, find, filter,
  member, str_eq, if◌then◌else◌, is_some, codes, ℤ, pos, negsuc, leb_ℤ, ltb_ℤ, suc_ℤ, neg_ℤ,
  lex_leb, sorted_by,
}
use nsfwtrack.Egress.Contracts.{
  Py, unknown_proxy, no_eligible_proxy, Result, ok, err, ProxyEndpoint, ProxyHealth, in_cooldown,
  ProxyPoolPolicy, QualityReport, GeoResult, ProxyPool, health_of, set_health, after_seconds,
}

-- `bool(s)` of an optional text
abbrev pub nonempty : Option String → Bool
nonempty none = false
nonempty (some s) = not (str_eq s "")

abbrev pub text_or_empty : Option String → String
text_or_empty none = ""
text_or_empty (some s) = s

unfoldable pub get : String → ProxyPool → Option ProxyEndpoint
get proxy_id pool = find (λ (p : ProxyEndpoint). str_eq p.id proxy_id) pool.proxies

-- `cc` of a health entry
abbrev pub country : Py → ProxyHealth → String
country py h = py.upper (text_or_empty h.country_code)

abbrev pub above : ℤ → Option ℤ → Bool
above limit none = false
above limit (some n) = ltb_ℤ limit n

-- `_policy_reject_reason`, its texts shortened to what they complain of.
unfoldable pub policy_reject_reason :
    Py → ProxyPoolPolicy → ProxyEndpoint → ProxyHealth → Option String
policy_reject_reason py policy proxy health =
    let cc = country py health in
    let known = not (str_eq cc "") in
    if policy.require_exit_ip && not (nonempty health.exit_ip)
    then some "missing exit ip"
    else if known && member cc policy.deny_countries
    then some "denied country"
    else if nonempty proxy.expected_country
        && known
        && not (str_eq cc (py.upper (text_or_empty proxy.expected_country)))
    then some "expected country"
    else if above policy.max_risk_score health.risk_score
    then some "risk_score"
    else none

-- What the network and the clock give to one probe.
pub record ProbeRun : Type 0 where
  pub checked_at : String
  pub exit_ip : Result String
  pub latency : ℤ
  pub geo : String → Result GeoResult
  pub quality : Option QualityReport
  pub failed_latency : ℤ
  pub finished_at : ℕ

abbrev pub field_of : {A : Type 0} → (QualityReport → A) → Option QualityReport → Option A
field_of f none = none
field_of f (some q) = some (f q)

-- The entry that a probe with an exit address and a location builds.
unfoldable pub measured : String → ProbeRun → String → GeoResult → ProxyHealth
measured proxy_id run exit_ip geo = record {
  proxy_id = proxy_id;
  ok = true;
  checked_at = run.checked_at;
  latency_ms = some run.latency;
  exit_ip = some exit_ip;
  country_code = geo.country_code;
  country_name = geo.country_name;
  risk_score = some geo.geo_risk;
  ip_type = geo.ip_type;
  isp = geo.isp;
  error = none;
  geo_source = some geo.source;
  quality_score = field_of (λ q. pos q.score) run.quality;
  quality_grade = field_of (λ q. q.grade) run.quality;
  quality_passed = field_of (λ q. pos q.passed) run.quality;
  quality_failed = field_of (λ q. pos q.failed) run.quality;
  fail_count = pos 0;
  cooldown_until = 0;
}

-- The entry of a probe that raised.
unfoldable pub unreachable : Py → ProxyPoolPolicy → String → ProbeRun → ℤ → ProxyHealth
unreachable py policy proxy_id run fail_count = record {
  proxy_id = proxy_id;
  ok = false;
  checked_at = run.checked_at;
  latency_ms = some run.failed_latency;
  exit_ip = none;
  country_code = none;
  country_name = none;
  risk_score = none;
  ip_type = none;
  isp = none;
  error = some "EgressError";
  geo_source = none;
  quality_score = none;
  quality_grade = none;
  quality_passed = none;
  quality_failed = none;
  fail_count = suc_ℤ fail_count;
  cooldown_until = after_seconds run.finished_at policy.cooldown_seconds;
}

-- The second half of the `try`: the policy's verdict on what was measured.
unfoldable pub judged :
    Py → ProxyPoolPolicy → ProxyEndpoint → ProbeRun → ℤ → ProxyHealth → ProxyHealth
judged py policy proxy run fail_count health = elim (policy_reject_reason py policy proxy health) [
  | none ↦ health
  | some reason ↦ record health {
    ok = false;
    error = some reason;
    fail_count = suc_ℤ fail_count;
    cooldown_until = after_seconds run.finished_at policy.cooldown_seconds;
  }
]

-- After an exit address was found: with the result of `resolve_geo`.
unfoldable pub located :
    Py → ProxyPoolPolicy → ProxyEndpoint → ProbeRun → ℤ → String → Result GeoResult → ProxyHealth
located py policy proxy run fail_count ip (ok geo) =
    judged py policy proxy run fail_count (measured proxy.id run ip geo)
located py policy proxy run fail_count ip (err e) = unreachable py policy proxy.id run fail_count

-- With the result of `probe_exit_ip`.
unfoldable pub exited :
    Py → ProxyPoolPolicy → ProxyEndpoint → ProbeRun → ℤ → Result String → ProxyHealth
exited py policy proxy run fail_count (ok ip) =
    located py policy proxy run fail_count ip (run.geo ip)
exited py policy proxy run fail_count (err e) = unreachable py policy proxy.id run fail_count

unfoldable pub probed_health : Py → ProxyPoolPolicy → ProxyEndpoint → ProbeRun → ℤ → ProxyHealth
probed_health py policy proxy run fail_count = exited py policy proxy run fail_count run.exit_ip

abbrev pub previous_fails : Option ProxyHealth → ℤ
previous_fails none = pos 0
previous_fails (some h) = h.fail_count

-- The health entry that `probe_one` returns, and the pool it leaves.
unfoldable pub probe_one : Py → String → ProbeRun → ProxyPool → Result ProxyHealth × ProxyPool
probe_one py proxy_id run pool = elim (get proxy_id pool) [
  | none ↦ (err unknown_proxy, pool)
  | some proxy ↦
      let health =
        probed_health py pool.policy proxy run (previous_fails (health_of proxy_id pool.health)) in
      (ok health, record pool { health = set_health health pool.health })
]

unfoldable pub probe_proxies : Py → (String → ProbeRun) → List ProxyEndpoint → ProxyPool → ProxyPool
probe_proxies py runs [] pool = pool
probe_proxies py runs (p ∷ ps) pool =
    probe_proxies py runs ps (if p.enabled then (probe_one py p.id (runs p.id) pool).1 else pool)

-- `probe_all`: the enabled proxies one after the other
unfoldable pub probe_all : Py → (String → ProbeRun) → ProxyPool → ProxyPool
probe_all py runs pool = probe_proxies py runs pool.proxies pool

-- One round of `eligible`: whether the proxy is appended.
unfoldable pub is_eligible : Py → ProxyPoolPolicy → ℕ → ProxyEndpoint → Option ProxyHealth → Bool
is_eligible py policy now proxy none = proxy.enabled
is_eligible py policy now proxy (some h) =
    if not proxy.enabled
    then false
    else if in_cooldown h now
    then false
    else if leb_ℤ policy.max_fail_count_before_disable h.fail_count
    then false
    else if h.ok && is_some (policy_reject_reason py policy proxy h)
    then false
    else if not h.ok && not (in_cooldown h now)
    then true
    else h.ok

unfoldable pub eligible : Py → ℕ → ProxyPool → List ProxyEndpoint
eligible py now pool =
    filter (λ (p : ProxyEndpoint). is_eligible py pool.policy now p (health_of p.id pool.health))
      pool.proxies

abbrev pub probed_ok : Option ProxyHealth → Bool
probed_ok none = false
probed_ok (some h) = h.ok

unfoldable pub candidates : Py → ℕ → Bool → ProxyPool → List ProxyEndpoint
candidates py now require_probed pool =
    let all = eligible py now pool in
    if require_probed
    then filter (λ (p : ProxyEndpoint). probed_ok (health_of p.id pool.health)) all
    else all

abbrev pub or_default : ℤ → Option ℤ → ℤ
or_default d none = d
or_default d (some n) = n

unfoldable pub prefer : Py → ProxyPoolPolicy → ProxyHealth → ℤ
prefer py policy h =
    if nonempty h.country_code && member (country py h) policy.prefer_countries
    then negsuc 0
    else pos 0

-- A text in a key, as its code points.
abbrev pub text_key : String → List ℤ
text_key s = map pos (codes s)

abbrev pub field_neg : Option ℤ → Option ℤ
field_neg none = none
field_neg (some n) = some (neg_ℤ n)

-- The tuple of `sort_key`. Its first five parts are numbers in every key, so tuples compare as the
-- sequences of their numbers, the id's characters last.
unfoldable pub sort_key : Py → ProxyPool → ProxyEndpoint → List ℤ
sort_key py pool proxy = elim (health_of proxy.id pool.health) [
  | none ↦ proxy.priority ∷ pos 0 ∷ pos 0 ∷ pos 50000 ∷ pos 50 ∷ text_key proxy.id
  | some h ↦
      proxy.priority
      ∷ prefer py pool.policy h
      ∷ or_default (pos 0) (field_neg h.quality_score)
      ∷ or_default (pos 50000) h.latency_ms
      ∷ or_default (pos 50) h.risk_score
      ∷ text_key proxy.id
]

unfoldable pub key_before : Py → ProxyPool → ProxyEndpoint → ProxyEndpoint → Bool
key_before py pool p q = lex_leb (sort_key py pool p) (sort_key py pool q)

abbrev pub first_of : List ProxyEndpoint → Result ProxyEndpoint
first_of [] = err no_eligible_proxy
first_of (p ∷ ps) = ok p

unfoldable pub select : Py → ℕ → Bool → ProxyPool → Result ProxyEndpoint
select py now require_probed pool =
    first_of (sorted_by (key_before py pool) (candidates py now require_probed pool))
