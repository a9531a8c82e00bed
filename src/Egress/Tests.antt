-- ===== src/Egress/Tests.antt =====
-- Runs of the proxy pool at concrete inputs.
use nsfwtrack.Base.{
  ℕ, String, Bool, true, false, not, ◌&&◌, Option, none, some, [], ◌∷◌, ◌≡◌, ◌≢◌, refl, arith,
  str_eq, str_eq_iff, pos, ◌≤ℤ◌, lex_leb, insert_sorted, sorted_by, leb,
}
use nsfwtrack.Egress.Contracts.{
  Py, Result, ok, err, no_eligible_proxy, unknown_proxy, ProxyEndpoint, in_cooldown,
  ProxyPoolPolicy, GeoResult, ProxyPool, health_of, set_health, after_seconds, exit_probe_failed,
}
use nsfwtrack.Egress.Probe.{octet, cut, without_newline, four_octets, is_ip, Fetched, SbAnswer}
use nsfwtrack.Egress.Quality.{Answer}
use nsfwtrack.Egress.Config.{from_dict, saved, validate_proxy_url}
use nsfwtrack.Egress.Pool.{
  get, policy_reject_reason, ProbeRun, measured, unreachable, judged, located, exited,
  probed_health, probe_one, probe_all, is_eligible, eligible, candidates, prefer, sort_key,
  key_before, select,
}
use nsfwtrack.Egress.Choice.{Selects, select_result}
use nsfwtrack.Egress.Probing.{Probes, probe_one_result, probe_runs, AllFailed, Failed, fails_of}
use nsfwtrack.Egress.Failures.{select-disabled}
use nsfwtrack.Egress.RoundTrip.{IsNormal, ProxyForm, PoolForm, from_dict-saved}
use nsfwtrack.Egress.Accepted.{probe_all_reloads}

-- Texts in upper case and without blanks, over plain http.
abbrev py : Py
py = record {
  upper = λ s. s;
  lower = λ s. s;
  strip = λ s. s;
  contains = λ token s. str_eq token s;
  scheme = λ s. "http";
  has_hostname = λ s. not (str_eq s "");
  has_fragment = λ s. false;
}

py-IsNormal : IsNormal py
py-IsNormal = record { upper_twice = λ s. refl; upper_nonempty = λ s e. e; strip_twice = λ s. refl }

abbrev digit : ℕ → Bool
digit c = leb 48 c && leb c 57

abbrev policy : ProxyPoolPolicy
policy = record {
  deny_countries = "JP" ∷ "KR" ∷ [];
  prefer_countries = "US" ∷ [];
  max_risk_score = pos 90;
  require_exit_ip = true;
  cooldown_seconds = pos 300;
  max_fail_count_before_disable = pos 2;
  probe_url = "";
  geo_provider = "ip_sb";
}

abbrev proxy : String → ℕ → ProxyEndpoint
proxy key priority = record {
  id = key;
  url = "http://10.0.0.1:6123";
  enabled = true;
  priority = pos priority;
  tags = [];
  expected_country = none;
  notes = "";
}

abbrev pool : ProxyPool
pool = record { proxies = proxy "a" 100 ∷ proxy "b" 100 ∷ []; policy = policy; health = [] }

abbrev geo : String → GeoResult
geo country = record {
  ip = "1.2.3.4";
  country_code = some country;
  country_name = none;
  isp = none;
  geo_risk = pos 15;
  ip_type = none;
  source = "api.ip.sb";
}

abbrev run : Result String → String → ProbeRun
run exit country = record {
  checked_at = "2026-01-01T00:00:00Z";
  exit_ip = exit;
  latency = pos 80;
  geo = λ ip. ok (geo country);
  quality = none;
  failed_latency = pos 20;
  finished_at = 1000;
}

abbrev silent : ProbeRun
silent = run (err exit_probe_failed) "US"

abbrev in_japan : ProbeRun
in_japan = run (ok "1.2.3.4") "JP"

abbrev in_states : ProbeRun
in_states = run (ok "1.2.3.4") "US"

opened : Unit {0}
unfolding get policy_reject_reason measured unreachable judged located exited probed_health
    probe_one is_eligible eligible candidates prefer sort_key key_before select health_of set_health
    in_cooldown after_seconds lex_leb insert_sorted sorted_by probe_runs AllFailed
opened = tt

test_first : select py 0 false pool ≡ ok (proxy "a" 100)
unfolding opened
test_first = refl

-- The preferred country comes first among equals.
test_preferred : select py 0 false (probe_one py "b" in_states pool).1 ≡ ok (proxy "b" 100)
unfolding opened
test_preferred = refl

test_none_probed : select py 0 true pool ≡ err no_eligible_proxy
unfolding opened
test_none_probed = refl

-- A denied country keeps a proxy out while it cools down, and no longer.
test_denied : select py 1200 false (probe_one py "a" in_japan pool).1 ≡ ok (proxy "b" 100)
unfolding opened
test_denied = refl

test_back : select py 1300 false (probe_one py "a" in_japan pool).1 ≡ ok (proxy "a" 100)
unfolding opened
test_back = refl

test_unknown : probe_one py "c" silent pool ≡ (err unknown_proxy, pool)
unfolding opened
test_unknown = refl

test_ip : is_ip digit "192.168.001.255" ≡ true
unfolding is_ip four_octets octet cut without_newline
test_ip = refl

test_no_ip : is_ip digit "192.168.1.256" ≡ false
unfolding is_ip four_octets octet cut without_newline
test_no_ip = refl

abbrev both_failed : ProxyPool
both_failed = (probe_one py "a" silent (probe_one py "a" in_japan pool).1).1

both_failed-AllFailed : AllFailed py "a" (in_japan ∷ silent ∷ []) pool
unfolding opened
both_failed-AllFailed = (refl, (refl, tt))

picked : select py 9000 false (probe_runs py "a" (in_japan ∷ silent ∷ []) pool) ≡ ok (proxy "b" 100)
unfolding opened
picked = refl

starts : pos 0 ≤ℤ fails_of "a" pool
unfolding opened
starts = omega arith

select-disabled_example : ◌≡◌ {A = String} "b" "a" → ⊥
select-disabled_example =
    select-disabled py "a" (in_japan ∷ silent ∷ []) pool 9000 false (proxy "b" 100)
      both_failed-AllFailed starts (omega arith) (omega arith) picked

in_japan-Failed : Failed (probe_one py "a" in_japan pool).0
unfolding opened
in_japan-Failed = refl

select_result_example : Selects py 0 true pool (select py 0 true pool)
select_result_example = select_result py 0 pool true

probe_one_result_example :
    Probes py "a" in_japan pool (some (proxy "a" 100)) (probe_one py "a" in_japan pool)
unfolding get
probe_one_result_example = probe_one_result py "a" in_japan pool

pool-PoolForm : PoolForm py pool
unfolding validate_proxy_url
pool-PoolForm = record {
  denied_upper = refl;
  preferred_upper = refl;
  some_proxy = λ e. cc;
  proxies_form = (refl, form "a" (differ "a" refl), (refl, form "b" (differ "b" refl), tt));
  one_health = tt;
}
  where
    differ : (s : String) → str_eq s "" ≡ false → s ≢ ""
    differ s h e = ground (arith, str_eq_iff s "", h, e)

    form : (key : String) → key ≢ "" → ProxyForm py (proxy key 100)
    form key filled = record {
      id_stripped = refl;
      id_nonempty = filled;
      url_stripped = refl;
      url_valid = refl;
      expected = tt;
    }

probe_all_reloads_example :
    from_dict py (some (saved (probe_all py (λ key. in_japan) pool)))
    ≡ ok (probe_all py (λ key. in_japan) pool)
probe_all_reloads_example =
    probe_all_reloads py py-IsNormal (λ key. in_japan) (some (saved pool)) pool
      (from_dict-saved py pool pool-PoolForm)

abbrev answer : String → Answer
answer name = record {
  ok = not (str_eq name "ipify");
  status_code = some 200;
  latency_ms = some 1600;
}

abbrev sb_answer : String → Option SbAnswer
sb_answer ip = some (record {
  country_code = some "US";
  organization = "cloud";
  asn_organization = "";
  isp = "";
  country = "";
  ip = none;
})

abbrev fetched : String → Fetched
fetched url = record { ok = true; body = record { braced = false; loads = none; bare = "1.2.3.4" } }
