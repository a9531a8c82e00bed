-- ===== src/Egress/Contracts.antt =====
-- app/egress/pool.py: the dataclasses of the pool, and what the code calls outside it.
use nsfwtrack.Base.{
  ℕ, String, Bool, Option, none, some, List, [], ◌∷◌, ◌+◌, ◌-◌, suc, ltb, str_eq, if◌then◌else◌,
}
use nsfwtrack.Base.{ℤ, pos, negsuc}

-- The string methods of Python, and the parts of `urlparse(url)`.
pub record Py : Type 0 where
  pub upper : String → String
  pub lower : String → String
  pub strip : String → String
  pub contains : String → String → Bool
  pub scheme : String → String
  pub has_hostname : String → Bool
  pub has_fragment : String → Bool

-- `EgressError`, by its message, or what a call of a builtin raises.
pub data EgressError : Type 0 where
  root_not_object policy_not_object no_proxies entry_not_object bad_id bad_scheme no_hostname
        has_a_fragment socks_proxy tags_not_list :
      EgressError
  unknown_proxy no_eligible_proxy : EgressError
  exit_probe_failed invalid_ip geo_failed : EgressError
  rejected : String → EgressError
  not_an_int : EgressError

pub data Result (A : Type 0) : Type 0 where
  ok : A → Result A
  err : EgressError → Result A

abbrev pub bind : {A B : Type 0} → Result A → (A → Result B) → Result B
bind (ok a) f = f a
bind (err e) f = err e

pub record ProxyEndpoint : Type 0 where
  pub id : String
  pub url : String
  pub enabled : Bool
  pub priority : ℤ
  pub tags : List String
  pub expected_country : Option String
  pub notes : String

-- `cooldown_until` in seconds since 1970.
pub record ProxyHealth : Type 0 where
  pub proxy_id : String
  pub ok : Bool
  pub checked_at : String
  pub latency_ms : Option ℤ
  pub exit_ip : Option String
  pub country_code : Option String
  pub country_name : Option String
  pub risk_score : Option ℤ
  pub ip_type : Option String
  pub isp : Option String
  pub error : Option String
  pub geo_source : Option String
  pub quality_score : Option ℤ
  pub quality_grade : Option String
  pub quality_passed : Option ℤ
  pub quality_failed : Option ℤ
  pub fail_count : ℤ
  pub cooldown_until : ℕ

unfoldable pub in_cooldown : ProxyHealth → ℕ → Bool
in_cooldown h now = ltb now h.cooldown_until

pub record ProxyPoolPolicy : Type 0 where
  pub deny_countries : List String
  pub prefer_countries : List String
  pub max_risk_score : ℤ
  pub require_exit_ip : Bool
  pub cooldown_seconds : ℤ
  pub max_fail_count_before_disable : ℤ
  pub probe_url : String
  pub geo_provider : String

pub record QualityItem : Type 0 where
  pub target : String
  pub ok : Bool
  pub latency_ms : Option ℕ
  pub status_code : Option ℕ

pub record QualityReport : Type 0 where
  pub proxy_id : String
  pub score : ℕ
  pub grade : String
  pub passed : ℕ
  pub failed : ℕ
  pub base_latency_ms : Option ℤ
  pub items : List QualityItem

pub record GeoResult : Type 0 where
  pub ip : String
  pub country_code : Option String
  pub country_name : Option String
  pub isp : Option String
  pub geo_risk : ℤ
  pub ip_type : Option String
  pub source : String

-- The pool, its health map by proxy id.
pub record ProxyPool : Type 0 where
  pub proxies : List ProxyEndpoint
  pub policy : ProxyPoolPolicy
  pub health : List ProxyHealth

abbrev pub has_proxy_id : String → ProxyHealth → Bool
has_proxy_id key h = str_eq h.proxy_id key

-- `self.health.get(key)`
unfoldable pub health_of : String → List ProxyHealth → Option ProxyHealth
health_of key [] = none
health_of key (h ∷ hs) = let rest = health_of key hs in if has_proxy_id key h then some h else rest

-- `self.health[h.proxy_id] = h`
unfoldable pub set_health : ProxyHealth → List ProxyHealth → List ProxyHealth
set_health h [] = h ∷ []
set_health h (x ∷ xs) =
    let rest = set_health h xs in if has_proxy_id h.proxy_id x then h ∷ xs else x ∷ rest

-- `time.time() + seconds`
unfoldable pub after_seconds : ℕ → ℤ → ℕ
after_seconds now (pos n) = now + n
after_seconds now (negsuc n) = now - suc n
