-- ===== src/Egress/Config.antt =====
-- app/egress/pool.py, `ProxyPool.from_dict` and what `save` writes: the stored form of the pool.
use nsfwtrack.Base.{
  String, Bool, true, not, ◌||◌, Option, none, some, List, [], ◌∷◌, map, member, str_eq,
  if◌then◌else◌, ℤ, pos,
}
use nsfwtrack.Egress.Contracts.{
  Py, EgressError, root_not_object, policy_not_object, no_proxies, entry_not_object, bad_id,
  bad_scheme, no_hostname, has_a_fragment, socks_proxy, tags_not_list, not_an_int, Result, ok, err,
  bind, ProxyEndpoint, ProxyHealth, ProxyPoolPolicy, ProxyPool, set_health,
}

-- A value of a JSON object: absent (or falsy, where the code goes on with `or`), of a type that the code
-- refuses, or as wanted.
pub data Slot (A : Type 0) : Type 0 where
  missing : Slot A
  wrong : Slot A
  given : A → Slot A

abbrev pub slot_or : {A : Type 0} → EgressError → A → Slot A → Result A
slot_or e d missing = ok d
slot_or e d wrong = err e
slot_or e d (given a) = ok a

abbrev pub option_or : {A : Type 0} → A → Option A → A
option_or d none = d
option_or d (some a) = a

-- The object of `policy`; texts are what `str` gives, `probe_url` empty if it is falsy.
pub record RawPolicy : Type 0 where
  pub raw_deny : Slot (List String)
  pub raw_prefer : Slot (List String)
  pub raw_max_risk : Slot ℤ
  pub raw_require_exit_ip : Option Bool
  pub raw_cooldown : Slot ℤ
  pub raw_max_fail : Slot ℤ
  pub raw_probe_url : String
  pub raw_geo_provider : Option String

-- An entry of `proxies`; texts are what `str` gives, empty if the value is falsy.
pub record RawProxy : Type 0 where
  pub raw_id : String
  pub raw_url : String
  pub raw_enabled : Option Bool
  pub raw_priority : Slot ℤ
  pub raw_tags : Slot (List String)
  pub raw_expected : String
  pub raw_notes : String

-- An entry of `health`: its fields, absent ones at the defaults of the class, and whether `int` and
-- `float` take its numbers.
pub record RawHealth : Type 0 where
  pub raw_key : String
  pub raw_fields : Slot ProxyHealth
  pub raw_numbers : Bool

pub record RawPool : Type 0 where
  pub raw_policy : Slot RawPolicy
  pub raw_proxies : Slot (List (Option RawProxy))
  pub raw_health : Slot (List RawHealth)

unfoldable pub validate_proxy_url : Py → String → Result Unit
validate_proxy_url py url =
    let scheme = py.scheme url in
    if not (member scheme ("http" ∷ "https" ∷ "socks5" ∷ "socks5h" ∷ []))
    then err bad_scheme
    else if not (py.has_hostname url)
    then err no_hostname
    else if py.has_fragment url
    then err has_a_fragment
    else if member scheme ("socks5" ∷ "socks5h" ∷ [])
    then err socks_proxy
    else ok tt

abbrev pub no_policy : RawPolicy
no_policy = record {
  raw_deny = missing;
  raw_prefer = missing;
  raw_max_risk = missing;
  raw_require_exit_ip = none;
  raw_cooldown = missing;
  raw_max_fail = missing;
  raw_probe_url = "";
  raw_geo_provider = none;
}

unfoldable pub read_policy : Py → RawPolicy → Result ProxyPoolPolicy
read_policy py raw = bind (slot_or not_an_int ("JP" ∷ "KR" ∷ []) raw.raw_deny) λ deny.
    bind (slot_or not_an_int [] raw.raw_prefer) λ prefer.
      bind (slot_or not_an_int (pos 90) raw.raw_max_risk) λ risk.
        bind (slot_or not_an_int (pos 300) raw.raw_cooldown) λ cooldown.
          bind (slot_or not_an_int (pos 5) raw.raw_max_fail) λ fails. ok (record {
            deny_countries = map py.upper deny;
            prefer_countries = map py.upper prefer;
            max_risk_score = risk;
            require_exit_ip = option_or true raw.raw_require_exit_ip;
            cooldown_seconds = cooldown;
            max_fail_count_before_disable = fails;
            probe_url = raw.raw_probe_url;
            geo_provider = option_or "ip_sb" raw.raw_geo_provider;
          })

abbrev pub expected_of : Py → String → Option String
expected_of py s = if str_eq s "" then none else some (py.upper s)

-- The entry after its id and its url are accepted.
unfoldable pub read_rest : Py → String → String → RawProxy → Result ProxyEndpoint
read_rest py id url raw = bind (slot_or tags_not_list [] raw.raw_tags) λ tags.
    bind (slot_or not_an_int (pos 100) raw.raw_priority) λ priority. ok (record {
      id = id;
      url = url;
      enabled = option_or true raw.raw_enabled;
      priority = priority;
      tags = tags;
      expected_country = expected_of py raw.raw_expected;
      notes = raw.raw_notes;
    })

-- One round of the loop over `proxies`.
unfoldable pub read_proxy : Py → List String → Option RawProxy → Result ProxyEndpoint
read_proxy py seen none = err entry_not_object
read_proxy py seen (some raw) =
    let id = py.strip raw.raw_id in
    let url = py.strip raw.raw_url in
    if str_eq id "" || member id seen
    then err bad_id
    else bind (validate_proxy_url py url) λ u. read_rest py id url raw

unfoldable pub read_proxies :
    Py → List String → List (Option RawProxy) → Result (List ProxyEndpoint)
read_proxies py seen [] = ok []
read_proxies py seen (e ∷ es) =
    bind (read_proxy py seen e) λ p. bind (read_proxies py (p.id ∷ seen) es) λ ps. ok (p ∷ ps)

-- One round of the loop over `health`; what is no object is left out.
unfoldable pub store_health :
    String → Bool → Slot ProxyHealth → List ProxyHealth → Result (List ProxyHealth)
store_health key numbers missing done = ok done
store_health key numbers wrong done = ok done
store_health key numbers (given h) done =
    if not numbers then err not_an_int else ok (set_health (record h { proxy_id = key }) done)

unfoldable pub read_health : List ProxyHealth → List RawHealth → Result (List ProxyHealth)
read_health done [] = ok done
read_health done (raw ∷ raws) =
    bind (store_health raw.raw_key raw.raw_numbers raw.raw_fields done)
      λ next. read_health next raws

abbrev pub proxies_given : List (Option RawProxy) → Result (List (Option RawProxy))
proxies_given [] = err no_proxies
proxies_given (e ∷ es) = ok (e ∷ es)

abbrev pub health_entries : Slot (List RawHealth) → List RawHealth
health_entries missing = []
health_entries wrong = []
health_entries (given raws) = raws

unfoldable pub from_dict : Py → Option RawPool → Result ProxyPool
from_dict py none = err root_not_object
from_dict py (some raw) = bind (slot_or policy_not_object no_policy raw.raw_policy) λ raw_policy.
    bind (read_policy py raw_policy) λ policy.
      bind (slot_or no_proxies [] raw.raw_proxies) λ raw_proxies.
        bind (proxies_given raw_proxies) λ entries. bind (read_proxies py [] entries) λ proxies.
          bind (read_health [] (health_entries raw.raw_health))
            λ health. ok (record { proxies = proxies; policy = policy; health = health })

abbrev pub policy_dict : ProxyPoolPolicy → RawPolicy
policy_dict p = record {
  raw_deny = given p.deny_countries;
  raw_prefer = given p.prefer_countries;
  raw_max_risk = given p.max_risk_score;
  raw_require_exit_ip = some p.require_exit_ip;
  raw_cooldown = given p.cooldown_seconds;
  raw_max_fail = given p.max_fail_count_before_disable;
  raw_probe_url = p.probe_url;
  raw_geo_provider = some p.geo_provider;
}

abbrev pub proxy_dict : ProxyEndpoint → RawProxy
proxy_dict p = record {
  raw_id = p.id;
  raw_url = p.url;
  raw_enabled = some p.enabled;
  raw_priority = given p.priority;
  raw_tags = given p.tags;
  raw_expected = option_or "" p.expected_country;
  raw_notes = p.notes;
}

abbrev pub health_dict : ProxyHealth → RawHealth
health_dict h = record { raw_key = h.proxy_id; raw_fields = given h; raw_numbers = true }

-- `payload` of `save`, as it is loaded again: the lists and objects that `asdict` makes.
unfoldable pub saved : ProxyPool → RawPool
saved pool = record {
  raw_policy = given (policy_dict pool.policy);
  raw_proxies = given (map (λ (p : ProxyEndpoint). some (proxy_dict p)) pool.proxies);
  raw_health = given (map health_dict pool.health);
}
