-- ===== src/Egress/Accepted.antt =====
-- app/egress/pool.py: the pools that `from_dict` accepts are well formed.
use nsfwtrack.Base.{
  String, Bool, true, false, not, ◌||◌, Option, none, some, List, [], ◌∷◌, map, member, str_eq,
  str_eq_iff, if◌then◌else◌, ◌≡◌, ◌≢◌, refl, arith, Bool-cases, inl, inr,
}
use nsfwtrack.Egress.Contracts.{
  Py, EgressError, not_an_int, Result, ok, err, ProxyEndpoint, ProxyHealth, ProxyPoolPolicy,
  ProxyPool, health_of, set_health,
}
use nsfwtrack.Egress.Config.{
  Slot, missing, wrong, given, slot_or, RawPolicy, RawProxy, RawHealth, RawPool, validate_proxy_url,
  read_policy, expected_of, read_rest, read_proxy, read_proxies, store_health, read_health,
  proxies_given, health_entries, from_dict, saved,
}
use nsfwtrack.Egress.Pool.{get, ProbeRun, probe_one, probe_proxies, probe_all}
use nsfwtrack.Egress.Probing.{set-health_of}
use nsfwtrack.Egress.RoundTrip.{
  Okay, bind-Okay, any-Okay, map-Okay, IsNormal, ExpectedForm, ProxyForm, ProxiesForm, Distinct,
  PoolForm, from_dict-saved,
}

if_err-Okay {κ} :
    {A : Type 0} (P : A → Type κ) (b : Bool) (e : EgressError) (r : Result A)
    → (b ≡ false → Okay P r)
    → Okay P (if b then err e else r)
if_err-Okay P true e r h = tt
if_err-Okay P false e r h = h refl

Distinct-set_health :
    (h : ProxyHealth) (hs : List ProxyHealth) → Distinct hs → Distinct (set_health h hs)
unfolding set_health health_of
Distinct-set_health h [] d = (refl, tt)
Distinct-set_health h (x ∷ xs) d = ground (
  arith,
  d.0,
  d.1,
  Distinct-set_health h xs d.1,
  set-health_of x.proxy_id h xs,
  str_eq_iff x.proxy_id h.proxy_id,
  str_eq_iff h.proxy_id x.proxy_id,
)

module _ (py : Py) (normal : IsNormal py) where
  map-upper : (cs : List String) → map py.upper (map py.upper cs) ≡ map py.upper cs
  map-upper [] = refl
  map-upper (c ∷ cs) = rw (normal.upper_twice c, map-upper cs) refl

  abbrev UpperPolicy : ProxyPoolPolicy → Type 0
  UpperPolicy p =
      (map py.upper p.deny_countries ≡ p.deny_countries)
      × (map py.upper p.prefer_countries ≡ p.prefer_countries)

  read_policy-Okay : (raw : RawPolicy) → Okay UpperPolicy (read_policy py raw)
  unfolding read_policy
  read_policy-Okay raw = bind-Okay _ _ (slot_or _ _ raw.raw_deny) _ (any-Okay _) λ deny e t.
      bind-Okay _ _ (slot_or _ _ raw.raw_prefer) _ (any-Okay _) λ prefer e t.
        bind-Okay _ _ (slot_or _ _ raw.raw_max_risk) _ (any-Okay _) λ risk e t.
          bind-Okay _ _ (slot_or _ _ raw.raw_cooldown) _ (any-Okay _) λ cooldown e t.
            bind-Okay _ _ (slot_or _ _ raw.raw_max_fail) _ (any-Okay _)
              λ fails e t. (map-upper deny, map-upper prefer)

  expected_of-Form : (s : String) → ExpectedForm py (expected_of py s)
  expected_of-Form s = elim (Bool-cases (str_eq s "")) [
    | inl e ↦ rw e tt
    | inr e ↦
        rw e (
          (λ u. ground (arith, e, str_eq_iff s "", normal.upper_nonempty s u)),
          normal.upper_twice s,
        )
  ]

  abbrev Accepts : String → String → ProxyEndpoint → Type 0
  Accepts id url p = (p.id ≡ id) × (p.url ≡ url) × ExpectedForm py p.expected_country

  read_rest-Okay :
      (id url : String) (raw : RawProxy) → Okay (Accepts id url) (read_rest py id url raw)
  unfolding read_rest
  read_rest-Okay id url raw = bind-Okay _ _ (slot_or _ _ raw.raw_tags) _ (any-Okay _) λ tags e t.
      bind-Okay _ _ (slot_or _ _ raw.raw_priority) _ (any-Okay _)
        λ priority e t. (refl, refl, expected_of-Form raw.raw_expected)

  New : List String → ProxyEndpoint → Type 0
  New seen p = (member p.id seen ≡ false) × ProxyForm py p

  accepted-New :
      (seen : List String) (raw : RawProxy) (p : ProxyEndpoint) (u : Unit {0})
      → (str_eq (py.strip raw.raw_id) "" || member (py.strip raw.raw_id) seen) ≡ false
      → validate_proxy_url py (py.strip raw.raw_url) ≡ ok u
      → Accepts (py.strip raw.raw_id) (py.strip raw.raw_url) p
      → New seen p
  unfolding New
  accepted-New seen raw p u fresh valid a = (
    rw a.0 (ground (arith, fresh)),
    record {
      id_stripped = rw a.0 (normal.strip_twice raw.raw_id);
      id_nonempty = λ e. ground (arith, fresh, a.0, e, str_eq_iff (py.strip raw.raw_id) "");
      url_stripped = rw a.1 (normal.strip_twice raw.raw_url);
      url_valid = rw a.1 valid;
      expected = a.2;
    },
  )

  read_proxy-Okay :
      (seen : List String) (raw : Option RawProxy) → Okay (New seen) (read_proxy py seen raw)
  unfolding read_proxy
  read_proxy-Okay seen none = tt
  read_proxy-Okay seen (some raw) = if_err-Okay (New seen) _ _ _ λ fresh.
      bind-Okay (λ u. Unit {0}) (New seen) (validate_proxy_url py (py.strip raw.raw_url)) _
        (any-Okay _)
        λ u valid t.
          map-Okay (Accepts (py.strip raw.raw_id) (py.strip raw.raw_url)) (New seen) _
            (read_rest-Okay (py.strip raw.raw_id) (py.strip raw.raw_url) raw)
            (λ p a. accepted-New seen raw p u fresh valid a)

  read_proxies-Okay :
      (seen : List String) (raws : List (Option RawProxy))
      → Okay (ProxiesForm py seen) (read_proxies py seen raws)
  unfolding read_proxies New
  read_proxies-Okay seen [] = tt
  read_proxies-Okay seen (raw ∷ raws) =
      bind-Okay (New seen) (ProxiesForm py seen) (read_proxy py seen raw) _
        (read_proxy-Okay seen raw)
        λ p e f.
          bind-Okay (ProxiesForm py (p.id ∷ seen)) (ProxiesForm py seen)
            (read_proxies py (p.id ∷ seen) raws) _ (read_proxies-Okay (p.id ∷ seen) raws)
            λ ps g h. (f.0, f.1, h)

  read_proxies-nonempty :
      (raws : List (Option RawProxy)) → raws ≢ [] → Okay (λ ps. ps ≢ []) (read_proxies py [] raws)
  unfolding read_proxies
  read_proxies-nonempty [] h = absurd (h refl)
  read_proxies-nonempty (raw ∷ raws) h =
      bind-Okay (λ p. Unit {0}) _ (read_proxy py [] raw) _ (any-Okay _)
        λ p e t.
          bind-Okay (λ ps. Unit {0}) _ (read_proxies py (p.id ∷ []) raws) _ (any-Okay _)
            λ ps g s. λ none_left. cc

  store_health-Okay :
      (key : String) (numbers : Bool) (slot : Slot ProxyHealth) (done : List ProxyHealth)
      → Distinct done
      → Okay Distinct (store_health key numbers slot done)
  unfolding store_health
  store_health-Okay key numbers missing done d = d
  store_health-Okay key numbers wrong done d = d
  store_health-Okay key numbers (given h) done d =
      if_err-Okay Distinct (not numbers) not_an_int
        (ok (set_health (record h { proxy_id = key }) done))
        λ n. Distinct-set_health (record h { proxy_id = key }) done d

  read_health-Okay :
      (done : List ProxyHealth) (raws : List RawHealth)
      → Distinct done
      → Okay Distinct (read_health done raws)
  unfolding read_health
  read_health-Okay done [] d = d
  read_health-Okay done (raw ∷ raws) d =
      bind-Okay Distinct Distinct (store_health raw.raw_key raw.raw_numbers raw.raw_fields done) _
        (store_health-Okay raw.raw_key raw.raw_numbers raw.raw_fields done d)
        λ next e n. read_health-Okay next raws n

  proxies_given-Okay : (raws : List (Option RawProxy)) → Okay (λ r. r ≢ []) (proxies_given raws)
  proxies_given-Okay [] = tt
  proxies_given-Okay (raw ∷ raws) = λ e. cc

  Okay-both {κ μ} :
      {A : Type 0} (P : A → Type κ) (Q : A → Type μ) (r : Result A)
      → Okay P r
      → Okay Q r
      → Okay (λ a. P a × Q a) r
  Okay-both P Q (ok a) h k = (h, k)
  Okay-both P Q (err e) h k = tt

  from_dict-Okay : (raw : Option RawPool) → Okay (PoolForm py) (from_dict py raw)
  unfolding from_dict
  from_dict-Okay none = tt
  from_dict-Okay (some raw) =
      bind-Okay _ _ (slot_or _ _ raw.raw_policy) _ (any-Okay _) λ raw_policy e t.
        bind-Okay UpperPolicy _ (read_policy py raw_policy) _ (read_policy-Okay raw_policy)
          λ policy f up.
            bind-Okay _ _ (slot_or _ _ raw.raw_proxies) _ (any-Okay _) λ raw_proxies g t.
              bind-Okay _ _ (proxies_given raw_proxies) _ (proxies_given-Okay raw_proxies)
                λ entries h filled.
                  bind-Okay _ _ (read_proxies py [] entries) _
                    (Okay-both (λ ps. ps ≢ []) (ProxiesForm py []) (read_proxies py [] entries)
                      (read_proxies-nonempty entries filled) (read_proxies-Okay [] entries))
                    λ proxies k form.
                      bind-Okay Distinct _ (read_health [] (health_entries raw.raw_health)) _
                        (read_health-Okay [] (health_entries raw.raw_health) tt)
                        λ health l one. record {
                          denied_upper = up.0;
                          preferred_upper = up.1;
                          some_proxy = form.0;
                          proxies_form = form.1;
                          one_health = one;
                        }

  -- A pool that `from_dict` accepts has a proxy, distinct non-empty proxy ids without surrounding
  -- blanks, urls that pass `_validate_proxy_url`, countries in upper case, and one health entry for an
  -- id; and once saved it loads as the same pool. This rests on `upper` and `strip` of Python changing
  -- nothing the second time.
  pub from_dict_stable :
      (raw : Option RawPool) (pool : ProxyPool)
      → from_dict py raw ≡ ok pool
      → PoolForm py pool × (from_dict py (some (saved pool)) ≡ ok pool)
  from_dict_stable raw pool e =
      let form : PoolForm py pool = rw e at (from_dict-Okay raw) in
      (form, from_dict-saved py pool form)

  probe_one-PoolForm :
      (key : String) (run : ProbeRun) (pool : ProxyPool)
      → PoolForm py pool
      → PoolForm py (probe_one py key run pool).1
  unfolding probe_one
  probe_one-PoolForm key run pool f = by_get (get key pool) refl
    where
      by_get :
          (o : Option ProxyEndpoint) → get key pool ≡ o → PoolForm py (probe_one py key run pool).1
      by_get none e = rw (probe_one, e) f
      by_get (some proxy) e =
          rw (probe_one, e)
            record {
              denied_upper = f.denied_upper;
              preferred_upper = f.preferred_upper;
              some_proxy = f.some_proxy;
              proxies_form = f.proxies_form;
              one_health = Distinct-set_health _ pool.health f.one_health;
            }

  probe_proxies-PoolForm :
      (runs : String → ProbeRun) (ps : List ProxyEndpoint) (pool : ProxyPool)
      → PoolForm py pool
      → PoolForm py (probe_proxies py runs ps pool)
  unfolding probe_proxies
  probe_proxies-PoolForm runs [] pool f = f
  probe_proxies-PoolForm runs (p ∷ ps) pool f = elim (Bool-cases p.enabled) [
    | inl e ↦ rw e (
        probe_proxies-PoolForm runs ps (probe_one py p.id (runs p.id) pool).1
          (probe_one-PoolForm p.id (runs p.id) pool f))
    | inr e ↦ rw e (probe_proxies-PoolForm runs ps pool f)
  ]

  -- A pool that was loaded, had all its proxies probed and was saved, loads again as it was after the
  -- probes, health entries included, whatever the probes found.
  pub probe_all_reloads :
      (runs : String → ProbeRun) (raw : Option RawPool) (pool : ProxyPool)
      → from_dict py raw ≡ ok pool
      → from_dict py (some (saved (probe_all py runs pool))) ≡ ok (probe_all py runs pool)
  unfolding probe_all
  probe_all_reloads runs raw pool e =
      from_dict-saved py (probe_proxies py runs pool.proxies pool)
        (probe_proxies-PoolForm runs pool.proxies pool (from_dict_stable raw pool e).0)
