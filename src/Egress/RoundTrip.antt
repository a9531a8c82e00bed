-- ===== src/Egress/RoundTrip.antt =====
-- app/egress/pool.py: what `from_dict` accepts, and that a saved pool loads as it was.
use mathlib.Core.List.{append_assoc, append-nil}
use nsfwtrack.Base.{
  String, false, Option, none, some, List, [], ◌∷◌, ◌++◌, map, member, str_eq, str_eq_iff, ◌≡◌, ◌≢◌,
  refl, arith,
}
use nsfwtrack.Egress.Contracts.{
  Py, Result, ok, err, bind, ProxyEndpoint, ProxyHealth, ProxyPoolPolicy, ProxyPool, health_of,
  set_health,
}
use nsfwtrack.Egress.Config.{
  option_or, validate_proxy_url, read_policy, expected_of, read_rest, read_proxy, read_proxies,
  store_health, read_health, proxies_given, from_dict, policy_dict, proxy_dict, health_dict, saved,
}

-- Every result that there is has a property.
abbrev pub Okay {κ} : {A : Type 0} → (A → Type κ) → Result A → Type κ
Okay P (ok a) = P a
Okay P (err e) = Unit

pub bind-Okay {κ μ} :
    {A B : Type 0} (P : A → Type κ) (Q : B → Type μ) (r : Result A) (f : A → Result B)
    → Okay P r
    → ((a : A) → r ≡ ok a → P a → Okay Q (f a))
    → Okay Q (bind r f)
bind-Okay P Q (ok a) f h k = k a refl h
bind-Okay P Q (err e) f h k = tt

pub any-Okay : {A : Type 0} (r : Result A) → Okay (λ a. Unit {0}) r
any-Okay (ok a) = tt
any-Okay (err e) = tt

pub map-Okay {κ μ} :
    {A : Type 0} (P : A → Type κ) (Q : A → Type μ) (r : Result A)
    → Okay P r
    → ((a : A) → P a → Q a)
    → Okay Q r
map-Okay P Q (ok a) h k = k a h
map-Okay P Q (err e) h k = tt

-- The texts of Python that `from_dict` normalises stay as they are when it is applied again.
pub record IsNormal (py : Py) : Type 0 where
  pub upper_twice : (s : String) → py.upper (py.upper s) ≡ py.upper s
  pub upper_nonempty : (s : String) → py.upper s ≡ "" → s ≡ ""
  pub strip_twice : (s : String) → py.strip (py.strip s) ≡ py.strip s

abbrev pub ExpectedForm : Py → Option String → Type 0
ExpectedForm py none = Unit
ExpectedForm py (some e) = (e ≢ "") × (py.upper e ≡ e)

-- A proxy as the pool holds it.
pub record ProxyForm (py : Py) (p : ProxyEndpoint) : Type 0 where
  pub id_stripped : py.strip p.id ≡ p.id
  pub id_nonempty : p.id ≢ ""
  pub url_stripped : py.strip p.url ≡ p.url
  pub url_valid : validate_proxy_url py p.url ≡ ok tt
  pub expected : ExpectedForm py p.expected_country

-- Proxies in that form, their ids distinct and not among those seen.
abbrev pub ProxiesForm : Py → List String → List ProxyEndpoint → Type 0
ProxiesForm py seen [] = Unit
ProxiesForm py seen (p ∷ ps) =
    (member p.id seen ≡ false) × ProxyForm py p × ProxiesForm py (p.id ∷ seen) ps

-- One health entry for an id.
abbrev pub Distinct : List ProxyHealth → Type 0
Distinct [] = Unit
Distinct (h ∷ hs) = (health_of h.proxy_id hs ≡ none) × Distinct hs

-- The well-formed pools.
pub record PoolForm (py : Py) (pool : ProxyPool) : Type 0 where
  pub denied_upper : map py.upper pool.policy.deny_countries ≡ pool.policy.deny_countries
  pub preferred_upper : map py.upper pool.policy.prefer_countries ≡ pool.policy.prefer_countries
  pub some_proxy : pool.proxies ≢ []
  pub proxies_form : ProxiesForm py [] pool.proxies
  pub one_health : Distinct pool.health

module _ (py : Py) where
  read_policy-saved :
      (p : ProxyPoolPolicy)
      → map py.upper p.deny_countries ≡ p.deny_countries
      → map py.upper p.prefer_countries ≡ p.prefer_countries
      → read_policy py (policy_dict p) ≡ ok p
  unfolding read_policy
  read_policy-saved p d e = λ i. ok (record p { deny_countries = d i; prefer_countries = e i })

  expected-saved : (o : Option String) → ExpectedForm py o → expected_of py (option_or "" o) ≡ o
  expected-saved none h = refl
  expected-saved (some e) h = ground (arith, h.0, h.1, str_eq_iff e "")

  read_rest-saved :
      (p : ProxyEndpoint)
      → ExpectedForm py p.expected_country
      → read_rest py p.id p.url (proxy_dict p) ≡ ok p
  unfolding read_rest
  read_rest-saved p h =
      λ i. ok (record p { expected_country = expected-saved p.expected_country h i })

  read_proxy-saved :
      (seen : List String) (p : ProxyEndpoint)
      → member p.id seen ≡ false
      → ProxyForm py p
      → read_proxy py seen (some (proxy_dict p)) ≡ ok p
  unfolding read_proxy
  read_proxy-saved seen p new f =
      let filled : str_eq p.id "" ≡ false = ground (arith, str_eq_iff p.id "", f.id_nonempty) in
      rw (read_proxy, f.id_stripped, f.url_stripped, new, filled, f.url_valid)
        (read_rest-saved p f.expected)

  read_proxies-saved :
      (seen : List String) (ps : List ProxyEndpoint)
      → ProxiesForm py seen ps
      → read_proxies py seen (map (λ (p : ProxyEndpoint). some (proxy_dict p)) ps) ≡ ok ps
  unfolding read_proxies
  read_proxies-saved seen [] f = refl
  read_proxies-saved seen (p ∷ ps) f =
      rw (read_proxies, read_proxy-saved seen p f.0 f.1)
        (rw (read_proxies-saved (p.id ∷ seen) ps f.2) refl)

  Distinct-new :
      (done : List ProxyHealth) (h : ProxyHealth) (hs : List ProxyHealth)
      → Distinct (done ++ (h ∷ hs))
      → health_of h.proxy_id done ≡ none
  unfolding health_of
  Distinct-new [] h hs d = refl
  Distinct-new (x ∷ done) h hs d = ground (
    arith,
    Distinct-new done h hs d.1,
    not_there x.proxy_id done d.0,
    str_eq_iff x.proxy_id h.proxy_id,
  )
    where
      not_there :
          (key : String) (xs : List ProxyHealth)
          → health_of key (xs ++ (h ∷ hs)) ≡ none
          → str_eq h.proxy_id key ≡ false
      not_there key [] e = ground (arith, e)
      not_there key (y ∷ xs) e = not_there key xs (ground (arith, e))

  set_health-new :
      (done : List ProxyHealth) (h : ProxyHealth)
      → health_of h.proxy_id done ≡ none
      → set_health h done ≡ done ++ (h ∷ [])
  unfolding health_of set_health
  set_health-new [] h e = refl
  set_health-new (x ∷ done) h e = ground (arith, set_health-new done h)

  read_health-saved :
      (hs done : List ProxyHealth)
      → Distinct (done ++ hs)
      → read_health done (map health_dict hs) ≡ ok (done ++ hs)
  unfolding read_health store_health
  read_health-saved [] done d = rw append-nil refl
  read_health-saved (h ∷ hs) done d =
      let split : done ++ (h ∷ hs) ≡ (done ++ (h ∷ [])) ++ hs = rw append_assoc refl in
      rw (set_health-new done h (Distinct-new done h hs d))
        (rw split (read_health-saved hs (done ++ (h ∷ [])) (rw split at d)))

  proxies_given-saved :
      (ps : List ProxyEndpoint)
      → ps ≢ []
      → proxies_given (map (λ (p : ProxyEndpoint). some (proxy_dict p)) ps)
        ≡ ok (map (λ (p : ProxyEndpoint). some (proxy_dict p)) ps)
  proxies_given-saved [] h = absurd (h refl)
  proxies_given-saved (p ∷ ps) h = refl

  -- A well-formed pool that is saved and loaded again is the same pool: its policy, its proxies in
  -- their order and its health entries.
  pub from_dict-saved :
      (pool : ProxyPool) → PoolForm py pool → from_dict py (some (saved pool)) ≡ ok pool
  unfolding from_dict saved
  from_dict-saved pool f =
      rw
        (
          read_policy-saved pool.policy f.denied_upper f.preferred_upper,
          proxies_given-saved pool.proxies f.some_proxy,
          read_proxies-saved [] pool.proxies f.proxies_form,
          read_health-saved pool.health [] f.one_health,
        )
        refl
