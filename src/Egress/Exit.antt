-- ===== src/Egress/Exit.antt =====
-- app/egress/pool.py, `probe_exit_ip`: what address it returns, and when it fails.
use nsfwtrack.Base.{
  ℕ, String, Bool, true, Option, none, some, List, [], ◌∷◌, ◌≡◌, refl, Bool-cases, Option-cases,
  inl, inr, All, ap, ◌++◌,
}
use nsfwtrack.Egress.Contracts.{Result, ok, err, exit_probe_failed}
use nsfwtrack.Egress.Probe.{
  is_ip, Fetched, Body, first_ip, bare_ip, ip_or, ip_of, probe_urls, ask, probe_exit_ip,
}

abbrev pub IsIp : (ℕ → Bool) → Option String → Type 0
IsIp digit none = Unit
IsIp digit (some s) = is_ip digit s ≡ true

first_ip-IsIp : (digit : ℕ → Bool) (ss : List String) → IsIp digit (first_ip digit ss)
first_ip-IsIp digit [] = tt
first_ip-IsIp digit (s ∷ ss) = elim (Bool-cases (is_ip digit s)) [
  | inl e ↦ rw e e
  | inr e ↦ rw e (first_ip-IsIp digit ss)
]

bare_ip-IsIp : (digit : ℕ → Bool) (b : Body) → IsIp digit (bare_ip digit b)
bare_ip-IsIp digit b = elim (Bool-cases (is_ip digit b.bare)) [ inl e ↦ rw e e | inr e ↦ rw e tt ]

ip_or-IsIp :
    (digit : ℕ → Bool) (o o' : Option String)
    → IsIp digit o
    → IsIp digit o'
    → IsIp digit (ip_or o o')
ip_or-IsIp digit none o' h k = k
ip_or-IsIp digit (some s) o' h k = h

loaded :
    (digit : ℕ → Bool) (b : Body) (o : Option (List String))
    → IsIp digit
        (elim o [ none ↦ none | some texts ↦ ip_or (first_ip digit texts) (bare_ip digit b) ])
loaded digit b none = tt
loaded digit b (some texts) =
    ip_or-IsIp digit (first_ip digit texts) (bare_ip digit b) (first_ip-IsIp digit texts)
      (bare_ip-IsIp digit b)

ip_of-IsIp : (digit : ℕ → Bool) (b : Body) → IsIp digit (ip_of digit b)
unfolding ip_of
ip_of-IsIp digit b = elim (Bool-cases b.braced) [
  | inl e ↦ rw (ip_of, e) (loaded digit b b.loads)
  | inr e ↦ rw (ip_of, e) (bare_ip-IsIp digit b)
]

-- The answer of one address holds no exit address.
abbrev pub Silent : (ℕ → Bool) → (String → Fetched) → String → Type 0
Silent digit fetch url = (fetch url).ok ≡ true → ip_of digit (fetch url).body ≡ none

-- An IPv4 address that an answer holds, every address asked before it having none; or an error, no
-- address asked having one.
abbrev pub Exits : (ℕ → Bool) → (String → Fetched) → List String → Result String → Type 0
Exits digit fetch urls (ok ip) =
    (is_ip digit ip ≡ true)
    × ((before : List String) × (url : String) × (after : List String) × (urls
          ≡ before ++ (url ∷ after))
        × All (Silent digit fetch) before
        × ((fetch url).ok ≡ true)
        × (ip_of digit (fetch url).body ≡ some ip))
Exits digit fetch urls (err e) = (e ≡ exit_probe_failed) × All (Silent digit fetch) urls

Exits-cons :
    (digit : ℕ → Bool) (fetch : String → Fetched) (url : String) (urls : List String)
    (r : Result String)
    → Silent digit fetch url
    → Exits digit fetch urls r
    → Exits digit fetch (url ∷ urls) r
Exits-cons digit fetch url urls (ok ip) s (valid, (before, u, after, e, h, good, found)) =
    (valid, (url ∷ before, u, after, ap (◌∷◌ url) e, (s, h), good, found))
Exits-cons digit fetch url urls (err x) s (e, h) = (e, (s, h))

ask-Exits :
    (digit : ℕ → Bool) (fetch : String → Fetched) (urls : List String)
    → Exits digit fetch urls (ask digit fetch urls)
unfolding ask
ask-Exits digit fetch [] = (refl, tt)
ask-Exits digit fetch (url ∷ urls) = elim (Bool-cases (fetch url).ok) [
  | inr bad ↦
      rw (ask, bad)
        (Exits-cons digit fetch url urls _ (λ t. absurd (cc)) (ask-Exits digit fetch urls))
  | inl good ↦ elim (Option-cases (ip_of digit (fetch url).body)) [
    | inl e ↦
        rw (ask, good, e) (Exits-cons digit fetch url urls _ (λ t. e) (ask-Exits digit fetch urls))
    | inr (ip, e) ↦
        rw (ask, good, e)
          (rw e at (ip_of-IsIp digit (fetch url).body), ([], url, urls, refl, tt, good, e))
  ]
]

-- `probe_exit_ip` returns an IPv4 address, the one that the first answering address with one gives,
-- and asks the configured address alone if there is one. It raises exactly when none gives one.
pub probe_exit_ip-Exits :
    (digit : ℕ → Bool) (fetch : String → Fetched) (probe_url : String)
    → Exits digit fetch (probe_urls probe_url) (probe_exit_ip digit fetch probe_url)
unfolding probe_exit_ip
probe_exit_ip-Exits digit fetch probe_url = ask-Exits digit fetch (probe_urls probe_url)
