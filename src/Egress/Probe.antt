-- ===== src/Egress/Probe.antt =====
-- app/egress/pool.py: the exit-address probe, the location services and the quality report. What the
-- network answers is an argument.
use nsfwtrack.Base.{
  ℕ, ◌+◌, String, Bool, true, false, not, ◌&&◌, ◌||◌, Option, none, some, List, [], ◌∷◌, any, codes,
  leb, ◌==◌, member, str_eq, if◌then◌else◌, pos,
}
use nsfwtrack.Egress.Contracts.{
  Py, exit_probe_failed, invalid_ip, geo_failed, Result, ok, err, GeoResult,
}

unfoldable pub clamp_score : ℕ → ℕ
clamp_score n = if leb n 100 then n else 100

unfoldable pub grade : ℕ → String
grade score =
    if leb 90 score
    then "A"
    else if leb 75 score
    then "B"
    else if leb 60 score
    then "C"
    else if leb 40 score
    then "D"
    else "F"

-- One part of `_IP_RE`, for the characters that `\d` matches: 25[0-5] | 2[0-4]\d | [01]?\d\d?
unfoldable pub octet : (ℕ → Bool) → List ℕ → Bool
octet digit (a ∷ []) = digit a
octet digit (a ∷ b ∷ []) = digit a && digit b
octet digit (a ∷ b ∷ c ∷ []) =
    a == 50 && b == 53 && leb 48 c && leb c 53
    || a == 50 && leb 48 b && leb b 52 && digit c
    || (a == 48 || a == 49) && digit b && digit c
octet digit _ = false

abbrev pub onto_first : ℕ → List (List ℕ) → List (List ℕ)
onto_first c [] = (c ∷ []) ∷ []
onto_first c (t ∷ ts) = (c ∷ t) ∷ ts

-- A text cut at its dots.
unfoldable pub cut : List ℕ → List (List ℕ)
cut [] = [] ∷ []
cut (c ∷ s) = let rest = cut s in if c == 46 then [] ∷ rest else onto_first c rest

-- `$` also matches before a final newline.
unfoldable pub without_newline : List ℕ → List ℕ
without_newline [] = []
without_newline (c ∷ []) = if c == 10 then [] else c ∷ []
without_newline (c ∷ d ∷ s) = c ∷ without_newline (d ∷ s)

unfoldable pub four_octets : (ℕ → Bool) → List (List ℕ) → Bool
four_octets digit (a ∷ b ∷ c ∷ d ∷ []) =
    octet digit a && octet digit b && octet digit c && octet digit (without_newline d)
four_octets digit _ = false

-- `_IP_RE.match(s)`
unfoldable pub is_ip : (ℕ → Bool) → String → Bool
is_ip digit s = four_octets digit (cut (codes s))

-- The stripped body of a response: whether it begins with a brace, and then what `json.loads` gives,
-- none where it raises; the fields of an object that are texts, up to their first comma, stripped;
-- and the body without its quotes.
pub record Body : Type 0 where
  pub braced : Bool
  pub loads : Option (List String)
  pub bare : String

pub record Fetched : Type 0 where
  pub ok : Bool
  pub body : Body

abbrev pub first_ip : (ℕ → Bool) → List String → Option String
first_ip digit [] = none
first_ip digit (s ∷ ss) = let rest = first_ip digit ss in if is_ip digit s then some s else rest

-- `_IP_RE.search` after a failed match of the same anchored expression finds nothing.
abbrev pub bare_ip : (ℕ → Bool) → Body → Option String
bare_ip digit b = if is_ip digit b.bare then some b.bare else none

abbrev pub ip_or : Option String → Option String → Option String
ip_or (some s) o = some s
ip_or none o = o

unfoldable pub ip_of : (ℕ → Bool) → Body → Option String
ip_of digit b =
    if b.braced
    then elim b.loads [ none ↦ none | some texts ↦ ip_or (first_ip digit texts) (bare_ip digit b) ]
    else bare_ip digit b

-- The addresses to ask: the configured one alone, or the three built in.
unfoldable pub probe_urls : String → List String
probe_urls probe_url =
    if str_eq probe_url ""
    then "https://api.ipify.org?format=json" ∷ "http://ip-api.com/json/?fields=query,status"
      ∷ "https://ifconfig.me/ip" ∷ []
    else probe_url ∷ []

unfoldable pub ask : (ℕ → Bool) → (String → Fetched) → List String → Result String
ask digit fetch [] = err exit_probe_failed
ask digit fetch (url ∷ urls) =
    elim (if (fetch url).ok then ip_of digit (fetch url).body else none) [
      | some ip ↦ ok ip
      | none ↦ ask digit fetch urls
    ]

unfoldable pub probe_exit_ip : (ℕ → Bool) → (String → Fetched) → String → Result String
probe_exit_ip digit fetch probe_url = ask digit fetch (probe_urls probe_url)

-- An object of api.ip.sb, its absent and falsy texts empty; `country_code` and `ip` if they are texts.
pub record SbAnswer : Type 0 where
  pub country_code : Option String
  pub organization : String
  pub asn_organization : String
  pub isp : String
  pub country : String
  pub ip : Option String

abbrev pub text_opt : String → Option String
text_opt s = if str_eq s "" then none else some s

abbrev pub upper_opt : (String → String) → Option String → Option String
upper_opt upper none = none
upper_opt upper (some s) = some (upper s)

abbrev pub hosting_tokens : List String
hosting_tokens =
    "google" ∷ "amazon" ∷ "aws" ∷ "azure" ∷ "digitalocean" ∷ "cloud" ∷ "vps" ∷ "hosting" ∷ "server"
    ∷ "colo" ∷ "ovh" ∷ "hetzner" ∷ "linode" ∷ "vultr" ∷ "oracle" ∷ "alibaba" ∷ "tencent" ∷ "cdn"
    ∷ []

-- The organisation and provider texts, joined by a blank where both are there, in lower case.
unfoldable pub blob : Py → (String → String → String) → SbAnswer → String
blob py join a =
    let org = if str_eq a.organization "" then a.asn_organization else a.organization in
    py.lower (if str_eq org "" then a.isp else if str_eq a.isp "" then org else join org a.isp)

unfoldable pub is_hosting : Py → String → Bool
is_hosting py text = any (λ token. py.contains token text) hosting_tokens

unfoldable pub sb_score : Py → String → ℕ
sb_score py text =
    15
    + (if is_hosting py text then 40 else 0)
    + (if any (λ token. py.contains token text) ("vpn" ∷ "proxy" ∷ "tor" ∷ []) then 30 else 0)

abbrev pub own_or : (ℕ → Bool) → String → Option String → String
own_or digit ip none = ip
own_or digit ip (some s) = if is_ip digit s then s else ip

unfoldable pub geo_ip_sb :
    Py → (String → String → String) → (ℕ → Bool) → String → Option SbAnswer → Result GeoResult
geo_ip_sb py join digit ip none = err geo_failed
geo_ip_sb py join digit ip (some a) = ok (record {
  ip = own_or digit ip a.ip;
  country_code = upper_opt py.upper a.country_code;
  country_name = text_opt a.country;
  isp = text_opt a.isp;
  geo_risk = pos (clamp_score (sb_score py (blob py join a)));
  ip_type = some (if is_hosting py (blob py join a) then "datacenter" else "residential_or_isp");
  source = "api.ip.sb";
})

-- An object of ip-api.com whose status is "success".
pub record ApiAnswer : Type 0 where
  pub hosting : Bool
  pub proxy : Bool
  pub mobile : Bool
  pub org : String
  pub query : String
  pub country_code : String
  pub country : String
  pub isp : String

unfoldable pub api_score : Py → ApiAnswer → ℕ
api_score py a =
    10
    + (if a.mobile then 5 else 0)
    + (if a.hosting then 35 else 0)
    + (if a.proxy then 40 else 0)
    + (if any (λ token. py.contains token (py.lower a.org))
          ("cloud" ∷ "vps" ∷ "hosting" ∷ "server" ∷ "colo" ∷ [])
        then 10
        else 0)

unfoldable pub api_type : ApiAnswer → String
api_type a =
    if a.mobile
    then "mobile"
    else if a.hosting || a.proxy
    then "datacenter"
    else if str_eq a.org ""
    then "unknown"
    else "residential_or_isp"

unfoldable pub geo_ip_api : Py → String → Option ApiAnswer → Result GeoResult
geo_ip_api py ip none = err geo_failed
geo_ip_api py ip (some a) = ok (record {
  ip = if str_eq a.query "" then ip else a.query;
  country_code = upper_opt py.upper (text_opt a.country_code);
  country_name = text_opt a.country;
  isp = text_opt a.isp;
  geo_risk = pos (clamp_score (api_score py a));
  ip_type = some (api_type a);
  source = "ip-api.com";
})

-- `name` of `resolve_geo`
abbrev pub provider_name : Py → String → String
provider_name py provider = py.lower (py.strip (if str_eq provider "" then "ip_sb" else provider))

abbrev pub or_api : Bool → Result GeoResult → Result GeoResult → Result GeoResult
or_api only (ok g) api = ok g
or_api true (err e) api = err e
or_api false (err e) api = api

unfoldable pub resolve_geo :
    Py
    → (String → String → String)
    → (ℕ → Bool)
    → (String → Option SbAnswer)
    → (String → Option ApiAnswer)
    → String
    → String
    → Result GeoResult
resolve_geo py join digit sb api provider ip =
    let name = provider_name py provider in
    if not (is_ip digit ip)
    then err invalid_ip
    else if member name ("ip_api" ∷ "ip-api" ∷ "ipapi" ∷ [])
    then geo_ip_api py ip (api ip)
    else or_api (member name ("ip_sb" ∷ "ipsb" ∷ "ip.sb" ∷ "api.ip.sb" ∷ []))
        (geo_ip_sb py join digit ip (sb ip)) (geo_ip_api py ip (api ip))
