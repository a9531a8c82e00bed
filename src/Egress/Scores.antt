-- ===== src/Egress/Scores.antt =====
-- app/egress/pool.py: the range of the scores, and what the probe and the location services return.
use nsfwtrack.Base.{
  ℕ, suc, ◌+◌, ◌*◌, ◌/◌, ◌%◌, ◌≤◌, String, Bool, true, false, Option, none, some, List, [], ◌∷◌,
  length, ltb, if◌then◌else◌, ◌≡◌, refl, arith, ℤ, pos, ◌≤ℤ◌, Bool-cases, inl, inr, ◌⊎◌, ◌<◌,
  sorted_by, length-sorted_by, map, member, ◌≢◌, str_eq, str_eq_iff,
}
use native.Mathlib.Nat.{div-lt_iff_lt-mul, div-add-mod}
use native.Mathlib.Decide.{dec_lt}
use mathlib.Core.Path.{subst, sym}
use nsfwtrack.Egress.Contracts.{Py, Result, ok, err, GeoResult, QualityItem, QualityReport}
use nsfwtrack.Egress.Probe.{
  clamp_score, grade, is_ip, sb_score, api_score, own_or, geo_ip_sb, geo_ip_api, resolve_geo,
  SbAnswer, ApiAnswer, or_api, provider_name,
}
use nsfwtrack.Egress.Quality.{
  Answer, sum_where, round_div, slowed, ok_count, or_one, quality_score, quality_report,
  check_proxy_quality, by_target, quality_item, default_targets,
}

sum_where-le :
    (targets : List (String × ℕ)) (is : List QualityItem)
    → sum_where (λ i. i.ok) targets is ≤ sum_where (λ i. true) targets is
sum_where-le targets [] = omega arith
sum_where-le targets (i ∷ is) = ground (arith, sum_where-le targets is)

ok_count-le : (is : List QualityItem) → ok_count is ≤ length is
ok_count-le [] = omega arith
ok_count-le (i ∷ is) = ground (arith, ok_count-le is)

rounded :
    (q r d : ℕ)
    → (q < 100) ⊎ ((q ≡ 100) × (r ≡ 0))
    → 1 ≤ d
    → (if ltb (2 * r) d then q else if ltb d (2 * r) then suc q else q + q % 2) ≤ 100
rounded q r d (inl h) k = ground arith
rounded q r d (inr h) k = ground (arith, h)

round_div-le : (e t : ℕ) → e ≤ t → 1 ≤ t → round_div (100 * e) t ≤ 100
unfolding round_div
round_div-le e t h k =
    let below : 100 * e / t < 101 =
      (div-lt_iff_lt-mul {k = t} {x = 100 * e} {y = 101} k).1 (omega (arith, h)) in
    elim (dec_lt (100 * e / t) 100) [
      | yes p ↦ rounded (100 * e / t) (100 * e % t) t (inl p) k
      | no n ↦
          let q : 100 * e / t ≡ 100 = omega (arith, n, below) in
          let whole : t * 100 + 100 * e % t ≡ 100 * e = rw q at (div-add-mod (100 * e) t) in
          rounded (100 * e / t) (100 * e % t) t (inr (q, omega (arith, whole, h))) k
    ]

-- What a quality report promises.
pub record Graded (items : ℕ) (r : QualityReport) : Type 0 where
  pub at_most : r.score ≤ 100
  pub graded : r.grade ≡ grade r.score
  pub counted : r.passed + r.failed ≡ items

slowed-le : (total count score : ℕ) → score ≤ 100 → slowed total count score ≤ 100
unfolding slowed
slowed-le total count score h = ground (arith, h)

quality_score-le :
    (targets : List (String × ℕ)) (is : List QualityItem) → quality_score targets is ≤ 100
unfolding quality_score
quality_score-le targets is = slowed-le _ _ _ (
    round_div-le (sum_where (λ i. i.ok) targets is) (or_one (sum_where (λ i. true) targets is))
      (ground (arith, sum_where-le targets is)) (ground arith))

quality_report-Graded :
    (targets : List (String × ℕ)) (key : String) (base : Option ℤ) (is : List QualityItem)
    → Graded (length is) (quality_report targets key base is)
unfolding quality_report
quality_report-Graded targets key base is = record {
  at_most = quality_score-le targets is;
  graded = refl;
  counted = omega (arith, ok_count-le is);
}

-- A quality report counts each of the four targets once, as passed or as failed, and its score lies
-- between 0 and 100 with the grade of that score, whatever the targets answer.
pub check_proxy_quality-Graded :
    (answer : String → Answer) (key : String) (base : Option ℤ)
    → Graded 4 (check_proxy_quality answer key base)
unfolding check_proxy_quality
check_proxy_quality-Graded answer key base =
    rw
      (length-sorted_by by_target
        (map (λ (t : String × ℕ). quality_item answer t.0) default_targets))
      at
      (quality_report-Graded default_targets key base
        (sorted_by by_target (map (λ (t : String × ℕ). quality_item answer t.0) default_targets)))

-- Where a location comes from, and the range of its risk.
abbrev pub Located : (ℕ → Bool) → String → String → Result GeoResult → Type 0
Located digit name ip (err e) = Unit
Located digit name ip (ok g) =
    (is_ip digit ip ≡ true)
    × (pos 10 ≤ℤ g.geo_risk)
    × (g.geo_risk ≤ℤ pos 100)
    × (g.source ≡ "api.ip.sb" → (g.geo_risk ≤ℤ pos 85) × (is_ip digit g.ip ≡ true))
    × (g.source ≢ "api.ip.sb" → member name ("ip_sb" ∷ "ipsb" ∷ "ip.sb" ∷ "api.ip.sb" ∷ []) ≡ false)

module _ (py : Py) (join : String → String → String) (digit : ℕ → Bool) (ip : String)
    (valid : is_ip digit ip ≡ true) where
  sb-Located :
      (name : String) (a : Option SbAnswer) → Located digit name ip (geo_ip_sb py join digit ip a)
  unfolding geo_ip_sb clamp_score sb_score
  sb-Located name none = tt
  sb-Located name (some a) =
      (valid, ground arith, ground arith, λ s. (ground arith, own a.ip), λ n. absurd (n refl))
    where
      own : (o : Option String) → is_ip digit (own_or digit ip o) ≡ true
      own none = valid
      own (some s) = ground (arith, valid)

  api-Located :
      (name : String) (a : Option ApiAnswer)
      → member name ("ip_sb" ∷ "ipsb" ∷ "ip.sb" ∷ "api.ip.sb" ∷ []) ≡ false
      → Located digit name ip (geo_ip_api py ip a)
  unfolding geo_ip_api clamp_score api_score
  api-Located name none other = tt
  api-Located name (some a) other =
      (valid, ground arith, ground arith, λ s. absurd (differ s), λ n. other)
    where
      differ : ◌≡◌ {A = String} "ip-api.com" "api.ip.sb" → ⊥
      differ s =
          let e : str_eq "ip-api.com" "api.ip.sb" ≡ true =
            (str_eq_iff "ip-api.com" "api.ip.sb").1 s in
          cc

  or_api-Located :
      (name : String) (only : Bool) (r r' : Result GeoResult)
      → Located digit name ip r
      → (only ≡ false → Located digit name ip r')
      → Located digit name ip (or_api only r r')
  or_api-Located name only (ok g) r' h k = h
  or_api-Located name true (err e) r' h k = tt
  or_api-Located name false (err e) r' h k = k refl

one_of_three :
    (P : String → Type 0) (name a b c : String)
    → member name (a ∷ b ∷ c ∷ []) ≡ true
    → P a
    → P b
    → P c
    → P name
one_of_three P name a b c h pa pb pc = elim (Bool-cases (str_eq name a)) [
  | inl e ↦ subst P (sym ((str_eq_iff name a).0 e)) pa
  | inr e ↦ elim (Bool-cases (str_eq name b)) [
    | inl f ↦ subst P (sym ((str_eq_iff name b).0 f)) pb
    | inr f ↦ elim (Bool-cases (str_eq name c)) [
      | inl g ↦ subst P (sym ((str_eq_iff name c).0 g)) pc
      | inr g ↦ absurd (ground (arith, e, f, g, h))
    ]
  ]
]

abbrev Alone : String → Type 0
Alone name = member name ("ip_sb" ∷ "ipsb" ∷ "ip.sb" ∷ "api.ip.sb" ∷ []) ≡ false

-- `resolve_geo` locates nothing but an IPv4 address. What it returns has a risk from 10 to 100. If it
-- comes from api.ip.sb its risk is at most 85 and its own address is an IPv4 address; if it comes from
-- elsewhere, the configured provider was not one of the names that allow api.ip.sb alone.
pub resolve_geo-Located :
    (py : Py) (join : String → String → String) (digit : ℕ → Bool) (sb : String → Option SbAnswer)
    (api : String → Option ApiAnswer) (provider ip : String)
    → Located digit (provider_name py provider) ip (resolve_geo py join digit sb api provider ip)
unfolding resolve_geo
resolve_geo-Located py join digit sb api provider ip = elim (Bool-cases (is_ip digit ip)) [
  | inr bad ↦ rw (resolve_geo, bad) tt
  | inl good ↦ elim (Bool-cases (member (provider_name py provider) api_names)) [
    | inl named ↦
        rw (resolve_geo, good, named)
          (api-Located py join digit ip good (provider_name py provider) (api ip) (
            one_of_three Alone (provider_name py provider) "ip_api" "ip-api" "ipapi" named refl refl
              refl))
    | inr other ↦
        rw (resolve_geo, good, other)
          (or_api-Located py join digit ip good (provider_name py provider) _ _ _
            (sb-Located py join digit ip good (provider_name py provider) (sb ip))
            (λ f. api-Located py join digit ip good (provider_name py provider) (api ip) f))
  ]
]
  where
    api_names : List String
    api_names = "ip_api" ∷ "ip-api" ∷ "ipapi" ∷ []
