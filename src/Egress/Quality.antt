-- ===== src/Egress/Quality.antt =====
-- app/egress/pool.py, `check_proxy_quality`: the report on a proxy from what its targets answer.
use nsfwtrack.Base.{
  ℕ, suc, ◌+◌, ◌-◌, ◌*◌, ◌/◌, ◌%◌, String, Bool, true, false, ◌&&◌, ◌||◌, Option, none, some, List,
  [], ◌∷◌, length, map, codes, leb, ltb, ◌==◌, str_eq, if◌then◌else◌, ℤ, pos, lex_leb, sorted_by,
}
use nsfwtrack.Egress.Contracts.{QualityItem, QualityReport}
use nsfwtrack.Egress.Probe.{grade}

-- `DEFAULT_QUALITY_TARGETS`: names and weights.
abbrev pub default_targets : List (String × ℕ)
default_targets = ("cloudflare-trace", 2) ∷ ("ipify", 2) ∷ ("ipsb-geoip", 2) ∷ ("example", 1) ∷ []

-- What `fetch_text` says of one target.
pub record Answer : Type 0 where
  pub ok : Bool
  pub status_code : Option ℕ
  pub latency_ms : Option ℕ

abbrev pub status_or_zero : Option ℕ → ℕ
status_or_zero none = 0
status_or_zero (some n) = n

abbrev pub is_redirect : Option ℕ → Bool
is_redirect none = false
is_redirect (some n) = leb 301 n && leb n 303 || leb 307 n && leb n 308

unfoldable pub quality_item : (String → Answer) → String → QualityItem
quality_item answer name =
    let a = answer name in
    record {
      target = name;
      ok =
          if is_redirect a.status_code
          then true
          else a.ok && ltb (status_or_zero a.status_code) 400;
      latency_ms = a.latency_ms;
      status_code = a.status_code;
    }

-- `weight_map.get(name, 1)`
abbrev pub weight_of : List (String × ℕ) → String → ℕ
weight_of [] name = 1
weight_of (t ∷ ts) name = if str_eq t.0 name then t.1 else weight_of ts name

abbrev pub sum_where : (QualityItem → Bool) → List (String × ℕ) → List QualityItem → ℕ
sum_where p targets [] = 0
sum_where p targets (i ∷ is) =
    (if p i then weight_of targets i.target else 0) + sum_where p targets is

-- `round(n / d)`, halves to the even number
unfoldable pub round_div : ℕ → ℕ → ℕ
round_div n d =
    let q = n / d in
    let r = n % d in if ltb (2 * r) d then q else if ltb d (2 * r) then suc q else q + q % 2

abbrev pub passed_latency : QualityItem → Option ℕ
passed_latency i = if i.ok then i.latency_ms else none

abbrev pub latency_sum : List QualityItem → ℕ
latency_sum [] = 0
latency_sum (i ∷ is) = status_or_zero (passed_latency i) + latency_sum is

abbrev pub counted : Option ℕ → ℕ
counted none = 0
counted (some n) = 1

abbrev pub latency_count : List QualityItem → ℕ
latency_count [] = 0
latency_count (i ∷ is) = counted (passed_latency i) + latency_count is

-- The deduction for slow answers: the average is over 3000 or over 1500.
unfoldable pub slowed : ℕ → ℕ → ℕ → ℕ
slowed total count score =
    if count == 0
    then score
    else if ltb (3000 * count) total
    then score - 15
    else if ltb (1500 * count) total
    then score - 8
    else score

abbrev pub ok_count : List QualityItem → ℕ
ok_count [] = 0
ok_count (i ∷ is) = (if i.ok then 1 else 0) + ok_count is

abbrev pub or_one : ℕ → ℕ
or_one n = if n == 0 then 1 else n

abbrev pub by_target : QualityItem → QualityItem → Bool
by_target a b = lex_leb (map pos (codes a.target)) (map pos (codes b.target))

unfoldable pub quality_score : List (String × ℕ) → List QualityItem → ℕ
quality_score targets items = slowed (latency_sum items) (latency_count items) (
    round_div (100 * sum_where (λ i. i.ok) targets items)
      (or_one (sum_where (λ i. true) targets items)))

unfoldable pub quality_report :
    List (String × ℕ) → String → Option ℤ → List QualityItem → QualityReport
quality_report targets proxy_id base items = record {
  proxy_id = proxy_id;
  score = quality_score targets items;
  grade = grade (quality_score targets items);
  passed = ok_count items;
  failed = length items - ok_count items;
  base_latency_ms = base;
  items = items;
}

-- The targets answer in any order; the items are sorted by target.
unfoldable pub check_proxy_quality : (String → Answer) → String → Option ℤ → QualityReport
check_proxy_quality answer proxy_id base =
    quality_report default_targets proxy_id base
      (sorted_by by_target (map (λ (t : String × ℕ). quality_item answer t.0) default_targets))
