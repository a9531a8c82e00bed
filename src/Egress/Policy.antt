-- ===== src/Egress/Policy.antt =====
-- app/egress/pool.py, `_policy_reject_reason` and the tests of `eligible`, against what they promise.
use nsfwtrack.Base.{
  ℕ, ◌≤◌, String, true, false, Option, none, some, member, str_eq_iff, ◌≡◌, refl, ◌≢◌, arith, ℤ,
  ◌≤ℤ◌, ltb_ℤ, Bool-cases, Option-cases, inl, inr, ◌⊎◌,
}
use nsfwtrack.Egress.Contracts.{Py, ProxyEndpoint, ProxyHealth, in_cooldown, ProxyPoolPolicy}
use nsfwtrack.Egress.Pool.{
  nonempty, text_or_empty, country, above, policy_reject_reason, is_eligible,
}

-- What the policy asks of a proxy's last measurement.
pub record Passes (py : Py) (policy : ProxyPoolPolicy) (proxy : ProxyEndpoint) (h : ProxyHealth)
    : Type 0 where
  pub exit_known : policy.require_exit_ip ≡ true → nonempty h.exit_ip ≡ true
  pub not_denied : country py h ≢ "" → member (country py h) policy.deny_countries ≡ false
  pub as_expected :
      nonempty proxy.expected_country ≡ true
      → country py h ≢ ""
      → country py h ≡ py.upper (text_or_empty proxy.expected_country)
  pub low_risk : (n : ℤ) → h.risk_score ≡ some n → n ≤ℤ policy.max_risk_score

above_false : (limit : ℤ) (o : Option ℤ) → above limit o ≡ false → (n : ℤ) → o ≡ some n → n ≤ℤ limit
above_false limit none h n e = absurd (cc)
above_false limit (some m) h n e = ground (arith)

above_risk :
    (limit : ℤ) (o : Option ℤ) → ((n : ℤ) → o ≡ some n → n ≤ℤ limit) → above limit o ≡ false
above_risk limit none h = refl
above_risk limit (some m) h = ground (arith, h m refl)

pub accepted-Passes :
    (py : Py) (policy : ProxyPoolPolicy) (proxy : ProxyEndpoint) (h : ProxyHealth)
    → policy_reject_reason py policy proxy h ≡ none
    → Passes py policy proxy h
unfolding policy_reject_reason
accepted-Passes py policy proxy h e = record {
  exit_known = ground arith;
  not_denied = ground (arith, str_eq_iff (country py h) "");
  as_expected = ground (
    arith,
    str_eq_iff (country py h) "",
    str_eq_iff (country py h) (py.upper (text_or_empty proxy.expected_country)),
  );
  low_risk = above_false policy.max_risk_score h.risk_score (ground arith);
}

pub Passes-accepted :
    (py : Py) (policy : ProxyPoolPolicy) (proxy : ProxyEndpoint) (h : ProxyHealth)
    → Passes py policy proxy h
    → policy_reject_reason py policy proxy h ≡ none
unfolding policy_reject_reason
Passes-accepted py policy proxy h p = ground (
  arith,
  p.exit_known,
  p.not_denied,
  p.as_expected,
  above_risk policy.max_risk_score h.risk_score p.low_risk,
  str_eq_iff (country py h) "",
  str_eq_iff (country py h) (py.upper (text_or_empty proxy.expected_country)),
)

-- When a proxy may be used: enabled, and, once probed, out of cooldown, with fewer failures in a row
-- than disable it, and passing the policy if its last probe succeeded.
abbrev pub Admissible : Py → ProxyPoolPolicy → ℕ → ProxyEndpoint → Option ProxyHealth → Type 0
Admissible py policy now p none = p.enabled ≡ true
Admissible py policy now p (some h) =
    (p.enabled ≡ true)
    × (h.cooldown_until ≤ now)
    × (ltb_ℤ h.fail_count policy.max_fail_count_before_disable ≡ true)
    × (h.ok ≡ true → Passes py policy p h)

pub is_eligible-Admissible :
    (py : Py) (policy : ProxyPoolPolicy) (now : ℕ) (p : ProxyEndpoint) (o : Option ProxyHealth)
    → is_eligible py policy now p o ≡ true
    → Admissible py policy now p o
unfolding is_eligible in_cooldown
is_eligible-Admissible py policy now p none e = e
is_eligible-Admissible py policy now p (some h) e = (
  ground arith,
  ground arith,
  ground arith,
  λ good. accepted-Passes py policy p h (accepted good (Option-cases _)),
)
  where
    accepted :
        h.ok ≡ true
        → (policy_reject_reason py policy p h ≡ none)
          ⊎ ((r : String) × (policy_reject_reason py policy p h ≡ some r))
        → policy_reject_reason py policy p h ≡ none
    accepted good (inl n) = n
    accepted good (inr (r, s)) = absurd (ground (arith, e, good, s))

pub Admissible-is_eligible :
    (py : Py) (policy : ProxyPoolPolicy) (now : ℕ) (p : ProxyEndpoint) (o : Option ProxyHealth)
    → Admissible py policy now p o
    → is_eligible py policy now p o ≡ true
unfolding is_eligible in_cooldown
Admissible-is_eligible py policy now p none a = a
Admissible-is_eligible py policy now p (some h) a = elim (Bool-cases h.ok) [
  | inl good ↦ ground (arith, a.0, a.1, a.2, good, Passes-accepted py policy p h (a.3 good))
  | inr bad ↦ ground (arith, a.0, a.1, a.2, bad)
]
