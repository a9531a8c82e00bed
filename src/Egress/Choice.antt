-- ===== src/Egress/Choice.antt =====
-- app/egress/pool.py, `select`: which proxy it returns, and when it returns none.
use nsfwtrack.Base.{
  ℕ, Bool, true, false, Option, List, [], ◌∷◌, All, All-map, All-Mem, All-filter, All-filter_back,
  ◌≡◌, refl, Bool-cases, inl, inr, lex_leb_total, lex_leb_trans, IsOrder, IsSorted, sorted_by,
  sorted_by-All, sorted_by-All_back, sorted_by-IsSorted,
}
use mathlib.Core.List.{Mem}
use nsfwtrack.Egress.Contracts.{
  Py, no_eligible_proxy, Result, ok, err, ProxyEndpoint, ProxyHealth, ProxyPool, health_of,
}
use nsfwtrack.Egress.Pool.{
  is_eligible, eligible, probed_ok, candidates, sort_key, key_before, first_of, select,
}
use nsfwtrack.Egress.Policy.{Admissible, is_eligible-Admissible, Admissible-is_eligible}

key_before-IsOrder : (py : Py) (pool : ProxyPool) → IsOrder (key_before py pool)
unfolding key_before
key_before-IsOrder py pool = record {
  trans = λ a b c. lex_leb_trans (sort_key py pool a) (sort_key py pool b) (sort_key py pool c);
  total = λ a b. lex_leb_total (sort_key py pool a) (sort_key py pool b);
}

-- The last probe of a proxy, if one is asked for, succeeded.
abbrev pub Probed : Bool → Option ProxyHealth → Type 0
Probed require_probed o = require_probed ≡ true → probed_ok o ≡ true

-- A proxy that `select` may return.
abbrev pub Candidate : Py → ℕ → Bool → ProxyPool → ProxyEndpoint → Type 0
Candidate py now require_probed pool p =
    Admissible py pool.policy now p (health_of p.id pool.health)
    × Probed require_probed (health_of p.id pool.health)

-- What `select` promises: a candidate of the pool whose key no candidate's precedes, or the error that
-- there is no candidate.
abbrev pub Selects : Py → ℕ → Bool → ProxyPool → Result ProxyEndpoint → Type 0
Selects py now require_probed pool (ok p) =
    Mem p pool.proxies
    × Candidate py now require_probed pool p
    × All (λ q. Candidate py now require_probed pool q → key_before py pool p q ≡ true) pool.proxies
Selects py now require_probed pool (err e) =
    (e ≡ no_eligible_proxy) × All (λ q. ¬ Candidate py now require_probed pool q) pool.proxies

module _ (py : Py) (now : ℕ) (pool : ProxyPool) where
  abbrev Found : Bool → ProxyEndpoint → Type 0
  Found require_probed p = Mem p pool.proxies × Candidate py now require_probed pool p

  eligible-Found :
      All
        (λ p. Mem p pool.proxies × Admissible py pool.policy now p (health_of p.id pool.health))
        (eligible py now pool)
  unfolding eligible
  eligible-Found =
      All-filter (λ p. Mem p pool.proxies)
        (λ p. Mem p pool.proxies × Admissible py pool.policy now p (health_of p.id pool.health))
        (λ p. is_eligible py pool.policy now p (health_of p.id pool.health)) pool.proxies
        (λ p e m. (m, is_eligible-Admissible py pool.policy now p (health_of p.id pool.health) e))
        (All-Mem (λ p. Mem p pool.proxies) pool.proxies (λ p m. m))

  candidates-Found : (b : Bool) → All (Found b) (candidates py now b pool)
  unfolding candidates
  candidates-Found true =
      All-filter
        (λ p. Mem p pool.proxies × Admissible py pool.policy now p (health_of p.id pool.health))
        (Found true) (λ p. probed_ok (health_of p.id pool.health)) (eligible py now pool)
        (λ p e h. (h.0, (h.1, λ t. e))) eligible-Found
  candidates-Found false =
      All-map
        (λ p. Mem p pool.proxies × Admissible py pool.policy now p (health_of p.id pool.health))
        (Found false) (eligible py now pool) (λ p h. (h.0, (h.1, λ f. absurd (cc)))) eligible-Found

  -- A statement about all candidates of the list holds of every candidate of the pool.
  of_candidates :
      (b : Bool) (P : ProxyEndpoint → Type 0)
      → All P (candidates py now b pool)
      → All (λ q. Candidate py now b pool q → P q) pool.proxies
  unfolding candidates eligible
  of_candidates true P h =
      All-map _ _ pool.proxies
        (λ q k c.
          k (Admissible-is_eligible py pool.policy now q (health_of q.id pool.health) c.0)
            (c.1 refl))
        (All-filter_back _ _ pool.proxies (All-filter_back P _ _ h))
  of_candidates false P h =
      All-map _ _ pool.proxies
        (λ q k c. k (Admissible-is_eligible py pool.policy now q (health_of q.id pool.health) c.0))
        (All-filter_back P _ pool.proxies h)

  first_of-Selects :
      (b : Bool) (ps : List ProxyEndpoint)
      → All (Found b) ps
      → IsSorted (key_before py pool) ps
      → ((P : ProxyEndpoint → Type 0)
          → All P ps
          → All (λ q. Candidate py now b pool q → P q) pool.proxies)
      → Selects py now b pool (first_of ps)
  first_of-Selects b [] f s back = (refl, back (λ q. ⊥) tt)
  first_of-Selects b (p ∷ ps) f s back =
      let self : key_before py pool p p ≡ true = before_self p in
      (f.0.0, f.0.1, back (λ q. key_before py pool p q ≡ true) (self, s.0))
    where
      before_self : (q : ProxyEndpoint) → key_before py pool q q ≡ true
      before_self q = elim (Bool-cases (key_before py pool q q)) [
        | inl e ↦ e
        | inr e ↦ (key_before-IsOrder py pool).total q q e
      ]

  -- `select` returns a proxy of the pool that is enabled, out of cooldown, below the failure limit and
  -- allowed by the policy on its last successful probe, and successfully probed if that is required;
  -- and no such proxy has a smaller key (priority, preferred country, quality, latency, risk, id). It
  -- raises exactly when the pool has no such proxy, saying so.
  pub select_result : (b : Bool) → Selects py now b pool (select py now b pool)
  unfolding select
  select_result b =
      first_of-Selects b (sorted_by (key_before py pool) (candidates py now b pool))
        (sorted_by-All (key_before py pool) (Found b) (candidates py now b pool)
          (candidates-Found b))
        (sorted_by-IsSorted (key_before py pool) (key_before-IsOrder py pool)
          (candidates py now b pool))
        (λ P h.
          of_candidates b P
            (sorted_by-All_back (key_before py pool) P (candidates py now b pool) h))
