-- ===== src/Runtime/Rows.antt =====
-- Statements on the row of one provider, under the primary key on `provider_key`.
use mathlib.Core.Option.{some-injective}
use nsfwtrack.Base.{
  ℕ, String, true, some, [], ◌∷◌, update_where, count_where, ◌≡◌, refl, arith, Bool-cases, inl, inr,
  str_eq, ==_iff, ap, ◌∙◌,
}
use nsfwtrack.Runtime.Contracts.{ProviderRuntimeState}
use nsfwtrack.Runtime.Store.{has_key, find_state}
use nsfwtrack.Runtime.Registry.{Rows, at_version}

pub none-at :
    (key : String) (v : ℕ) (rows : Rows)
    → count_where (has_key key) rows ≡ 0
    → count_where (at_version key v) rows ≡ 0
none-at key v [] h = refl
none-at key v (x ∷ rows) h = ground (arith, none-at key v rows)

first-found :
    (key : String) (x : ProviderRuntimeState) (rows : Rows) (r : ProviderRuntimeState)
    → has_key key x ≡ true
    → find_state key (x ∷ rows) ≡ some r
    → x ≡ r
unfolding find_state
first-found key x rows r y h = some-injective x r (rw y at h)

-- The one row with the key is the one row with the key and its version.
pub count-at :
    (key : String) (v : ℕ) (rows : Rows) (r : ProviderRuntimeState)
    → count_where (has_key key) rows ≡ 1
    → find_state key rows ≡ some r
    → r.optimistic_version ≡ v
    → count_where (at_version key v) rows ≡ 1
unfolding find_state
count-at key v [] r one h e = absurd (omega (arith, one))
count-at key v (x ∷ rows) r one h e = elim (Bool-cases (has_key key x)) [
  | inl y ↦
      let same = first-found key x rows r y h in
      let there = ap (λ t. t.optimistic_version) same ∙ e in ground (arith, none-at key v rows)
  | inr n ↦
      let ih = count-at key v rows r (omega (arith, rw n at one)) (rw n at h) e in
      rw n (omega (arith, ih))
]

pub find-updated :
    (key : String) (v : ℕ) (f : ProviderRuntimeState → ProviderRuntimeState) (rows : Rows)
    (r : ProviderRuntimeState)
    → find_state key rows ≡ some r
    → r.optimistic_version ≡ v
    → ((x : ProviderRuntimeState) → (f x).provider_key ≡ x.provider_key)
    → find_state key (update_where (at_version key v) f rows) ≡ some (f r)
unfolding find_state
find-updated key v f [] r h e keeps = absurd (cc)
find-updated key v f (x ∷ rows) r h e keeps = elim (Bool-cases (has_key key x)) [
  | inl y ↦
      let same = first-found key x rows r y h in
      let there = (==_iff x.optimistic_version v).1 (ap (λ t. t.optimistic_version) same ∙ e) in
      rw (y, there, ap (λ s. str_eq s key) (keeps x) ∙ y) (ap (λ t. some (f t)) same)
  | inr n ↦ rw (n, n) (find-updated key v f rows r (rw n at h) e keeps)
]
