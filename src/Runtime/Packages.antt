-- ===== src/Runtime/Packages.antt =====
-- app/provider_runtime/catalog.py, `build_runtime_catalog`: providers whose package cannot be built.
use nsfwtrack.Base.{
  ◌&&◌, not, Option, List, [], ◌∷◌, ◌≡◌, refl, ap, arith, Option-cases, inl, inr, is_some, map,
  filter,
}
use nsfwtrack.Runtime.Store.{ProviderRuntimeView, in_production_catalog}
use nsfwtrack.Runtime.Catalog.{collect, package_of}

package_of-some :
    {P : Type 0} (factory : ProviderRuntimeView → Option P) (v : ProviderRuntimeView)
    → in_production_catalog v && is_some (factory v) ≡ is_some (package_of factory v)
unfolding in_production_catalog package_of
package_of-some factory v = ground arith

-- The keys of `build_runtime_catalog` before it sorts them: a package for each provider of the
-- catalog that the factory can build, in order, and every other key among the excluded, so that a
-- package that fails takes no other provider with it.
pub collect_split :
    {P : Type 0} (factory : ProviderRuntimeView → Option P) (views : List ProviderRuntimeView)
    → (map (λ p. p.0) (collect factory views).0
        ≡ map
            (λ v. v.provider_key)
            (filter (λ v. in_production_catalog v && is_some (factory v)) views))
      × ((collect factory views).1
          ≡ map
              (λ v. v.provider_key)
              (filter (λ v. not (in_production_catalog v && is_some (factory v))) views))
unfolding collect
collect_split factory [] = (refl, refl)
collect_split factory (v ∷ views) =
    let rest = collect_split factory views in
    elim (Option-cases (package_of factory v)) [
      | inl e ↦
          rw (package_of-some factory v, e, collect) (rest.0, ap (λ t. v.provider_key ∷ t) rest.1)
      | inr (made, e) ↦
          rw (package_of-some factory v, e, collect) (ap (λ t. v.provider_key ∷ t) rest.0, rest.1)
    ]
