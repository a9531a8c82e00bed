-- ===== src/VideoMetadata/Links.antt =====
-- app/video_metadata/merge.py: the asset links of a plan.
use mathlib.Core.Path.{subst}
use mathlib.Core.List.{Mem}
use nsfwtrack.Base.{
  Bool, true, false, ◌||◌, List, [], ◌∷◌, any, All, All-map, All-Mem, str_eq_iff, ◌≡◌, refl, sym,
  arith, Bool-cases, inl, inr,
}
use nsfwtrack.VideoMetadata.Values.{Entity, same_entity}
use nsfwtrack.VideoMetadata.Merge.{unique_from}

-- An asset of the identity of `a` is in the list.
abbrev pub linked : Entity → List Entity → Bool
linked a l = any (same_entity a) l

-- No two assets of the list have one identity.
abbrev pub Unlike : List Entity → Type 0
Unlike [] = Unit
Unlike (a ∷ l) = (linked a l ≡ false) × Unlike l

same_entity_refl : (a : Entity) → same_entity a a ≡ true
same_entity_refl a =
    ground (arith, str_eq_iff a.provider_key a.provider_key, str_eq_iff a.external_id a.external_id)

same_entity_sym : (a b : Entity) → same_entity a b ≡ same_entity b a
same_entity_sym a b = ground (
  arith,
  str_eq_iff a.provider_key b.provider_key,
  str_eq_iff b.provider_key a.provider_key,
  str_eq_iff a.external_id b.external_id,
  str_eq_iff b.external_id a.external_id,
)

fresh_head :
    (a : Entity) (l : List Entity) → All (λ b. same_entity b a ≡ false) l → linked a l ≡ false
fresh_head a [] h = refl
fresh_head a (b ∷ l) h = ground (arith, h.0, same_entity_sym a b, fresh_head a l h.1)

unique_from-Fresh : (seen l : List Entity) → All (λ b. linked b seen ≡ false) (unique_from seen l)
unfolding unique_from
unique_from-Fresh seen [] = tt
unique_from-Fresh seen (a ∷ l) = elim (Bool-cases (linked a seen)) [
  | inl e ↦ rw e (unique_from-Fresh seen l)
  | inr e ↦ rw e (
    e,
    All-map (λ b. linked b (a ∷ seen) ≡ false) (λ b. linked b seen ≡ false)
        (unique_from (a ∷ seen) l) (λ b h. ground (arith, h)) (unique_from-Fresh (a ∷ seen) l),
  )
]

unique_from-Unlike : (seen l : List Entity) → Unlike (unique_from seen l)
unfolding unique_from
unique_from-Unlike seen [] = tt
unique_from-Unlike seen (a ∷ l) = elim (Bool-cases (linked a seen)) [
  | inl e ↦ rw e (unique_from-Unlike seen l)
  | inr e ↦ rw e (
    fresh_head a (unique_from (a ∷ seen) l) (
        All-map (λ b. linked b (a ∷ seen) ≡ false) (λ b. same_entity b a ≡ false)
          (unique_from (a ∷ seen) l) (λ b h. ground (arith, h)) (unique_from-Fresh (a ∷ seen) l)),
    unique_from-Unlike (a ∷ seen) l,
  )
]

abbrev Covered : List Entity → List Entity → Entity → Type 0
Covered seen l b = (linked b seen || linked b l) ≡ true

unique_from-old :
    (seen : List Entity) (a : Entity) (l : List Entity)
    → linked a seen ≡ true
    → unique_from seen (a ∷ l) ≡ unique_from seen l
unfolding unique_from
unique_from-old seen a l e = rw e refl

unique_from-new :
    (seen : List Entity) (a : Entity) (l : List Entity)
    → linked a seen ≡ false
    → unique_from seen (a ∷ l) ≡ a ∷ unique_from (a ∷ seen) l
unfolding unique_from
unique_from-new seen a l e = rw e refl

unique_from-Covered : (seen l : List Entity) → All (Covered seen (unique_from seen l)) l
unique_from-Covered seen [] = tt
unique_from-Covered seen (a ∷ l) = elim (Bool-cases (linked a seen)) [
  | inl e ↦
      subst (λ u. All (Covered seen u) (a ∷ l)) (sym (unique_from-old seen a l e))
        (ground (arith, e), unique_from-Covered seen l)
  | inr e ↦
      subst (λ u. All (Covered seen u) (a ∷ l)) (sym (unique_from-new seen a l e))
        (
          ground (arith, same_entity_refl a),
          All-map (Covered (a ∷ seen) (unique_from (a ∷ seen) l))
              (Covered seen (a ∷ unique_from (a ∷ seen) l)) l (λ b h. ground (arith, h))
              (unique_from-Covered (a ∷ seen) l),
        )
]

unique_from-All {κ} :
    (P : Entity → Type κ) (seen l : List Entity) → All P l → All P (unique_from seen l)
unfolding unique_from
unique_from-All P seen [] h = tt
unique_from-All P seen (a ∷ l) h = elim (Bool-cases (linked a seen)) [
  | inl e ↦ rw e (unique_from-All P seen l h.1)
  | inr e ↦ rw e (h.0, unique_from-All P (a ∷ seen) l h.1)
]

-- The links hold the detail's assets only, one for each identity, and none is left out.
pub record Links (assets links : List Entity) : Type 0 where
  pub from_detail : All (λ a. Mem a assets) links
  pub unlike : Unlike links
  pub complete : All (λ a. linked a links ≡ true) assets

pub unique_from-Links : (assets : List Entity) → Links assets (unique_from [] assets)
unique_from-Links assets = record {
  from_detail =
      unique_from-All (λ a. Mem a assets) [] assets (All-Mem (λ a. Mem a assets) assets (λ a m. m));
  unlike = unique_from-Unlike [] assets;
  complete = unique_from-Covered [] assets;
}
