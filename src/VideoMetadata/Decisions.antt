-- ===== src/VideoMetadata/Decisions.antt =====
-- app/video_metadata/merge.py: what the action of a decision says about the field.
use mathlib.Core.Path.{subst}
use mathlib.Core.List.{Mem, mem-cons_self, mem-cons_of_mem}
use nsfwtrack.Base.{
  String, Bool, true, false, ◌&&◌, List, [], ◌∷◌, member, All, All-map, ◌≡◌, refl, ◌∙◌, arith,
  Bool-cases, inl, inr, ◌⊎◌, ℤ, ◌≤ℤ◌, leb_ℤ, ltb_ℤ,
}
use nsfwtrack.VideoMetadata.Values.{Value, present}
use nsfwtrack.VideoMetadata.Merge.{
  VideoFieldAction, keep_local, apply_incoming, add_candidate, conflict, skip_missing, skip_empty,
  unknown, LocalVideoMetadata, VideoDetail, get_pair, or_nothing, has_field, rank_of, competes,
  competing_ranks, minimum, min_ℤ, contest, verdict,
}

infix 50 ◌<ℤ◌
abbrev pub ◌<ℤ◌ : ℤ → ℤ → Type 0
a <ℤ b = ltb_ℤ a b ≡ true

abbrev Within : ℤ → List ℤ → Type 0
Within m [] = ⊥
Within m (n ∷ ns) = (m ≡ n) ⊎ Within m ns

minimum-le : (m : ℤ) (ns : List ℤ) → (minimum m ns ≤ℤ m) × All (λ n. minimum m ns ≤ℤ n) ns
minimum-le m [] = (omega arith, tt)
minimum-le m (n ∷ ns) =
    let ih = minimum-le (min_ℤ m n) ns in (ground (arith, ih.0), (ground (arith, ih.0), ih.1))

min-either : (m n : ℤ) → (min_ℤ m n ≡ m) ⊎ (min_ℤ m n ≡ n)
min-either m n = elim (Bool-cases (leb_ℤ m n)) [ inl h ↦ inl (rw h refl) | inr h ↦ inr (rw h refl) ]

minimum-Within : (m : ℤ) (ns : List ℤ) → Within (minimum m ns) (m ∷ ns)
minimum-Within m [] = inl refl
minimum-Within m (n ∷ ns) = elim (minimum-Within (min_ℤ m n) ns) [
  | inr w ↦ inr (inr w)
  | inl e ↦ elim (min-either m n) [ inl h ↦ inl (e ∙ h) | inr h ↦ inr (inl (e ∙ h)) ]
]

≤ℤ_antisymm : (a b : ℤ) → a ≤ℤ b → b ≤ℤ a → a ≡ b
≤ℤ_antisymm a b h k = ground (arith, h, k)

module _ (filled : String → Bool) (rs : List (String × ℤ)) (local : LocalVideoMetadata)
    (detail : VideoDetail) where
  -- The rank of the incoming provider.
  abbrev pub own_rank : ℤ
  own_rank = rank_of rs detail.provider_key

  -- A provider that holds another value of the field.
  abbrev pub Competitor : String → String × List (String × Value) → Type 0
  Competitor name p = competes filled name (detail.field name) p.1 ≡ true

  abbrev pub EveryCompetitor : String → (ℤ → Type 0) → Type 0
  EveryCompetitor name P = All (λ p. Competitor name p → P (rank_of rs p.0)) local.provider_values

  abbrev pub SomeCompetitor : String → (ℤ → Type 0) → Type 0
  SomeCompetitor name P =
      (p : String × List (String × Value)) × Mem p local.provider_values
      × Competitor name p
      × P (rank_of rs p.0)

  -- The incoming detail has a value for the field.
  abbrev pub Offered : String → Type 0
  Offered name =
      (member name detail.available_fields ≡ true) × (present filled (detail.field name) ≡ true)

  -- The incoming provider's own earlier value of the field is known.
  abbrev pub known_before : String → Bool
  known_before name = has_field (get_pair detail.provider_key local.provider_values) name

  -- An offered field that no user wrote and that the provider did not give before.
  abbrev pub Open : String → Type 0
  Open name = Offered name × (member name local.authored ≡ false) × (known_before name ≡ false)

  abbrev pub now_present : String → Bool
  now_present name = present filled (or_nothing (get_pair name local.values))

  -- When a field may get an action.
  abbrev pub Justified : String → VideoFieldAction → Type 0
  Justified name skip_missing = member name detail.available_fields ≡ false
  Justified name skip_empty =
      (member name detail.available_fields ≡ true) × (present filled (detail.field name) ≡ false)
  Justified name keep_local =
      (Offered name × (member name local.authored ≡ true))
      ⊎ (Open name × SomeCompetitor name (λ r. r <ℤ own_rank))
  Justified name apply_incoming =
      (Offered name × (member name local.authored ≡ false) × (known_before name ≡ true))
      ⊎ (Open name
          × EveryCompetitor name (λ r. own_rank <ℤ r)
          × ((now_present name ≡ false) ⊎ SomeCompetitor name (λ r. own_rank <ℤ r)))
  Justified name conflict =
      Open name
      × EveryCompetitor name (λ r. own_rank ≤ℤ r)
      × SomeCompetitor name (λ r. r ≡ own_rank)
  Justified name add_candidate =
      Open name × EveryCompetitor name (λ r. ⊥) × (now_present name ≡ true)
  Justified name unknown = ⊥

  ranks-Every :
      (name : String) (P : ℤ → Type 0) (ps : List (String × List (String × Value)))
      → All P (competing_ranks filled rs name (detail.field name) ps)
      → All (λ p. Competitor name p → P (rank_of rs p.0)) ps
  unfolding competing_ranks
  ranks-Every name P [] h = tt
  ranks-Every name P (p ∷ ps) h = elim (Bool-cases (competes filled name (detail.field name) p.1)) [
    | inl c ↦ let g = rw c at h in (λ t. g.0, ranks-Every name P ps g.1)
    | inr c ↦ let g = rw c at h in (λ t. absurd (cc), ranks-Every name P ps g)
  ]

  ranks-Some :
      (name : String) (m : ℤ) (ps : List (String × List (String × Value)))
      → Within m (competing_ranks filled rs name (detail.field name) ps)
      → (p : String × List (String × Value)) × Mem p ps × Competitor name p × (m ≡ rank_of rs p.0)
  unfolding competing_ranks
  ranks-Some name m [] h = absurd h
  ranks-Some name m (p ∷ ps) h = elim (Bool-cases (competes filled name (detail.field name) p.1)) [
    | inl c ↦ first c (rw c at h) (λ w. ranks-Some name m ps w)
    | inr c ↦ later (ranks-Some name m ps (rw c at h))
  ]
    where
      later :
          (q : String × List (String × Value)) × Mem q ps × Competitor name q × (m ≡ rank_of rs q.0)
          → (q : String × List (String × Value)) × Mem q (p ∷ ps)
            × Competitor name q
            × (m ≡ rank_of rs q.0)
      later (q, i, c, e) = (q, mem-cons_of_mem p i, c, e)

      first :
          Competitor name p
          → Within m (rank_of rs p.0 ∷ competing_ranks filled rs name (detail.field name) ps)
          → (Within m (competing_ranks filled rs name (detail.field name) ps)
              → (q : String × List (String × Value)) × Mem q ps
                × Competitor name q
                × (m ≡ rank_of rs q.0))
          → (q : String × List (String × Value)) × Mem q (p ∷ ps)
            × Competitor name q
            × (m ≡ rank_of rs q.0)
      first c (inl e) more = (p, mem-cons_self, c, e)
      first c (inr w) more = later (more w)

  abbrev ranks : String → List ℤ
  ranks name = competing_ranks filled rs name (detail.field name) local.provider_values

  every_of :
      (name : String) (P : ℤ → Type 0) (l : List ℤ)
      → ranks name ≡ l
      → All P l
      → EveryCompetitor name P
  every_of name P l e h = ranks-Every name P local.provider_values (rw e h)

  some_of :
      (name : String) (P : ℤ → Type 0) (m : ℤ) (l : List ℤ)
      → ranks name ≡ l
      → Within m l
      → P m
      → SomeCompetitor name P
  some_of name P m l e w h =
      let found = ranks-Some name m local.provider_values (rw e w) in
      (found.0, found.1, found.2, subst P found.3 h)

  best_of :
      (name : String) (n : ℤ) (ns : List ℤ)
      → ranks name ≡ n ∷ ns
      → (P : ℤ → Type 0) → ((r : ℤ) → minimum n ns ≤ℤ r → P r)
      → EveryCompetitor name P
  best_of name n ns e P k =
      let least = minimum-le n ns in
      every_of name P (n ∷ ns) e (k n least.0, All-map (λ r. minimum n ns ≤ℤ r) P ns k least.1)

  contest-Justified :
      (name : String) (l : List ℤ)
      → Open name
      → ranks name ≡ l
      → Justified name (contest filled (or_nothing (get_pair name local.values)) own_rank l).0
  unfolding contest
  contest-Justified name [] o e = elim (Bool-cases (now_present name)) [
    | inl c ↦ rw (contest, c) (o, every_of name (λ r. ⊥) [] e tt, c)
    | inr c ↦ rw (contest, c) (inr (o, every_of name (λ r. own_rank <ℤ r) [] e tt, inl c))
  ]
  contest-Justified name (n ∷ ns) o e =
      let best = minimum n ns in
      elim (Bool-cases (ltb_ℤ best own_rank)) [
        | inl lower ↦
            rw (contest, lower)
              (inr
                (o, some_of name (λ r. r <ℤ own_rank) best (n ∷ ns) e (minimum-Within n ns) lower))
        | inr higher ↦ elim (Bool-cases (leb_ℤ own_rank best && leb_ℤ best own_rank)) [
          | inl same ↦
              rw (contest, higher, same)
                (
                  o,
                  best_of name n ns e (λ r. own_rank ≤ℤ r) (λ r h. ground (arith, h, same)),
                  some_of name (λ r. r ≡ own_rank) best (n ∷ ns) e (minimum-Within n ns)
                      (≤ℤ_antisymm best own_rank (ground (arith, same)) (ground (arith, same))),
                )
          | inr other ↦
              rw (contest, higher, other)
                (inr (
                  o,
                  best_of name n ns e (λ r. own_rank <ℤ r)
                      (λ r h. ground (arith, h, other, higher)),
                  inr (
                      some_of name (λ r. own_rank <ℤ r) best (n ∷ ns) e (minimum-Within n ns)
                        (ground (arith, other, higher))),
                ))
        ]
      ]

  -- The action that the loop chooses for a field is justified.
  pub verdict-Justified : (name : String) → Justified name (verdict filled rs local detail name).0
  unfolding verdict
  verdict-Justified name = elim (Bool-cases (member name detail.available_fields)) [
    | inr missing ↦ rw (verdict, missing) missing
    | inl there ↦ elim (Bool-cases (present filled (detail.field name))) [
      | inr empty ↦ rw (verdict, there, empty) (there, empty)
      | inl full ↦ elim (Bool-cases (member name local.authored)) [
        | inl own ↦ rw (verdict, there, full, own) (inl ((there, full), own))
        | inr free ↦ elim (Bool-cases (known_before name)) [
          | inl known ↦ rw (verdict, there, full, free, known) (inl ((there, full), free, known))
          | inr new ↦
              rw (verdict, there, full, free, new)
                (contest-Justified name (ranks name) ((there, full), free, new) refl)
        ]
      ]
    ]
  ]
