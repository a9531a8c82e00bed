-- ===== src/VideoMetadata/Plan.antt =====
-- app/video_metadata/merge.py, `build_video_metadata_merge_plan`: what the whole plan promises.
use nsfwtrack.Base.{
  String, Bool, true, Option, List, [], ◌∷◌, map, All, ◌≡◌, refl, ap, ◌∙◌, Bool-cases, inl, inr, ℤ,
  lex_leb, insert_sorted, sorted_by, sorted_by-All,
}
use nsfwtrack.VideoMetadata.Merge.{
  VideoFieldDecision, VideoMetadataMergePlan, LocalVideoMetadata, VideoDetail, Result, ok, err,
  detail_fields, get_pair, or_nothing, Priority, priority_of, shown, decide, assets_of, unique_from,
  name_before, by_name, in_order, checked_plan, bind, normalize_local, build_plan,
}
use nsfwtrack.VideoMetadata.Decisions.{Justified, verdict-Justified}
use nsfwtrack.VideoMetadata.Links.{Links, unique_from-Links}

insert-names :
    (d : VideoFieldDecision) (ds : List VideoFieldDecision)
    → map (λ (x : VideoFieldDecision). x.field_name) (insert_sorted by_name d ds)
      ≡ insert_sorted name_before d.field_name (map (λ (x : VideoFieldDecision). x.field_name) ds)
unfolding insert_sorted
insert-names d [] = refl
insert-names d (x ∷ ds) = elim (Bool-cases (name_before d.field_name x.field_name)) [
  | inl e ↦ rw e refl
  | inr e ↦ rw e (ap (◌∷◌ x.field_name) (insert-names d ds))
]

sorted-names :
    (ds : List VideoFieldDecision)
    → map (λ (x : VideoFieldDecision). x.field_name) (sorted_by by_name ds)
      ≡ sorted_by name_before (map (λ (x : VideoFieldDecision). x.field_name) ds)
unfolding sorted_by
sorted-names [] = refl
sorted-names (d ∷ ds) =
    insert-names d (sorted_by by_name ds)
    ∙ ap (insert_sorted name_before d.field_name) (sorted-names ds)

-- The fields in the order of their names.
abbrev pub fields_in_order : List String
fields_in_order =
    "alternate_titles" ∷ "cover" ∷ "director" ∷ "duration_seconds" ∷ "performers" ∷ "preview_images"
    ∷ "preview_video" ∷ "publisher" ∷ "rating" ∷ "release_date" ∷ "series" ∷ "source_updated_at"
    ∷ "studio" ∷ "summary" ∷ "tags" ∷ "title" ∷ []

fields-sorted : sorted_by name_before detail_fields ≡ fields_in_order
unfolding sorted_by insert_sorted lex_leb
fields-sorted = refl

names_valid : in_order fields_in_order ≡ true
unfolding lex_leb
names_valid = refl

module _ (filled : String → Bool) (rs : List (String × ℤ)) (local : LocalVideoMetadata)
    (detail : VideoDetail) where
  -- A decision as the loop makes it: justified, and showing the values it is about.
  pub record Decided (d : VideoFieldDecision) : Type 0 where
    pub justified : Justified filled rs local detail d.field_name d.action
    pub current : d.current_value ≡ or_nothing (get_pair d.field_name local.values)
    pub incoming : d.incoming_value ≡ shown d.action (detail.field d.field_name)

  decide-Decided : (name : String) → Decided (decide filled rs local detail name)
  unfolding decide
  decide-Decided name = record {
    justified = verdict-Justified filled rs local detail name;
    current = refl;
    incoming = refl;
  }

  decide-Decided-All :
      (names : List String) → All Decided (map (decide filled rs local detail) names)
  decide-Decided-All [] = tt
  decide-Decided-All (n ∷ ns) = (decide-Decided n, decide-Decided-All ns)

  map-names :
      (names : List String)
      → map (λ (x : VideoFieldDecision). x.field_name) (map (decide filled rs local detail) names)
        ≡ names
  unfolding decide
  map-names [] = refl
  map-names (n ∷ ns) = ap (◌∷◌ n) (map-names ns)

  abbrev plan_decisions : List VideoFieldDecision
  plan_decisions = sorted_by by_name (map (decide filled rs local detail) detail_fields)

  plan-names : map (λ (x : VideoFieldDecision). x.field_name) plan_decisions ≡ fields_in_order
  plan-names =
      sorted-names (map (decide filled rs local detail) detail_fields)
      ∙ (ap (sorted_by name_before) (map-names detail_fields) ∙ fields-sorted)

checked_plan-ok :
    (plan : VideoMetadataMergePlan)
    → map (λ (x : VideoFieldDecision). x.field_name) plan.decisions ≡ fields_in_order
    → checked_plan plan ≡ ok plan
unfolding checked_plan
checked_plan-ok plan e = rw (checked_plan, e) (rw names_valid refl)

-- What a plan promises: for a valid priority, one decision for each field in the order of the names,
-- each justified by the values, and the asset links; else the error of the priority.
abbrev pub Plans :
    (String → Bool)
    → LocalVideoMetadata
    → VideoDetail
    → Result (List (String × ℤ))
    → Result VideoMetadataMergePlan
    → Type 0
Plans filled local detail (err e) r = r ≡ err e
Plans filled local detail (ok rs) (err e) = ⊥
Plans filled local detail (ok rs) (ok plan) =
    (map (λ (x : VideoFieldDecision). x.field_name) plan.decisions ≡ fields_in_order)
    × All (Decided filled rs local detail) plan.decisions
    × Links (assets_of detail) plan.asset_links

-- A plan is made exactly when the provider priority is valid. It has one decision for each of the 16
-- fields, in the order of their names, and shows the values the decision is about. A missing or empty
-- incoming value is skipped; a field that a user wrote is kept; else the incoming value is applied if
-- its provider gave the field before, or no other provider has another value of the same or a higher
-- priority and either one has a lower priority or there is no local value; it is kept out if a provider
-- of higher priority has another value, a conflict if the best such priority is its own, and a
-- candidate beside a local value that no provider contests. The links name each asset of the detail once.
pub build_plan_result :
    (filled : String → Bool) (local : Option LocalVideoMetadata) (detail : VideoDetail)
    (priority : Priority)
    → Plans filled
        (normalize_local local)
        detail
        (priority_of filled priority)
        (build_plan filled local detail priority)
unfolding build_plan
build_plan_result filled local detail priority = by_priority (priority_of filled priority)
  where
    plan_of : List (String × ℤ) → VideoMetadataMergePlan
    plan_of rs = record {
      decisions = plan_decisions filled rs (normalize_local local) detail;
      asset_links = unique_from [] (assets_of detail);
    }

    by_priority :
        (r : Result (List (String × ℤ)))
        → Plans filled (normalize_local local) detail r (bind r (λ rs. checked_plan (plan_of rs)))
    by_priority (err e) = refl
    by_priority (ok rs) =
        rw (checked_plan-ok (plan_of rs) (plan-names filled rs (normalize_local local) detail)) (
          plan-names filled rs (normalize_local local) detail,
          sorted_by-All by_name (Decided filled rs (normalize_local local) detail)
              (map (decide filled rs (normalize_local local) detail) detail_fields)
              (decide-Decided-All filled rs (normalize_local local) detail detail_fields),
          unique_from-Links (assets_of detail),
        )
