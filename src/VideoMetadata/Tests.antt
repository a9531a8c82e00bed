-- ===== src/VideoMetadata/Tests.antt =====
-- Runs of the metadata merge at concrete inputs.
use nsfwtrack.Base.{String, Bool, not, none, some, [], ◌∷◌, ◌≡◌, refl, str_eq, if◌then◌else◌, pos}
use nsfwtrack.VideoMetadata.Values.{
  video_asset, video_tag, Entity, Value, nothing, text, entity, tuple, value, no_values, same_value,
}
use nsfwtrack.VideoMetadata.Merge.{
  keep_local, apply_incoming, add_candidate, conflict, provider, mixed, LocalVideoMetadata,
  VideoDetail, ok, err, duplicate_priority, order, priority_of, default_rank, rank_of, competes,
  competing_ranks, contest, verdict, assets_of, unique_from, build_plan,
}
use nsfwtrack.VideoMetadata.Plan.{Plans, build_plan_result}

abbrev filled : String → Bool
filled s = not (str_eq s "")

abbrev cover : Entity
cover = record { kind = video_asset; provider_key = "a"; external_id = "c1"; details = "" }

abbrev tag : String → Value
tag details =
    entity (record { kind = video_tag; provider_key = "b"; external_id = "t1"; details = details })

abbrev detail : VideoDetail
detail = record {
  provider_key = "a";
  field = λ name.
      if str_eq name "title"
      then text "New"
      else if str_eq name "tags"
      then tuple (value (tag "x") no_values)
      else if str_eq name "series"
      then text "S"
      else nothing;
  available_fields = "title" ∷ "tags" ∷ "series" ∷ [];
  cover = some cover;
  preview_images = cover ∷ [];
  preview_video = none;
}

abbrev local : LocalVideoMetadata
local = record {
  values = ("title", text "Old") ∷ ("series", text "T") ∷ [];
  authored = [];
  provider_values =
      ("b", ("title", text "Old") ∷ ("tags", tuple (value (tag "y") no_values)) ∷ []) ∷ [];
}

opened : Unit {0}
unfolding same_value priority_of default_rank rank_of competes competing_ranks contest verdict
    unique_from assets_of
opened = tt

-- A provider of higher priority keeps its value.
test_lower :
    verdict filled (("b", pos 0) ∷ ("a", pos 1) ∷ []) local detail "title" ≡ (keep_local, provider)
unfolding opened
test_lower = refl

test_higher :
    verdict filled (("a", pos 0) ∷ ("b", pos 1) ∷ []) local detail "title"
    ≡ (apply_incoming, provider)
unfolding opened
test_higher = refl

test_equal : verdict filled [] local detail "title" ≡ (conflict, mixed)
unfolding opened
test_equal = refl

-- The same tag with other details does not compete.
test_same : verdict filled [] local detail "tags" ≡ (apply_incoming, provider)
unfolding opened
test_same = refl

test_candidate : verdict filled [] local detail "series" ≡ (add_candidate, mixed)
unfolding opened
test_candidate = refl

test_priority : priority_of filled (order ("a" ∷ "b" ∷ "a" ∷ [])) ≡ err duplicate_priority
unfolding opened
test_priority = refl

test_links : unique_from [] (assets_of detail) ≡ cover ∷ []
unfolding opened
test_links = refl

build_plan_result_example :
    Plans filled local detail
      (ok (("b", pos 0) ∷ ("a", pos 1) ∷ []))
      (build_plan filled (some local) detail (order ("b" ∷ "a" ∷ [])))
unfolding priority_of
build_plan_result_example = build_plan_result filled (some local) detail (order ("b" ∷ "a" ∷ []))
