-- ===== src/VideoMetadata/Merge.antt =====
-- app/video_metadata/merge.py, `build_video_metadata_merge_plan`.
use nsfwtrack.Base.{
  ℕ, suc, String, Bool, true, false, not, ◌&&◌, ◌||◌, Option, none, some, List, [], ◌∷◌, ◌++◌, map,
  member, any, all, str_eq, codes, if◌then◌else◌, ℤ, pos, leb_ℤ, ltb_ℤ, suc_ℤ, lex_leb, sorted_by,
}
use nsfwtrack.VideoMetadata.Values.{Entity, same_entity, Value, nothing, present, same_value}

pub data VideoFieldAction : Type 0 where
  keep_local apply_incoming add_candidate conflict skip_missing skip_empty unknown :
      VideoFieldAction

pub data VideoFieldSource : Type 0 where
  user provider nobody mixed : VideoFieldSource

pub record VideoFieldDecision : Type 0 where
  pub field_name : String
  pub action : VideoFieldAction
  pub source : VideoFieldSource
  pub current_value : Value
  pub incoming_value : Value

pub record VideoMetadataMergePlan : Type 0 where
  pub decisions : List VideoFieldDecision
  pub asset_links : List Entity

-- The local snapshot; `provider_values` holds the last values of each provider.
pub record LocalVideoMetadata : Type 0 where
  pub values : List (String × Value)
  pub authored : List String
  pub provider_values : List (String × List (String × Value))

-- The incoming detail: a value for each field, the names of those it has, and its assets.
pub record VideoDetail : Type 0 where
  pub provider_key : String
  pub field : String → Value
  pub available_fields : List String
  pub cover : Option Entity
  pub preview_images : List Entity
  pub preview_video : Option Entity

-- `TypeError` and `ValueError` of the plan, by what they complain of.
pub data PlanError : Type 0 where
  invalid_provider_key duplicate_priority unstable_order duplicate_fields : PlanError

pub data Result (A : Type 0) : Type 0 where
  ok : A → Result A
  err : PlanError → Result A

abbrev pub detail_fields : List String
detail_fields =
    "title" ∷ "alternate_titles" ∷ "summary" ∷ "release_date" ∷ "duration_seconds" ∷ "performers"
    ∷ "director" ∷ "studio" ∷ "publisher" ∷ "series" ∷ "tags" ∷ "rating" ∷ "cover"
    ∷ "preview_images" ∷ "preview_video" ∷ "source_updated_at" ∷ []

abbrev pub is_given {ℓ} : {A : Type ℓ} → Option A → Bool
is_given none = false
is_given (some a) = true

-- `dict(pairs).get(key)`: the last pair of a key counts.
abbrev pub get_pair {ℓ} : {A : Type ℓ} → String → List (String × A) → Option A
get_pair key [] = none
get_pair key (p ∷ ps) =
    let rest = get_pair key ps in
    let own = if str_eq p.0 key then some p.1 else none in if is_given rest then rest else own

abbrev pub or_nothing : Option Value → Value
or_nothing none = nothing
or_nothing (some v) = v

-- `field_name in provider_values.get(provider, {})`
abbrev pub has_field : Option (List (String × Value)) → String → Bool
has_field none name = false
has_field (some values) name = is_given (get_pair name values)

-- `provider_priority`: a mapping of providers to ranks, or providers in order.
pub data Priority : Type 0 where
  ranks : List (String × ℤ) → Priority
  order : List String → Priority

abbrev pub enumerate : ℕ → List String → List (String × ℤ)
enumerate i [] = []
enumerate i (p ∷ ps) = (p, pos i) ∷ enumerate (suc i) ps

abbrev pub has_duplicates : List String → Bool
has_duplicates [] = false
has_duplicates (s ∷ ss) = member s ss || has_duplicates ss

-- The checks of `provider_priority`, and the ranks.
unfoldable pub priority_of : (String → Bool) → Priority → Result (List (String × ℤ))
priority_of filled (ranks rs) =
    if all (λ (r : String × ℤ). filled r.0) rs then ok rs else err invalid_provider_key
priority_of filled (order ps) =
    if not (all filled ps)
    then err invalid_provider_key
    else if has_duplicates ps
    then err duplicate_priority
    else ok (enumerate 0 ps)

abbrev pub max_ℤ : ℤ → ℤ → ℤ
max_ℤ a b = if leb_ℤ a b then b else a

abbrev pub min_ℤ : ℤ → ℤ → ℤ
min_ℤ a b = if leb_ℤ a b then a else b

abbrev pub max_rank : ℤ → List (String × ℤ) → ℤ
max_rank m [] = m
max_rank m (r ∷ rs) = max_rank (max_ℤ m r.1) rs

unfoldable pub default_rank : List (String × ℤ) → ℤ
default_rank [] = pos 0
default_rank (r ∷ rs) = suc_ℤ (max_rank r.1 rs)

abbrev pub rank_or : ℤ → Option ℤ → ℤ
rank_or d none = d
rank_or d (some n) = n

unfoldable pub rank_of : List (String × ℤ) → String → ℤ
rank_of rs key = rank_or (default_rank rs) (get_pair key rs)

-- Whether a provider's values compete with the incoming value of a field.
unfoldable pub competes : (String → Bool) → String → Value → List (String × Value) → Bool
competes filled name incoming values =
    let other = or_nothing (get_pair name values) in
    present filled other && not (same_value other incoming)

-- The ranks of `competing`, in the order of the providers.
unfoldable pub competing_ranks :
    (String → Bool)
    → List (String × ℤ)
    → String
    → Value
    → List (String × List (String × Value))
    → List ℤ
competing_ranks filled rs name incoming [] = []
competing_ranks filled rs name incoming (p ∷ ps) =
    let rest = competing_ranks filled rs name incoming ps in
    if competes filled name incoming p.1 then rank_of rs p.0 ∷ rest else rest

abbrev pub minimum : ℤ → List ℤ → ℤ
minimum m [] = m
minimum m (n ∷ ns) = minimum (min_ℤ m n) ns

-- The outcome where providers compete, and where none does.
unfoldable pub contest : (String → Bool) → Value → ℤ → List ℤ → VideoFieldAction × VideoFieldSource
contest filled current rank [] =
    if present filled current then (add_candidate, mixed) else (apply_incoming, provider)
contest filled current rank (n ∷ ns) =
    let best = minimum n ns in
    if ltb_ℤ best rank
    then (keep_local, provider)
    else if leb_ℤ rank best && leb_ℤ best rank
    then (conflict, mixed)
    else (apply_incoming, provider)

-- The body of the loop for one field.
unfoldable pub verdict :
    (String → Bool)
    → List (String × ℤ)
    → LocalVideoMetadata
    → VideoDetail
    → String
    → VideoFieldAction × VideoFieldSource
verdict filled rs local detail name =
    let incoming = detail.field name in
    let contested =
      contest filled (or_nothing (get_pair name local.values)) (rank_of rs detail.provider_key)
        (competing_ranks filled rs name incoming local.provider_values) in
    if not (member name detail.available_fields)
    then (skip_missing, nobody)
    else if not (present filled incoming)
    then (skip_empty, nobody)
    else if member name local.authored
    then (keep_local, user)
    else if has_field (get_pair detail.provider_key local.provider_values) name
    then (apply_incoming, provider)
    else contested

-- The incoming value that a decision shows: none if the field is missing.
abbrev pub shown : VideoFieldAction → Value → Value
shown skip_missing v = nothing
shown _ v = v

unfoldable pub decide :
    (String → Bool)
    → List (String × ℤ)
    → LocalVideoMetadata
    → VideoDetail
    → String
    → VideoFieldDecision
decide filled rs local detail name =
    let v = verdict filled rs local detail name in
    record {
      field_name = name;
      action = v.0;
      source = v.1;
      current_value = or_nothing (get_pair name local.values);
      incoming_value = shown v.0 (detail.field name);
    }

abbrev pub option_list : Option Entity → List Entity
option_list none = []
option_list (some e) = e ∷ []

unfoldable pub assets_of : VideoDetail → List Entity
assets_of d = option_list d.cover ++ (d.preview_images ++ option_list d.preview_video)

-- `unique_assets`, with those kept so far.
unfoldable pub unique_from : List Entity → List Entity → List Entity
unique_from seen [] = []
unique_from seen (a ∷ rest) =
    let kept = a ∷ unique_from (a ∷ seen) rest in
    let dropped = unique_from seen rest in if any (same_entity a) seen then dropped else kept

abbrev pub name_before : String → String → Bool
name_before s t = lex_leb (map pos (codes s)) (map pos (codes t))

abbrev pub by_name : VideoFieldDecision → VideoFieldDecision → Bool
by_name a b = name_before a.field_name b.field_name

abbrev pub in_order : List String → Bool
in_order [] = true
in_order (s ∷ ss) = all (name_before s) ss && in_order ss

-- `VideoMetadataMergePlan.__post_init__`
unfoldable pub checked_plan : VideoMetadataMergePlan → Result VideoMetadataMergePlan
checked_plan plan =
    let names = map (λ (d : VideoFieldDecision). d.field_name) plan.decisions in
    if not (in_order names)
    then err unstable_order
    else if has_duplicates names
    then err duplicate_fields
    else ok plan

abbrev pub bind : {A B : Type 0} → Result A → (A → Result B) → Result B
bind (ok a) f = f a
bind (err e) f = err e

abbrev pub no_local : LocalVideoMetadata
no_local = record { values = []; authored = []; provider_values = [] }

abbrev pub normalize_local : Option LocalVideoMetadata → LocalVideoMetadata
normalize_local none = no_local
normalize_local (some l) = l

unfoldable pub build_plan :
    (String → Bool)
    → Option LocalVideoMetadata
    → VideoDetail
    → Priority
    → Result VideoMetadataMergePlan
build_plan filled local detail priority = bind (priority_of filled priority) λ rs.
    checked_plan (record {
      decisions =
          sorted_by by_name (map (decide filled rs (normalize_local local) detail) detail_fields);
      asset_links = unique_from [] (assets_of detail);
    })
