-- ===== src/VideoMetadata/Values.antt =====
-- app/video_metadata/merge.py: the values of fields, which of them are there, and which are one.
use nsfwtrack.Base.{String, Bool, true, false, ◌&&◌, str_eq}

-- The classes of app/video_metadata/contracts.py with an identity.
pub data Kind : Type 0 where
  person organization video_series video_tag video_asset : Kind

abbrev pub same_kind : Kind → Kind → Bool
same_kind person person = true
same_kind organization organization = true
same_kind video_series video_series = true
same_kind video_tag video_tag = true
same_kind video_asset video_asset = true
same_kind _ _ = false

-- An object with an identity: its kind, provider, id within the provider, and the rest of it.
pub record Entity : Type 0 where
  pub kind : Kind
  pub provider_key : String
  pub external_id : String
  pub details : String

-- The identity of an object, a pair of texts.
abbrev pub same_entity : Entity → Entity → Bool
same_entity a b = str_eq a.provider_key b.provider_key && str_eq a.external_id b.external_id

-- A value: None, a text, a number, date or rating up to equality, an object, or a tuple of values.
mutual
  pub data Value : Type 0 where
    nothing : Value
    text : String → Value
    scalar : String → Value
    entity : Entity → Value
    tuple : Values → Value

  pub data Values : Type 0 where
    no_values : Values
    value : Value → Values → Values

-- `_present`, for the test that a text is not blank.
abbrev pub present : (String → Bool) → Value → Bool
present filled nothing = false
present filled (text s) = filled s
present filled (tuple no_values) = false
present filled _ = true

-- `_same_identity`
unfoldable mutual
  pub same_value : Value → Value → Bool
  same_value nothing nothing = true
  same_value (text s) (text t) = str_eq s t
  same_value (scalar s) (scalar t) = str_eq s t
  same_value (entity a) (entity b) = same_kind a.kind b.kind && same_entity a b
  same_value (tuple vs) (tuple ws) = same_values vs ws
  same_value _ _ = false

  pub same_values : Values → Values → Bool
  same_values no_values no_values = true
  same_values (value v vs) (value w ws) = same_value v w && same_values vs ws
  same_values _ _ = false
