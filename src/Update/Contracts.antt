-- ===== src/Update/Contracts.antt =====
-- app/source_update/service.py: the rows, the plan of a manual update and its errors.
use nsfwtrack.Base.{
  ℕ, String, Bool, true, false, not, ◌&&◌, ◌||◌, Option, none, some, List, [], ◌∷◌, ltb, ◌==◌,
  str_eq, length, codes, if◌then◌else◌, ◌≡◌, refl,
}
use nsfwtrack.Tasks.Store.{Db}

pub data ManualUpdateErrorCode : Type 0 where
  invalid_request source_not_available provider_failed check_expired nothing_to_apply stale_plan
        write_failed outcome_unknown :
      ManualUpdateErrorCode

-- A `ManualUpdateError` by its code; `value_error` is an exception of another class.
pub data Result (A : Type 0) : Type 0 where
  ok : A → Result A
  err : ManualUpdateErrorCode → Result A
  value_error : Result A

abbrev pub bind : {A B : Type 0} → Result A → (A → Result B) → Result B
bind (ok a) f = f a
bind (err e) f = err e
bind value_error f = value_error

-- The columns of `items` and `item_sources` that the service reads or writes; times in microseconds.
pub record Item : Type 0 where
  pub item_id : ℕ
  pub item_title : String
  pub cover_path : Option String
  pub summary : Option String
  pub release_date : Option String
  pub extra : Option String
  pub item_created_at : ℕ
  pub updated_at : ℕ

pub record ItemSource : Type 0 where
  pub source_id : ℕ
  pub owner_id : ℕ
  pub url : String
  pub normalized_url : String
  pub source_title : Option String
  pub provider_key : Option String
  pub external_id : Option String
  pub last_checked_at : Option ℕ
  pub metadata_hash : Option String
  pub source_created_at : ℕ

pub record SourceCheckFact : Type 0 where
  pub fact_task_id : ℕ
  pub item_snapshot_hash : String
  pub source_snapshot_hash : String
  pub detail_hash : String
  pub proposed_summary : Option String
  pub proposed_release_date : Option String
  pub proposed_source_title : Option String
  pub proposed_checked_at : ℕ
  pub proposed_metadata_hash : String
  pub expires_at : ℕ

pub record Store : Type 0 where
  pub db : Db
  pub items : List Item
  pub sources : List ItemSource
  pub facts : List SourceCheckFact

abbrev pub item_row : ℕ → List Item → Option Item
item_row i [] = none
item_row i (x ∷ xs) = let rest = item_row i xs in if x.item_id == i then some x else rest

abbrev pub source_row : ℕ → List ItemSource → Option ItemSource
source_row i [] = none
source_row i (x ∷ xs) = let rest = source_row i xs in if x.source_id == i then some x else rest

abbrev pub fact_row : ℕ → List SourceCheckFact → Option SourceCheckFact
fact_row i [] = none
fact_row i (x ∷ xs) = let rest = fact_row i xs in if x.fact_task_id == i then some x else rest

-- A value in a JSON array.
pub data Json : Type 0 where
  number : ℕ → Json
  string : String → Json
  null : Json

abbrev pub json_opt : Option String → Json
json_opt none = null
json_opt (some s) = string s

-- What is called of the standard library: the digest of the JSON text of a list, the digest of a text,
-- and the ISO form of a time.
pub record Std : Type 0 where
  pub digest : List Json → String
  pub sha256 : String → String
  pub isoformat : ℕ → String
  pub fromisoformat : String → Option ℕ

abbrev pub datetime_text : Std → Option ℕ → Option String
datetime_text std none = none
datetime_text std (some t) = some (std.isoformat t)

abbrev pub text_or_empty : Option String → String
text_or_empty none = ""
text_or_empty (some s) = s

unfoldable pub item_snapshot : Std → Item → String
item_snapshot std i = std.digest (
    number i.item_id
    ∷ string i.item_title
    ∷ json_opt i.summary
    ∷ json_opt i.release_date
    ∷ string (std.isoformat i.updated_at)
    ∷ [])

unfoldable pub source_snapshot : Std → ItemSource → String
source_snapshot std s = std.digest (
    number s.source_id
    ∷ number s.owner_id
    ∷ json_opt s.source_title
    ∷ json_opt s.provider_key
    ∷ string (std.sha256 (text_or_empty s.external_id))
    ∷ json_opt (datetime_text std s.last_checked_at)
    ∷ json_opt s.metadata_hash
    ∷ [])

-- `MANUAL_UPDATE_FIELDS`
pub data Field : Type 0 where
  item_summary item_release_date source_title_field source_last_checked_at source_metadata_hash :
      Field

abbrev pub field_name : Field → String
field_name item_summary = "item.summary"
field_name item_release_date = "item.release_date"
field_name source_title_field = "item_source.title"
field_name source_last_checked_at = "item_source.last_checked_at"
field_name source_metadata_hash = "item_source.metadata_hash"

abbrev pub update_fields : List Field
update_fields =
    item_summary ∷ item_release_date ∷ source_title_field ∷ source_last_checked_at
    ∷ source_metadata_hash ∷ []

pub record ManualFieldChange : Type 0 where
  pub field : Field
  pub old : Option String
  pub new : Option String

abbrev pub too_long : Option String → Bool
too_long none = false
too_long (some s) = ltb 20000 (length (codes s))

-- `ManualFieldChange(field, old, new)`
unfoldable pub make_change : Field → Option String → Option String → Result ManualFieldChange
make_change f old new =
    if too_long old || too_long new
    then value_error
    else ok (record { field = f; old = old; new = new })

-- The plan, its `format` the constant one.
pub record ManualUpdatePlan : Type 0 where
  pub check_task_id : ℕ
  pub plan_item_id : ℕ
  pub plan_source_id : ℕ
  pub plan_provider_key : String
  pub plan_item_hash : String
  pub plan_source_hash : String
  pub selected : List ManualFieldChange
  pub plan_detail_hash : String

abbrev pub same_field : Field → Field → Bool
same_field a b = str_eq (field_name a) (field_name b)

abbrev pub repeats : Field → List ManualFieldChange → Bool
repeats f [] = false
repeats f (c ∷ cs) = same_field f c.field || repeats f cs

abbrev pub has_repeats : List ManualFieldChange → Bool
has_repeats [] = false
has_repeats (c ∷ cs) = repeats c.field cs || has_repeats cs

abbrev pub is_empty {ℓ} : {A : Type ℓ} → List A → Bool
is_empty [] = true
is_empty (x ∷ xs) = false

-- `ManualUpdatePlan.__post_init__`
unfoldable pub valid_plan : ManualUpdatePlan → Bool
valid_plan p =
    ltb 0 p.check_task_id
    && ltb 0 p.plan_item_id
    && ltb 0 p.plan_source_id
    && not (is_empty p.selected)
    && not (has_repeats p.selected)

pub record ManualUpdateResult : Type 0 where
  pub task_id : ℕ
  pub written_fields : List String
  pub commit_status : String

-- What holds of a value if there is one.
abbrev pub Okay {κ} : {A : Type 0} → (A → Type κ) → Result A → Type κ
Okay P (ok a) = P a
Okay P (err e) = Unit
Okay P value_error = Unit

pub bind-Okay {κ μ} :
    {A B : Type 0} (P : A → Type κ) (Q : B → Type μ) (r : Result A) (f : A → Result B)
    → Okay P r
    → ((a : A) → P a → Okay Q (f a))
    → Okay Q (bind r f)
bind-Okay P Q (ok a) f h k = k a h
bind-Okay P Q (err e) f h k = tt
bind-Okay P Q value_error f h k = tt

pub if_err-Okay {κ} :
    {A : Type 0} (P : A → Type κ) (b : Bool) (e : ManualUpdateErrorCode) (r : Result A)
    → (b ≡ false → Okay P r)
    → Okay P (if b then err e else r)
if_err-Okay P true e r h = tt
if_err-Okay P false e r h = h refl

pub map-Okay {κ μ} :
    {A : Type 0} (P : A → Type κ) (Q : A → Type μ) (r : Result A)
    → Okay P r
    → ((a : A) → P a → Q a)
    → Okay Q r
map-Okay P Q (ok a) h k = k a h
map-Okay P Q (err e) h k = tt
map-Okay P Q value_error h k = tt
