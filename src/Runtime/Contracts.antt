-- ===== src/Runtime/Contracts.antt =====
-- app/provider_runtime/service.py, the code-owned definitions, and the row of app/models.py,
-- `ProviderRuntimeState`. What `load_javdb_session_cookie` answers is part of the environment.
use nsfwtrack.Base.{
  ℕ, String, Bool, true, false, ◌&&◌, ◌||◌, not, Option, none, some, List, [], ◌∷◌, leb, ◌==◌, find,
  any, member, str_eq,
}

pub data ProviderRuntimeErrorCode : Type 0 where
  unknown_provider invalid_request invalid_egress_profile : ProviderRuntimeErrorCode
  fixture_provider concurrent_update : ProviderRuntimeErrorCode

pub data Scope : Type 0 where
  production test_fixture : Scope

pub data RuntimeStatus : Type 0 where
  disabled ready blocked error : RuntimeStatus

pub data ConfigurationStatus : Type 0 where
  not_configured valid invalid : ConfigurationStatus

pub data SessionStatus : Type 0 where
  not_required missing available expired unknown : SessionStatus

pub record ProviderRuntimeDefinition : Type 0 where
  pub provider_key : String
  pub display_name : String
  pub scope : Scope
  pub cookie_required : Bool
  pub manageable : Bool
  pub egress_policy : String

pub record ProviderRuntimeState : Type 0 where
  pub provider_key : String
  pub enabled : Bool
  pub runtime_status : RuntimeStatus
  pub configuration_status : ConfigurationStatus
  pub egress_profile : String
  pub session_status : SessionStatus
  pub session_updated_at : Option ℕ
  pub session_expires_at : Option ℕ
  pub last_health_check_at : Option ℕ
  pub last_success_at : Option ℕ
  pub last_error_code : Option String
  pub last_error_at : Option ℕ
  pub configuration_version : ℕ
  pub optimistic_version : ℕ
  pub created_at : ℕ
  pub updated_at : ℕ

abbrev pub javdb_metadata : ProviderRuntimeDefinition
javdb_metadata = record {
  provider_key = "javdb_metadata";
  display_name = "JavDB Metadata";
  scope = production;
  cookie_required = true;
  manageable = true;
  egress_policy = "avoid_jp_kr";
}

abbrev pub zuidapi_vod : ProviderRuntimeDefinition
zuidapi_vod = record {
  provider_key = "zuidapi_vod";
  display_name = "ZuidAPI MacCMS VOD";
  scope = production;
  cookie_required = false;
  manageable = true;
  egress_policy = "default";
}

abbrev pub copymanga : ProviderRuntimeDefinition
copymanga = record {
  provider_key = "copymanga";
  display_name = "CopyManga Comic";
  scope = production;
  cookie_required = false;
  manageable = true;
  egress_policy = "default";
}

abbrev pub jiuse_vod : ProviderRuntimeDefinition
jiuse_vod = record {
  provider_key = "jiuse_vod";
  display_name = "Jiuse VOD Fixture";
  scope = test_fixture;
  cookie_required = false;
  manageable = false;
  egress_policy = "fixture_only";
}

abbrev pub comic_local_fixture : ProviderRuntimeDefinition
comic_local_fixture = record {
  provider_key = "comic_local_fixture";
  display_name = "Local Comic Fixture";
  scope = test_fixture;
  cookie_required = false;
  manageable = false;
  egress_policy = "fixture_only";
}

-- `_DEFINITIONS`
abbrev pub provider_definitions : List ProviderRuntimeDefinition
provider_definitions =
    javdb_metadata ∷ zuidapi_vod ∷ copymanga ∷ jiuse_vod ∷ comic_local_fixture ∷ []

-- `_BY_KEY.get(provider_key)`
unfoldable pub definition_of : String → Option ProviderRuntimeDefinition
definition_of key = find (λ d. str_eq d.provider_key key) provider_definitions

unfoldable pub egress_profile_supported : String → Bool
egress_profile_supported profile = member profile ("default" ∷ "direct" ∷ [])

-- The clock, and the cookie that the loader reads, none where it raises `SessionCookieError`.
pub record Env : Type 0 where
  pub now : ℕ
  pub cookie : Option (List ℕ)

-- `str.isspace` of one character, which `strip` removes.
unfoldable pub is_space : ℕ → Bool
is_space c =
    leb 9 c && leb c 13
    || leb 28 c && leb c 32
    || c == 133
    || c == 160
    || c == 5760
    || leb 8192 c && leb c 8202
    || c == 8232
    || c == 8233
    || c == 8239
    || c == 8287
    || c == 12288

-- `_local_session_status`
unfoldable pub local_session_status : Env → ProviderRuntimeDefinition → SessionStatus
local_session_status env definition = elim definition.cookie_required [
  | false ↦ not_required
  | true ↦ elim env.cookie [
    | none ↦ missing
    | some cookie ↦ elim (any (λ c. not (is_space c)) cookie) [ true ↦ available | false ↦ missing ]
  ]
]

abbrev pub is_ready : RuntimeStatus → Bool
is_ready ready = true
is_ready _ = false

abbrev pub is_valid : ConfigurationStatus → Bool
is_valid valid = true
is_valid _ = false

abbrev pub is_available : SessionStatus → Bool
is_available available = true
is_available _ = false

abbrev pub is_expired : SessionStatus → Bool
is_expired expired = true
is_expired _ = false

abbrev pub is_production : Scope → Bool
is_production production = true
is_production test_fixture = false
