-- ===== src/Chat/Provider.antt =====
-- apps/web/src/lib/chatHelpers.ts, `resolveProviderConfig`. An absent text is the empty one: the code
-- only asks whether a text is there and not empty.
use ninfer_studio.Base.{
  Text, units, text_eq, trim, is_blank, if◌then◌else◌, [], ◌∷◌, Option, none, some, Bool, true,
  false, not, ◌&&◌, ◌≡◌, refl, Bool-cases, inl, inr,
}

pub data ProviderRole : Type 0 where
  primary subagent : ProviderRole

-- The cloud settings of `AppSettings`.
pub record CloudSettings : Type 0 where
  pub enabled : Bool
  pub use_for_primary : Bool
  pub use_for_subagent : Bool
  pub smart_tiering : Bool
  pub primary_model : Text
  pub subagent_model : Text
  pub default_model : Text
  pub base_url : Text
  pub api_key : Text
  pub extra_headers : Text

pub record ProviderParams : Type 0 where
  pub primary_provider : Text
  pub subagent_provider : Text
  pub provider : Text
  pub task_weight : Text
  pub force_cloud : Bool
  pub primary_cloud_model : Text
  pub subagent_cloud_model : Text
  pub cloud_model : Text

pub data Origin : Type 0 where
  local remote : Origin

pub record ProviderConfig : Type 0 where
  pub source : Origin
  pub model : Text
  pub base_url : Text
  pub api_key : Text
  pub extra_headers : Text

infixr 30 ◌or◌
-- `a || b`
abbrev pub ◌or◌ : Text → Text → Text
a or b = if is_blank a then b else a

abbrev pub is_primary : ProviderRole → Bool
is_primary primary = true
is_primary subagent = false

abbrev pub explicit_provider : ProviderRole → ProviderParams → Text
explicit_provider role p =
    (if is_primary role then p.primary_provider else p.subagent_provider) or p.provider

-- Does a light task of a subagent stay local?
abbrev pub is_tiered : ProviderRole → CloudSettings → ProviderParams → Bool
is_tiered role c p =
    c.smart_tiering
    && not (is_primary role)
    && text_eq p.task_weight (units "light")
    && is_blank (explicit_provider role p)
    && not p.force_cloud

abbrev pub global_use_cloud : ProviderRole → CloudSettings → ProviderParams → Bool
global_use_cloud role c p =
    if is_tiered role c p
    then false
    else if is_primary role
    then c.use_for_primary
    else c.use_for_subagent

abbrev pub effective_provider : ProviderRole → CloudSettings → ProviderParams → Text
effective_provider role c p =
    explicit_provider role p
    or (if global_use_cloud role c p then units "cloud" else units "ninfer")

abbrev pub local_config : Text → ProviderConfig
local_config fallback = record {
  source = local;
  model = fallback or units "ninfer";
  base_url = [];
  api_key = [];
  extra_headers = [];
}

abbrev pub role_model : ProviderRole → CloudSettings → Text
role_model role c = if is_primary role then c.primary_model else c.subagent_model

abbrev pub param_model : ProviderRole → ProviderParams → Text
param_model role p =
    trim
      ((if is_primary role then p.primary_cloud_model else p.subagent_cloud_model) or p.cloud_model)

abbrev pub model_fallback : ProviderRole → Text
model_fallback primary = units "gpt-4o"
model_fallback subagent = units "gpt-4o-mini"

abbrev pub cloud_model_of : ProviderRole → CloudSettings → ProviderParams → Text
cloud_model_of role c p =
    param_model role p
    or role_model role c
    or role_model role c
    or c.default_model
    or model_fallback role

-- `resolveProviderConfig`; no settings are settings without the cloud.
unfoldable pub resolve_provider_config :
    ProviderRole → Option CloudSettings → ProviderParams → Text → ProviderConfig
resolve_provider_config role none p fallback = local_config fallback
resolve_provider_config role (some c) p fallback =
    if not c.enabled
    then local_config fallback
    else if text_eq (effective_provider role c p) (units "cloud")
    then record {
      source = remote;
      model = cloud_model_of role c p;
      base_url = c.base_url;
      api_key = c.api_key;
      extra_headers = c.extra_headers;
    }
    else local_config fallback

or-filled : (a b : Text) → is_blank b ≡ false → is_blank (a or b) ≡ false
or-filled [] b h = h
or-filled (c ∷ a) b h = refl

model_fallback-filled : (role : ProviderRole) → is_blank (model_fallback role) ≡ false
unfolding units
model_fallback-filled primary = refl
model_fallback-filled subagent = refl

cloud_model_of-filled :
    (role : ProviderRole) (c : CloudSettings) (p : ProviderParams)
    → is_blank (cloud_model_of role c p) ≡ false
cloud_model_of-filled role c p =
    let last = or-filled c.default_model (model_fallback role) (model_fallback-filled role) in
    let behind = or-filled (role_model role c) (c.default_model or model_fallback role) last in
    let twice =
      or-filled (role_model role c) (role_model role c or c.default_model or model_fallback role)
        behind in
    or-filled (param_model role p)
      (role_model role c or role_model role c or c.default_model or model_fallback role) twice

local_config-filled : (fallback : Text) → is_blank (local_config fallback).model ≡ false
unfolding units
local_config-filled fallback = or-filled fallback (units "ninfer") refl

-- The configuration always names a model.
pub resolve_provider_config-model :
    (role : ProviderRole) (c : Option CloudSettings) (p : ProviderParams) (fallback : Text)
    → is_blank (resolve_provider_config role c p fallback).model ≡ false
unfolding resolve_provider_config
resolve_provider_config-model role none p fallback = local_config-filled fallback
resolve_provider_config-model role (some c) p fallback = elim (Bool-cases c.enabled) [
  | inr off ↦ rw off (local_config-filled fallback)
  | inl on ↦ elim (Bool-cases (text_eq (effective_provider role c p) (units "cloud"))) [
    | inl cloud ↦ rw (on, cloud) (cloud_model_of-filled role c p)
    | inr other ↦ rw (on, other) (local_config-filled fallback)
  ]
]
