-- ===== src/Config.antt =====
-- The configuration (src/config/merge.rs and src/config/mod.rs): a YAML file goes before the variables of
-- the environment, and they before the defaults. The readers of YAML and JSON, the resolution of the
-- recording settings and the environment are parameters.
pub mod Parse
pub mod SipSettings
pub mod Merge
pub mod Load
pub mod Loaded
pub mod Merged
mod Tests
use sayna.Prelude.{
  ℕ, suc, ◌+◌, ◌-◌, ◌*◌, ◌^◌, ltb, leb, ◌==◌, Bool, true, false, not, ◌&&◌, ◌||◌, Option, none,
  some, List, [], ◌∷◌, map, is_empty, is_some, or_option, if◌then◌else◌,
}
use sayna.Prelude.Text.{Text, codes, text_eq, trim}
use sayna.Access.{AuthApiSecret}
use sayna.Access.Middleware.{AuthSettings}
use sayna.Access.Secrets
use sayna.Access.Secrets.{
  AuthConfigError, validate_jwt_auth, validate_auth_api_secrets, validate_auth_required,
}
use sayna.Sip.{SipHookConfig, SipConfig}
use sayna.Sip.Checks
use sayna.Sip.Checks.{validate_sip_config}

pub record ServerYaml : Type 0 where
  pub host : Option Text
  pub port : Option ℕ

pub record LiveKitYaml : Type 0 where
  pub url : Option Text
  pub public_url : Option Text
  pub api_key : Option Text
  pub api_secret : Option Text

pub record ProvidersYaml : Type 0 where
  pub deepgram_api_key : Option Text
  pub elevenlabs_api_key : Option Text
  pub google_credentials : Option Text
  pub azure_speech_subscription_key : Option Text
  pub azure_speech_region : Option Text
  pub cartesia_api_key : Option Text

pub record CacheYaml : Type 0 where
  pub path : Option Text
  pub ttl_seconds : Option ℕ

pub record AuthYaml : Type 0 where
  pub required : Option Bool
  pub service_url : Option Text
  pub signing_key_path : Option Text
  pub api_secrets : List AuthApiSecret
  pub api_secret : Option Text
  pub timeout_seconds : Option ℕ

pub record SipYaml : Type 0 where
  pub room_prefix : Option Text
  pub allowed_addresses : List Text
  pub hooks : List SipHookConfig
  pub hook_secret : Option Text
  pub outbound_address : Option Text
  pub outbound_auth_username : Option Text
  pub outbound_auth_password : Option Text

-- The file; `R` is its recording settings.
pub record YamlConfig (R : Type 0) : Type 0 where
  pub server : Option ServerYaml
  pub livekit : Option LiveKitYaml
  pub providers : Option ProvidersYaml
  pub recording : Option R
  pub cache : Option CacheYaml
  pub auth : Option AuthYaml
  pub sip : Option SipYaml

pub record ServerConfig (C : Type 0) : Type 0 where
  pub host : Text
  pub port : ℕ
  pub livekit_url : Text
  pub livekit_public_url : Text
  pub livekit_api_key : Option Text
  pub livekit_api_secret : Option Text
  pub deepgram_api_key : Option Text
  pub elevenlabs_api_key : Option Text
  pub google_credentials : Option Text
  pub azure_speech_subscription_key : Option Text
  pub azure_speech_region : Option Text
  pub cartesia_api_key : Option Text
  pub recording : C
  pub cache_path : Option Text
  pub cache_ttl_seconds : Option ℕ
  pub auth_service_url : Option Text
  pub auth_signing_key_path : Option Text
  pub auth_api_secrets : List AuthApiSecret
  pub auth_timeout_seconds : ℕ
  pub auth_required : Bool
  pub sip : Option SipConfig

pub data LoadError : Type 0 where
  invalid_port invalid_secrets_json invalid_hooks_json invalid_recording room_prefix_required :
      LoadError
  auth_refused : AuthConfigError → LoadError
  sip_refused : Checks.ConfigError → LoadError

pub data Result (A : Type 0) : Type 0 where
  ok : A → Result A
  err : LoadError → Result A

-- `as_ref().and_then(..)`
abbrev pub field {ℓ} : {A B : Type ℓ} → (A → Option B) → Option A → Option B
field f none = none
field f (some a) = f a

abbrev pub or_default {ℓ} : {A : Type ℓ} → Option A → A → A
or_default none d = d
or_default (some a) d = a

abbrev pub listed {ℓ} : {A B : Type ℓ} → (A → List B) → Option A → List B
listed f none = []
listed f (some a) = f a

abbrev pub bind {ℓ} : {A B : Type ℓ} → Option A → (A → Option B) → Option B
bind none f = none
bind (some a) f = f a

-- The readers of the JSON in two variables, and the environment.
pub record Readers : Type 0 where
  pub env : Text → Option Text
  pub lower : Text → Text
  pub hooks_json : Text → Option (List SipHookConfig)
  pub secrets_json : Text → Option (List AuthApiSecret)

module _ (readers : Readers) where
  -- The file, then the environment.
  unfoldable pub get_optional : Text → Option Text → Option Text
  get_optional env_var yaml_value = or_option yaml_value (readers.env env_var)
