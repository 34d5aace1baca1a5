-- ===== src/Config/Tests.antt =====
-- Runs of the configuration (src/config/merge.rs and src/config/mod.rs).
use sayna.Prelude.{
  leb, true, ◌&&◌, Option, none, some, [], ◌∷◌, refl, ◌≡◌, ◌⊎◌, ◌↔◌, if◌then◌else◌, arith,
}
use sayna.Prelude.Text.{Text, codes, text_eq, trim, trim_start, is_whitespace}
use sayna.Prelude.Dict.{lookup, insert}
use sayna.Access.Middleware
use sayna.Access.Middleware.{Header, header, auth_middleware}
use sayna.Sip.{SipHookConfig, SipConfig}
use sayna.Sip.Hooks.Merged.{last_config}
use sayna.Sip.Checks
use sayna.Sip.Checks.Loops.{IsStrong}
use sayna.Sip.Served
use sayna.Sip.Served.{get_hook_for_domain, get_signing_secret}
use sayna.Config.{AuthYaml, SipYaml, YamlConfig, ServerConfig, Readers, ok}
use sayna.Config.Load.{Tables, load, auth_settings}
use sayna.Config.SipSettings.{merge_sip_config}
use sayna.Config.Merge.{made}
use sayna.Config.Parse.{parse_unsigned, split_commas}
use sayna.Config.Loaded.{IsServable, load-IsServable, load-hook_signs}
use sayna.Config.Merged.{merge_sip_config-none_iff}

abbrev lower : Text → Text
lower t = t

abbrev long_secret : Text
long_secret = codes "0123456789abcdef"

-- One variable is set.
abbrev readers : Readers
readers = record {
  env = λ name. if text_eq name (codes "SIP_HOOK_SECRET") then some long_secret else none;
  lower = lower;
  hooks_json = λ json. none;
  secrets_json = λ json. none;
}

abbrev unset : Readers
unset = record readers { env = λ name. none }

abbrev tables : Tables
tables = record {
  exists = λ path. true;
  is_alphanumeric = λ c. leb 97 c && leb c 122;
  looks_like_address = λ address. true;
}

abbrev hook : SipHookConfig
hook = record { host = codes "b.io"; url = codes "w"; secret = none; auth_id = codes "t" }

abbrev auth : AuthYaml
auth = record {
  required = some true;
  service_url = none;
  signing_key_path = none;
  api_secrets = record { id = codes "acme"; secret = codes "s1" } ∷ [];
  api_secret = none;
  timeout_seconds = none;
}

abbrev sip_yaml : SipYaml
sip_yaml = record {
  room_prefix = some (codes "sip-");
  allowed_addresses = codes "1.2.3.4" ∷ [];
  hooks = hook ∷ [];
  hook_secret = none;
  outbound_address = none;
  outbound_auth_username = none;
  outbound_auth_password = none;
}

abbrev yaml : YamlConfig (Unit {0})
yaml = record {
  server = none;
  livekit = none;
  providers = none;
  recording = none;
  cache = none;
  auth = some auth;
  sip = some sip_yaml;
}

abbrev no_recording : Option (Unit {0}) → Option (Unit {0})
no_recording r = some tt

-- The secret of the hooks comes from the environment.
abbrev sip : SipConfig
sip = record {
  room_prefix = codes "sip-";
  allowed_addresses = codes "1.2.3.4" ∷ [];
  hooks = hook ∷ [];
  hook_secret = some long_secret;
  outbound_address = none;
  outbound_auth_username = none;
  outbound_auth_password = none;
}

abbrev config : ServerConfig (Unit {0})
config = made readers no_recording tt 3001 auth.api_secrets (some sip) yaml

loaded : load readers tables no_recording yaml ≡ ok config
unfolding load Checks.new trim trim_start is_whitespace Checks.validate_hook_secret lookup
loaded = refl

load-IsServable_example : IsServable (
    auth_middleware
      (λ token. Middleware.err Middleware.unauthorized)
      (auth_settings config)
      (header (codes "Bearer x"))
      [])
load-IsServable_example =
    load-IsServable readers tables no_recording yaml config
      (λ token. Middleware.err Middleware.unauthorized) (header (codes "Bearer x")) [] loaded
      (λ token. ground arith)

hook_served : get_hook_for_domain (Served.new lower sip none) (codes "B.io") ≡ some hook
unfolding get_hook_for_domain Served.new trim trim_start is_whitespace insert
    sayna.Sip.Hooks.merge_hooks_with_secrets
hook_served = refl

load-hook_signs_example :
    ((secret : Text) × (get_signing_secret (Served.new lower sip none) hook ≡ some secret)
      × IsStrong secret)
    ⊎ ((last_config lower (codes "b.io") (hook ∷ []) ≡ none)
        × (get_signing_secret (Served.new lower sip none) hook ≡ some long_secret))
load-hook_signs_example =
    load-hook_signs readers tables no_recording yaml config sip none (codes "B.io") hook loaded refl
      hook_served

abbrev no_yaml : Option SipYaml
no_yaml = none

merge_sip_config-none_iff_example : (merge_sip_config unset no_yaml ≡ ok none) ↔ (
    (no_yaml ≡ none)
    × (unset.env (codes "SIP_ROOM_PREFIX") ≡ none)
    × (unset.env (codes "SIP_ALLOWED_ADDRESSES") ≡ none)
    × (unset.env (codes "SIP_HOOKS_JSON") ≡ none)
    × (unset.env (codes "SIP_HOOK_SECRET") ≡ none)
    × (unset.env (codes "SIP_OUTBOUND_ADDRESS") ≡ none)
    × (unset.env (codes "SIP_OUTBOUND_AUTH_USERNAME") ≡ none)
    × (unset.env (codes "SIP_OUTBOUND_AUTH_PASSWORD") ≡ none))
merge_sip_config-none_iff_example = merge_sip_config-none_iff unset no_yaml

ports : parse_unsigned 65536 (codes "+65535") ≡ some 65535
unfolding parse_unsigned
ports = refl

addresses : split_commas (codes "a,,b") ≡ codes "a" ∷ ([] ∷ (codes "b" ∷ []))
unfolding split_commas
addresses = refl
