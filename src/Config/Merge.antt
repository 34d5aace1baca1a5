-- ===== src/Config/Merge.antt =====
-- The file over the environment over the defaults (src/config/merge.rs, `merge_config`).
use sayna.Prelude.{
  ℕ, ◌^◌, Bool, true, false, not, ◌||◌, Option, none, some, List, [], ◌∷◌, is_empty, or_option,
  if◌then◌else◌,
}
use sayna.Prelude.Text.{Text, codes, text_eq}
use sayna.Access.{AuthApiSecret}
use sayna.Sip.{SipConfig}
use sayna.Config.{
  ServerYaml, LiveKitYaml, ProvidersYaml, CacheYaml, AuthYaml, YamlConfig, ServerConfig, Result,
  field, or_default, listed, bind, Readers, get_optional, invalid_port, invalid_secrets_json,
  invalid_recording, ok, err,
}
use sayna.Config.Parse.{parse_unsigned}
use sayna.Config.SipSettings.{merge_sip_config}

module _ (readers : Readers) where
  unfoldable pub parse_bool : Text → Option Bool
  parse_bool s =
      let t = readers.lower s in
      if text_eq t (codes "true") || text_eq t (codes "1") || text_eq t (codes "yes")
      then some true
      else if text_eq t (codes "false") || text_eq t (codes "0") || text_eq t (codes "no")
      then some false
      else none

  unfoldable pub merge_port : Option ℕ → Result ℕ
  unfolding parse_unsigned
  merge_port (some port) = ok port
  merge_port none = elim (readers.env (codes "PORT")) [
    | none ↦ ok 3001
    | some text ↦ elim (parse_unsigned (2 ^ 16) text) [ none ↦ err invalid_port | some n ↦ ok n ]
  ]

  unfoldable pub legacy_secrets : Option Text → List AuthApiSecret
  unfolding get_optional
  legacy_secrets yaml_secret = elim (get_optional readers (codes "AUTH_API_SECRET") yaml_secret) [
    | none ↦ []
    | some secret ↦
        record {
          id = or_default (readers.env (codes "AUTH_API_SECRET_ID")) (codes "default");
          secret = secret;
        }
        ∷ []
  ]

  unfoldable pub merge_secrets : Option AuthYaml → Result (List AuthApiSecret)
  unfolding legacy_secrets
  merge_secrets auth =
      let yaml_secrets = listed (λ (a : AuthYaml). a.api_secrets) auth in
      if not (is_empty yaml_secrets)
      then ok yaml_secrets
      else elim (readers.env (codes "AUTH_API_SECRETS_JSON")) [
        | some json ↦ elim (readers.secrets_json json) [
          | none ↦ err invalid_secrets_json
          | some secrets ↦ ok secrets
        ]
        | none ↦ ok (legacy_secrets (field (λ (a : AuthYaml). a.api_secret) auth))
      ]

  module _ {R C : Type 0} (resolve : Option R → Option C) where
    abbrev pub made : C → ℕ → List AuthApiSecret → Option SipConfig → YamlConfig R → ServerConfig C
    made recording port secrets sip yaml = record {
      host =
          or_default
            (get_optional readers (codes "HOST") (field (λ (s : ServerYaml). s.host) yaml.server))
            (codes "0.0.0.0");
      port = port;
      livekit_url =
          or_default
            (get_optional readers (codes "LIVEKIT_URL")
              (field (λ (l : LiveKitYaml). l.url) yaml.livekit))
            (codes "ws://localhost:7880");
      livekit_public_url =
          or_default
            (get_optional readers (codes "LIVEKIT_PUBLIC_URL")
              (field (λ (l : LiveKitYaml). l.public_url) yaml.livekit))
            (codes "http://localhost:7880");
      livekit_api_key =
          get_optional readers (codes "LIVEKIT_API_KEY")
            (field (λ (l : LiveKitYaml). l.api_key) yaml.livekit);
      livekit_api_secret =
          get_optional readers (codes "LIVEKIT_API_SECRET")
            (field (λ (l : LiveKitYaml). l.api_secret) yaml.livekit);
      deepgram_api_key =
          get_optional readers (codes "DEEPGRAM_API_KEY")
            (field (λ (p : ProvidersYaml). p.deepgram_api_key) yaml.providers);
      elevenlabs_api_key =
          get_optional readers (codes "ELEVENLABS_API_KEY")
            (field (λ (p : ProvidersYaml). p.elevenlabs_api_key) yaml.providers);
      google_credentials =
          get_optional readers (codes "GOOGLE_APPLICATION_CREDENTIALS")
            (field (λ (p : ProvidersYaml). p.google_credentials) yaml.providers);
      azure_speech_subscription_key =
          get_optional readers (codes "AZURE_SPEECH_SUBSCRIPTION_KEY")
            (field (λ (p : ProvidersYaml). p.azure_speech_subscription_key) yaml.providers);
      azure_speech_region =
          get_optional readers (codes "AZURE_SPEECH_REGION")
            (field (λ (p : ProvidersYaml). p.azure_speech_region) yaml.providers);
      cartesia_api_key =
          get_optional readers (codes "CARTESIA_API_KEY")
            (field (λ (p : ProvidersYaml). p.cartesia_api_key) yaml.providers);
      recording = recording;
      cache_path =
          get_optional readers (codes "CACHE_PATH") (field (λ (c : CacheYaml). c.path) yaml.cache);
      cache_ttl_seconds =
          or_option
            (or_option (field (λ (c : CacheYaml). c.ttl_seconds) yaml.cache)
              (bind (readers.env (codes "CACHE_TTL_SECONDS")) (parse_unsigned (2 ^ 64))))
            (some 2592000);
      auth_service_url =
          get_optional readers (codes "AUTH_SERVICE_URL")
            (field (λ (a : AuthYaml). a.service_url) yaml.auth);
      auth_signing_key_path =
          get_optional readers (codes "AUTH_SIGNING_KEY_PATH")
            (field (λ (a : AuthYaml). a.signing_key_path) yaml.auth);
      auth_api_secrets = secrets;
      auth_timeout_seconds =
          or_default
            (or_option (field (λ (a : AuthYaml). a.timeout_seconds) yaml.auth)
              (bind (readers.env (codes "AUTH_TIMEOUT_SECONDS")) (parse_unsigned (2 ^ 64))))
            5;
      auth_required =
          or_default
            (or_option (field (λ (a : AuthYaml). a.required) yaml.auth)
              (bind (readers.env (codes "AUTH_REQUIRED")) parse_bool))
            false;
      sip = sip;
    }

    -- `?` of the four parts that may fail, in their order.
    unfoldable pub merge_config : YamlConfig R → Result (ServerConfig C)
    unfolding merge_port merge_secrets merge_sip_config get_optional parse_unsigned parse_bool
    merge_config yaml = elim (merge_port (field (λ (s : ServerYaml). s.port) yaml.server)) [
      | err e ↦ err e
      | ok port ↦ elim (resolve yaml.recording) [
        | none ↦ err invalid_recording
        | some recording ↦ elim (merge_secrets yaml.auth) [
          | err e ↦ err e
          | ok secrets ↦ elim (merge_sip_config readers yaml.sip) [
            | err e ↦ err e
            | ok sip ↦ ok (made recording port secrets sip yaml)
          ]
        ]
      ]
    ]
