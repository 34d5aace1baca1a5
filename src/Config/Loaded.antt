-- ===== src/Config/Loaded.antt =====
-- What holds of a configuration that was loaded (src/config/mod.rs with src/middleware/auth.rs and
-- src/state/sip_hooks_state.rs).
use sayna.Prelude.{
  true, Option, none, some, List, is_empty, refl, subst, ◌≡◌, ◌≢◌, ◌⊎◌, inl, inr, Bool-cases,
  Option-cases, arith,
}
use sayna.Prelude.Text.{Text}
use sayna.Rooms.{Auth}
use sayna.Access.Secrets
use sayna.Access.Secrets.{
  validate_jwt_auth, validate_auth_api_secrets, validate_auth_required, match_api_secret_id,
}
use sayna.Access.Middleware
use sayna.Access.Middleware.{
  Header, extract_auth_token, auth_middleware, no_auth_method, client_not_initialized,
}
use sayna.Sip.{SipHookConfig, SipConfig}
use sayna.Sip.Hooks.{CacheFile}
use sayna.Sip.Hooks.Merged.{last_config}
use sayna.Sip.Checks
use sayna.Sip.Checks.{validate_sip_config}
use sayna.Sip.Checks.Loops.{IsStrong}
use sayna.Sip.Served
use sayna.Sip.Served.{get_hook_for_domain, get_signing_secret}
use sayna.Sip.Served.Signed.{served_hook-signs}
use sayna.Config.{YamlConfig, ServerConfig, Readers, Result, ok, err, LoadError}
use sayna.Config.Load.{Tables, check_config, load, has_jwt_auth, auth_settings}
use sayna.Config.Merge.{merge_config}

Result-cases :
    {A : Type 0} → (r : Result A) → ((a : A) × (r ≡ ok a)) ⊎ ((e : LoadError) × (r ≡ err e))
Result-cases (ok a) = inl (a, refl)
Result-cases (err e) = inr (e, refl)

Auth-cases :
    (c : Secrets.Check)
    → (c ≡ Secrets.pass) ⊎ ((e : Secrets.AuthConfigError) × (c ≡ Secrets.fail e))
Auth-cases Secrets.pass = inl refl
Auth-cases (Secrets.fail e) = inr (e, refl)

Sip-cases :
    (c : Checks.Check) → (c ≡ Checks.pass) ⊎ ((e : Checks.ConfigError) × (c ≡ Checks.fail e))
Sip-cases Checks.pass = inl refl
Sip-cases (Checks.fail e) = inr (e, refl)

ok_injective : {A : Type 0} → (a b : A) → ok a ≡ ok b → a ≡ b
ok_injective a b e = ground (arith, e)

-- No answer that only a wrong configuration explains.
abbrev pub IsServable : Middleware.Result Auth → Type 0
IsServable r = (r ≢ Middleware.err no_auth_method) × (r ≢ Middleware.err client_not_initialized)

Token-cases :
    (r : Middleware.Result Text)
    → ((token : Text) × (r ≡ Middleware.ok token))
      ⊎ ((x : Middleware.AuthError) × (r ≡ Middleware.err x))
Token-cases (Middleware.ok token) = inl (token, refl)
Token-cases (Middleware.err x) = inr (x, refl)

token_error :
    (auth_header : Header) (query : List (Text × Text)) (x : Middleware.AuthError)
    → extract_auth_token auth_header query ≡ Middleware.err x
    → IsServable (Middleware.err x)
unfolding extract_auth_token
token_error Middleware.missing query x e = ground (arith, e)
token_error Middleware.not_a_text query x e = ground (arith, e)
token_error (Middleware.header t) query x e = ground (arith, e)

module _ (readers : Readers) (tables : Tables) {R C : Type 0} (resolve : Option R → Option C) where
  -- The checks that a loaded configuration passed.
  abbrev Passed : ServerConfig C → Type 0
  Passed config =
      (validate_jwt_auth tables.exists config.auth_service_url config.auth_signing_key_path
        ≡ Secrets.pass)
      × (validate_auth_api_secrets readers.lower config.auth_api_secrets ≡ Secrets.pass)
      × (validate_auth_required config.auth_required config.auth_service_url
            config.auth_signing_key_path config.auth_api_secrets
          ≡ Secrets.pass)
      × (validate_sip_config readers.lower tables.is_alphanumeric tables.looks_like_address
            config.sip config.auth_required
          ≡ Checks.pass)

  check_config-Passed :
      (merged config : ServerConfig C)
      → check_config readers tables merged ≡ ok config
      → (merged ≡ config) × Passed merged
  unfolding check_config
  check_config-Passed merged config e =
      elim (Auth-cases
        (validate_jwt_auth tables.exists merged.auth_service_url merged.auth_signing_key_path)) [
          | inr (x, n) ↦ absurd (ground (arith, rw (check_config, n) at e))
          | inl a ↦
              elim (Auth-cases (validate_auth_api_secrets readers.lower merged.auth_api_secrets)) [
                | inr (x, n) ↦ absurd (ground (arith, rw (check_config, a, n) at e))
                | inl b ↦
                    elim (Auth-cases (
                      validate_auth_required merged.auth_required merged.auth_service_url
                        merged.auth_signing_key_path merged.auth_api_secrets)) [
                          | inr (x, n) ↦ absurd (ground (arith, rw (check_config, a, b, n) at e))
                          | inl c ↦
                              elim (Sip-cases (
                                validate_sip_config readers.lower tables.is_alphanumeric
                                  tables.looks_like_address merged.sip merged.auth_required)) [
                                    | inr (x, n) ↦
                                        absurd (ground (arith, rw (check_config, a, b, c, n) at e))
                                    | inl d ↦ (
                                      ok_injective merged config
                                          (rw (check_config, a, b, c, d) at e),
                                      (a, b, c, d),
                                    )
                                  ]
                        ]
              ]
        ]

  load-Passed :
      (yaml : YamlConfig R) (config : ServerConfig C)
      → load readers tables resolve yaml ≡ ok config
      → Passed config
  unfolding load
  load-Passed yaml config e = elim (Result-cases (merge_config readers resolve yaml)) [
    | inr (x, n) ↦ absurd (ground (arith, rw (load, n) at e))
    | inl (merged, m) ↦
        let (same, passed) = check_config-Passed merged config (rw (load, m) at e) in
        subst Passed same passed
  ]

  method_known :
      (config : ServerConfig C)
      → validate_auth_required config.auth_required config.auth_service_url
          config.auth_signing_key_path config.auth_api_secrets
        ≡ Secrets.pass
      → config.auth_required ≡ true
      → is_empty config.auth_api_secrets ≡ true
      → has_jwt_auth config ≡ true
  unfolding validate_auth_required has_jwt_auth
  method_known config v required no_secrets = ground (arith, v, required, no_secrets)

  -- With a configuration that was loaded, the middleware never answers that there is no method of
  -- authentication, and never that its client was not made, if the service answers neither.
  pub load-IsServable :
      (yaml : YamlConfig R) (config : ServerConfig C) (service : Text → Middleware.Result Auth)
      (auth_header : Header) (query : List (Text × Text))
      → load readers tables resolve yaml ≡ ok config
      → ((token : Text) → IsServable (service token))
      → IsServable (auth_middleware service (auth_settings config) auth_header query)
  unfolding auth_middleware auth_settings
  load-IsServable yaml config service auth_header query e served =
      let (jwt, secrets, required_checked, sip) = load-Passed yaml config e in
      elim (Bool-cases config.auth_required) [
        | inr n ↦ rw (auth_middleware, n) (ground arith)
        | inl y ↦ elim (Token-cases (extract_auth_token auth_header query)) [
          | inr (x, t) ↦ rw (auth_middleware, y, t) (token_error auth_header query x t)
          | inl (token, t) ↦ elim (Bool-cases (is_empty config.auth_api_secrets)) [
            | inr some_secrets ↦
                elim (Option-cases (match_api_secret_id token config.auth_api_secrets)) [
                  | inl n ↦ rw (auth_middleware, y, t, some_secrets, n) (ground arith)
                  | inr (id, n) ↦ rw (auth_middleware, y, t, some_secrets, n) (ground arith)
                ]
            | inl none_left ↦
                rw
                  (
                    auth_middleware,
                    y,
                    t,
                    none_left,
                    method_known config required_checked y none_left,
                  )
                  (rw y (served token))
          ]
        ]
      ]

  -- With a configuration that was loaded and has SIP, a hook that a domain gets and the configuration
  -- has for its host signs with a secret that is not blank and has 16 bytes or more; a cached hook
  -- signs with the global secret or not at all.
  pub load-hook_signs :
      (yaml : YamlConfig R) (config : ServerConfig C) (sip : SipConfig) (cache : Option CacheFile)
      (domain : Text) (h : SipHookConfig)
      → load readers tables resolve yaml ≡ ok config
      → config.sip ≡ some sip
      → get_hook_for_domain (Served.new readers.lower sip cache) domain ≡ some h
      → ((secret : Text) × (get_signing_secret (Served.new readers.lower sip cache) h ≡ some secret)
          × IsStrong secret)
        ⊎ ((last_config readers.lower h.host sip.hooks ≡ none)
            × (get_signing_secret (Served.new readers.lower sip cache) h ≡ sip.hook_secret))
  load-hook_signs yaml config sip cache domain h e has there =
      let (jwt, secrets, required, checked) = load-Passed yaml config e in
      served_hook-signs readers.lower tables.is_alphanumeric tables.looks_like_address sip
        config.auth_required cache domain h (rw has at checked) there
