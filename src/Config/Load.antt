-- ===== src/Config/Load.antt =====
-- The merged configuration is checked (src/config/mod.rs), and what the middleware gets of it
-- (src/state/mod.rs).
use sayna.Prelude.{ℕ, Bool, ◌&&◌, Option, is_some}
use sayna.Prelude.Text.{Text}
use sayna.Access.Middleware.{AuthSettings}
use sayna.Access.Secrets
use sayna.Access.Secrets.{
  AuthConfigError, validate_jwt_auth, validate_auth_api_secrets, validate_auth_required,
}
use sayna.Sip.Checks
use sayna.Sip.Checks.{validate_sip_config}
use sayna.Config.{
  YamlConfig, ServerConfig, LoadError, Result, Readers, auth_refused, sip_refused, ok, err,
}
use sayna.Config.Merge.{merge_config}

-- The tables of the checks.
pub record Tables : Type 0 where
  pub exists : Text → Bool
  pub is_alphanumeric : ℕ → Bool
  pub looks_like_address : Text → Bool

module _ (readers : Readers) (tables : Tables) where
  abbrev auth_then {ℓ} : {A : Type ℓ} → Secrets.Check → A → (LoadError → A) → A
  auth_then Secrets.pass a f = a
  auth_then (Secrets.fail e) a f = f (auth_refused e)

  abbrev sip_then {ℓ} : {A : Type ℓ} → Checks.Check → A → (LoadError → A) → A
  sip_then Checks.pass a f = a
  sip_then (Checks.fail e) a f = f (sip_refused e)

  -- The checks of a merged configuration, in their order.
  unfoldable pub check_config : {C : Type 0} → ServerConfig C → Result (ServerConfig C)
  unfolding validate_jwt_auth validate_auth_api_secrets validate_auth_required validate_sip_config
  check_config config =
      auth_then
        (validate_jwt_auth tables.exists config.auth_service_url config.auth_signing_key_path)
        (auth_then (validate_auth_api_secrets readers.lower config.auth_api_secrets)
          (auth_then
            (validate_auth_required config.auth_required config.auth_service_url
              config.auth_signing_key_path config.auth_api_secrets)
            (sip_then
              (validate_sip_config readers.lower tables.is_alphanumeric tables.looks_like_address
                config.sip config.auth_required)
              (ok config) err)
            err)
          err)
        err

  -- `from_file`, of the file that was read.
  unfoldable pub load :
      {R C : Type 0} → (Option R → Option C) → YamlConfig R → Result (ServerConfig C)
  unfolding merge_config check_config
  load resolve yaml = elim (merge_config readers resolve yaml) [
    | err e ↦ err e
    | ok config ↦ check_config config
  ]

unfoldable pub has_jwt_auth : {C : Type 0} → ServerConfig C → Bool
has_jwt_auth config = is_some config.auth_service_url && is_some config.auth_signing_key_path

-- What the middleware reads of it; the client is made at the start, or the start fails.
unfoldable pub auth_settings : {C : Type 0} → ServerConfig C → AuthSettings
unfolding has_jwt_auth
auth_settings config = record {
  auth_required = config.auth_required;
  auth_api_secrets = config.auth_api_secrets;
  has_jwt_auth = has_jwt_auth config;
  has_auth_client = config.auth_required && has_jwt_auth config;
}
