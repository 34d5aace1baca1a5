-- ===== src/Sip.antt =====
-- SIP: the hooks of the configuration and of the cache (src/utils/sip_hooks.rs), the state that serves
-- them (src/state/sip_hooks_state.rs), the checks of the configuration (src/config/sip.rs and
-- src/config/validation.rs) and of phone numbers (src/utils/phone_validation.rs).
pub mod Hooks
pub mod Served
pub mod Checks
pub mod Phone
pub mod Endpoints
mod Tests
use sayna.Prelude.{Option, List}
use sayna.Prelude.Text.{Text}

pub record SipHookConfig : Type 0 where
  pub host : Text
  pub url : Text
  pub secret : Option Text
  pub auth_id : Text

pub record CachedSipHook : Type 0 where
  pub host : Text
  pub url : Text
  pub auth_id : Text

pub record SipConfig : Type 0 where
  pub room_prefix : Text
  pub allowed_addresses : List Text
  pub hooks : List SipHookConfig
  pub hook_secret : Option Text
  pub outbound_address : Option Text
  pub outbound_auth_username : Option Text
  pub outbound_auth_password : Option Text
