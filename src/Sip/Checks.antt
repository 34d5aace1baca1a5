-- ===== src/Sip/Checks.antt =====
-- The configuration of SIP, made and checked (src/config/sip.rs and src/config/validation.rs). The
-- tables of characters (`lower`, `is_alphanumeric`) and the regular expression of an address are
-- parameters.
pub mod Loops
pub mod Accepted
use sayna.Prelude.{
  ℕ, ◌+◌, ltb, leb, Bool, true, false, not, ◌&&◌, ◌||◌, ◌==◌, Option, none, some, List, [], ◌∷◌,
  map, or_option, is_empty, if◌then◌else◌,
}
use sayna.Prelude.Text.{Text, codes, trim}
use sayna.Sip.{SipHookConfig, SipConfig}
use sayna.Sip.Hooks.{contains}

-- The errors, by what they say.
pub data ConfigError : Type 0 where
  empty_room_prefix unsafe_room_prefix no_allowed_addresses : ConfigError
  bad_address duplicate_host empty_auth_id no_secret blank_secret short_secret : Text → ConfigError
  blank_outbound_address blank_username blank_password no_password no_username : ConfigError

pub data Check : Type 0 where
  pass : Check
  fail : ConfigError → Check

-- `?` between two checks.
infixr 20 ◌then_check◌
abbrev pub ◌then_check◌ : Check → Check → Check
pass then_check b = b
(fail e) then_check b = fail e

abbrev pub trim_option : Option Text → Option Text
trim_option none = none
trim_option (some s) = some (trim s)

-- `str::len`: the bytes of UTF-8.
abbrev pub utf8_size : ℕ → ℕ
utf8_size c = if ltb c 0x80 then 1 else if ltb c 0x800 then 2 else if ltb c 0x10000 then 3 else 4

abbrev pub utf8_length : Text → ℕ
utf8_length [] = 0
utf8_length (c ∷ s) = utf8_size c + utf8_length s

abbrev pub min_secret_length : ℕ
min_secret_length = 16

unfoldable pub validate_hook_secret : Text → Text → Check
validate_hook_secret secret hook_identifier =
    if is_empty (trim secret)
    then fail (blank_secret hook_identifier)
    else if ltb (utf8_length secret) min_secret_length
    then fail (short_secret hook_identifier)
    else pass

unfoldable pub validate_hook_auth_id : Text → Text → Check
validate_hook_auth_id auth_id hook_identifier =
    if is_empty (trim auth_id) then fail (empty_auth_id hook_identifier) else pass

unfoldable pub validate_outbound_address : Text → Check
validate_outbound_address address =
    if is_empty (trim address) then fail blank_outbound_address else pass

unfoldable pub validate_outbound_auth : Option Text → Option Text → Check
validate_outbound_auth (some user) (some word) =
    if is_empty (trim user)
    then fail blank_username
    else if is_empty (trim word)
    then fail blank_password
    else pass
validate_outbound_auth (some user) none = fail no_password
validate_outbound_auth none (some word) = fail no_username
validate_outbound_auth none none = pass

module _ (lower : Text → Text) where
  -- `SipConfig::new`
  unfoldable pub new : SipConfig → SipConfig
  new given = record given {
    allowed_addresses = map trim given.allowed_addresses;
    hooks =
        map
          (λ (h : SipHookConfig). record h {
            host = lower (trim h.host);
            secret = trim_option h.secret;
            auth_id = trim h.auth_id;
          })
          given.hooks;
    hook_secret = trim_option given.hook_secret;
    outbound_address = trim_option given.outbound_address;
    outbound_auth_username = trim_option given.outbound_auth_username;
    outbound_auth_password = trim_option given.outbound_auth_password;
  }

  unfoldable pub check_hosts : Bool → List SipHookConfig → List Text → Check
  unfolding contains validate_hook_auth_id
  check_hosts auth_required [] seen = pass
  check_hosts auth_required (h ∷ hooks) seen =
      let rest = check_hosts auth_required hooks (lower h.host ∷ seen) in
      if contains lower (lower h.host) seen
      then fail (duplicate_host (lower h.host))
      else (if auth_required then validate_hook_auth_id h.auth_id h.host else pass) then_check rest

  unfoldable pub check_secrets : Option Text → List SipHookConfig → Check
  unfolding validate_hook_secret
  check_secrets hook_secret [] = pass
  check_secrets hook_secret (h ∷ hooks) =
      let rest = check_secrets hook_secret hooks in
      elim (or_option h.secret hook_secret) [
        | none ↦ fail (no_secret h.host)
        | some secret ↦ validate_hook_secret secret h.host then_check rest
      ]

  module _ (is_alphanumeric : ℕ → Bool) (looks_like_address : Text → Bool) where
    unfoldable pub is_safe : Text → Bool
    is_safe [] = true
    is_safe (c ∷ s) = (is_alphanumeric c || ((c == 0x2d) || (c == 0x5f))) && is_safe s

    unfoldable pub check_addresses : List Text → Check
    check_addresses [] = pass
    check_addresses (a ∷ addresses) =
        let rest = check_addresses addresses in
        if looks_like_address a then rest else fail (bad_address a)

    unfoldable pub check_prefix : Text → Check
    unfolding is_safe
    check_prefix room_prefix =
        if is_empty room_prefix
        then fail empty_room_prefix
        else if is_safe room_prefix
        then pass
        else fail unsafe_room_prefix

    unfoldable pub check_all_secrets : SipConfig → Check
    unfolding check_secrets validate_hook_secret
    check_all_secrets config =
        if is_empty config.hooks
        then pass
        else check_secrets config.hook_secret config.hooks then_check elim config.hook_secret [
          | none ↦ pass
          | some secret ↦ validate_hook_secret secret (codes "global")
        ]

    unfoldable pub check_outbound : SipConfig → Check
    unfolding validate_outbound_address validate_outbound_auth
    check_outbound config =
        elim config.outbound_address [
          | none ↦ pass
          | some address ↦ validate_outbound_address address
        ]
        then_check validate_outbound_auth config.outbound_auth_username
            config.outbound_auth_password

    unfoldable pub validate_sip_config : Option SipConfig → Bool → Check
    unfolding check_prefix check_addresses check_hosts check_all_secrets check_outbound
    validate_sip_config none auth_required = pass
    validate_sip_config (some config) auth_required =
        check_prefix config.room_prefix
        then_check ((if is_empty config.allowed_addresses then fail no_allowed_addresses else pass)
            then_check (check_addresses config.allowed_addresses
                then_check (check_hosts auth_required config.hooks []
                    then_check (check_all_secrets config then_check check_outbound config))))
