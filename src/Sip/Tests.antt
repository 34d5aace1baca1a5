-- ===== src/Sip/Tests.antt =====
-- Runs of the SIP hooks and checks (src/utils/sip_hooks.rs, src/state/sip_hooks_state.rs,
-- src/config/validation.rs, src/utils/phone_validation.rs).
use sayna.Prelude.{
  ℕ, leb, Bool, true, false, ◌&&◌, none, some, [], ◌∷◌, is_empty, refl, ◌≡◌, ◌↔◌, ◌⊎◌,
}
use sayna.Prelude.Text.{Text, codes, trim, trim_start, is_whitespace}
use sayna.Prelude.Dict.{insert}
use sayna.Sip.{SipHookConfig, CachedSipHook, SipConfig}
use sayna.Sip.Hooks
use sayna.Sip.Hooks.{
  contains, insert_config, insert_new, validation, CacheFile, missing, listed, read_hooks_cache,
  write_hooks_cache, merge_hooks, merge_hooks_with_secrets,
}
use sayna.Sip.Hooks.Stored.{renewed, Distinct, write_hooks_cache-read_hooks_cache}
use sayna.Sip.Checks.{
  pass, validate_sip_config, check_prefix, is_safe, check_addresses, check_hosts,
  validate_hook_auth_id, check_all_secrets, check_secrets, validate_hook_secret, check_outbound,
  validate_outbound_auth,
}
use sayna.Sip.Checks.Accepted.{
  AllLookRight, GlobalIsStrong, AddressIsGiven, LoginIsWhole, validate_sip_config_iff,
}
use sayna.Sip.Checks.Loops.{AllSign, AllNamed, DistinctHosts}
use sayna.Sip.Served.{get_hook_for_domain, new, find_host, eq_ignore_ascii_case, start_hooks}
use sayna.Prelude.Trim.{trim-trim}

-- Hosts of ASCII letters.
abbrev lower : Text → Text
lower t = t

abbrev new_hook : CachedSipHook
new_hook = record { host = codes " a.io"; url = codes "u"; auth_id = codes "t" }

abbrev old_hook : CachedSipHook
old_hook = record { host = codes "a.io"; url = codes "v"; auth_id = codes "t" }

abbrev config_hook : SipHookConfig
config_hook = record { host = codes "b.io"; url = codes "w"; secret = none; auth_id = codes "t" }

abbrev config : SipConfig
config = record {
  room_prefix = codes "sip-";
  allowed_addresses = codes "1.2.3.4" ∷ [];
  hooks = config_hook ∷ [];
  hook_secret = some (codes "0123456789abcdef");
  outbound_address = none;
  outbound_auth_username = none;
  outbound_auth_password = none;
}

write_hooks_cache-read_hooks_cache_example :
    let (r, file') = write_hooks_cache lower (new_hook ∷ []) missing in
    ((r ≡ Hooks.ok tt)
      × Distinct lower (λ t. refl) trim-trim (renewed lower (λ t. refl) trim-trim (new_hook ∷ []))
      × (read_hooks_cache lower file'
          ≡ Hooks.ok (renewed lower (λ t. refl) trim-trim (new_hook ∷ []))))
    ⊎ ((host : Text) × (r ≡ Hooks.err (validation host)) × (file' ≡ missing))
write_hooks_cache-read_hooks_cache_example =
    write_hooks_cache-read_hooks_cache lower (λ t. refl) trim-trim (new_hook ∷ []) missing

abbrev is_letter : ℕ → Bool
is_letter c = leb 97 c && leb c 122

abbrev starts_with_digit : Text → Bool
starts_with_digit [] = false
starts_with_digit (c ∷ s) = leb 48 c && leb c 57

accepted : validate_sip_config lower is_letter starts_with_digit (some config) true ≡ pass
unfolding validate_sip_config check_prefix is_safe check_addresses check_hosts contains
    validate_hook_auth_id check_all_secrets check_secrets validate_hook_secret check_outbound
    validate_outbound_auth trim trim_start is_whitespace
accepted = refl

served : get_hook_for_domain (new lower config none) (codes "B.io") ≡ some config_hook
unfolding get_hook_for_domain find_host eq_ignore_ascii_case new start_hooks
    merge_hooks_with_secrets insert_config insert_new insert trim trim_start is_whitespace
served = refl

validate_sip_config_iff_example :
    (validate_sip_config lower is_letter starts_with_digit (some config) true ≡ pass) ↔ (
      ((is_empty (codes "sip-") ≡ false)
        × (is_safe lower is_letter starts_with_digit (codes "sip-") ≡ true))
      × (is_empty (codes "1.2.3.4" ∷ []) ≡ false)
      × AllLookRight lower is_letter starts_with_digit (codes "1.2.3.4" ∷ [])
      × (DistinctHosts lower config.hooks × AllNamed lower true config.hooks)
      × (AllSign config.hook_secret config.hooks × GlobalIsStrong config.hooks config.hook_secret)
      × (AddressIsGiven none × LoginIsWhole none none))
validate_sip_config_iff_example =
    validate_sip_config_iff lower is_letter starts_with_digit config true
