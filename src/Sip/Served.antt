-- ===== src/Sip/Served.antt =====
-- The hooks that the server uses (src/state/sip_hooks_state.rs).
pub mod Domains
pub mod Signed
use sayna.Prelude.{
  ℕ, ◌+◌, leb, Bool, true, false, ◌&&◌, Option, none, some, List, [], ◌∷◌, map, or_option,
  if◌then◌else◌,
}
use sayna.Prelude.Text.{Text, text_eq}
use sayna.Sip.{SipHookConfig, CachedSipHook, SipConfig}
use sayna.Sip.Hooks.{Result, ok, err, CacheFile, read_hooks_cache, merge_hooks_with_secrets, values}

pub record SipHooksState : Type 0 where
  pub hooks : List SipHookConfig
  pub global_secret : Option Text
  pub room_prefix : Text

abbrev pub to_ascii_lowercase : ℕ → ℕ
to_ascii_lowercase c = if leb 65 c && leb c 90 then c + 32 else c

unfoldable pub eq_ignore_ascii_case : Text → Text → Bool
eq_ignore_ascii_case s t = text_eq (map to_ascii_lowercase s) (map to_ascii_lowercase t)

unfoldable pub find_host : Text → List SipHookConfig → Option SipHookConfig
unfolding eq_ignore_ascii_case
find_host domain [] = none
find_host domain (h ∷ hooks) =
    if eq_ignore_ascii_case h.host domain then some h else find_host domain hooks

unfoldable pub get_hook_for_domain : SipHooksState → Text → Option SipHookConfig
unfolding find_host
get_hook_for_domain s domain = find_host domain s.hooks

unfoldable pub get_signing_secret : SipHooksState → SipHookConfig → Option Text
get_signing_secret s hook = or_option hook.secret s.global_secret

module _ (lower : Text → Text) where
  -- The cached hooks that the state starts from: none without a cache, or where it cannot be read.
  unfoldable pub start_hooks : Option CacheFile → List CachedSipHook
  start_hooks none = []
  start_hooks (some file) = elim (read_hooks_cache lower file) [ ok hooks ↦ hooks | err e ↦ [] ]

  unfoldable pub new : SipConfig → Option CacheFile → SipHooksState
  unfolding start_hooks
  new sip_config cache = record {
    hooks = values (merge_hooks_with_secrets lower sip_config.hooks (start_hooks cache));
    global_secret = sip_config.hook_secret;
    room_prefix = sip_config.room_prefix;
  }

  unfoldable pub update_hooks :
      List CachedSipHook → List SipHookConfig → SipHooksState → List SipHookConfig × SipHooksState
  update_hooks new_hooks original_config_hooks s =
      let merged = values (merge_hooks_with_secrets lower original_config_hooks new_hooks) in
      (merged, record s { hooks = merged })
