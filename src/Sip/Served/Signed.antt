-- ===== src/Sip/Served/Signed.antt =====
-- The hooks of an accepted configuration are signed (src/config/validation.rs and
-- src/state/sip_hooks_state.rs).
use sayna.Prelude.{
  ℕ, Bool, Option, none, some, List, [], ◌∷◌, or_option, ap, ◌≡◌, ◌∙◌, ◌⊎◌, inl, inr, Bool-cases,
  Option-cases, arith,
}
use sayna.Prelude.Text.{Text, text_eq, trim}
use sayna.Sip.{SipHookConfig, CachedSipHook, SipConfig}
use sayna.Sip.Checks.{pass, validate_sip_config}
use sayna.Sip.Checks.Loops.{IsStrong, Signs, AllSign}
use sayna.Sip.Checks.Accepted.{validate_sip_config_iff}
use sayna.Sip.Hooks.{CacheFile}
use sayna.Sip.Hooks.Merged.{last_config, first_cached}
use sayna.Sip.Served.{get_hook_for_domain, get_signing_secret, new, start_hooks}
use sayna.Sip.Served.Domains.{served_hook}

module _ (lower : Text → Text) where
  last_config-Signs :
      (host : Text) (hook_secret : Option Text) (hooks : List SipHookConfig) (h : SipHookConfig)
      → AllSign hook_secret hooks
      → last_config lower host hooks ≡ some h
      → Signs hook_secret h
  last_config-Signs host g [] h a e = absurd (ground arith)
  last_config-Signs host g (k ∷ hooks) h (s, a) e =
      elim (Option-cases (last_config lower host hooks)) [
        | inr (j, there) ↦ last_config-Signs host g hooks h a (ground (arith, e, there))
        | inl none_later ↦
            let same : h.secret ≡ k.secret = ground (arith, e, none_later) in
            let (secret, has, strong) = s in (secret, rw same has, strong)
      ]

  first_cached-secret :
      (host : Text) (hooks : List CachedSipHook) (h : SipHookConfig)
      → first_cached lower host hooks ≡ some h
      → h.secret ≡ none
  first_cached-secret host [] h e = absurd (ground arith)
  first_cached-secret host (k ∷ hooks) h e =
      elim (Bool-cases (text_eq (lower (trim k.host)) host)) [
        | inl y ↦ ground (arith, e, y)
        | inr n ↦ first_cached-secret host hooks h (ground (arith, e, n))
      ]

  -- Where the configuration passed its checks, a hook that a domain gets and the configuration has for
  -- its host signs with a secret that is not blank and has 16 bytes or more; a cached hook signs with
  -- the global secret or not at all.
  pub served_hook-signs :
      (is_alphanumeric : ℕ → Bool) (looks_like_address : Text → Bool) (config : SipConfig)
      (auth_required : Bool) (cache : Option CacheFile) (domain : Text) (h : SipHookConfig)
      → validate_sip_config lower is_alphanumeric looks_like_address (some config) auth_required
        ≡ pass
      → get_hook_for_domain (new lower config cache) domain ≡ some h
      → ((secret : Text) × (get_signing_secret (new lower config cache) h ≡ some secret)
          × IsStrong secret)
        ⊎ ((last_config lower h.host config.hooks ≡ none)
            × (get_signing_secret (new lower config cache) h ≡ config.hook_secret))
  served_hook-signs is_alphanumeric looks config auth_required cache domain h v e =
      let (same, served, signing) = served_hook lower config cache domain h e in
      let (prefix, some_address, right, named, (signs, global), out) =
        (validate_sip_config_iff lower is_alphanumeric looks config auth_required).0 v in
      elim (Option-cases (last_config lower h.host config.hooks)) [
        | inl n ↦
            let unsigned : h.secret ≡ none =
              first_cached-secret h.host (start_hooks lower cache) h (ground (arith, n, served)) in
            inr (n, signing ∙ ap (λ (o : Option Text). or_option o config.hook_secret) unsigned)
        | inr (j, there) ↦
            let own : last_config lower h.host config.hooks ≡ some h =
              ground (arith, there, served) in
            let (secret, has, strong) =
              last_config-Signs h.host config.hook_secret config.hooks h signs own in
            inl (secret, signing ∙ has, strong)
      ]
