-- ===== src/Config/Merged.antt =====
-- When there is a configuration of SIP (src/config/merge.rs, `merge_sip_config`).
use sayna.Prelude.{
  false, not, ◌&&◌, Option, none, List, is_some, refl, ◌≡◌, ◌≢◌, ◌↔◌, inl, inr, Bool-cases,
  Option-cases, arith,
}
use sayna.Prelude.Text.{Text, codes}
use sayna.Sip.{SipHookConfig}
use sayna.Config.{SipYaml, Readers, Result, ok, err, get_optional, field}
use sayna.Config.SipSettings.{has_env_sip, make_sip_config, merge_hooks_of, merge_sip_config}

module _ (readers : Readers) where
  make_sip_config-some :
      (yaml_sip : Option SipYaml) (room_prefix : Text) (hooks : Result (List SipHookConfig))
      → make_sip_config readers yaml_sip room_prefix hooks ≢ ok none
  unfolding make_sip_config
  make_sip_config-some yaml_sip room_prefix (ok hooks) e = absurd (ground (arith, e))
  make_sip_config-some yaml_sip room_prefix (err x) e = absurd (ground (arith, e))

  none_given :
      (yaml_sip : Option SipYaml)
      → merge_sip_config readers yaml_sip ≡ ok none
      → (yaml_sip ≡ none) × (has_env_sip readers ≡ false)
  unfolding merge_sip_config
  none_given yaml_sip e = elim (Bool-cases (not (is_some yaml_sip) && not (has_env_sip readers))) [
    | inl y ↦ ground (arith, y)
    | inr n ↦
        elim (Option-cases (
          get_optional readers (codes "SIP_ROOM_PREFIX")
            (field (λ (s : SipYaml). s.room_prefix) yaml_sip))) [
              | inl m ↦ absurd (ground (arith, rw (merge_sip_config, n, m) at e))
              | inr (prefix, m) ↦ absurd (
                  make_sip_config-some yaml_sip prefix (merge_hooks_of readers yaml_sip)
                    (rw (merge_sip_config, n, m) at e))
            ]
  ]

  -- There is no configuration of SIP exactly if the file has none and none of the seven variables is
  -- set; in every other case there is one, or an error.
  pub merge_sip_config-none_iff :
      (yaml_sip : Option SipYaml)
      → (merge_sip_config readers yaml_sip ≡ ok none) ↔ (
          (yaml_sip ≡ none)
          × (readers.env (codes "SIP_ROOM_PREFIX") ≡ none)
          × (readers.env (codes "SIP_ALLOWED_ADDRESSES") ≡ none)
          × (readers.env (codes "SIP_HOOKS_JSON") ≡ none)
          × (readers.env (codes "SIP_HOOK_SECRET") ≡ none)
          × (readers.env (codes "SIP_OUTBOUND_ADDRESS") ≡ none)
          × (readers.env (codes "SIP_OUTBOUND_AUTH_USERNAME") ≡ none)
          × (readers.env (codes "SIP_OUTBOUND_AUTH_PASSWORD") ≡ none))
  unfolding merge_sip_config has_env_sip
  merge_sip_config-none_iff yaml_sip = (
    (λ e. let (no_yaml, no_env) = none_given yaml_sip e in ground (arith, no_yaml, no_env)),
    λ (no_yaml, a, b, c, d, f, g, h).
        rw (no_yaml, merge_sip_config, has_env_sip, a, b, c, d, f, g, h) refl,
  )
