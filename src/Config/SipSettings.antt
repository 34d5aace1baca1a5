-- ===== src/Config/SipSettings.antt =====
-- The settings of SIP (src/config/merge.rs, `merge_sip_config`).
use sayna.Prelude.{
  Bool, not, ◌&&◌, ◌||◌, Option, none, some, List, [], is_empty, is_some, if◌then◌else◌,
}
use sayna.Prelude.Text.{Text, codes}
use sayna.Sip.{SipHookConfig, SipConfig}
use sayna.Sip.Checks
use sayna.Sip.Checks.{validate_sip_config}
use sayna.Config.{
  SipYaml, Result, field, listed, Readers, get_optional, invalid_hooks_json, room_prefix_required,
  ok, err,
}
use sayna.Config.Parse.{split_commas, drop_empty, from_env_list}

module _ (readers : Readers) where
  unfoldable pub has_env_sip : Bool
  has_env_sip =
      is_some (readers.env (codes "SIP_ROOM_PREFIX"))
      || is_some (readers.env (codes "SIP_ALLOWED_ADDRESSES"))
      || is_some (readers.env (codes "SIP_HOOKS_JSON"))
      || is_some (readers.env (codes "SIP_HOOK_SECRET"))
      || is_some (readers.env (codes "SIP_OUTBOUND_ADDRESS"))
      || is_some (readers.env (codes "SIP_OUTBOUND_AUTH_USERNAME"))
      || is_some (readers.env (codes "SIP_OUTBOUND_AUTH_PASSWORD"))

  unfoldable pub merge_hooks_of : Option SipYaml → Result (List SipHookConfig)
  merge_hooks_of yaml_sip =
      let yaml_hooks = listed (λ (s : SipYaml). s.hooks) yaml_sip in
      if not (is_empty yaml_hooks)
      then ok yaml_hooks
      else elim (readers.env (codes "SIP_HOOKS_JSON")) [
        | none ↦ ok []
        | some json ↦ elim (readers.hooks_json json) [
          | none ↦ err invalid_hooks_json
          | some hooks ↦ ok hooks
        ]
      ]

  unfoldable pub merge_addresses : Option SipYaml → List Text
  unfolding split_commas drop_empty
  merge_addresses yaml_sip =
      let yaml_addresses = listed (λ (s : SipYaml). s.allowed_addresses) yaml_sip in
      if not (is_empty yaml_addresses)
      then yaml_addresses
      else from_env_list (readers.env (codes "SIP_ALLOWED_ADDRESSES"))

  unfoldable pub make_sip_config :
      Option SipYaml → Text → Result (List SipHookConfig) → Result (Option SipConfig)
  unfolding get_optional merge_addresses
  make_sip_config yaml_sip room_prefix (err e) = err e
  make_sip_config yaml_sip room_prefix (ok hooks) =
      let given : SipConfig = record {
        room_prefix = room_prefix;
        allowed_addresses = merge_addresses yaml_sip;
        hooks = hooks;
        hook_secret =
            get_optional readers (codes "SIP_HOOK_SECRET")
              (field (λ (s : SipYaml). s.hook_secret) yaml_sip);
        outbound_address =
            get_optional readers (codes "SIP_OUTBOUND_ADDRESS")
              (field (λ (s : SipYaml). s.outbound_address) yaml_sip);
        outbound_auth_username =
            get_optional readers (codes "SIP_OUTBOUND_AUTH_USERNAME")
              (field (λ (s : SipYaml). s.outbound_auth_username) yaml_sip);
        outbound_auth_password =
            get_optional readers (codes "SIP_OUTBOUND_AUTH_PASSWORD")
              (field (λ (s : SipYaml). s.outbound_auth_password) yaml_sip);
      } in
      ok (some (Checks.new readers.lower given))

  unfoldable pub merge_sip_config : Option SipYaml → Result (Option SipConfig)
  unfolding has_env_sip get_optional merge_hooks_of make_sip_config
  merge_sip_config yaml_sip =
      if not (is_some yaml_sip) && not has_env_sip
      then ok none
      else elim (get_optional readers (codes "SIP_ROOM_PREFIX")
          (field (λ (s : SipYaml). s.room_prefix) yaml_sip)) [
            | none ↦ err room_prefix_required
            | some room_prefix ↦ make_sip_config yaml_sip room_prefix (merge_hooks_of yaml_sip)
          ]
