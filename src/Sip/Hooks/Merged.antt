-- ===== src/Sip/Hooks/Merged.antt =====
-- Which hook serves a host after a merge (src/utils/sip_hooks.rs).
use sayna.Prelude.{
  Option, none, some, List, [], ◌∷◌, is_some, if◌then◌else◌, or_option, refl, ap, ◌≡◌, ◌∙◌, inl,
  inr, Bool-cases, arith,
}
use sayna.Prelude.Text.{Text, text_eq, text_eq_iff, trim}
use sayna.Prelude.Dict.{lookup, insert, lookup-insert}
use sayna.Sip.{SipHookConfig, CachedSipHook}
use sayna.Sip.Hooks.{insert_config, insert_new, merge_hooks_with_secrets}

added :
    (h : CachedSipHook) (host k : Text) (entry : SipHookConfig) (m : List (Text × SipHookConfig))
    (rest : Option SipHookConfig)
    → entry ≡ record { host = k; url = h.url; secret = none; auth_id = h.auth_id }
    → or_option (lookup host (if is_some (lookup k m) then m else insert k entry m)) rest
      ≡ or_option (lookup host m) (
          if text_eq k host
          then some (record { host = host; url = h.url; secret = none; auth_id = h.auth_id })
          else rest)
added h host k entry m rest e = elim (Bool-cases (text_eq k host)) [
  | inl t ↦
      let same : k ≡ host = (text_eq_iff k host).0 t in
      rw same (ground (arith, lookup-insert host host entry m, text_eq_iff host host, e, same))
  | inr f ↦ ground (arith, lookup-insert k host entry m)
]

module _ (lower : Text → Text) where
  -- The last configured hook of a host, under its normalised host.
  abbrev pub last_config : Text → List SipHookConfig → Option SipHookConfig
  last_config host [] = none
  last_config host (h ∷ hooks) =
      or_option (last_config host hooks)
        (if text_eq (lower (trim h.host)) host then some (record h { host = host }) else none)

  -- The first cached hook of a host, which has no secret.
  abbrev pub first_cached : Text → List CachedSipHook → Option SipHookConfig
  first_cached host [] = none
  first_cached host (h ∷ hooks) =
      if text_eq (lower (trim h.host)) host
      then some (record { host = host; url = h.url; secret = none; auth_id = h.auth_id })
      else first_cached host hooks

  lookup-insert_config :
      (host : Text) (hooks : List SipHookConfig) (m : List (Text × SipHookConfig))
      → lookup host (insert_config lower hooks m)
        ≡ or_option (last_config host hooks) (lookup host m)
  unfolding insert_config
  lookup-insert_config host [] m = refl
  lookup-insert_config host (h ∷ hooks) m =
      let k : Text = lower (trim h.host) in
      let entry : SipHookConfig = record h { host = k } in
      lookup-insert_config host hooks (insert k entry m)
      ∙ ground (arith, lookup-insert k host entry m, text_eq_iff k host)

  lookup-insert_new :
      (host : Text) (hooks : List CachedSipHook) (m : List (Text × SipHookConfig))
      → lookup host (insert_new lower hooks m) ≡ or_option (lookup host m) (first_cached host hooks)
  unfolding insert_new
  lookup-insert_new host [] m = ground arith
  lookup-insert_new host (h ∷ hooks) m =
      let k : Text = lower (trim h.host) in
      let entry : SipHookConfig = record {
        host = k;
        url = h.url;
        secret = none;
        auth_id = h.auth_id;
      } in
      lookup-insert_new host hooks (if is_some (lookup k m) then m else insert k entry m)
      ∙ added h host k entry m (first_cached host hooks) refl

  -- After the merge that keeps secrets, a host is served by the last hook that the configuration has
  -- for it, with its secret, or else by the first cached one, which has none, or by nothing.
  pub merge_hooks_with_secrets-lookup :
      (host : Text) (config_hooks : List SipHookConfig) (cached_hooks : List CachedSipHook)
      → lookup host (merge_hooks_with_secrets lower config_hooks cached_hooks)
        ≡ or_option (last_config host config_hooks) (first_cached host cached_hooks)
  unfolding merge_hooks_with_secrets lookup
  merge_hooks_with_secrets-lookup host config_hooks cached_hooks =
      lookup-insert_new host cached_hooks (insert_config lower config_hooks [])
      ∙ ap (λ (o : Option SipHookConfig). or_option o (first_cached host cached_hooks))
          (lookup-insert_config host config_hooks [])
      ∙ ground arith
