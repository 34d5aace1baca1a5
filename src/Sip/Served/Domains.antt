-- ===== src/Sip/Served/Domains.antt =====
-- Which hook a domain gets (src/state/sip_hooks_state.rs).
use sayna.Prelude.{
  true, Option, none, some, List, [], ◌∷◌, is_some, or_option, refl, sym, ◌≡◌, ◌∙◌, inl, inr,
  Bool-cases, arith,
}
use sayna.Prelude.Text.{Text, text_eq, text_eq_iff, trim}
use sayna.Prelude.Dict.{lookup, insert, lookup-insert}
use sayna.Sip.{SipHookConfig, CachedSipHook, SipConfig}
use sayna.Sip.Hooks.{insert_config, insert_new, merge_hooks_with_secrets, values, CacheFile}
use sayna.Sip.Hooks.Merged.{last_config, first_cached, merge_hooks_with_secrets-lookup}
use sayna.Sip.Served.{
  eq_ignore_ascii_case, find_host, get_hook_for_domain, get_signing_secret, start_hooks, new,
  update_hooks,
}

abbrev Hooks : Type 0
Hooks = List (Text × SipHookConfig)

-- Each hook stands under its host, and no host twice.
abbrev IsKeyed : Hooks → Type 0
IsKeyed [] = Unit {0}
IsKeyed ((k, h) ∷ m) = (k ≡ h.host) × (lookup k m ≡ none) × IsKeyed m

insert-IsKeyed : (h : SipHookConfig) (m : Hooks) → IsKeyed m → IsKeyed (insert h.host h m)
unfolding insert lookup
insert-IsKeyed h [] i = (refl, refl, tt)
insert-IsKeyed h ((j, g) ∷ m) (k, fresh, i) = elim (Bool-cases (text_eq j h.host)) [
  | inl e ↦ rw (insert, e) (refl, rw (sym ((text_eq_iff j h.host).0 e)) fresh, i)
  | inr e ↦
      rw (insert, e)
        (
          k,
          ground (
            arith,
            lookup-insert h.host j h m,
            text_eq_iff j h.host,
            text_eq_iff h.host j,
            fresh,
            e,
          ),
          insert-IsKeyed h m i,
        )
]

find_host-lookup :
    (domain : Text) (m : Hooks) (h : SipHookConfig)
    → IsKeyed m
    → find_host domain (values m) ≡ some h
    → (lookup h.host m ≡ some h) × (eq_ignore_ascii_case h.host domain ≡ true)
unfolding find_host lookup
find_host-lookup domain [] h i e = absurd (ground arith)
find_host-lookup domain ((k, g) ∷ m) h (same, fresh, i) e =
    elim (Bool-cases (eq_ignore_ascii_case g.host domain)) [
      | inl y ↦
          let here : g ≡ h = ground (arith, e, y) in
          rw (sym here) (ground (arith, same, text_eq_iff k g.host), y)
      | inr n ↦
          let (there, eq) = find_host-lookup domain m h i (rw (find_host, n) at e) in
          (ground (arith, there, fresh, same, text_eq_iff k h.host), eq)
    ]

module _ (lower : Text → Text) where
  insert_config-IsKeyed :
      (hooks : List SipHookConfig) (m : Hooks) → IsKeyed m → IsKeyed (insert_config lower hooks m)
  unfolding insert_config
  insert_config-IsKeyed [] m i = i
  insert_config-IsKeyed (h ∷ hooks) m i =
      let entry : SipHookConfig = record h { host = lower (trim h.host) } in
      insert_config-IsKeyed hooks (insert entry.host entry m) (insert-IsKeyed entry m i)

  insert_new-IsKeyed :
      (hooks : List CachedSipHook) (m : Hooks) → IsKeyed m → IsKeyed (insert_new lower hooks m)
  unfolding insert_new
  insert_new-IsKeyed [] m i = i
  insert_new-IsKeyed (h ∷ hooks) m i =
      let k : Text = lower (trim h.host) in
      let entry : SipHookConfig = record {
        host = k;
        url = h.url;
        secret = none;
        auth_id = h.auth_id;
      } in
      elim (Bool-cases (is_some (lookup k m))) [
        | inl e ↦ rw (insert_new, e) (insert_new-IsKeyed hooks m i)
        | inr e ↦
            rw (insert_new, e)
              (insert_new-IsKeyed hooks (insert k entry m) (insert-IsKeyed entry m i))
      ]

  -- A hook that a domain gets from a new state has that domain as its host, up to the case of ASCII
  -- letters, and it is the last hook that the configuration has for that host or else the first
  -- cached one, which has no secret; it signs with its own secret, or else with the global one.
  pub served_hook :
      (config : SipConfig) (cache : Option CacheFile) (domain : Text) (h : SipHookConfig)
      → get_hook_for_domain (new lower config cache) domain ≡ some h
      → (eq_ignore_ascii_case h.host domain ≡ true)
        × (or_option
              (last_config lower h.host config.hooks)
              (first_cached lower h.host (start_hooks lower cache))
            ≡ some h)
        × (get_signing_secret (new lower config cache) h ≡ or_option h.secret config.hook_secret)
  unfolding get_hook_for_domain new get_signing_secret merge_hooks_with_secrets
  served_hook config cache domain h e =
      let cached : List CachedSipHook = start_hooks lower cache in
      let m : Hooks = insert_new lower cached (insert_config lower config.hooks []) in
      let keyed : IsKeyed m =
        insert_new-IsKeyed cached (insert_config lower config.hooks [])
          (insert_config-IsKeyed config.hooks [] tt) in
      let (there, same) = find_host-lookup domain m h keyed e in
      (same, sym (merge_hooks_with_secrets-lookup lower h.host config.hooks cached) ∙ there, refl)

  -- The state after an update of the cached hooks, with those of the configuration as they are, is
  -- the state that a new start makes of a cache that reads as the new ones.
  pub update_hooks-new :
      (config : SipConfig) (cached : List CachedSipHook) (cache cache' : Option CacheFile)
      → start_hooks lower cache' ≡ cached
      → (update_hooks lower cached config.hooks (new lower config cache)).1
        ≡ new lower config cache'
  unfolding update_hooks new
  update_hooks-new config cached cache cache' e = rw e refl
