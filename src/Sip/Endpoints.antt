-- ===== src/Sip/Endpoints.antt =====
-- The endpoints that list, change and delete hooks (src/handlers/sip/hooks.rs). A request reads and
-- writes the file under no lock, and then updates the state under one; `update_sip_hooks` and
-- `delete_sip_hooks` are a request with no other between these.
pub mod Errors
pub mod Normal
pub mod Restart
mod Tests
use sayna.Prelude.{
  ℕ, Bool, true, false, ◌&&◌, Option, none, some, List, [], ◌∷◌, map, is_empty, if◌then◌else◌,
}
use sayna.Prelude.Text.{Text, trim}
use sayna.Sip.{SipHookConfig, CachedSipHook, SipConfig}
use sayna.Sip.Hooks
use sayna.Sip.Hooks.{
  SipHooksCacheError, CacheFile, contains, validate_no_duplicate_hosts, read_hooks_cache,
  write_hooks_cache, merge_hooks, remove_hooks_by_hosts, values,
}
use sayna.Sip.Served.{SipHooksState, update_hooks}

pub record SipHookEntry : Type 0 where
  pub host : Text
  pub url : Text
  pub auth_id : Text

-- What the endpoints read and change: the configuration, the file of the cache, where a cache path is
-- configured, and the state of the hooks, where there is one.
pub record AppState : Type 0 where
  pub sip : Option SipConfig
  pub auth_required : Bool
  pub cache : Option CacheFile
  pub hooks_state : Option SipHooksState

-- The refusals, by status: 400, 405 and 500. A protected host is named.
pub data Refusal : Type 0 where
  no_hosts : Refusal
  empty_auth_id : Text → Refusal
  duplicate : SipHooksCacheError → Refusal
  protected : List Text → Refusal
  no_cache_path : Refusal
  not_written : SipHooksCacheError → Refusal

pub data Response : Type 0 where
  hooks : List SipHookEntry → Response
  refused : Refusal → Response

abbrev pub config_entries : List SipHookConfig → List SipHookEntry
config_entries [] = []
config_entries (h ∷ hs) =
    record { host = h.host; url = h.url; auth_id = h.auth_id } ∷ config_entries hs

abbrev pub cached_entries : List CachedSipHook → List SipHookEntry
cached_entries [] = []
cached_entries (h ∷ hs) =
    record { host = h.host; url = h.url; auth_id = h.auth_id } ∷ cached_entries hs

unfoldable pub list_sip_hooks : AppState → Response
list_sip_hooks s = elim s.hooks_state [
  | none ↦ hooks []
  | some st ↦ hooks (config_entries st.hooks)
]

unfoldable pub validate_hooks_auth_id : List SipHookEntry → Option Refusal
validate_hooks_auth_id [] = none
validate_hooks_auth_id (h ∷ hs) =
    let rest = validate_hooks_auth_id hs in
    if is_empty (trim h.auth_id) then some (empty_auth_id h.host) else rest

abbrev pub config_hooks : Option SipConfig → List SipHookConfig
config_hooks none = []
config_hooks (some config) = config.hooks

module _ (lower : Text → Text) where
  unfoldable pub configured_sip_hosts : AppState → List Text
  configured_sip_hosts s = map (λ (h : SipHookConfig). lower (trim h.host)) (config_hooks s.sip)

  -- The hosts of a request that are protected; the source also drops repeats and sorts them.
  unfoldable pub blocked : List Text → List Text → List Text
  unfolding contains
  blocked protected_hosts [] = []
  blocked protected_hosts (host ∷ hosts) =
      let rest = blocked protected_hosts hosts in
      if contains lower (lower (trim host)) protected_hosts then lower (trim host) ∷ rest else rest

  unfoldable pub reject_protected_hosts : List Text → List Text → Option Refusal
  unfolding blocked
  reject_protected_hosts protected_hosts hosts = elim (blocked protected_hosts hosts) [
    | [] ↦ none
    | b ∷ bs ↦ some (protected (b ∷ bs))
  ]

  -- The cached hooks of hosts that the configuration does not have; none if the file is unreadable.
  unfoldable pub drop_protected : List Text → List CachedSipHook → List CachedSipHook
  unfolding contains
  drop_protected protected_hosts [] = []
  drop_protected protected_hosts (h ∷ hs) =
      let rest = drop_protected protected_hosts hs in
      if contains lower h.host protected_hosts then rest else h ∷ rest

  unfoldable pub existing_hooks : List Text → CacheFile → List CachedSipHook
  unfolding drop_protected
  existing_hooks protected_hosts file = elim (read_hooks_cache lower file) [
    | Hooks.err e ↦ []
    | Hooks.ok hs ↦ drop_protected protected_hosts hs
  ]

  -- The file is read, written and renamed under no lock.
  unfoldable pub persist_hooks :
      List CachedSipHook → CacheFile → AppState → Option Refusal × AppState
  unfolding write_hooks_cache
  persist_hooks new_cached file s =
      let (written, file') = write_hooks_cache lower new_cached file in
      elim written [
        | Hooks.err e ↦ (some (not_written e), s)
        | Hooks.ok u ↦ (none, record s { cache = some file' })
      ]

  -- The state is updated under its lock, which is taken only then.
  unfoldable pub publish_hooks : List CachedSipHook → AppState → Response × AppState
  publish_hooks new_cached s = elim s.hooks_state [
    | none ↦ (hooks (cached_entries new_cached), s)
    | some st ↦
        let (full, st') = update_hooks lower new_cached (config_hooks s.sip) st in
        (hooks (config_entries full), record s { hooks_state = some st' })
  ]

  -- The end of both endpoints, with no other request between its two sections.
  unfoldable pub store_hooks : List CachedSipHook → CacheFile → AppState → Response × AppState
  unfolding persist_hooks publish_hooks
  store_hooks new_cached file s =
      let (error, s') = persist_hooks new_cached file s in
      elim error [ some r ↦ (refused r, s') | none ↦ publish_hooks new_cached s' ]

  abbrev pub new_hooks : List SipHookEntry → List CachedSipHook
  new_hooks [] = []
  new_hooks (h ∷ hs) = Hooks.new lower h.host h.url h.auth_id ∷ new_hooks hs

  abbrev pub hosts_of : List CachedSipHook → List Text
  hosts_of [] = []
  hosts_of (h ∷ hs) = h.host ∷ hosts_of hs

  unfoldable pub update_sip_hooks : List SipHookEntry → AppState → Response × AppState
  unfolding validate_hooks_auth_id configured_sip_hosts reject_protected_hosts existing_hooks
      store_hooks
  update_sip_hooks request s = elim s.cache [
    | none ↦ (refused no_cache_path, s)
    | some file ↦ elim (if s.auth_required then validate_hooks_auth_id request else none) [
      | some r ↦ (refused r, s)
      | none ↦
          elim (reject_protected_hosts (configured_sip_hosts s) (hosts_of (new_hooks request))) [
            | some r ↦ (refused r, s)
            | none ↦ elim (validate_no_duplicate_hosts lower (new_hooks request)) [
              | Hooks.err e ↦ (refused (duplicate e), s)
              | Hooks.ok u ↦
                  let kept = existing_hooks (configured_sip_hosts s) file in
                  store_hooks (values (merge_hooks lower kept (new_hooks request))) file s
            ]
          ]
    ]
  ]

  unfoldable pub delete_sip_hooks : List Text → AppState → Response × AppState
  unfolding configured_sip_hosts reject_protected_hosts existing_hooks store_hooks
  delete_sip_hooks [] s = (refused no_hosts, s)
  delete_sip_hooks (host ∷ hosts) s = elim s.cache [
    | none ↦ (refused no_cache_path, s)
    | some file ↦ elim (reject_protected_hosts (configured_sip_hosts s) (host ∷ hosts)) [
      | some r ↦ (refused r, s)
      | none ↦
          let kept = existing_hooks (configured_sip_hosts s) file in
          store_hooks (remove_hooks_by_hosts lower kept (host ∷ hosts)) file s
    ]
  ]
