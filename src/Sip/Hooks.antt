-- ===== src/Sip/Hooks.antt =====
-- The cached hooks and their merges (src/utils/sip_hooks.rs). `lower` is `str::to_lowercase`, whose
-- tables of characters are a parameter. A `HashMap` is an association list.
pub mod Stored
pub mod Merged
pub mod Updated
use sayna.Prelude.{
  Bool, true, false, not, Option, none, some, List, [], ◌∷◌, map, is_some, is_empty, if◌then◌else◌,
}
use sayna.Prelude.Text.{Text, text_eq, trim}
use sayna.Prelude.Dict.{lookup, insert}
use sayna.Sip.{SipHookConfig, CachedSipHook}

pub data SipHooksCacheError : Type 0 where
  json : SipHooksCacheError
  validation : Text → SipHooksCacheError

pub data Result (A : Type 0) : Type 0 where
  ok : A → Result A
  err : SipHooksCacheError → Result A

-- The cache file: missing, blank, text that is no list of hooks, or a list.
pub data CacheFile : Type 0 where
  missing blank garbage : CacheFile
  listed : List CachedSipHook → CacheFile

module _ (lower : Text → Text) where
  unfoldable pub new : Text → Text → Text → CachedSipHook
  new host url auth_id = record { host = lower (trim host); url = url; auth_id = trim auth_id }

  unfoldable pub normalize : CachedSipHook → CachedSipHook
  normalize h = record h { host = lower (trim h.host); auth_id = trim h.auth_id }

  -- The set of hosts seen so far is a list.
  unfoldable pub contains : Text → List Text → Bool
  contains k [] = false
  contains k (j ∷ seen) = if text_eq j k then true else contains k seen

  unfoldable pub check_hosts : List CachedSipHook → List Text → Result (Unit {0})
  unfolding contains
  check_hosts [] seen = ok tt
  check_hosts (h ∷ hooks) seen =
      let rest = check_hosts hooks (lower h.host ∷ seen) in
      if contains (lower h.host) seen then err (validation (lower h.host)) else rest

  unfoldable pub validate_no_duplicate_hosts : List CachedSipHook → Result (Unit {0})
  unfolding check_hosts
  validate_no_duplicate_hosts hooks = check_hosts hooks []

  -- With the file readable.
  unfoldable pub read_hooks_cache : CacheFile → Result (List CachedSipHook)
  unfolding normalize
  read_hooks_cache missing = ok []
  read_hooks_cache blank = ok []
  read_hooks_cache garbage = err json
  read_hooks_cache (listed hooks) = ok (map normalize hooks)

  -- With the file writable: what is returned, and the file after it.
  unfoldable pub write_hooks_cache : List CachedSipHook → CacheFile → Result (Unit {0}) × CacheFile
  unfolding new validate_no_duplicate_hosts
  write_hooks_cache hooks file =
      let normalized = map (λ h. new h.host h.url h.auth_id) hooks in
      elim (validate_no_duplicate_hosts normalized) [
        | err e ↦ (err e, file)
        | ok u ↦ (ok tt, listed normalized)
      ]

  unfoldable pub insert_existing :
      List CachedSipHook → List (Text × CachedSipHook) → List (Text × CachedSipHook)
  insert_existing [] m = m
  insert_existing (h ∷ hooks) m =
      let hook : CachedSipHook = record { host = lower h.host; url = h.url; auth_id = h.auth_id } in
      insert_existing hooks (insert (lower h.host) hook m)

  unfoldable pub insert_cached :
      List CachedSipHook → List (Text × CachedSipHook) → List (Text × CachedSipHook)
  insert_cached [] m = m
  insert_cached (h ∷ hooks) m = insert_cached hooks (insert (lower h.host) h m)

  unfoldable pub insert_missing :
      List (Text × CachedSipHook)
      → List (Text × CachedSipHook)
      → List (Text × CachedSipHook)
      → List (Text × CachedSipHook)
  insert_missing existing [] m = m
  insert_missing existing ((host, hook) ∷ cached) m =
      insert_missing existing cached
        (if is_some (lookup host existing) then m else insert host hook m)

  -- The map whose values `merge_hooks` returns.
  unfoldable pub merge_hooks : List CachedSipHook → List CachedSipHook → List (Text × CachedSipHook)
  unfolding insert_existing insert_cached insert_missing
  merge_hooks existing_hooks cached_hooks =
      let existing_map = insert_existing existing_hooks [] in
      let cached_map = insert_cached cached_hooks [] in
      insert_missing existing_map cached_map (insert_cached cached_hooks existing_map)

  unfoldable pub insert_config :
      List SipHookConfig → List (Text × SipHookConfig) → List (Text × SipHookConfig)
  insert_config [] m = m
  insert_config (h ∷ hooks) m =
      let host = lower (trim h.host) in
      insert_config hooks (insert host (record h { host = host }) m)

  unfoldable pub insert_new :
      List CachedSipHook → List (Text × SipHookConfig) → List (Text × SipHookConfig)
  insert_new [] m = m
  insert_new (h ∷ hooks) m =
      let host = lower (trim h.host) in
      let hook : SipHookConfig = record {
        host = host;
        url = h.url;
        secret = none;
        auth_id = h.auth_id;
      } in
      insert_new hooks (if is_some (lookup host m) then m else insert host hook m)

  -- The map whose values `merge_hooks_with_secrets` returns.
  unfoldable pub merge_hooks_with_secrets :
      List SipHookConfig → List CachedSipHook → List (Text × SipHookConfig)
  unfolding insert_config insert_new
  merge_hooks_with_secrets config_hooks cached_hooks =
      insert_new cached_hooks (insert_config config_hooks [])

  unfoldable pub keep : List Text → List CachedSipHook → List CachedSipHook
  unfolding contains
  keep hosts [] = []
  keep hosts (h ∷ hooks) =
      let rest = keep hosts hooks in if contains (lower h.host) hosts then rest else h ∷ rest

  unfoldable pub remove_hooks_by_hosts : List CachedSipHook → List Text → List CachedSipHook
  unfolding keep
  remove_hooks_by_hosts hooks hosts_to_remove =
      keep (map (λ h. lower (trim h)) hosts_to_remove) hooks

abbrev pub values {ℓ} : {A : Type ℓ} → List (Text × A) → List A
values [] = []
values ((k, a) ∷ m) = a ∷ values m
