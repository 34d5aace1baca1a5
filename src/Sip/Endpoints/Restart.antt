-- ===== src/Sip/Endpoints/Restart.antt =====
-- Changes of the hooks survive a restart (src/handlers/sip/hooks.rs, src/state/sip_hooks_state.rs).
use sayna.Prelude.{
  Bool, true, false, Option, none, some, List, [], ◌∷◌, refl, ap, sym, subst, ◌⊎◌, ◌∙◌, ◌≡◌, inl,
  inr, Option-cases, arith,
}
use sayna.Prelude.Text.{Text, trim}
use sayna.Sip.{CachedSipHook, SipConfig}
use sayna.Sip.Hooks.{CacheFile, write_hooks_cache, values, merge_hooks, remove_hooks_by_hosts}
use sayna.Sip.Hooks.Stored.{write_hooks_cache-read_hooks_cache}
use sayna.Sip.Served.{start_hooks, new}
use sayna.Sip.Served.Domains.{update_hooks-new}
use sayna.Sip.Endpoints.{
  AppState, SipHookEntry, Response, refused, hooks, store_hooks, persist_hooks, publish_hooks,
  update_sip_hooks, delete_sip_hooks, existing_hooks, configured_sip_hosts, new_hooks,
}
use sayna.Sip.Endpoints.Normal.{
  AllNormal, renewed-AllNormal, existing_hooks-AllNormal, remove_hooks_by_hosts-AllNormal,
  merge_hooks-AllNormal,
}

abbrev is_refused : Response → Bool
is_refused (hooks entries) = false
is_refused (refused r) = true

-- A refusal, which changes nothing.
abbrev pub Stays : Response × AppState → AppState → Type 0
Stays r s = (is_refused r.0 ≡ true) × (r.1 ≡ s)

-- A request that changes hooks.
pub data Request : Type 0 where
  update : List SipHookEntry → Request
  delete : List Text → Request

-- The state after requests, each of which starts when the one before has ended.
abbrev pub run : (Text → Text) → List Request → AppState → AppState
run lower [] s = s
run lower (update request ∷ rest) s = run lower rest (update_sip_hooks lower request s).1
run lower (delete hosts ∷ rest) s = run lower rest (delete_sip_hooks lower hosts s).1

module _ (lower : Text → Text) (lower_lower : (t : Text) → lower (lower t) ≡ lower t)
    (trim_lower : (t : Text) → trim (lower (trim t)) ≡ lower (trim t)) where
  -- The configuration is this one, and the state is what a start makes of it and the file.
  abbrev pub IsAsStarted : SipConfig → AppState → Type 0
  IsAsStarted config s = (s.sip ≡ some config) × (s.hooks_state ≡ some (new lower config s.cache))

  -- The configuration is this one, and the state is what a start makes of it and some file.
  abbrev IsMade : SipConfig → AppState → Type 0
  IsMade config s =
      (s.sip ≡ some config)
      × ((before : Option CacheFile) × (s.hooks_state ≡ some (new lower config before)))

  -- Publishing what a file gives makes the state that a start with the file makes, whatever it was.
  publish_hooks-new :
      (config : SipConfig) (cached : List CachedSipHook) (file : CacheFile) (s : AppState)
      → start_hooks lower (some file) ≡ cached
      → IsMade config s
      → let s' = (publish_hooks lower cached s).1 in
        (s'.sip ≡ some config)
        × (s'.hooks_state ≡ some (new lower config (some file)))
        × (s'.cache ≡ s.cache)
  unfolding publish_hooks
  publish_hooks-new config cached file s starts (sip, (before, made)) =
      rw (publish_hooks, made, sip)
        (refl, ap some (update_hooks-new lower config cached before (some file) starts), refl)

  store_hooks-IsAsStarted :
      (config : SipConfig) (cached : List CachedSipHook) (file : CacheFile) (s : AppState)
      → AllNormal lower lower_lower trim_lower cached
      → IsMade config s
      → Stays (store_hooks lower cached file s) s
        ⊎ IsAsStarted config (store_hooks lower cached file s).1
  unfolding store_hooks persist_hooks start_hooks
  store_hooks-IsAsStarted config cached file s n made =
      elim (write_hooks_cache-read_hooks_cache lower lower_lower trim_lower cached file) [
        | inr (host, bad, same) ↦ inl (ground (arith, bad))
        | inl (fine, distinct, read) ↦
            let file' : CacheFile = (write_hooks_cache lower cached file).1 in
            let starts : start_hooks lower (some file') ≡ cached =
              rw (start_hooks, read) (renewed-AllNormal lower lower_lower trim_lower cached n) in
            let s' : AppState = record s { cache = some file' } in
            let saved : persist_hooks lower cached file s ≡ (none, s') =
              rw (persist_hooks, fine) refl in
            let stored : store_hooks lower cached file s ≡ publish_hooks lower cached s' =
              rw (store_hooks, saved) (ap (λ r. publish_hooks lower cached r.1) saved) in
            let (sip, state, cache) = publish_hooks-new config cached file' s' starts made in
            inr (
              subst (IsAsStarted config) (sym (ap (λ r. r.1) stored))
                (sip, state ∙ ap (λ c. some (new lower config c)) (sym cache)))
      ]

  -- A request is refused and changes nothing, or it stores normal hooks.
  abbrev Stores : Response × AppState → AppState → Type 0
  Stores r s =
      Stays r s
      ⊎ ((cached : List CachedSipHook) × (file : CacheFile) × AllNormal lower lower_lower trim_lower
            cached
          × (r ≡ store_hooks lower cached file s))

  stored :
      (r : Response × AppState) (s : AppState) (cached : List CachedSipHook) (file : CacheFile)
      → AllNormal lower lower_lower trim_lower cached
      → Stays r s ⊎ (r ≡ store_hooks lower cached file s)
      → Stores r s
  stored r s cached file n (inl stays) = inl stays
  stored r s cached file n (inr same) = inr (cached, file, n, same)

  update_sip_hooks-Stores :
      (request : List SipHookEntry) (s : AppState) → Stores (update_sip_hooks lower request s) s
  unfolding update_sip_hooks
  update_sip_hooks-Stores request s = elim (Option-cases s.cache) [
    | inl e ↦ inl (ground (arith, e))
    | inr (file, e) ↦
        let kept : List CachedSipHook = existing_hooks lower (configured_sip_hosts lower s) file in
        let n = merge_hooks-AllNormal lower lower_lower trim_lower kept request (
          existing_hooks-AllNormal lower lower_lower trim_lower (configured_sip_hosts lower s)
            file) in
        stored (update_sip_hooks lower request s) s
          (values (merge_hooks lower kept (new_hooks lower request))) file n (ground (arith, e))
  ]

  delete_sip_hooks-Stores :
      (hosts : List Text) (s : AppState) → Stores (delete_sip_hooks lower hosts s) s
  unfolding delete_sip_hooks
  delete_sip_hooks-Stores [] s = inl (refl, refl)
  delete_sip_hooks-Stores (host ∷ hosts) s = elim (Option-cases s.cache) [
    | inl e ↦ inl (ground (arith, e))
    | inr (file, e) ↦
        let kept : List CachedSipHook = existing_hooks lower (configured_sip_hosts lower s) file in
        let n = remove_hooks_by_hosts-AllNormal lower lower_lower trim_lower kept (host ∷ hosts) (
          existing_hooks-AllNormal lower lower_lower trim_lower (configured_sip_hosts lower s)
            file) in
        stored (delete_sip_hooks lower (host ∷ hosts) s) s
          (remove_hooks_by_hosts lower kept (host ∷ hosts)) file n (ground (arith, e))
  ]

  Stores-IsAsStarted :
      (config : SipConfig) (r : Response × AppState) (s : AppState)
      → Stores r s
      → IsMade config s
      → Stays r s ⊎ IsAsStarted config r.1
  Stores-IsAsStarted config r s (inl stays) m = inl stays
  Stores-IsAsStarted config r s (inr (cached, file, n, same)) m =
      subst (λ x. Stays x s ⊎ IsAsStarted config x.1) (sym same)
        (store_hooks-IsAsStarted config cached file s n m)

  -- One request, with no other between its sections.
  abbrev pub handle : Request → AppState → Response × AppState
  handle (update request) s = update_sip_hooks lower request s
  handle (delete hosts) s = delete_sip_hooks lower hosts s

  handle-IsAsStarted :
      (config : SipConfig) (request : Request) (s : AppState)
      → IsMade config s
      → Stays (handle request s) s ⊎ IsAsStarted config (handle request s).1
  handle-IsAsStarted config (update request) s m =
      Stores-IsAsStarted config _ s (update_sip_hooks-Stores request s) m
  handle-IsAsStarted config (delete hosts) s m =
      Stores-IsAsStarted config _ s (delete_sip_hooks-Stores hosts s) m

  IsAsStarted-kept :
      (config : SipConfig) (r : Response × AppState) (s : AppState)
      → Stays r s ⊎ IsAsStarted config r.1
      → IsAsStarted config s
      → IsAsStarted config r.1
  IsAsStarted-kept config r s (inl (_, same)) i = subst (IsAsStarted config) (sym same) i
  IsAsStarted-kept config r s (inr i) _ = i

  run-IsAsStarted :
      (config : SipConfig) (requests : List Request) (s : AppState)
      → IsAsStarted config s
      → IsAsStarted config (run lower requests s)
  run-IsAsStarted config [] s i = i
  run-IsAsStarted config (update request ∷ rest) s i =
      run-IsAsStarted config rest (update_sip_hooks lower request s).1 (
        IsAsStarted-kept config _ s
          (handle-IsAsStarted config (update request) s (i.0, (s.cache, i.1))) i)
  run-IsAsStarted config (delete hosts ∷ rest) s i =
      run-IsAsStarted config rest (delete_sip_hooks lower hosts s).1 (
        IsAsStarted-kept config _ s
          (handle-IsAsStarted config (delete hosts) s (i.0, (s.cache, i.1))) i)

  -- Requests that overlap: writes of any hooks, and updates of the state by the hooks of any file, in
  -- any order.
  pub data Overlap (s : AppState) : AppState → Type 0 where
    none_yet : Overlap s s
    wrote :
        {u : AppState} (cached : List CachedSipHook) (file : CacheFile)
        → Overlap s u
        → Overlap s (persist_hooks lower cached file u).1
    published :
        {u : AppState} (cached : List CachedSipHook) (file : CacheFile)
        → start_hooks lower (some file) ≡ cached
        → Overlap s u
        → Overlap s (publish_hooks lower cached u).1

  persist_hooks-IsMade :
      (config : SipConfig) (cached : List CachedSipHook) (file : CacheFile) (s : AppState)
      → IsMade config s
      → IsMade config (persist_hooks lower cached file s).1
  unfolding persist_hooks
  persist_hooks-IsMade config cached file s (sip, (before, made)) =
      (ground (arith, sip), (before, ground (arith, made)))

  Overlap-IsMade :
      (config : SipConfig) {s u : AppState} → Overlap s u → IsMade config s → IsMade config u
  Overlap-IsMade config none_yet m = m
  Overlap-IsMade config (wrote {u} cached file o) m =
      persist_hooks-IsMade config cached file u (Overlap-IsMade config o m)
  Overlap-IsMade config (published {u} cached file starts o) m =
      let (sip, state, cache) =
        publish_hooks-new config cached file u starts (Overlap-IsMade config o m) in
      (sip, (some file, state))

  -- The state of the running server is the one that a restart would make of the configuration and the
  -- file. Then it stays so when updates and deletions of hooks come in any order, refused ones
  -- included, each after the one before has ended. And after requests that overlap in any way, which
  -- may leave state and file apart, the next request that none overlaps is refused and changes
  -- nothing, or brings both together again.
  pub requests-IsAsStarted :
      (config : SipConfig) (requests : List Request) (s u : AppState) (request : Request)
      → IsAsStarted config s
      → Overlap s u
      → IsAsStarted config (run lower requests s)
        × (Stays (handle request u) u ⊎ IsAsStarted config (handle request u).1)
  requests-IsAsStarted config requests s u request i o = (
    run-IsAsStarted config requests s i,
    handle-IsAsStarted config request u (Overlap-IsMade config o (i.0, (s.cache, i.1))),
  )
