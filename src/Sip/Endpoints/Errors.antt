-- ===== src/Sip/Endpoints/Errors.antt =====
-- A refused request changes nothing (src/handlers/sip/hooks.rs).
use sayna.Prelude.{List, [], ◌∷◌, refl, ◌≡◌, arith}
use sayna.Prelude.Text.{Text}
use sayna.Sip.{CachedSipHook}
use sayna.Sip.Hooks.{CacheFile}
use sayna.Sip.Endpoints.{
  AppState, Refusal, SipHookEntry, refused, store_hooks, update_sip_hooks, delete_sip_hooks,
}

module _ (lower : Text → Text) where
  store_hooks-refused :
      (new_cached : List CachedSipHook) (file : CacheFile) (s : AppState) (r : Refusal)
      → (store_hooks lower new_cached file s).0 ≡ refused r
      → (store_hooks lower new_cached file s).1 ≡ s
  unfolding store_hooks
  store_hooks-refused new_cached file s r e = ground (arith, e)

  -- An update or a deletion that is refused, for whatever reason, leaves the file and the state.
  pub refused_unchanged :
      (request : List SipHookEntry) (hosts : List Text) (s : AppState) (r : Refusal)
      → ((update_sip_hooks lower request s).0 ≡ refused r
          → (update_sip_hooks lower request s).1 ≡ s)
        × ((delete_sip_hooks lower hosts s).0 ≡ refused r → (delete_sip_hooks lower hosts s).1 ≡ s)
  unfolding update_sip_hooks delete_sip_hooks
  refused_unchanged request [] s r = (ground arith, λ e. refl)
  refused_unchanged request (host ∷ hosts) s r = (ground arith, ground arith)
