-- ===== src/Sip/Endpoints/Tests.antt =====
-- Runs of the endpoints of hooks (src/handlers/sip/hooks.rs).
use sayna.Prelude.{true, none, some, List, map, [], ◌∷◌, refl, ◌≡◌, ◌⊎◌}
use sayna.Prelude.Text.{Text, codes, trim, trim_start, is_whitespace}
use sayna.Prelude.Trim.{trim-trim}
use sayna.Sip.{SipConfig, SipHookConfig, CachedSipHook}
use sayna.Sip.Hooks
use sayna.Sip.Hooks.{CacheFile, missing, listed}
use sayna.Sip.Served
use sayna.Sip.Served.{SipHooksState, start_hooks}
use sayna.Sip.Endpoints.{
  AppState, empty_auth_id, SipHookEntry, refused, update_sip_hooks, validate_hooks_auth_id,
  persist_hooks, publish_hooks, store_hooks,
}
use sayna.Sip.Endpoints.Restart.{
  update, delete, run, IsAsStarted, Stays, Overlap, none_yet, wrote, published, handle,
  requests-IsAsStarted,
}

abbrev lower : Text → Text
lower t = t

abbrev config : SipConfig
config = record {
  room_prefix = codes "sip-";
  allowed_addresses = [];
  hooks = [];
  hook_secret = none;
  outbound_address = none;
  outbound_auth_username = none;
  outbound_auth_password = none;
}

abbrev started : AppState
started = record {
  sip = some config;
  auth_required = true;
  cache = some missing;
  hooks_state = some (Served.new lower config (some missing));
}

abbrev entry : SipHookEntry
entry = record { host = codes "A.io"; url = codes "u"; auth_id = codes "t" }

abbrev unnamed : SipHookEntry
unnamed = record entry { auth_id = codes " " }

no_tenant :
    (update_sip_hooks lower (unnamed ∷ []) started).0 ≡ refused (empty_auth_id (codes "A.io"))
unfolding update_sip_hooks validate_hooks_auth_id trim trim_start is_whitespace
no_tenant = refl

-- The write of one request, all of another, and then the update of the state by the first: the file
-- has the hook of the second, and the state that of the first.
abbrev cached_of : Text → List CachedSipHook
cached_of host = Hooks.new lower host (codes "u") (codes "t") ∷ []

abbrev written : Text → CacheFile
written host = listed (cached_of host)

abbrev overlapped : AppState
overlapped =
    let first = (persist_hooks lower (cached_of (codes "a")) missing started).1 in
    let second = (store_hooks lower (cached_of (codes "b")) missing first).1 in
    (publish_hooks lower (cached_of (codes "a")) second).1

overlapped_lem :
    ((o : SipHooksState) × (overlapped.hooks_state ≡ some o)
      × (map (λ (h : SipHookConfig). h.host) o.hooks ≡ codes "a" ∷ []))
    × (map (λ (h : SipHookConfig). h.host) (Served.new lower config overlapped.cache).hooks
        ≡ codes "b" ∷ [])
unfolding persist_hooks publish_hooks store_hooks Served.new trim trim_start is_whitespace
    Served.update_hooks Hooks.merge_hooks_with_secrets sayna.Prelude.Dict.lookup
    sayna.Prelude.Dict.insert Hooks.read_hooks_cache
overlapped_lem = ((_, refl, refl), refl)

a_of_file : start_hooks lower (some (written (codes "a"))) ≡ cached_of (codes "a")
unfolding start_hooks trim trim_start is_whitespace Hooks.read_hooks_cache Hooks.new
a_of_file = refl

b_of_file : start_hooks lower (some (written (codes "b"))) ≡ cached_of (codes "b")
unfolding start_hooks trim trim_start is_whitespace Hooks.read_hooks_cache Hooks.new
b_of_file = refl

overlapped-Overlap : Overlap lower (λ t. refl) trim-trim started overlapped
unfolding store_hooks
overlapped-Overlap = published (cached_of (codes "a")) (written (codes "a")) a_of_file (
    published (cached_of (codes "b")) (written (codes "b")) b_of_file
      (wrote (cached_of (codes "b")) missing (wrote (cached_of (codes "a")) missing none_yet)))

requests-IsAsStarted_example :
    IsAsStarted lower
      (λ t. refl)
      trim-trim
      config
      (run lower (update (entry ∷ []) ∷ delete (codes "A.io" ∷ []) ∷ []) started)
    × (Stays (handle lower (λ t. refl) trim-trim (update (entry ∷ [])) overlapped) overlapped
        ⊎ IsAsStarted lower
            (λ t. refl)
            trim-trim
            config
            (handle lower (λ t. refl) trim-trim (update (entry ∷ [])) overlapped).1)
requests-IsAsStarted_example =
    requests-IsAsStarted lower (λ t. refl) trim-trim config
      (update (entry ∷ []) ∷ delete (codes "A.io" ∷ []) ∷ []) started overlapped
      (update (entry ∷ [])) (refl, refl) overlapped-Overlap
