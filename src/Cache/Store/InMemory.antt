-- ===== src/Cache/Store/InMemory.antt =====
-- The store over the memory backend, as `from_config` builds it by default (src/core/cache/store.rs).
use sayna.Prelude.{ℕ, ◌*◌, Option, none, List, [], ◌∷◌, refl, ◌≡◌, ◌∙◌}
use sayna.Prelude.Text.{Text}
use sayna.Cache.{ok}
use sayna.Cache.Spec.{Call, InOrder, renamed, replay}
use sayna.Cache.Memory
use sayna.Cache.Memory.{MemoryCacheBackend}
use sayna.Cache.Memory.Refines.{run, run-replay, perform}
use sayna.Cache.Store.{CacheBackend, CacheStore, from_backend, get_cache_key}
use sayna.Cache.Store.Counts.{direct, direct_run, serve_run, store-backend}

-- No operation of the memory backend fails.
abbrev pub memory_backend : CacheBackend MemoryCacheBackend
memory_backend = record {
  set = λ now key value ttl m. (ok tt, Memory.set now key value ttl m);
  get = λ now key m. let (o, m') = Memory.get now key m in (ok o, m');
  exists = λ now key m. let (b, m') = Memory.exists now key m in (ok b, m');
  delete = λ key m. (ok tt, Memory.delete key m);
  clear = λ m. (ok tt, Memory.clear m);
}

-- `CacheConfig::default().ttl_seconds`.
abbrev pub default_ttl_seconds : ℕ
default_ttl_seconds = 30 * 24 * 60 * 60

direct-perform :
    (now : ℕ) (c : Call) (m : MemoryCacheBackend) → direct memory_backend now c m ≡ perform now c m
direct-perform now (Call.set key value ttl) m = refl
direct-perform now (Call.get key) m = refl
direct-perform now (Call.exists key) m = refl
direct-perform now (Call.delete key) m = refl
direct-perform now Call.clear m = refl

direct_run-run :
    (cs : List (ℕ × Call)) (m : MemoryCacheBackend) → direct_run memory_backend cs m ≡ run cs m
direct_run-run [] m = refl
direct_run-run ((now, c) ∷ cs) m =
    rw (direct-perform now c m, direct_run-run cs (perform now c m).1) refl

renamed-InOrder :
    (h : Text → Text) (start : ℕ) (cs : List (ℕ × Call))
    → InOrder start cs
    → InOrder start (renamed h cs)
renamed-InOrder h start [] o = tt
renamed-InOrder h start ((now, c) ∷ cs) (le, o) = (le, renamed-InOrder h now cs o)

-- With no entry evicted, and no time before the one before it, a new store over the memory backend
-- answers every sequence of `put`, `put_with_ttl`, `get`, `exists`, `delete` and `clear` as the
-- promise of a backend answers the same calls on hashed keys: a `get` gives the bytes last put under a
-- key of that hash and not deleted or cleared since, until their deadline, and nothing else.
pub store-replay :
    (hash : Text → Text) (default_ttl : Option ℕ) (cs : List (ℕ × Call))
    → InOrder 0 cs
    → (serve_run memory_backend hash cs (from_backend (Memory.new default_ttl))).0
      ≡ replay default_ttl (renamed hash cs) (λ k. none)
unfolding get_cache_key
store-replay hash d cs o =
    let s : CacheStore MemoryCacheBackend = from_backend (Memory.new d) in
    let (same, counted, both) = store-backend memory_backend hash cs s in
    same
    ∙ direct_run-run (renamed (get_cache_key memory_backend hash s) cs) (Memory.new d)
    ∙ run-replay d (renamed hash cs) (renamed-InOrder hash 0 cs o)
