-- ===== src/Cache/Store/Hits.antt =====
-- A `get` right after a `put` of the store over the memory backend (src/core/cache/store.rs).
use sayna.Prelude.{ℕ, false, none, some, ◌≡◌, if◌then◌else◌, arith}
use sayna.Prelude.Text.{Text, text_eq_iff}
use sayna.Prelude.Dict.{lookup, insert, lookup-insert}
use sayna.Cache.{Bytes, ok, deadline, is_expired}
use sayna.Cache.Memory
use sayna.Cache.Memory.{MemoryCacheBackend, CacheEntry}
use sayna.Cache.Store.{CacheStore, put, put_with, get, get_cache_key}
use sayna.Cache.Store.InMemory.{memory_backend}

get-set :
    (now later : ℕ) (key : Text) (value : Bytes) (m : MemoryCacheBackend)
    → is_expired (deadline none m.default_ttl now) later ≡ false
    → (Memory.get later key (Memory.set now key value none m)).0 ≡ some value
unfolding Memory.set Memory.get
get-set now later key value m h =
    let entry : CacheEntry = record {
      bytes = value;
      expires_at = deadline none m.default_ttl now;
    } in
    let same : lookup key (insert key entry m.cache) ≡ some entry =
      ground (arith, lookup-insert key key entry m.cache, text_eq_iff key key) in
    ground (arith, same, h)

module _ (hash : Text → Text) where
  -- A value that was just put, with no time to live of its own, is found until its deadline.
  pub get-put :
      (now later : ℕ) (key : Text) (value : Bytes) (s : CacheStore MemoryCacheBackend)
      → is_expired (deadline none s.backend.default_ttl now) later ≡ false
      → (get memory_backend hash later key (put memory_backend hash now key value s).1).0
        ≡ ok (some value)
  unfolding get put put_with get_cache_key
  get-put now later key value s h =
      ground (arith, get-set now later (if s.use_hashing then hash key else key) value s.backend h)
