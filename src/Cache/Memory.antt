-- ===== src/Cache/Memory.antt =====
-- The memory backend (src/core/cache/store.rs, `MemoryCacheBackend`). Its concurrent map, a crate of
-- its own, keeps an entry until it is invalidated, or evicts it to stay within `max_entries` or
-- `max_size_bytes`. An eviction is an operation of its own, that may come between any two.
pub mod Refines
pub mod Evicted
use sayna.Prelude.{ℕ, Bool, true, false, Option, none, some, List, [], ◌∷◌, if◌then◌else◌}
use sayna.Prelude.Text.{Text}
use sayna.Prelude.Dict.{lookup, insert, remove}
use sayna.Cache.{Bytes, deadline, is_expired}

pub record CacheEntry : Type 0 where
  pub bytes : Bytes
  pub expires_at : Option ℕ

pub record MemoryCacheBackend : Type 0 where
  pub cache : List (Text × CacheEntry)
  pub default_ttl : Option ℕ

abbrev pub new : Option ℕ → MemoryCacheBackend
new default_ttl = record { cache = []; default_ttl = default_ttl }

unfoldable pub set : ℕ → Text → Bytes → Option ℕ → MemoryCacheBackend → MemoryCacheBackend
set now key value ttl m =
    let entry : CacheEntry = record {
      bytes = value;
      expires_at = deadline ttl m.default_ttl now;
    } in
    record m { cache = insert key entry m.cache }

unfoldable pub invalidate : Text → MemoryCacheBackend → MemoryCacheBackend
invalidate key m = record m { cache = remove key m.cache }

-- The map drops an entry of its own.
unfoldable pub evict : Text → MemoryCacheBackend → MemoryCacheBackend
unfolding invalidate
evict key m = invalidate key m

unfoldable pub get : ℕ → Text → MemoryCacheBackend → Option Bytes × MemoryCacheBackend
unfolding invalidate
get now key m = elim (lookup key m.cache) [
  | none ↦ (none, m)
  | some entry ↦
      if is_expired entry.expires_at now then (none, invalidate key m) else (some entry.bytes, m)
]

unfoldable pub exists : ℕ → Text → MemoryCacheBackend → Bool × MemoryCacheBackend
unfolding invalidate
exists now key m = elim (lookup key m.cache) [
  | none ↦ (false, m)
  | some entry ↦ if is_expired entry.expires_at now then (false, invalidate key m) else (true, m)
]

unfoldable pub delete : Text → MemoryCacheBackend → MemoryCacheBackend
unfolding invalidate
delete key m = invalidate key m

unfoldable pub clear : MemoryCacheBackend → MemoryCacheBackend
clear m = record m { cache = [] }
