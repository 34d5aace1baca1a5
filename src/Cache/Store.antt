-- ===== src/Cache/Store.antt =====
-- The store that the rest of the program calls (src/core/cache/store.rs, `CacheStore`): a backend
-- behind an interface, the hash of each key, and the four counters.
pub mod Counts
pub mod InMemory
pub mod Hits
use sayna.Prelude.{
  ℕ, ◌+◌, Bool, true, false, Option, none, some, List, [], ◌∷◌, ◌++◌, if◌then◌else◌, is_some, refl,
  ◌≡◌, ap, arith, u64,
}
use sayna.Prelude.Text.{Text}
use sayna.Cache.{Bytes, Result, ok, err, CacheError}

-- What a backend offers, with the time as an argument and its state passed on.
pub record CacheBackend (S : Type 0) : Type 0 where
  pub set : ℕ → Text → Bytes → Option ℕ → S → Result (Unit {0}) × S
  pub get : ℕ → Text → S → Result (Option Bytes) × S
  pub exists : ℕ → Text → S → Result Bool × S
  pub delete : Text → S → Result (Unit {0}) × S
  pub clear : S → Result (Unit {0}) × S

pub record CacheMetrics : Type 0 where
  pub hits : ℕ
  pub misses : ℕ
  pub sets : ℕ
  pub deletes : ℕ

abbrev pub new_metrics : CacheMetrics
new_metrics = record { hits = 0; misses = 0; sets = 0; deletes = 0 }

unfoldable pub record_hit : CacheMetrics → CacheMetrics
record_hit m = record m { hits = u64 (m.hits + 1) }

unfoldable pub record_miss : CacheMetrics → CacheMetrics
record_miss m = record m { misses = u64 (m.misses + 1) }

unfoldable pub record_set : CacheMetrics → CacheMetrics
record_set m = record m { sets = u64 (m.sets + 1) }

unfoldable pub record_delete : CacheMetrics → CacheMetrics
record_delete m = record m { deletes = u64 (m.deletes + 1) }

pub record CacheStore (S : Type 0) : Type 0 where
  pub backend : S
  pub metrics : CacheMetrics
  pub use_hashing : Bool

module _ {S : Type 0} where
  -- `from_config`, around the backend that it makes.
  abbrev pub from_backend : S → CacheStore S
  from_backend m = record { backend = m; metrics = new_metrics; use_hashing = true }

  unfoldable pub with_hashing : Bool → CacheStore S → CacheStore S
  with_hashing b s = record s { use_hashing = b }

module _ {S : Type 0} (b : CacheBackend S) (hash : Text → Text) where
  unfoldable pub get_cache_key : CacheStore S → Text → Text
  get_cache_key s key = if s.use_hashing then hash key else key

  unfoldable pub put_with :
      ℕ → Text → Bytes → Option ℕ → CacheStore S → Result (Unit {0}) × CacheStore S
  unfolding get_cache_key record_set
  put_with now key value ttl s =
      let (r, m) = b.set now (get_cache_key s key) value ttl s.backend in
      elim r [
        | err e ↦ (err e, record s { backend = m })
        | ok u ↦ (ok u, record s { backend = m; metrics = record_set s.metrics })
      ]

  unfoldable pub put : ℕ → Text → Bytes → CacheStore S → Result (Unit {0}) × CacheStore S
  unfolding put_with
  put now key value s = put_with now key value none s

  unfoldable pub put_with_ttl :
      ℕ → Text → Bytes → ℕ → CacheStore S → Result (Unit {0}) × CacheStore S
  unfolding put_with
  put_with_ttl now key value ttl s = put_with now key value (some ttl) s

  unfoldable pub get : ℕ → Text → CacheStore S → Result (Option Bytes) × CacheStore S
  unfolding get_cache_key record_hit record_miss
  get now key s =
      let (r, m) = b.get now (get_cache_key s key) s.backend in
      elim r [
        | err e ↦ (err e, record s { backend = m })
        | ok none ↦ (ok none, record s { backend = m; metrics = record_miss s.metrics })
        | ok (some v) ↦ (ok (some v), record s { backend = m; metrics = record_hit s.metrics })
      ]

  unfoldable pub exists : ℕ → Text → CacheStore S → Result Bool × CacheStore S
  unfolding get_cache_key
  exists now key s =
      let (r, m) = b.exists now (get_cache_key s key) s.backend in (r, record s { backend = m })

  unfoldable pub delete : Text → CacheStore S → Result (Unit {0}) × CacheStore S
  unfolding get_cache_key record_delete
  delete key s =
      let (r, m) = b.delete (get_cache_key s key) s.backend in
      elim r [
        | err e ↦ (err e, record s { backend = m })
        | ok u ↦ (ok u, record s { backend = m; metrics = record_delete s.metrics })
      ]

  unfoldable pub clear : CacheStore S → Result (Unit {0}) × CacheStore S
  clear s = let (r, m) = b.clear s.backend in (r, record s { backend = m })
