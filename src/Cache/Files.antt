-- ===== src/Cache/Files.antt =====
-- The filesystem backend (src/core/cache/store.rs, `FilesystemCacheBackend`): a file of bytes and a file
-- of metadata for each key. `path` is the path of a key, by the hash of another crate. An operation
-- of the file system may fail, and the process may end between two of them.
pub mod Refines
pub mod Faults
use sayna.Prelude.{
  ℕ, ◌+◌, Bool, true, false, Option, none, some, List, [], ◌∷◌, if◌then◌else◌, length, is_some,
  or_option,
}
use sayna.Prelude.Text.{Text}
use sayna.Prelude.Dict.{lookup, insert, remove}
use sayna.Cache.{Bytes, Result, ok, err, CacheError, io, serialization, deadline, is_expired}

-- What a file of metadata holds: the JSON of a record, or something else.
pub data Meta : Type 0 where
  cache_entry_meta : Option ℕ → ℕ → ℕ → Meta
  garbage : Meta

pub record FilesystemCacheBackend : Type 0 where
  pub files : List (Text × Bytes)
  pub metas : List (Text × Meta)
  pub default_ttl : Option ℕ

abbrev pub new : Option ℕ → FilesystemCacheBackend
new default_ttl = record { files = []; metas = []; default_ttl = default_ttl }

-- Where a `set` fails or is cut off: before the bytes are in place, before the metadata is, nowhere.
pub data Fault : Type 0 where
  before_bytes before_meta no_fault : Fault

module _ (path : Text → Text) where
  unfoldable pub write_bytes : Text → Bytes → FilesystemCacheBackend → FilesystemCacheBackend
  write_bytes key value m = record m { files = insert (path key) value m.files }

  unfoldable pub write_meta :
      ℕ → Text → ℕ → Option ℕ → FilesystemCacheBackend → FilesystemCacheBackend
  write_meta now key size ttl m =
      let meta = cache_entry_meta (deadline ttl m.default_ttl now) now size in
      record m { metas = insert (path key) meta m.metas }

  unfoldable pub set :
      Fault
      → ℕ
      → Text
      → Bytes
      → Option ℕ
      → FilesystemCacheBackend
      → Result (Unit {0}) × FilesystemCacheBackend
  unfolding write_bytes write_meta
  set before_bytes now key value ttl m = (err io, m)
  set before_meta now key value ttl m = (err io, write_bytes key value m)
  set no_fault now key value ttl m =
      (ok tt, write_meta now key (length value) ttl (write_bytes key value m))

  unfoldable pub remove_both : Text → FilesystemCacheBackend → FilesystemCacheBackend
  remove_both key m = record m {
    files = remove (path key) m.files;
    metas = remove (path key) m.metas;
  }

  -- With the files readable.
  unfoldable pub get :
      ℕ → Text → FilesystemCacheBackend → Result (Option Bytes) × FilesystemCacheBackend
  unfolding remove_both
  get now key m = elim (lookup (path key) m.metas) [
    | none ↦ (ok none, m)
    | some garbage ↦ (err serialization, m)
    | some (cache_entry_meta expires_at created_at size) ↦
        if is_expired expires_at now
        then (ok none, remove_both key m)
        else elim (lookup (path key) m.files) [
          | none ↦ (ok none, record m { metas = remove (path key) m.metas })
          | some bytes ↦ (ok (some bytes), m)
        ]
  ]

  unfoldable pub exists : ℕ → Text → FilesystemCacheBackend → Result Bool
  exists now key m = elim (lookup (path key) m.metas) [
    | none ↦ ok false
    | some garbage ↦ err serialization
    | some (cache_entry_meta expires_at created_at size) ↦
        if is_expired expires_at now then ok false else ok (is_some (lookup (path key) m.files))
  ]

  unfoldable pub delete : Text → FilesystemCacheBackend → FilesystemCacheBackend
  unfolding remove_both
  delete key m = remove_both key m

unfoldable pub clear : FilesystemCacheBackend → FilesystemCacheBackend
clear m = record m { files = []; metas = [] }
