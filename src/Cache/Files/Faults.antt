-- ===== src/Cache/Files/Faults.antt =====
-- A `set` of the filesystem backend (src/core/cache/store.rs) that fails or is cut off part way.
use sayna.Prelude.{ℕ, Option, some, if◌then◌else◌, refl, ◌≡◌, arith}
use sayna.Prelude.Text.{Text, text_eq}
use sayna.Prelude.Dict.{lookup, lookup-insert}
use sayna.Cache.{Bytes, err, io}
use sayna.Cache.Files.{FilesystemCacheBackend, before_bytes, before_meta, set, write_bytes}
use sayna.Cache.Files.Refines.{view, entry_view}

module _ (path : Text → Text) where
  -- A `set` that fails before its bytes are in place changes nothing. One that fails after them, before
  -- the metadata, reports the same error, yet the new bytes are what the path shows from then on, with
  -- the deadline of the entry that they replaced, and nothing if there was no metadata. The other paths
  -- show what they did.
  pub set-fault :
      (now : ℕ) (key p : Text) (value : Bytes) (ttl : Option ℕ) (m : FilesystemCacheBackend)
      → (set path before_bytes now key value ttl m ≡ (err io, m))
        × ((set path before_meta now key value ttl m).0 ≡ err io)
        × (view (set path before_meta now key value ttl m).1 p ≡ (
            if text_eq (path key) p then entry_view (lookup p m.metas) (some value) else view m p))
  unfolding set write_bytes
  set-fault now key p value ttl m =
      (refl, refl, ground (arith, lookup-insert (path key) p value m.files))

  -- The deadline that such a `set` asked for is of no account.
  pub set-fault_deadline :
      (now : ℕ) (key : Text) (value : Bytes) (ttl other : Option ℕ) (m : FilesystemCacheBackend)
      → set path before_meta now key value ttl m ≡ set path before_meta now key value other m
  unfolding set
  set-fault_deadline now key value ttl other m = refl
