-- ===== src/Cache/Tests.antt =====
-- Runs of the cache (src/core/cache/store.rs).
use sayna.Prelude.{ℕ, true, none, some, List, [], ◌∷◌, refl, ◌≡◌, arith}
use sayna.Prelude.Text.{Text, codes}
use sayna.Cache.{Bytes}
use sayna.Cache.Spec.{Call, nothing, found, there, renamed, replay}
use sayna.Cache.Memory
use sayna.Cache.Files
use sayna.Cache.Files.{
  FilesystemCacheBackend, cache_entry_meta, before_bytes, before_meta, no_fault,
}
use sayna.Cache.Files.Refines.{view, entry_view, run-replay}
use sayna.Cache.Store.{from_backend}
use sayna.Cache.Store.Counts.{serve_run}
use sayna.Cache.Store.InMemory.{memory_backend, store-replay}

abbrev hello : Text
hello = codes "hello"

abbrev audio : Bytes
audio = 1 ∷ 2 ∷ 3 ∷ []

abbrev tagged : Text → Text
tagged key = 0x74 ∷ 0x3a ∷ key

abbrev calls : List (ℕ × Call)
calls =
    (5, Call.get hello)
    ∷ (6, Call.set hello audio (some 10))
    ∷ (16, Call.get hello)
    ∷ (16, Call.exists hello)
    ∷ (17, Call.get hello)
    ∷ []

-- The deadline itself is still in time; a second later the entry is gone.
answers_of_calls :
    replay (some 60) (renamed tagged calls) (λ k. none)
    ≡ found none ∷ nothing ∷ found (some audio) ∷ there true ∷ found none ∷ []
unfolding replay
answers_of_calls = refl

store-replay_example :
    (serve_run memory_backend tagged calls (from_backend (Memory.new (some 60)))).0
    ≡ replay (some 60) (renamed tagged calls) (λ k. none)
store-replay_example = store-replay tagged (some 60) calls (omega arith)

run-replay_example :
    Files.Refines.run tagged calls (Files.new (some 60))
    ≡ replay (some 60) (renamed tagged calls) (λ k. none)
run-replay_example = run-replay tagged (some 60) calls (omega arith)

abbrev one_file : FilesystemCacheBackend
one_file = record {
  files = (tagged hello, 9 ∷ []) ∷ [];
  metas = (tagged hello, cache_entry_meta (some 20) 0 1) ∷ [];
  default_ttl = none;
}
