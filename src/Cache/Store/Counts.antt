-- ===== src/Cache/Store/Counts.antt =====
-- The store (src/core/cache/store.rs, `CacheStore`) over any backend: what it adds to the backend's
-- answers is the hash of each key, and the counters count those answers.
use sayna.Prelude.{ℕ, ◌+◌, ◌%◌, none, some, List, [], ◌∷◌, refl, ◌≡◌, ap, arith, u64_mod}
use sayna.Prelude.Text.{Text}
use sayna.Cache.Spec.{Call, Answer, answer, nothing, failed, found, there, rename, renamed}
use sayna.Cache.Store.{
  CacheBackend, CacheMetrics, CacheStore, record_hit, record_miss, record_set, record_delete,
  get_cache_key, put, put_with_ttl, put_with, get, exists, delete, clear,
}

-- What a call counts, by its answer.
abbrev pub count : Call → Answer → CacheMetrics → CacheMetrics
count (Call.set key value ttl) nothing m = record_set m
count (Call.get key) (found none) m = record_miss m
count (Call.get key) (found (some v)) m = record_hit m
count (Call.delete key) nothing m = record_delete m
count c a m = m

abbrev pub tally : List (ℕ × Call) → List Answer → CacheMetrics → CacheMetrics
tally ((now, c) ∷ cs) (a ∷ out) m = tally cs out (count c a m)
tally cs out m = m

-- A `get` that did not fail.
abbrev pub got : Call → Answer → ℕ
got (Call.get key) (found o) = 1
got c a = 0

abbrev pub gets_answered : List (ℕ × Call) → List Answer → ℕ
gets_answered ((now, c) ∷ cs) (a ∷ out) = got c a + gets_answered cs out
gets_answered cs out = 0

count-got :
    (c : Call) (a : Answer) (m : CacheMetrics)
    → ((count c a m).hits + (count c a m).misses) % u64_mod
      ≡ (m.hits + m.misses + got c a) % u64_mod
unfolding record_hit record_miss record_set record_delete
count-got (Call.set key value ttl) nothing m = omega arith
count-got (Call.set key value ttl) (failed e) m = omega arith
count-got (Call.set key value ttl) (found o) m = omega arith
count-got (Call.set key value ttl) (there t) m = omega arith
count-got (Call.get key) nothing m = omega arith
count-got (Call.get key) (failed e) m = omega arith
count-got (Call.get key) (found none) m = omega arith
count-got (Call.get key) (found (some v)) m = omega arith
count-got (Call.get key) (there t) m = omega arith
count-got (Call.exists key) a m = omega arith
count-got (Call.delete key) nothing m = omega arith
count-got (Call.delete key) (failed e) m = omega arith
count-got (Call.delete key) (found o) m = omega arith
count-got (Call.delete key) (there t) m = omega arith
count-got Call.clear a m = omega arith

tally-gets_answered :
    (cs : List (ℕ × Call)) (out : List Answer) (m : CacheMetrics)
    → ((tally cs out m).hits + (tally cs out m).misses) % u64_mod
      ≡ (m.hits + m.misses + gets_answered cs out) % u64_mod
tally-gets_answered [] out m = omega arith
tally-gets_answered (c ∷ cs) [] m = omega arith
tally-gets_answered ((now, c) ∷ cs) (a ∷ out) m =
    omega (arith, tally-gets_answered cs out (count c a m), count-got c a m)

module _ {S : Type 0} (b : CacheBackend S) where
  -- A call on the backend itself.
  abbrev pub direct : ℕ → Call → S → Answer × S
  direct now (Call.set key value ttl) m =
      let (r, m') = b.set now key value ttl m in (answer (λ u. nothing) r, m')
  direct now (Call.get key) m = let (r, m') = b.get now key m in (answer found r, m')
  direct now (Call.exists key) m = let (r, m') = b.exists now key m in (answer there r, m')
  direct now (Call.delete key) m = let (r, m') = b.delete key m in (answer (λ u. nothing) r, m')
  direct now Call.clear m = let (r, m') = b.clear m in (answer (λ u. nothing) r, m')

  abbrev pub direct_run : List (ℕ × Call) → S → List Answer
  direct_run [] m = []
  direct_run ((now, c) ∷ cs) m = let (a, m') = direct now c m in a ∷ direct_run cs m'

  module _ (hash : Text → Text) where
    -- A call on the store: a `set` with a time to live is `put_with_ttl`, one without is `put`.
    abbrev pub serve : ℕ → Call → CacheStore S → Answer × CacheStore S
    serve now (Call.set key value none) s =
        let (r, s') = put b hash now key value s in (answer (λ u. nothing) r, s')
    serve now (Call.set key value (some ttl)) s =
        let (r, s') = put_with_ttl b hash now key value ttl s in (answer (λ u. nothing) r, s')
    serve now (Call.get key) s = let (r, s') = get b hash now key s in (answer found r, s')
    serve now (Call.exists key) s = let (r, s') = exists b hash now key s in (answer there r, s')
    serve now (Call.delete key) s =
        let (r, s') = delete b hash key s in (answer (λ u. nothing) r, s')
    serve now Call.clear s = let (r, s') = clear b hash s in (answer (λ u. nothing) r, s')

    abbrev pub serve_run : List (ℕ × Call) → CacheStore S → List Answer × CacheStore S
    serve_run [] s = ([], s)
    serve_run ((now, c) ∷ cs) s =
        let (a, s') = serve now c s in let (out, s'') = serve_run cs s' in (a ∷ out, s'')

    serve_lem :
        (now : ℕ) (c : Call) (s : CacheStore S)
        → let (a, m) = direct now (rename (get_cache_key b hash s) c) s.backend in
          serve now c s ≡ (a, record s { backend = m; metrics = count c a s.metrics })
    unfolding put put_with_ttl put_with get exists delete clear
    serve_lem now (Call.set key value none) s = ground arith
    serve_lem now (Call.set key value (some ttl)) s = ground arith
    serve_lem now (Call.get key) s = ground arith
    serve_lem now (Call.exists key) s = refl
    serve_lem now (Call.delete key) s = ground arith
    serve_lem now Call.clear s = ground arith

    serve_run_lem :
        (cs : List (ℕ × Call)) (s : CacheStore S)
        → ((serve_run cs s).0 ≡ direct_run (renamed (get_cache_key b hash s) cs) s.backend)
          × ((serve_run cs s).1.metrics ≡ tally cs (serve_run cs s).0 s.metrics)
    unfolding get_cache_key
    serve_run_lem [] s = (refl, refl)
    serve_run_lem ((now, c) ∷ cs) s =
        let (a, m) = direct now (rename (get_cache_key b hash s) c) s.backend in
        let (same, counted) =
          serve_run_lem cs (record s { backend = m; metrics = count c a s.metrics }) in
        rw (serve_lem now c s) (ap (λ (out : List Answer). a ∷ out) same, counted)

    -- The store answers a sequence of calls as its backend answers the same calls with each key hashed
    -- (or with the key itself, where hashing is off), and each call that succeeds is counted once: hits
    -- and misses together grow by the number of `get`s that did not fail, modulo 2^64.
    pub store-backend :
        (cs : List (ℕ × Call)) (s : CacheStore S)
        → let (out, s') = serve_run cs s in
          (out ≡ direct_run (renamed (get_cache_key b hash s) cs) s.backend)
          × (s'.metrics ≡ tally cs out s.metrics)
          × ((s'.metrics.hits + s'.metrics.misses) % u64_mod
              ≡ (s.metrics.hits + s.metrics.misses + gets_answered cs out) % u64_mod)
    store-backend cs s =
        let (same, counted) = serve_run_lem cs s in
        (same, counted, rw counted (tally-gets_answered cs (serve_run cs s).0 s.metrics))
