-- ===== src/Tts/Request/Twice.antt =====
-- Two requests for the same text (src/core/tts/provider.rs, `send_request_dyn`) over the store in
-- memory (src/core/cache/store.rs).
use sayna.Prelude.{ℕ, false, Option, none, some, List, [], ◌∷◌, ◌++◌, refl, ap, ◌∙◌, ◌≡◌}
use sayna.Prelude.Text.{Text}
use sayna.Cache.{deadline, is_expired}
use sayna.Cache.Memory.{MemoryCacheBackend}
use sayna.Cache.Store.{CacheStore}
use sayna.Cache.Store.Hits.{get-put}
use sayna.Cache.Store.InMemory.{memory_backend}
use sayna.Tts.{Bytes, audio}
use sayna.Tts.Chunks.Cut.{flatten}
use sayna.Tts.Request.{
  SpeakJob, World, Reply, streaming, look_up, store_audio, send_request_dyn, Token,
}
use sayna.Tts.Request.Streams.{all_bytes, request-streams}

module _ (hash : Text → Text) where
  look_up-store_audio :
      (now later : ℕ) (key : Text) (value : Bytes) (c : CacheStore MemoryCacheBackend)
      → is_expired (deadline none c.backend.default_ttl now) later ≡ false
      → (look_up memory_backend hash later
          (some key)
          (store_audio memory_backend hash now (some key) (some value) c)).0
        ≡ some value
  unfolding look_up store_audio
  look_up-store_audio now later key value c h =
      rw (look_up, get-put hash now later key value c h) refl

  -- Over the memory backend, with no entry evicted: after a request that misses the cache and streams
  -- to its end uncancelled, the next request with the same key, up to the deadline of the entry and with a token that is not cancelled, sends the
  -- whole audio of the first as one chunk, whatever the service would answer: it makes no HTTP request
  -- and leaves the previous text of the first.
  pub served_from_cache :
      (replace : Text → Text) (now later next last : ℕ) (token token' : Token) (job job' : SpeakJob)
      (key : Text) (bs : List Bytes) (reply : Reply) (w : World MemoryCacheBackend)
      (c : CacheStore MemoryCacheBackend)
      → token.at_start ≡ false
      → token.at_flush ≡ false
      → token.at_end ≡ false
      → token'.at_start ≡ false
      → job.cache_key ≡ some key
      → job'.cache_key ≡ some key
      → look_up memory_backend hash now job.cache_key w.cache ≡ (none, c)
      → is_expired (deadline none c.backend.default_ttl later) next ≡ false
      → let w' =
          send_request_dyn memory_backend hash replace now later token job
            (streaming (all_bytes bs))
            w in
        let w'' = send_request_dyn memory_backend hash replace next last token' job' reply w' in
        (w''.sent ≡ w'.sent ++ (audio (flatten bs) ∷ []))
        × (w''.requests ≡ w'.requests)
        × (w''.previous_text ≡ some (replace job.text))
  served_from_cache replace now later next last token token' job job' key bs reply w c s f e s' k k'
        miss h =
      let w' : World MemoryCacheBackend =
        send_request_dyn memory_backend hash replace now later token job (streaming (all_bytes bs))
          w in
      let (sent, cached, previous, asked) =
        request-streams memory_backend hash replace now later token job bs w c s f e miss in
      let hit : (look_up memory_backend hash next job'.cache_key w'.cache).0 ≡ some (flatten bs) =
        ap (λ (o : Option Text). (look_up memory_backend hash next o w'.cache).0) k'
        ∙ ap
            (λ (x : CacheStore MemoryCacheBackend).
              (look_up memory_backend hash next (some key) x).0)
            cached
        ∙ ap
            (λ (o : Option Text).
              (look_up memory_backend hash next (some key)
                (store_audio memory_backend hash later o (some (flatten bs)) c)).0)
            k
        ∙ look_up-store_audio later next key (flatten bs) c h in
      unfold send_request_dyn in rw (s', hit) (refl, refl, previous)
