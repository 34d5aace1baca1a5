-- ===== src/Tts/Tests.antt =====
-- Runs of a request for speech (src/core/tts/provider.rs).
use sayna.Prelude.{
  ◌<◌, max, Bool, true, false, none, some, List, [], ◌∷◌, ◌++◌, map, length, refl, ◌≡◌, arith,
}
use sayna.Prelude.Text.{Text, codes}
use sayna.Prelude.Dict.{lookup}
use sayna.Cache.Memory
use sayna.Cache.Memory.{MemoryCacheBackend}
use sayna.Cache.Store.{get, get_cache_key, record_miss, CacheStore, from_backend}
use sayna.Cache.Store.InMemory.{memory_backend}
use sayna.Tts.{Bytes, audio}
use sayna.Tts.Chunks.{cut, bytes_per_sample, is_linear, is_law, chunk_target_bytes}
use sayna.Tts.Chunks.Cut.{flatten, AllOfLength, cut-whole}
use sayna.Tts.Request.{
  SpeakJob, World, refused, streaming, look_up, store_audio, send_request_dyn, Item, bytes, broken,
  Token,
}
use sayna.Tts.Request.Streams.{all_bytes, last_chunk, request-streams}
use sayna.Tts.Request.Twice.{served_from_cache}

sizes : chunk_target_bytes (codes "linear16") 24000 ≡ 480
unfolding chunk_target_bytes bytes_per_sample is_linear is_law
sizes = refl

abbrev three : Bytes
three = 1 ∷ 2 ∷ 3 ∷ []

cut-whole_example :
    (flatten (cut 3 2 (9 ∷ []) three).0 ++ (cut 3 2 (9 ∷ []) three).1 ≡ 9 ∷ three)
    × AllOfLength 2 (cut 3 2 (9 ∷ []) three).0
    × (length (cut 3 2 (9 ∷ []) three).1 < 2)
cut-whole_example = cut-whole 3 2 (9 ∷ []) three (omega arith) (omega arith)

abbrev key : Text
key = codes "k"

abbrev job : SpeakJob
job = record { text = codes "hi"; format = codes "pcm"; sample_rate = 100; cache_key = some key }

abbrev fresh_world : World MemoryCacheBackend
fresh_world = record {
  cache = from_backend (Memory.new (some 60));
  previous_text = some (codes "before");
  sent = [];
  requests = [];
}

abbrev quiet : Token
quiet = record { at_start = false; at_flush = false; at_end = false }

abbrev cut_short : Token
cut_short = record { at_start = false; at_flush = true; at_end = true }

abbrev same_text : Text → Text
same_text t = t

abbrev missed : CacheStore MemoryCacheBackend
missed = (look_up memory_backend same_text 0 (some key) fresh_world.cache).1

miss : look_up memory_backend same_text 0 (some key) fresh_world.cache ≡ (none, missed)
unfolding look_up get get_cache_key Memory.get lookup record_miss
miss = refl

abbrev broken_items : List (Bool × Item)
broken_items = (false, bytes three) ∷ (false, broken) ∷ []

abbrev two_items : List Bytes
two_items = three ∷ three ∷ []

request-streams_example :
    let w' =
      send_request_dyn memory_backend same_text same_text 0 1 quiet job
        (streaming (all_bytes two_items))
        fresh_world in
    let target = chunk_target_bytes (codes "pcm") 100 in
    ((whole : List Bytes) × (tail : Bytes) × (w'.sent ≡ [] ++ map audio (whole ++ last_chunk tail))
      × (flatten whole ++ tail ≡ flatten two_items)
      × (0 < target → AllOfLength target whole)
      × (length tail < max target 1))
    × (w'.cache
        ≡ store_audio memory_backend same_text 1 (some key) (some (flatten two_items)) missed)
    × (w'.previous_text ≡ some (codes "hi"))
    × (w'.requests ≡ [] ++ ((codes "hi", some (codes "before")) ∷ []))
request-streams_example =
    request-streams memory_backend same_text same_text 0 1 quiet job two_items fresh_world missed
      refl refl refl miss

served_from_cache_example :
    let w' =
      send_request_dyn memory_backend same_text same_text 0 1 quiet job
        (streaming (all_bytes two_items))
        fresh_world in
    let w'' = send_request_dyn memory_backend same_text same_text 61 62 quiet job refused w' in
    (w''.sent ≡ w'.sent ++ (audio (flatten two_items) ∷ []))
    × (w''.requests ≡ w'.requests)
    × (w''.previous_text ≡ some (codes "hi"))
unfolding look_up get Memory.get lookup
served_from_cache_example =
    served_from_cache same_text same_text 0 1 61 62 quiet quiet job job key two_items refused
      fresh_world missed refl refl refl refl refl refl miss refl
