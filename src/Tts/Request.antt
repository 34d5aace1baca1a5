-- ===== src/Tts/Request.antt =====
-- One request for speech (src/core/tts/provider.rs, `send_request_dyn`): the cache, the HTTP exchange,
-- and the chunks that are sent and remembered. What the pool, the service and the token say is input.
pub mod Streams
pub mod Cached
pub mod Twice
use sayna.Prelude.{
  ℕ, ◌==◌, Bool, true, false, not, ◌&&◌, Option, none, some, List, [], ◌∷◌, ◌++◌, map,
  if◌then◌else◌, length, is_some, is_empty,
}
use sayna.Prelude.Text.{Text, text_eq}
use sayna.Cache.{Result, ok, err}
use sayna.Cache.Store
use sayna.Cache.Store.{CacheBackend, CacheStore}
use sayna.Tts.{
  Bytes, TtsError, Message, audio, failure, audio_generation_failed, provider_error, network_error,
  internal_error,
}
use sayna.Tts.Chunks.{cut, chunk_target_bytes}

-- What the response stream gives.
pub data Item : Type 0 where
  bytes : Bytes → Item
  broken : Item

-- How the exchange goes: no client, no response, a status that is no success, or a stream. Each item
-- of a stream comes with what the token says when it is read.
pub data Reply : Type 0 where
  unacquired unsent refused : Reply
  streaming : List (Bool × Item) → Reply

-- Whether the token is cancelled at the other checks.
pub record Token : Type 0 where
  pub at_start : Bool
  pub at_flush : Bool
  pub at_end : Bool

-- `SpeakJob`, with the format and rate of its configuration.
pub record SpeakJob : Type 0 where
  pub text : Text
  pub format : Text
  pub sample_rate : ℕ
  pub cache_key : Option Text

-- The locals of the loop over the stream.
pub record Stream : Type 0 where
  pub buffer : Bytes
  pub full_audio : Option Bytes
  pub sent : List Message

pub record World (S : Type 0) : Type 0 where
  pub cache : CacheStore S
  pub previous_text : Option Text
  pub sent : List Message
  pub requests : List (Text × Option Text)

abbrev pub extend : Option Bytes → Bytes → Option Bytes
extend none c = none
extend (some full) c = some (full ++ c)

abbrev pub extend_all : Option Bytes → List Bytes → Option Bytes
extend_all full [] = full
extend_all full (c ∷ cs) = extend_all (extend full c) cs

unfoldable pub take_bytes : ℕ → Bytes → Stream → Stream
take_bytes target b st =
    if target == 0
    then record st { full_audio = extend st.full_audio b; sent = st.sent ++ (audio b ∷ []) }
    else (let (chunks, left) = cut (length b) target st.buffer b in
        record {
          buffer = left;
          full_audio = extend_all st.full_audio chunks;
          sent = st.sent ++ map audio chunks;
        })

-- The loop, and whether the code after it is reached.
unfoldable pub read_stream : ℕ → List (Bool × Item) → Stream → Bool × Stream
read_stream target [] st = (true, st)
read_stream target ((true, item) ∷ rest) st = (true, st)
read_stream target ((false, broken) ∷ rest) st =
    (false, record st { sent = st.sent ++ (failure audio_generation_failed ∷ []) })
read_stream target ((false, bytes b) ∷ rest) st = read_stream target rest (take_bytes target b st)

unfoldable pub flush_buffer : Token → Stream → Stream
flush_buffer token st =
    if not (is_empty st.buffer) && not token.at_flush
    then record st {
      full_audio = extend st.full_audio st.buffer;
      sent = st.sent ++ (audio st.buffer ∷ []);
    }
    else st

module _ {S : Type 0} where
  abbrev pub send : Message → World S → World S
  send m w = record w { sent = w.sent ++ (m ∷ []) }

module _ {S : Type 0} (b : CacheBackend S) (hash : Text → Text) where
  -- Audio is put into the cache under the key of the job, if it has one; an error is only logged.
  unfoldable pub store_audio : ℕ → Option Text → Option Bytes → CacheStore S → CacheStore S
  store_audio now (some key) (some full) c = (Store.put b hash now key full c).1
  store_audio now none full c = c
  store_audio now (some key) none c = c

  unfoldable pub receive : ℕ → Token → SpeakJob → Text → List (Bool × Item) → World S → World S
  unfolding flush_buffer store_audio
  receive now token job processed_text items w =
      let target = chunk_target_bytes job.format job.sample_rate in
      let start : Stream = record {
        buffer = [];
        full_audio = if is_some job.cache_key then some [] else none;
        sent = w.sent;
      } in
      let (reached, st) = read_stream target items start in
      if reached
      then (let st' = flush_buffer token st in
          record w {
            sent = st'.sent;
            cache = store_audio now job.cache_key st'.full_audio w.cache;
            previous_text = if token.at_end then w.previous_text else some processed_text;
          })
      else record w { sent = st.sent }

  -- The request over HTTP, after a miss.
  unfoldable pub exchange : ℕ → Token → SpeakJob → Text → Reply → World S → World S
  unfolding receive
  exchange now token job processed_text unacquired w = send (failure network_error) w
  exchange now token job processed_text unsent w =
      let asked = w.requests ++ ((processed_text, w.previous_text) ∷ []) in
      send (failure network_error) (record w { requests = asked })
  exchange now token job processed_text refused w =
      let asked = w.requests ++ ((processed_text, w.previous_text) ∷ []) in
      send (failure provider_error) (record w { requests = asked })
  exchange now token job processed_text (streaming items) w =
      let asked = w.requests ++ ((processed_text, w.previous_text) ∷ []) in
      receive now token job processed_text items (record w { requests = asked })

  -- `cache.get` with its key, where the job has one.
  unfoldable pub look_up : ℕ → Option Text → CacheStore S → Option Bytes × CacheStore S
  look_up now none c = (none, c)
  look_up now (some key) c =
      let (r, c') = Store.get b hash now key c in elim r [ ok o ↦ (o, c') | err e ↦ (none, c') ]

  -- `replace` is the pronunciation replacer; `now` and `later` are the times of the look-up and of
  -- the end of the stream.
  unfoldable pub send_request_dyn :
      (Text → Text) → ℕ → ℕ → Token → SpeakJob → Reply → World S → World S
  unfolding exchange look_up
  send_request_dyn replace now later token job reply w =
      if token.at_start
      then send (failure internal_error) w
      else (let (hit, c) = look_up now job.cache_key w.cache in
          elim hit [
            | some found ↦ send (audio found) (record w { cache = c })
            | none ↦ exchange later token job (replace job.text) reply (record w { cache = c })
          ])
