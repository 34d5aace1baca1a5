-- ===== src/Tts/Request/Cached.antt =====
-- What a request leaves in the cache (src/core/tts/provider.rs, `send_request_dyn`): nothing when it
-- fails, what the next one is served with when it succeeds, and a part when it is cancelled.
use mathlib.Core.List.{append_assoc}
use sayna.Prelude.{
  ℕ, ◌<◌, max, Bool, true, false, Option, none, some, List, [], ◌∷◌, ◌++◌, map, if◌then◌else◌,
  length, is_some, refl, ap, sym, ◌∙◌, ◌≡◌, arith,
}
use sayna.Prelude.Text.{Text}
use sayna.Cache.Store.{CacheBackend, CacheStore}
use sayna.Tts.{
  Bytes, TtsError, Message, audio, failure, audio_generation_failed, network_error, provider_error,
}
use sayna.Tts.Chunks.{chunk_target_bytes}
use sayna.Tts.Chunks.Cut.{flatten}
use sayna.Tts.Request.{
  extend_all, SpeakJob, World, Reply, unacquired, unsent, refused, streaming, look_up, store_audio,
  send_request_dyn, exchange, receive, Item, bytes, broken, Token, Stream, take_bytes, read_stream,
  flush_buffer,
}
use sayna.Tts.Request.Streams.{
  all_bytes, take_bytes_lem, read_stream-all_bytes, map-append, extend_all-some,
}

-- The stream breaks before the token is seen cancelled.
abbrev pub breaks : List (Bool × Item) → Bool
breaks [] = false
breaks ((true, item) ∷ rest) = false
breaks ((false, broken) ∷ rest) = true
breaks ((false, bytes b) ∷ rest) = breaks rest

abbrev pub fails : Reply → Bool
fails unacquired = true
fails unsent = true
fails refused = true
fails (streaming items) = breaks items

read_stream-breaks :
    (target : ℕ) (items : List (Bool × Item)) (st : Stream)
    → length st.buffer < max target 1
    → breaks items ≡ true
    → ((read_stream target items st).0 ≡ false)
      × ((chunks : List Bytes) × ((read_stream target items st).1.sent
            ≡ st.sent ++ (map audio chunks ++ (failure audio_generation_failed ∷ []))))
unfolding read_stream
read_stream-breaks target [] st h e = absurd (ground arith)
read_stream-breaks target ((true, item) ∷ rest) st h e = absurd (ground arith)
read_stream-breaks target ((false, broken) ∷ rest) st h e = (refl, ([], refl))
read_stream-breaks target ((false, bytes b) ∷ rest) st h e =
    let mid : Stream = take_bytes target b st in
    let (chunks, (sent, full, same, sizes, room)) = take_bytes_lem target b st h in
    let (reached, (more, sent')) = read_stream-breaks target rest mid room e in
    let stop : List Message = failure audio_generation_failed ∷ [] in
    (
      reached,
      (
        chunks ++ more,
        sent'
            ∙ ap (λ (l : List Message). l ++ (map audio more ++ stop)) sent
            ∙ append_assoc st.sent (map audio chunks) (map audio more ++ stop)
            ∙ ap (λ (l : List Message). st.sent ++ l)
                (sym (append_assoc (map audio chunks) (map audio more) stop)
                  ∙ ap (λ (l : List Message). l ++ stop) (sym (map-append audio chunks more))),
      ),
    )

flush_buffer-cancelled :
    (token : Token) (st : Stream) → token.at_flush ≡ true → flush_buffer token st ≡ st
unfolding flush_buffer
flush_buffer-cancelled token st h = ground arith

module _ {S : Type 0} (b : CacheBackend S) (hash : Text → Text) where
  -- A request that misses the cache and then fails (no client, no response, a status that is no
  -- success, or a stream that breaks, whatever was sent of it) sends one error, after all its audio;
  -- it puts nothing into the cache and leaves the previous text.
  pub request-fails :
      (replace : Text → Text) (now later : ℕ) (token : Token) (job : SpeakJob) (reply : Reply)
      (w : World S) (c : CacheStore S)
      → token.at_start ≡ false
      → look_up b hash now job.cache_key w.cache ≡ (none, c)
      → fails reply ≡ true
      → let w' = send_request_dyn b hash replace now later token job reply w in
        ((chunks : List Bytes) × (error : TtsError) × (w'.sent
            ≡ w.sent ++ (map audio chunks ++ (failure error ∷ []))))
        × (w'.cache ≡ c)
        × (w'.previous_text ≡ w.previous_text)
  unfolding send_request_dyn exchange receive
  request-fails replace now later token job unacquired w c s miss h =
      rw (s, miss)
        (([], network_error, refl), ap (λ (r : Option Bytes × CacheStore S). r.1) miss, refl)
  request-fails replace now later token job unsent w c s miss h =
      rw (s, miss)
        (([], network_error, refl), ap (λ (r : Option Bytes × CacheStore S). r.1) miss, refl)
  request-fails replace now later token job refused w c s miss h =
      rw (s, miss)
        (([], provider_error, refl), ap (λ (r : Option Bytes × CacheStore S). r.1) miss, refl)
  request-fails replace now later token job (streaming items) w c s miss h =
      let target : ℕ = chunk_target_bytes job.format job.sample_rate in
      let start : Stream = record {
        buffer = [];
        full_audio = if is_some job.cache_key then some [] else none;
        sent = w.sent;
      } in
      let (reached, (chunks, sent)) = read_stream-breaks target items start (omega arith) h in
      rw (s, miss, reached)
        (
          (chunks, audio_generation_failed, sent),
          ap (λ (r : Option Bytes × CacheStore S). r.1) miss,
          refl,
        )

  read_stream-cancelled :
      (target : ℕ) (bs : List Bytes) (item : Item) (rest : List (Bool × Item)) (st : Stream)
      → read_stream target (all_bytes bs ++ ((true, item) ∷ rest)) st
        ≡ read_stream target (all_bytes bs) st
  unfolding read_stream
  read_stream-cancelled target [] item rest st = refl
  read_stream-cancelled target (c ∷ bs) item rest st =
      read_stream-cancelled target bs item rest (take_bytes target c st)

  -- A request that misses the cache and is cancelled while its stream runs: what it has sent is put
  -- into the cache under its key as if it were the whole, though the last bytes that came may be
  -- missing and more would have come; the previous text stays.
  pub request-cancelled :
      (replace : Text → Text) (now later : ℕ) (token : Token) (job : SpeakJob) (key : Text)
      (bs : List Bytes) (item : Item) (rest : List (Bool × Item)) (w : World S) (c : CacheStore S)
      → token.at_start ≡ false
      → token.at_flush ≡ true
      → token.at_end ≡ true
      → job.cache_key ≡ some key
      → look_up b hash now job.cache_key w.cache ≡ (none, c)
      → let items = all_bytes bs ++ ((true, item) ∷ rest) in
        let w' = send_request_dyn b hash replace now later token job (streaming items) w in
        ((chunks : List Bytes) × (left : Bytes) × (w'.sent ≡ w.sent ++ map audio chunks)
          × (flatten chunks ++ left ≡ flatten bs)
          × (w'.cache ≡ store_audio b hash later (some key) (some (flatten chunks)) c))
        × (w'.previous_text ≡ w.previous_text)
  unfolding send_request_dyn exchange receive
  request-cancelled replace now later token job key bs item rest w c s f e k miss =
      let target : ℕ = chunk_target_bytes job.format job.sample_rate in
      let start : Stream = record {
        buffer = [];
        full_audio = if is_some job.cache_key then some [] else none;
        sent = w.sent;
      } in
      let end : Stream = (read_stream target (all_bytes bs) start).1 in
      let (reached, (chunks, (sent, full, same, sizes, room))) =
        read_stream-all_bytes target bs start (omega arith) in
      let kept : CacheStore S = (look_up b hash now job.cache_key w.cache).1 in
      let collected : end.full_audio ≡ some (flatten chunks) =
        full
        ∙ ap (λ (o : Option Text). extend_all (if is_some o then some [] else none) chunks) k
        ∙ extend_all-some [] chunks in
      rw
        (
          s,
          miss,
          read_stream-cancelled target bs item rest start,
          reached,
          flush_buffer-cancelled token end f,
        )
        (
          (
            chunks,
            end.buffer,
            sent,
            same,
            ap (λ (o : Option Bytes). store_audio b hash later job.cache_key o kept) collected
                ∙ ap (λ (o : Option Text). store_audio b hash later o (some (flatten chunks)) kept)
                    k
                ∙ ap
                    (λ (r : Option Bytes × CacheStore S).
                      store_audio b hash later (some key) (some (flatten chunks)) r.1)
                    miss,
          ),
          rw e refl,
        )
