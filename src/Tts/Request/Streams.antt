-- ===== src/Tts/Request/Streams.antt =====
-- What a stream that is not cancelled sends (src/core/tts/provider.rs, `send_request_dyn`).
use mathlib.Core.List.{append_assoc, append-nil}
use sayna.Prelude.{
  ℕ, ◌<◌, ◌==◌, max, Bool, true, false, Option, none, some, List, [], ◌∷◌, ◌++◌, map, if◌then◌else◌,
  length, is_some, refl, ap, sym, ◌∙◌, ◌≡◌, inl, inr, Bool-cases, arith,
}
use sayna.Prelude.Text.{Text}
use sayna.Cache.Store.{CacheBackend, CacheStore}
use sayna.Tts.{Bytes, Message, audio}
use sayna.Tts.Chunks.{cut, chunk_target_bytes}
use sayna.Tts.Chunks.Cut.{flatten, flatten-append, AllOfLength, AllOfLength-append, cut-whole}
use sayna.Tts.Request.{
  SpeakJob, World, streaming, look_up, store_audio, send_request_dyn, exchange, receive, Item,
  bytes, Token, Stream, extend, extend_all, take_bytes, read_stream, flush_buffer,
}

abbrev pub all_bytes : List Bytes → List (Bool × Item)
all_bytes [] = []
all_bytes (b ∷ bs) = (false, bytes b) ∷ all_bytes bs

-- `after` is `before` with chunks sent: they and what stays in the buffer are what was in it and
-- arrived, whole chunks where the format has a size.
abbrev pub HasSent : ℕ → Bytes → List Bytes → Stream → Stream → Type 0
HasSent target arrived chunks before after =
    (after.sent ≡ before.sent ++ map audio chunks)
    × (after.full_audio ≡ extend_all before.full_audio chunks)
    × (flatten chunks ++ after.buffer ≡ before.buffer ++ arrived)
    × (0 < target → AllOfLength target chunks)
    × (length after.buffer < max target 1)

only_nil : {A : Type 0} (xs : List A) → length xs < 1 → xs ≡ []
only_nil [] h = refl
only_nil (x ∷ xs) h = absurd (omega arith)

pub take_bytes_lem :
    (target : ℕ) (b : Bytes) (st : Stream)
    → length st.buffer < max target 1
    → (chunks : List Bytes) × HasSent target b chunks st (take_bytes target b st)
unfolding take_bytes
take_bytes_lem target b st h = elim (Bool-cases (target == 0)) [
  | inl e ↦
      let nil : st.buffer ≡ [] = only_nil st.buffer (ground arith) in
      (b ∷ [], rw e (refl, refl, simp (nil, append-nil) refl, (λ p. absurd (ground arith)), h))
  | inr e ↦
      let (same, sizes, room) =
        cut-whole (length b) target st.buffer b (ground arith) (omega arith) in
      ((cut (length b) target st.buffer b).0, rw e (refl, refl, same, (λ p. sizes), ground arith))
]

extend_all-append :
    (full : Option Bytes) (cs ds : List Bytes)
    → extend_all full (cs ++ ds) ≡ extend_all (extend_all full cs) ds
extend_all-append full [] ds = refl
extend_all-append full (c ∷ cs) ds = extend_all-append (extend full c) cs ds

pub map-append :
    {A B : Type 0} (f : A → B) (xs ys : List A) → map f (xs ++ ys) ≡ map f xs ++ map f ys
map-append f [] ys = refl
map-append f (x ∷ xs) ys = ap (λ l. f x ∷ l) (map-append f xs ys)

pub read_stream-all_bytes :
    (target : ℕ) (bs : List Bytes) (st : Stream)
    → length st.buffer < max target 1
    → ((read_stream target (all_bytes bs) st).0 ≡ true)
      × ((chunks : List Bytes) × HasSent target
            (flatten bs)
            chunks
            st
            (read_stream target (all_bytes bs) st).1)
unfolding read_stream
read_stream-all_bytes target [] st h =
    (refl, ([], (sym (append-nil st.sent), refl, sym (append-nil st.buffer), (λ p. tt), h)))
read_stream-all_bytes target (b ∷ bs) st h =
    let mid : Stream = take_bytes target b st in
    let end : Stream = (read_stream target (all_bytes bs) mid).1 in
    let (chunks, (sent, full, same, sizes, room)) = take_bytes_lem target b st h in
    let (reached, (more, (sent', full', same', sizes', room'))) =
      read_stream-all_bytes target bs mid room in
    (
      reached,
      (
        chunks ++ more,
        (
          sent'
              ∙ ap (λ (l : List Message). l ++ map audio more) sent
              ∙ append_assoc st.sent (map audio chunks) (map audio more)
              ∙ ap (λ (l : List Message). st.sent ++ l) (sym (map-append audio chunks more)),
          full'
              ∙ ap (λ (f : Option Bytes). extend_all f more) full
              ∙ sym (extend_all-append st.full_audio chunks more),
          ap (λ (l : Bytes). l ++ end.buffer) (flatten-append chunks more)
              ∙ append_assoc (flatten chunks) (flatten more) end.buffer
              ∙ ap (λ (l : Bytes). flatten chunks ++ l) same'
              ∙ sym (append_assoc (flatten chunks) mid.buffer (flatten bs))
              ∙ ap (λ (l : Bytes). l ++ flatten bs) same
              ∙ append_assoc st.buffer b (flatten bs),
          (λ p. AllOfLength-append target chunks more (sizes p) (sizes' p)),
          room',
        ),
      ),
    )

pub extend_all-some :
    (full : Bytes) (cs : List Bytes) → extend_all (some full) cs ≡ some (full ++ flatten cs)
extend_all-some full [] = ap some (sym (append-nil full))
extend_all-some full (c ∷ cs) =
    extend_all-some (full ++ c) cs ∙ ap some (append_assoc full c (flatten cs))

-- A last chunk, unless it is empty.
abbrev pub last_chunk : Bytes → List Bytes
last_chunk [] = []
last_chunk (x ∷ xs) = (x ∷ xs) ∷ []

flush_buffer-parts :
    (token : Token) (l : Bytes) (full : Option Bytes) (out : List Message)
    → token.at_flush ≡ false
    → let st : Stream = record { buffer = l; full_audio = full; sent = out } in
      ((flush_buffer token st).sent ≡ out ++ map audio (last_chunk l))
      × ((flush_buffer token st).full_audio ≡ extend_all full (last_chunk l))
unfolding flush_buffer
flush_buffer-parts token [] full out h = (sym (append-nil out), refl)
flush_buffer-parts token (x ∷ l) full out h = rw h (refl, refl)

flush_buffer-sent :
    (token : Token) (st : Stream)
    → token.at_flush ≡ false
    → ((flush_buffer token st).sent ≡ st.sent ++ map audio (last_chunk st.buffer))
      × ((flush_buffer token st).full_audio ≡ extend_all st.full_audio (last_chunk st.buffer))
flush_buffer-sent token st h = flush_buffer-parts token st.buffer st.full_audio st.sent h

flatten-last_chunk : (l : Bytes) → flatten (last_chunk l) ≡ l
flatten-last_chunk [] = refl
flatten-last_chunk (x ∷ l) = append-nil (x ∷ l)

module _ {S : Type 0} (b : CacheBackend S) (hash : Text → Text) where
  store_audio-collected :
      (now : ℕ) (key : Option Text) (cs : List Bytes) (c : CacheStore S)
      → store_audio b hash now key (extend_all (if is_some key then some [] else none) cs) c
        ≡ store_audio b hash now key (some (flatten cs)) c
  unfolding store_audio
  store_audio-collected now none cs c = refl
  store_audio-collected now (some key) cs c = rw (extend_all-some [] cs) refl

  -- A request that misses the cache, whose token stays uncancelled and whose stream breaks nowhere:
  -- the audio it sends is the bytes of the stream, in order, in chunks of the size of its format (less
  -- for the last one); the cache gets exactly those bytes under the key, if there is one; the text
  -- becomes the previous text; and one HTTP request was made, with the previous text before it.
  pub request-streams :
      (replace : Text → Text) (now later : ℕ) (token : Token) (job : SpeakJob) (bs : List Bytes)
      (w : World S) (c : CacheStore S)
      → token.at_start ≡ false
      → token.at_flush ≡ false
      → token.at_end ≡ false
      → look_up b hash now job.cache_key w.cache ≡ (none, c)
      → let w' = send_request_dyn b hash replace now later token job (streaming (all_bytes bs)) w in
        let target = chunk_target_bytes job.format job.sample_rate in
        ((whole : List Bytes) × (tail : Bytes) × (w'.sent
            ≡ w.sent ++ map audio (whole ++ last_chunk tail))
          × (flatten whole ++ tail ≡ flatten bs)
          × (0 < target → AllOfLength target whole)
          × (length tail < max target 1))
        × (w'.cache ≡ store_audio b hash later job.cache_key (some (flatten bs)) c)
        × (w'.previous_text ≡ some (replace job.text))
        × (w'.requests ≡ w.requests ++ ((replace job.text, w.previous_text) ∷ []))
  unfolding send_request_dyn exchange receive
  request-streams replace now later token job bs w c s f e miss =
      let target : ℕ = chunk_target_bytes job.format job.sample_rate in
      let start : Stream = record {
        buffer = [];
        full_audio = if is_some job.cache_key then some [] else none;
        sent = w.sent;
      } in
      let end : Stream = (read_stream target (all_bytes bs) start).1 in
      let (reached, (chunks, (sent, full, same, sizes, room))) =
        read_stream-all_bytes target bs start (omega arith) in
      let (sent', full') = flush_buffer-sent token end f in
      let last : List Bytes = last_chunk end.buffer in
      let whole : flatten (chunks ++ last) ≡ flatten bs =
        flatten-append chunks last
        ∙ ap (λ (l : Bytes). flatten chunks ++ l) (flatten-last_chunk end.buffer)
        ∙ same in
      let collected : (flush_buffer token end).full_audio
          ≡ extend_all start.full_audio (chunks ++ last) =
        full'
        ∙ ap (λ (o : Option Bytes). extend_all o last) full
        ∙ sym (extend_all-append start.full_audio chunks last) in
      let kept : CacheStore S = (look_up b hash now job.cache_key w.cache).1 in
      rw (s, miss, reached)
        (
          (
            chunks,
            end.buffer,
            sent'
                ∙ ap (λ (l : List Message). l ++ map audio last) sent
                ∙ append_assoc w.sent (map audio chunks) (map audio last)
                ∙ ap (λ (l : List Message). w.sent ++ l) (sym (map-append audio chunks last)),
            same,
            sizes,
            room,
          ),
          ap (λ (o : Option Bytes). store_audio b hash later job.cache_key o kept) collected
              ∙ store_audio-collected later job.cache_key (chunks ++ last) kept
              ∙ ap (λ (l : Bytes). store_audio b hash later job.cache_key (some l) kept) whole
              ∙ ap
                  (λ (r : Option Bytes × CacheStore S).
                    store_audio b hash later job.cache_key (some (flatten bs)) r.1)
                  miss,
          rw e refl,
          refl,
        )
