-- ===== src/Livekit/Worker/Speech.antt =====
-- Speech through the queue and the worker (src/livekit/operations.rs, client/operation_worker.rs and
-- client/audio.rs).
use native.Mathlib.Nat.{mul-mod_left, mod-eq_of_lt}
use sayna.Prelude.{
  ℕ, ◌+◌, ◌*◌, ◌/◌, ◌%◌, ◌^◌, ◌<◌, ◌≡◌, refl, ap, ◌∙◌, Bool, true, false, ◌==◌, some, none, List,
  [], ◌∷◌, ◌++◌, map, arith, Bool-cases, inl, inr, ◌⊎◌, ltb, if◌then◌else◌, length,
}
use sayna.Prelude.Int.{ℤ, IsI16, to_bits, of_bits-to_bits}
use sayna.Prelude.Bytes.{bytes_of_samples, samples_of_bytes, samples_of_bytes-bytes_of_samples}
use sayna.Livekit.Queue.{
  Operation, send_audio, send_message, send_data_message, clear_audio, is_connected,
  has_audio_source, reconnect, shutdown, OperationQueue, QueueStats, record_operation, cancel_audio,
}
use sayna.Livekit.Queue.Generations.{IsStale, AllStale, Reached, Reached-IsCurrent}
use sayna.Livekit.Worker.{
  Json, Room, Client, done, pcm_to_samples, convert_frame_to_audio, signed, process_send_audio,
  process_operation, is_shutdown, run_worker,
}

abbrev pub AllI16 : List ℤ → Type 0
AllI16 [] = Unit {0}
AllI16 (x ∷ xs) = IsI16 x × AllI16 xs

signed-bits : (xs : List ℤ) → AllI16 xs → signed (map to_bits xs) ≡ xs
signed-bits [] h = refl
signed-bits (x ∷ xs) h =
    ap (λ y. y ∷ signed (map to_bits xs)) (of_bits-to_bits x h.0) ∙ ap (◌∷◌ x) (signed-bits xs h.1)

length-bytes : (xs : List ℤ) → length (convert_frame_to_audio xs) ≡ 2 * length xs
unfolding convert_frame_to_audio
length-bytes [] = refl
length-bytes (x ∷ xs) = omega (arith, length-bytes xs)

-- A frame of audio written as bytes is read back as it was, sample by sample, when its samples are
-- 16-bit and it holds one or more whole frames of the channels.
pub pcm_to_samples-convert_frame_to_audio :
    (frame : List ℤ) (channels n : ℕ)
    → AllI16 frame
    → length frame ≡ n * channels
    → 0 < length frame
    → pcm_to_samples (convert_frame_to_audio frame) channels ≡ inr frame
unfolding pcm_to_samples convert_frame_to_audio bytes_of_samples
pcm_to_samples-convert_frame_to_audio frame channels n small whole some_samples =
    let len = length-bytes frame in
    let half : length (convert_frame_to_audio frame) / 2 ≡ length frame = omega (arith, len) in
    let even : (length (convert_frame_to_audio frame) % 2 == 0) ≡ true = ground (arith, len) in
    let present : (length frame == 0) ≡ false = ground arith in
    let divides : (length frame % channels == 0) ≡ true =
      ap (λ k. k % channels == 0) whole ∙ ap (λ k. k == 0) (mul-mod_left n channels) in
    let samples : signed (samples_of_bytes (convert_frame_to_audio frame)) ≡ frame =
      ap signed (samples_of_bytes-bytes_of_samples (map to_bits frame)) ∙ signed-bits frame small in
    rw (even, half, present, divides) (ap inr samples)

module _ (json : Json) where
  open json use {Value}

  process_send_audio-generation :
      (bytes : List ℕ) (c : Client)
      → (process_send_audio bytes c).1.audio_generation ≡ c.audio_generation
  unfolding process_send_audio
  process_send_audio-generation bytes c = ground arith

  -- What one operation does to the buffered speech and to the generation, when it is no fresh audio.
  stale_operation :
      (room : Room) (op : Operation Value) (c : Client)
      → IsStale c.audio_generation op
      → let c' = process_operation json room op c in
        (c'.audio_generation ≡ c.audio_generation)
        × ((c'.audio_pump.tts ≡ c.audio_pump.tts) ⊎ (c'.audio_pump.tts ≡ []))
  unfolding process_operation
  stale_operation room (send_audio bytes ticket old) c h = ground arith
  stale_operation room (send_message message role none debug ticket) c h = ground arith
  stale_operation room (send_message message role (some t) debug ticket) c h = ground arith
  stale_operation room (send_data_message topic value ticket) c h = ground arith
  stale_operation room (clear_audio ticket) c h = ground arith
  stale_operation room (is_connected ticket) c h = (refl, inl refl)
  stale_operation room (has_audio_source ticket) c h = (refl, inl refl)
  stale_operation room (reconnect ticket) c h = ground arith
  stale_operation room (shutdown (some ticket)) c h = (refl, inl refl)
  stale_operation room (shutdown none) c h = (refl, inl refl)

  stale_run :
      (g : ℕ) (ops : List (Operation Value × Room × ℕ × Bool)) (c : Client) (stats : QueueStats)
      → c.audio_generation ≡ g
      → AllStale g (map (λ r. r.0) ops)
      → let c' = (run_worker json ops c stats).0 in
        (c'.audio_pump.tts ≡ c.audio_pump.tts) ⊎ (c'.audio_pump.tts ≡ [])
  unfolding run_worker
  stale_run g [] c stats e h = inl refl
  stale_run g ((op, room, latency, unlocked) ∷ ops) c stats e h =
      let c' = process_operation json room op c in
      let stats' = if unlocked then record_operation op true latency stats else stats in
      let (same, speech) = stale_operation room op c (rw e h.0) in
      let rest = stale_run g ops c' stats' (same ∙ e) h.1 in
      elim (Bool-cases (is_shutdown json op)) [
        | inl f ↦ rw f speech
        | inr f ↦ rw f (chain rest speech)
      ]
    where
      chain : {a b z : List ℤ} → (z ≡ b) ⊎ (z ≡ []) → (b ≡ a) ⊎ (b ≡ []) → (z ≡ a) ⊎ (z ≡ [])
      chain (inl p) (inl r) = inl (p ∙ r)
      chain (inl p) (inr r) = inr (p ∙ r)
      chain (inr p) r = inr p

  -- A cancel silences everything queued before it, in every queue that its operations reach from a
  -- new one by fewer than 2 ^ 64 cancels. When the worker, whose client shares the generation with
  -- the queue, runs the operations that were queued at the cancel, whatever the room answers, none of
  -- their audio reaches the buffer of the pump: the buffer stays what it was, or is empty.
  pub cancel_silences :
      (q : OperationQueue Value) (ops : List (Operation Value × Room × ℕ × Bool)) (c : Client)
      (stats : QueueStats)
      → Reached q
      → q.audio_generation + 1 < 2 ^ 64
      → map (λ r. r.0) ops ≡ q.queued
      → c.audio_generation ≡ (cancel_audio q).0
      → let c' = (run_worker json ops c stats).0 in
        (c'.audio_pump.tts ≡ c.audio_pump.tts) ⊎ (c'.audio_pump.tts ≡ [])
  unfolding cancel_audio
  cancel_silences q ops c stats reached small queued shared =
      let g : c.audio_generation ≡ q.audio_generation + 1 = shared ∙ mod-eq_of_lt small in
      stale_run (q.audio_generation + 1) ops c stats g (rw queued (Reached-IsCurrent reached))

  -- Audio of the current generation that holds one or more whole frames of 16-bit samples,
  -- processed by a connected client, is appended to the speech the pump is to play, sample by
  -- sample, and the sender gets Ok.
  pub fresh_audio_queued :
      (frame : List ℤ) (n ticket : ℕ) (room : Room) (c : Client)
      → AllI16 frame
      → length frame ≡ n * c.channels
      → 0 < length frame
      → c.connected ≡ true
      → let op = send_audio (convert_frame_to_audio frame) ticket c.audio_generation in
        let c' = process_operation json room op c in
        (c'.audio_pump.tts ≡ c.audio_pump.tts ++ frame)
        × (c'.replies ≡ c.replies ++ ((ticket, done) ∷ []))
  unfolding process_operation
  fresh_audio_queued frame n ticket room c small whole some_samples connected =
      let read =
        pcm_to_samples-convert_frame_to_audio frame c.channels n small whole some_samples in
      let fresh : ltb c.audio_generation c.audio_generation ≡ false = ground arith in
      simp (fresh, connected, read) (refl, refl)
