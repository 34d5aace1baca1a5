-- ===== src/Voice/Chunks/Buffer.antt =====
-- The audio buffer of the VAD (src/core/voice_manager/vad_processor.rs).
use mathlib.Core.List.{append-nil}
use sayna.Prelude.{
  Float, ℕ, ◌-◌, ◌≤◌, ◌<◌, ◌≡◌, false, List, ◌++◌, arith, length, take, take-append, take-min, sym,
  ◌∙◌, length-take, ltb, Bool-cases, inl, inr, ap,
}
use sayna.Vad.Tracker.{SilenceTracker}
use sayna.Prelude.Bytes.{samples_of_bytes}
use sayna.Voice.Chunks.Frames.{take_frames_lem}
use sayna.Voice.Chunks.{VadState, max_vad_audio_samples, buffer_audio, Model, process_audio_chunk}

buffer_audio_lem :
    (samples : List ℕ) (v : VadState)
    → length v.audio_buffer ≤ max_vad_audio_samples
    → (buffer_audio samples v).audio_buffer ≡ take max_vad_audio_samples (v.audio_buffer ++ samples)
unfolding buffer_audio
buffer_audio_lem samples v h =
    elim (Bool-cases (ltb (length v.audio_buffer) max_vad_audio_samples)) [
      | inl room ↦ rw room (
          ap (◌++◌ v.audio_buffer) (take-min _ samples)
          ∙ sym (take-append max_vad_audio_samples v.audio_buffer samples h))
      | inr full ↦ rw full (
          sym (append-nil v.audio_buffer)
          ∙ ap (λ k. v.audio_buffer ++ take k samples) (no_room full)
          ∙ sym (take-append max_vad_audio_samples v.audio_buffer samples h))
    ]
  where
    no_room :
        ltb (length v.audio_buffer) max_vad_audio_samples ≡ false
        → 0 ≡ max_vad_audio_samples - length v.audio_buffer
    no_room full = ground arith

module _ (f : Float) (m : Model f.F32) where
  open f use {F32}
  open m use {Inner, frame_size}

  -- Whatever the model answers, an error included, the audio buffer after a chunk is the first
  -- 480 000 samples of what it held followed by the chunk's samples, so it never outgrows its limit,
  -- and less than one frame stays in the frame buffer.
  pub process_audio_chunk_buffers :
      (audio : List ℕ) (model : Inner) (v : VadState) (t : SilenceTracker F32)
      → 0 < frame_size
      → length v.audio_buffer ≤ max_vad_audio_samples
      → let v' = (process_audio_chunk f m audio model v t).1 in
        (v'.audio_buffer ≡ take max_vad_audio_samples (v.audio_buffer ++ samples_of_bytes audio))
        × (length v'.audio_buffer ≤ max_vad_audio_samples)
        × (length v'.frame_buffer < frame_size)
  unfolding process_audio_chunk
  process_audio_chunk_buffers audio model v t w h =
      let samples = samples_of_bytes audio in
      let kept = buffer_audio_lem samples v h in
      let (lossless, whole, short, same) =
        take_frames_lem frame_size samples (buffer_audio samples v) w in
      (
        same ∙ kept,
        omega (
          arith,
          ap length (same ∙ kept),
          length-take max_vad_audio_samples (v.audio_buffer ++ samples),
        ),
        short,
      )
