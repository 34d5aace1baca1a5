-- ===== src/Voice/Chunks.antt =====
-- The audio path into the VAD (src/core/voice_manager/vad_processor.rs): the audio buffer kept for
-- turn detection, the frame buffer, and the frames handed to the model one by one. The model, its
-- frame size and the clock are parameters; a sample is its 16-bit pattern.
pub mod Frames
pub mod Buffer
mod Tests
use sayna.Prelude.{
  Float, ℕ, zero, suc, ◌+◌, ◌-◌, Bool, true, false, not, ◌&&◌, ◌||◌, Option, none, some, List, [],
  ◌∷◌, ◌++◌, ltb, leb, if◌then◌else◌, length, take, drop, min,
}
use sayna.Prelude.Bytes.{samples_of_bytes}
use sayna.Vad.Tracker.{VadEvent, SilenceTracker, process, emit}

-- 30 s at 16 kHz, and 0.5 s.
abbrev pub max_vad_audio_samples : ℕ
max_vad_audio_samples = 480000

abbrev pub min_audio_samples : ℕ
min_audio_samples = 8000

pub record VadState : Type 0 where
  pub audio_buffer : List ℕ
  pub frame_buffer : List ℕ
  pub buffer_limit_warned : Bool

unfoldable pub new : VadState
new = record { audio_buffer = []; frame_buffer = []; buffer_limit_warned = false }

unfoldable pub reset : VadState → VadState
reset v = record { audio_buffer = []; frame_buffer = []; buffer_limit_warned = false }

unfoldable pub clear_audio_buffer : VadState → VadState
clear_audio_buffer v = record v { audio_buffer = [] }

-- The samples that still fit are kept for turn detection; the first time that some do not, it warns.
unfoldable pub buffer_audio : List ℕ → VadState → VadState
buffer_audio samples v =
    if ltb (length v.audio_buffer) max_vad_audio_samples
    then (let added = min (length samples) (max_vad_audio_samples - length v.audio_buffer) in
        record v {
          audio_buffer = v.audio_buffer ++ take added samples;
          buffer_limit_warned = ltb added (length samples) || v.buffer_limit_warned;
        })
    else v

-- `while frame_buffer.len() >= frame_size { drain(..frame_size) }`, on fuel.
unfoldable pub drain_frames : ℕ → ℕ → List ℕ → List (List ℕ) × List ℕ
drain_frames zero size buffer = ([], buffer)
drain_frames (suc fuel) size buffer =
    let (frames, rest) = drain_frames fuel size (drop size buffer) in
    if leb size (length buffer) then (take size buffer ∷ frames, rest) else ([], buffer)

-- The frame buffer takes the samples, and gives the whole frames it then holds.
unfoldable pub take_frames : ℕ → List ℕ → VadState → List (List ℕ) × VadState
unfolding drain_frames
take_frames size samples v =
    let buffer = v.frame_buffer ++ samples in
    let (frames, rest) = drain_frames (length buffer) size buffer in
    (frames, record v { frame_buffer = rest })

-- The model: its state, the probability of a frame or `none` for an error, and the time then.
pub record Model (F32 : Type 0) : Type 1 where
  pub Inner : Type 0
  pub frame_size : ℕ
  pub process_audio : List ℕ → Inner → Inner × Option F32
  pub clock : Inner → ℕ

module _ (f : Float) (m : Model f.F32) where
  open f use {F32}
  open m use {Inner, frame_size, process_audio, clock}

  -- The loop over the frames: an error ends it, and the events so far are lost with it.
  unfoldable pub run_model :
      List (List ℕ)
      → List VadEvent
      → Inner
      → SilenceTracker F32
      → Inner × SilenceTracker F32 × Option (List VadEvent)
  run_model [] events model t = (model, t, some events)
  run_model (frame ∷ frames) events model t =
      let (model', answer) = process_audio frame model in
      elim answer [
        | none ↦ (model', t, none)
        | some prob ↦
            let (t', event) = process f (clock model') prob t in
            run_model frames (events ++ emit event []) model' t'
      ]

  unfoldable pub process_audio_chunk :
      List ℕ
      → Inner
      → VadState
      → SilenceTracker F32
      → Inner × VadState × SilenceTracker F32 × Option (List VadEvent)
  unfolding buffer_audio take_frames run_model
  process_audio_chunk audio model v t =
      let samples = samples_of_bytes audio in
      let (frames, v') = take_frames frame_size samples (buffer_audio samples v) in
      let (model', t', events) = run_model frames [] model t in (model', v', t', events)
