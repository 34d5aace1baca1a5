-- ===== src/Vad/Tracker.antt =====
-- The silence tracker of src/core/vad/silence_tracker.rs: the state machine that turns the speech
-- probability of each frame into an event. The atomics are fields of a record, each method returns
-- the new record; time (`Instant::now()`) is an argument.
pub mod Silence
pub mod Speech
pub mod Traces
mod Tests
use sayna.Prelude.{
  Float, ℕ, ◌+◌, ◌<◌, Bool, true, false, not, ◌&&◌, Option, none, some, List, [], ◌∷◌, ltb, u64,
  if◌then◌else◌,
}

pub data VadEvent : Type 0 where
  speech_start silence_detected speech_resumed turn_end : VadEvent

pub record SilenceTrackerConfig (F32 : Type 0) : Type 0 where
  pub threshold : F32
  pub silence_duration_ms : ℕ
  pub min_speech_duration_ms : ℕ
  pub frame_duration_ms : F32

pub record SilenceTracker (F32 : Type 0) : Type 0 where
  pub config : SilenceTrackerConfig F32
  pub is_speaking : Bool
  pub speech_duration_ms : ℕ
  pub silence_duration_ms : ℕ
  pub turn_end_fired : Bool
  pub speech_start_time : Option ℕ

module _ {F32 : Type 0} where
  unfoldable pub new : SilenceTrackerConfig F32 → SilenceTracker F32
  new c = record {
    config = c;
    is_speaking = false;
    speech_duration_ms = 0;
    silence_duration_ms = 0;
    turn_end_fired = false;
    speech_start_time = none;
  }

  unfoldable pub reset : SilenceTracker F32 → SilenceTracker F32
  reset t = record t {
    is_speaking = false;
    speech_duration_ms = 0;
    silence_duration_ms = 0;
    turn_end_fired = false;
    speech_start_time = none;
  }

  -- The three tests of a speech frame, after the stores: resumed after a silence, a new segment,
  -- resumed within one.
  speech_event : SilenceTracker F32 → Bool → Bool → ℕ → ℕ → SilenceTracker F32 × Option VadEvent
  speech_event t was_speaking had_previous silence_before now =
      if not was_speaking && (had_previous && ltb 0 silence_before)
      then (t, some speech_resumed)
      else if not was_speaking && not had_previous
      then (record t { speech_start_time = some now }, some speech_start)
      else if was_speaking && ltb 0 silence_before
      then (t, some speech_resumed)
      else (t, none)

  unfoldable pub process_speech_frame :
      ℕ → Bool → ℕ → SilenceTracker F32 → SilenceTracker F32 × Option VadEvent
  unfolding speech_event
  process_speech_frame now was_speaking frame t =
      let speech = u64 (t.speech_duration_ms + frame) in
      speech_event
        (record t {
          is_speaking = true;
          speech_duration_ms = speech;
          silence_duration_ms = 0;
          turn_end_fired = false;
        })
        was_speaking (ltb frame speech) t.silence_duration_ms now

  unfoldable pub check_turn_end : ℕ → SilenceTracker F32 → SilenceTracker F32 × Option VadEvent
  check_turn_end new_silence t =
      if t.turn_end_fired
      then (t, none)
      else if ltb new_silence t.config.silence_duration_ms
      then (t, none)
      else if ltb t.speech_duration_ms t.config.min_speech_duration_ms
      then (t, none)
      else (record t { turn_end_fired = true }, some turn_end)

  unfoldable pub process_silence_frame :
      Bool → ℕ → SilenceTracker F32 → SilenceTracker F32 × Option VadEvent
  unfolding check_turn_end
  process_silence_frame was_speaking frame t =
      let new_silence = u64 (t.silence_duration_ms + frame) in
      let t' = record t { silence_duration_ms = new_silence } in
      let t'' = record t' { is_speaking = false } in
      if was_speaking
      then (if ltb t.speech_duration_ms t.config.min_speech_duration_ms
          then (t'', none)
          else (t'', some silence_detected))
      else check_turn_end new_silence t'

abbrev pub emit : Option VadEvent → List VadEvent → List VadEvent
emit none es = es
emit (some e) es = e ∷ es

module _ (f : Float) where
  open f use {F32, gtb, as_u64}

  unfoldable pub process : ℕ → F32 → SilenceTracker F32 → SilenceTracker F32 × Option VadEvent
  unfolding process_speech_frame process_silence_frame
  process now speech_prob t =
      if gtb speech_prob t.config.threshold
      then process_speech_frame now t.is_speaking (as_u64 t.config.frame_duration_ms) t
      else process_silence_frame t.is_speaking (as_u64 t.config.frame_duration_ms) t

  -- The loop of the caller: the frames in order, each with its time and its probability.
  unfoldable pub run : List (ℕ × F32) → SilenceTracker F32 → SilenceTracker F32 × List VadEvent
  run [] t = (t, [])
  run ((now, p) ∷ fs) t =
      let (t', e) = process now p t in let (t'', es) = run fs t' in (t'', emit e es)
