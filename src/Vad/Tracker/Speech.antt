-- ===== src/Vad/Tracker/Speech.antt =====
-- Spoken frames in src/core/vad/silence_tracker.rs, and what the counters mean.
use sayna.Prelude.{Float, ℕ, ◌+◌, ◌≤◌, ◌<◌, ◌≡◌, true, false, some, arith, u64_mod}
use sayna.Vad.Tracker.{
  speech_resumed, turn_end, SilenceTracker, process, reset, new, SilenceTrackerConfig,
}
use sayna.Vad.Tracker.Silence.{frame_ms}

module _ (f : Float) where
  open f use {F32, gtb, as_u64}

  -- What holds of a tracker between two frames: while speaking there is no silence and no fired
  -- turn end, and a fired turn end has its silence and its speech.
  pub record Inv (t : SilenceTracker F32) : Type 0 where
    pub speaking_no_silence : t.is_speaking ≡ true → t.silence_duration_ms ≡ 0
    pub speaking_not_fired : t.is_speaking ≡ true → t.turn_end_fired ≡ false
    pub fired_silence :
        t.turn_end_fired ≡ true → t.config.silence_duration_ms ≤ t.silence_duration_ms
    pub fired_speech :
        t.turn_end_fired ≡ true → t.config.min_speech_duration_ms ≤ t.speech_duration_ms

  -- A frame, spoken or silent, keeps the invariant when the silence counter does not overflow.
  pub process-Inv :
      (now : ℕ) (p : F32) (t : SilenceTracker F32)
      → Inv t
      → t.silence_duration_ms + frame_ms f t < u64_mod
      → Inv (process f now p t).0
  unfolding process
  process-Inv now p t v b = ground arith

  pub reset-Inv : (t : SilenceTracker F32) → Inv (reset t)
  unfolding reset
  reset-Inv t = ground arith

  pub new-Inv : (c : SilenceTrackerConfig F32) → Inv (new c)
  unfolding new
  new-Inv c = ground arith

  -- Speech that follows a turn end with no reset between is reported as resumed, not as started,
  -- when the frames have a length, some speech was counted and the two counters do not overflow.
  pub resumed_after_turn_end :
      (now later : ℕ) (p q : F32) (t : SilenceTracker F32)
      → (process f now p t).1 ≡ some turn_end
      → gtb q t.config.threshold ≡ true
      → 0 < t.speech_duration_ms
      → 0 < frame_ms f t
      → t.speech_duration_ms + frame_ms f t < u64_mod
      → t.silence_duration_ms + frame_ms f t < u64_mod
      → (process f later q (process f now p t).0).1 ≡ some speech_resumed
  unfolding process
  resumed_after_turn_end now later p q t e s v w b c = ground arith
