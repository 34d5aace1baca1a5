-- ===== src/Vad/Tracker/Silence.antt =====
-- Silent frames after speech in src/core/vad/silence_tracker.rs.
use sayna.Prelude.{
  Float, length, ℕ, ◌+◌, ◌*◌, ◌≤◌, ◌<◌, ◌≡◌, refl, true, false, none, some, List, [], ◌∷◌, arith,
  ltb, leb, ◌&&◌, u64, u64_mod, if◌then◌else◌,
}
use native.Mathlib.Decide.{dec_lt}
use sayna.Vad.Tracker.{silence_detected, turn_end, SilenceTracker, process, run}

module _ (f : Float) where
  open f use {F32, gtb, as_u64}

  abbrev pub frame_ms : SilenceTracker F32 → ℕ
  frame_ms t = as_u64 t.config.frame_duration_ms

  -- Every frame of the stretch is at or below the threshold.
  abbrev pub AllSilent : F32 → List (ℕ × F32) → Type 0
  AllSilent threshold [] = Unit {0}
  AllSilent threshold ((now, p) ∷ fs) = (gtb p threshold ≡ false) × AllSilent threshold fs

  -- The state after a silent frame, by what has been said and what has fired.
  abbrev longer : SilenceTracker F32 → SilenceTracker F32
  longer t = record t { silence_duration_ms = u64 (t.silence_duration_ms + frame_ms t) }

  fired_step :
      (now : ℕ) (p : F32) (t : SilenceTracker F32)
      → gtb p t.config.threshold ≡ false
      → t.is_speaking ≡ false
      → t.turn_end_fired ≡ true
      → process f now p t ≡ (longer t, none)
  unfolding process
  fired_step now p t s q h = ground arith

  below_step :
      (now : ℕ) (p : F32) (t : SilenceTracker F32)
      → gtb p t.config.threshold ≡ false
      → t.is_speaking ≡ false
      → u64 (t.silence_duration_ms + frame_ms t) < t.config.silence_duration_ms
      → process f now p t ≡ (longer t, none)
  unfolding process
  below_step now p t s q h = ground arith

  fires_step :
      (now : ℕ) (p : F32) (t : SilenceTracker F32)
      → gtb p t.config.threshold ≡ false
      → t.is_speaking ≡ false
      → t.turn_end_fired ≡ false
      → t.config.min_speech_duration_ms ≤ t.speech_duration_ms
      → t.config.silence_duration_ms ≤ u64 (t.silence_duration_ms + frame_ms t)
      → process f now p t ≡ (record (longer t) { turn_end_fired = true }, some turn_end)
  unfolding process
  fires_step now p t s q h m l = ground arith

  pause_step :
      (now : ℕ) (p : F32) (t : SilenceTracker F32)
      → gtb p t.config.threshold ≡ false
      → t.is_speaking ≡ true
      → t.config.min_speech_duration_ms ≤ t.speech_duration_ms
      → process f now p t ≡ (record (longer t) { is_speaking = false }, some silence_detected)
  unfolding process
  pause_step now p t s q m = ground arith

  turn_end-state :
      (now : ℕ) (p : F32) (t : SilenceTracker F32)
      → (process f now p t).1 ≡ some turn_end
      → (process f now p t).0 ≡ record (longer t) { turn_end_fired = true; is_speaking = false }
  unfolding process
  turn_end-state now p t e = ground arith

  -- A turn end that has fired stays fired, and nothing more is emitted.
  run_fired :
      (fs : List (ℕ × F32)) (t : SilenceTracker F32)
      → t.is_speaking ≡ false
      → t.turn_end_fired ≡ true
      → AllSilent t.config.threshold fs
      → (run f fs t).1 ≡ []
  unfolding run
  run_fired [] t q h a = refl
  run_fired ((now, p) ∷ fs) t q h a =
      rw (fired_step now p t a.0 q h) (run_fired fs (longer t) q h a.1)

  -- After a turn end no event is emitted for as long as the frames stay silent.
  pub turn_end_once :
      (now : ℕ) (p : F32) (t : SilenceTracker F32) (fs : List (ℕ × F32))
      → (process f now p t).1 ≡ some turn_end
      → AllSilent t.config.threshold fs
      → (run f fs (process f now p t).0).1 ≡ []
  turn_end_once now p t fs e a =
      rw (turn_end-state now p t e) (
        run_fired fs (record (longer t) { turn_end_fired = true; is_speaking = false }) refl refl a)

  -- `n` silent frames in a pause that has lasted `s` ms.
  quiet-run :
      (fs : List (ℕ × F32)) (t : SilenceTracker F32)
      → t.is_speaking ≡ false
      → t.turn_end_fired ≡ false
      → t.config.min_speech_duration_ms ≤ t.speech_duration_ms
      → t.silence_duration_ms + length fs * frame_ms t < u64_mod
      → AllSilent t.config.threshold fs
      → (run f fs t).1 ≡ (
          if ltb 0 (length fs)
            && leb t.config.silence_duration_ms (t.silence_duration_ms + length fs * frame_ms t)
          then turn_end ∷ []
          else [])
  unfolding run
  quiet-run [] t q h m b a = refl
  quiet-run ((now, p) ∷ fs) t q h m b a =
      elim (dec_lt (u64 (t.silence_duration_ms + frame_ms t)) t.config.silence_duration_ms) [
        | yes l ↦
            rw (below_step now p t a.0 q l)
              (ground (arith, quiet-run fs (longer t) q h m (omega arith) a.1))
        | no l ↦
            rw (fires_step now p t a.0 q h m (omega arith)) (
              ground (arith, run_fired fs (record (longer t) { turn_end_fired = true }) q refl a.1))
      ]

  -- The first silent frame after enough speech announces the silence; the turn ends with the frame
  -- at which the silence reaches the threshold, from the second frame on, and never twice. Here
  -- the pause has `1 + length fs` frames and the counters do not overflow.
  pub pause_events :
      (now : ℕ) (p : F32) (fs : List (ℕ × F32)) (t : SilenceTracker F32)
      → t.is_speaking ≡ true
      → t.turn_end_fired ≡ false
      → t.silence_duration_ms ≡ 0
      → t.config.min_speech_duration_ms ≤ t.speech_duration_ms
      → (1 + length fs) * frame_ms t < u64_mod
      → AllSilent t.config.threshold ((now, p) ∷ fs)
      → (run f ((now, p) ∷ fs) t).1
        ≡ silence_detected
          ∷ (if ltb 0 (length fs) && leb t.config.silence_duration_ms ((1 + length fs) * frame_ms t)
              then turn_end ∷ []
              else [])
  unfolding run
  pause_events now p fs t q h z m b a = rw (pause_step now p t a.0 q m) (
      ground (
        arith,
        quiet-run fs (record (longer t) { is_speaking = false }) refl h m (omega arith) a.1,
      ))
