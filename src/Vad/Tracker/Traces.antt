-- ===== src/Vad/Tracker/Traces.antt =====
-- What holds of every sequence of frames from a new tracker (src/core/vad/silence_tracker.rs).
use sayna.Prelude.{
  Float, ℕ, suc, ◌+◌, ◌*◌, ◌≤◌, ◌<◌, ◌≡◌, refl, true, false, Option, none, some, List, [], ◌∷◌,
  arith, Bool-cases, inl, inr, ◌∙◌, u64_mod, if◌then◌else◌, length,
}
use sayna.Vad.Tracker.{
  VadEvent, speech_start, silence_detected, turn_end, SilenceTracker, process, new, run, emit,
  SilenceTrackerConfig,
}
use sayna.Vad.Tracker.Silence.{frame_ms}

-- The events that speech gives rise to.
abbrev pub IsSpeechEvent : Option VadEvent → Type 0
IsSpeechEvent (some silence_detected) = ⊥
IsSpeechEvent (some turn_end) = ⊥
IsSpeechEvent _ = Unit {0}

abbrev pub AllSpeechEvents : List VadEvent → Type 0
AllSpeechEvents [] = Unit {0}
AllSpeechEvents (e ∷ es) = IsSpeechEvent (some e) × AllSpeechEvents es

abbrev pub starts : List VadEvent → ℕ
starts [] = 0
starts (speech_start ∷ es) = suc (starts es)
starts (_ ∷ es) = starts es

module _ (f : Float) where
  open f use {F32, gtb, as_u64}

  -- The speech that the frames hold, in ms.
  abbrev pub spoken_ms : SilenceTrackerConfig F32 → List (ℕ × F32) → ℕ
  spoken_ms c [] = 0
  spoken_ms c ((now, p) ∷ fs) =
      (if gtb p c.threshold then as_u64 c.frame_duration_ms else 0) + spoken_ms c fs

  emit-AllSpeechEvents :
      (e : Option VadEvent) (es : List VadEvent)
      → IsSpeechEvent e
      → AllSpeechEvents es
      → AllSpeechEvents (emit e es)
  emit-AllSpeechEvents none es h a = a
  emit-AllSpeechEvents (some e) es h a = (h, a)

  too_short-step :
      (now : ℕ) (p : F32) (t : SilenceTracker F32)
      → t.speech_duration_ms < t.config.min_speech_duration_ms
      → IsSpeechEvent (process f now p t).1
  unfolding process
  too_short-step now p t h = ground arith

  speech-process :
      (now : ℕ) (p : F32) (t : SilenceTracker F32)
      → (process f now p t).0.speech_duration_ms
        ≤ t.speech_duration_ms + (if gtb p t.config.threshold then frame_ms f t else 0)
  unfolding process
  speech-process now p t = ground arith

  config-process :
      (now : ℕ) (p : F32) (t : SilenceTracker F32) → (process f now p t).0.config ≡ t.config
  unfolding process
  config-process now p t = ground arith

  too_short-run :
      (fs : List (ℕ × F32)) (t : SilenceTracker F32)
      → t.speech_duration_ms + spoken_ms t.config fs < t.config.min_speech_duration_ms
      → AllSpeechEvents (run f fs t).1
  unfolding run
  too_short-run [] t h = tt
  too_short-run ((now, p) ∷ fs) t h =
      emit-AllSpeechEvents (process f now p t).1 _ (too_short-step now p t (omega arith)) (
        too_short-run fs (process f now p t).0
          (rw (config-process now p t) (omega (arith, speech-process now p t))))

  -- Frames that hold less speech than the configured minimum, in any order and with any pauses,
  -- give neither a silence event nor a turn end.
  pub no_turn_without_speech :
      (fs : List (ℕ × F32)) (c : SilenceTrackerConfig F32)
      → spoken_ms c fs < c.min_speech_duration_ms
      → AllSpeechEvents (run f fs (new c)).1
  unfolding new
  no_turn_without_speech fs c h = too_short-run fs (new c) (omega arith)

  -- Once something has been said, `speech_start` does not come again.
  no_start-step :
      (now : ℕ) (p : F32) (t : SilenceTracker F32)
      → 0 < t.speech_duration_ms
      → t.speech_duration_ms + frame_ms f t < u64_mod
      → (es : List VadEvent)
      → (starts (emit (process f now p t).1 es) ≡ starts es)
        × (0 < (process f now p t).0.speech_duration_ms)
        × ((process f now p t).0.speech_duration_ms ≤ t.speech_duration_ms + frame_ms f t)
  unfolding process
  no_start-step now p t h b es = ground arith

  no_start-run :
      (fs : List (ℕ × F32)) (t : SilenceTracker F32)
      → 0 < t.speech_duration_ms
      → t.speech_duration_ms + length fs * frame_ms f t < u64_mod
      → starts (run f fs t).1 ≡ 0
  unfolding run
  no_start-run [] t h b = refl
  no_start-run ((now, p) ∷ fs) t h b =
      let t' = (process f now p t).0 in
      let (same, more, bound) = no_start-step now p t h (omega arith) (run f fs t').1 in
      let b' : t'.speech_duration_ms + length fs * frame_ms f t' < u64_mod =
        rw (config-process now p t, frame_ms) (omega (arith, bound)) in
      rw same (no_start-run fs t' more b')

  silent_so_far :
      (now : ℕ) (p : F32) (t : SilenceTracker F32) (es : List VadEvent)
      → gtb p t.config.threshold ≡ false
      → t.is_speaking ≡ false
      → (starts (emit (process f now p t).1 es) ≡ starts es)
        × ((process f now p t).0.speech_duration_ms ≡ t.speech_duration_ms)
        × ((process f now p t).0.is_speaking ≡ false)
  unfolding process
  silent_so_far now p t es g q = ground arith

  first_speech :
      (now : ℕ) (p : F32) (t : SilenceTracker F32) (es : List VadEvent)
      → gtb p t.config.threshold ≡ true
      → t.is_speaking ≡ false
      → t.speech_duration_ms ≡ 0
      → frame_ms f t < u64_mod
      → (starts (emit (process f now p t).1 es) ≡ suc (starts es))
        × ((process f now p t).0.speech_duration_ms ≡ frame_ms f t)
  unfolding process
  first_speech now p t es g q z b = ground arith

  starts-run-le :
      (fs : List (ℕ × F32)) (t : SilenceTracker F32)
      → t.is_speaking ≡ false
      → t.speech_duration_ms ≡ 0
      → 0 < frame_ms f t
      → length fs * frame_ms f t < u64_mod
      → starts (run f fs t).1 ≤ 1
  unfolding run
  starts-run-le [] t q z w b = omega arith
  starts-run-le ((now, p) ∷ fs) t q z w b =
      let t' = (process f now p t).0 in
      let es = (run f fs t').1 in
      elim (Bool-cases (gtb p t.config.threshold)) [
        | inl g ↦
            let (one, ms) = first_speech now p t es g q z (omega arith) in
            let none_later : starts es ≡ 0 =
              no_start-run fs t' (omega (arith, ms))
                (rw (config-process now p t, frame_ms) (omega (arith, ms))) in
            rw one (omega (arith, none_later))
        | inr g ↦
            let (same, ms, quiet) = silent_so_far now p t es g q in
            rw same (
              starts-run-le fs t' quiet (ms ∙ z) (rw (config-process now p t, frame_ms) w)
                (rw (config-process now p t, frame_ms) (omega arith)))
      ]

  -- From a new tracker `speech_start` is emitted once at most, whatever pauses and turn ends come
  -- between: later speech is reported as `speech_resumed`. The frames have a length, and together
  -- do not overflow the counter.
  pub one_speech_start :
      (fs : List (ℕ × F32)) (c : SilenceTrackerConfig F32)
      → 0 < as_u64 c.frame_duration_ms
      → length fs * as_u64 c.frame_duration_ms < u64_mod
      → starts (run f fs (new c)).1 ≤ 1
  unfolding new
  one_speech_start fs c w b = starts-run-le fs (new c) refl refl w b
