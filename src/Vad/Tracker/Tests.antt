-- ===== src/Vad/Tracker/Tests.antt =====
-- Runs of the silence tracker (src/core/vad/silence_tracker.rs) on the frames of its unit tests, and
-- its theorems at such runs.
use sayna.Prelude.{ℕ, true, false, ◌≡◌, refl, some, List, [], ◌∷◌, arith, milli}
use sayna.Vad.Tracker.{
  SilenceTrackerConfig, SilenceTracker, speech_start, silence_detected, turn_end, new, process, run,
}
use sayna.Vad.Tracker.Silence.{pause_events}

-- threshold 0.5, 100 ms of silence, 64 ms of speech, 32 ms a frame
abbrev config : SilenceTrackerConfig ℕ
config = record {
  threshold = 500;
  silence_duration_ms = 100;
  min_speech_duration_ms = 64;
  frame_duration_ms = 32000;
}

abbrev spoken : List (ℕ × ℕ)
spoken = (1, 800) ∷ (2, 900) ∷ (3, 800) ∷ []

abbrev silent : List (ℕ × ℕ)
silent = (5, 100) ∷ (6, 100) ∷ (7, 500) ∷ []

abbrev speaking : SilenceTracker ℕ
speaking = record {
  config = config;
  is_speaking = true;
  speech_duration_ms = 96;
  silence_duration_ms = 0;
  turn_end_fired = false;
  speech_start_time = some 1;
}

abbrev pausing : SilenceTracker ℕ
pausing = record speaking { is_speaking = false; silence_duration_ms = 96 }

speaking_lem : run milli spoken (new config) ≡ (speaking, speech_start ∷ [])
unfolding run new process
speaking_lem = refl

pausing-ends : (process milli 9 100 pausing).1 ≡ some turn_end
unfolding process
pausing-ends = refl

pause_events_example : (run milli ((4, 0) ∷ silent) speaking).1 ≡ silence_detected ∷ turn_end ∷ []
pause_events_example =
    pause_events milli 4 0 silent speaking refl refl refl (omega arith) (omega arith)
      (refl, (refl, (refl, (refl, tt))))
