-- ===== src/Voice/Chunks/Tests.antt =====
-- A chunk of audio through the VAD path (src/core/voice_manager/vad_processor.rs).
use sayna.Prelude.{ℕ, ◌<◌, ◌≡◌, refl, some, [], ◌∷◌, arith, length, false}
use sayna.Vad.Tracker.{SilenceTrackerConfig}
use sayna.Voice.Chunks.{VadState, Model, take_frames}
use sayna.Voice.Chunks.Frames.{take_frames_lem}

abbrev buffered : VadState
buffered = record { audio_buffer = 7 ∷ []; frame_buffer = 7 ∷ []; buffer_limit_warned = false }

take_frames_runs : (take_frames 2 (8 ∷ 9 ∷ []) buffered).0 ≡ (7 ∷ 8 ∷ []) ∷ []
unfolding take_frames
take_frames_runs = refl

take_frames_lem_example : length (take_frames 2 (8 ∷ 9 ∷ []) buffered).1.frame_buffer < 2
take_frames_lem_example = (take_frames_lem 2 (8 ∷ 9 ∷ []) buffered (omega arith)).2

-- A model of two-sample frames that always answers 0.9.
abbrev loud : Model ℕ
loud = record {
  Inner = ℕ;
  frame_size = 2;
  process_audio = λ frame n. (n, some 900);
  clock = λ n. n;
}

abbrev config : SilenceTrackerConfig ℕ
config = record {
  threshold = 500;
  silence_duration_ms = 100;
  min_speech_duration_ms = 64;
  frame_duration_ms = 32000;
}
