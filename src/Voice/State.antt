-- ===== src/Voice/State.antt =====
-- The state that decides when a speaker's turn is over (src/core/voice_manager/state.rs,
-- stt_config.rs, and the STTResult of src/core/stt/base.rs). A JoinHandle is the number of its task,
-- a callback the number of its closure; a method that aborts tasks returns them with the new state.
pub mod Reset
use sayna.Prelude.{
  ℕ, ◌++◌, Bool, true, false, Option, none, some, List, [], ◌∷◌, ltb, if◌then◌else◌,
}
use sayna.Prelude.Text.{Text}

pub record SttResult (F32 : Type 0) : Type 0 where
  pub transcript : Text
  pub is_final : Bool
  pub is_speech_final : Bool
  pub confidence : F32

pub record SpeechFinalState : Type 0 where
  pub text_buffer : Text
  pub turn_detection_handle : Option ℕ
  pub hard_timeout_handle : Option ℕ
  pub waiting_for_speech_final : Bool
  pub user_callback : Option ℕ
  pub turn_detection_last_fired_ms : ℕ
  pub last_forced_text : Text
  pub segment_start_ms : ℕ
  pub hard_timeout_deadline_ms : ℕ
  pub vad_turn_end_detected : Bool
  pub vad_turn_detection_handle : Option ℕ

unfoldable pub new : SpeechFinalState
new = record {
  text_buffer = [];
  turn_detection_handle = none;
  hard_timeout_handle = none;
  waiting_for_speech_final = false;
  user_callback = none;
  turn_detection_last_fired_ms = 0;
  last_forced_text = [];
  segment_start_ms = 0;
  hard_timeout_deadline_ms = 0;
  vad_turn_end_detected = false;
  vad_turn_detection_handle = none;
}

unfoldable pub with_callback : ℕ → SpeechFinalState
unfolding new
with_callback callback = record new { user_callback = some callback }

-- `if let Some(handle) = slot.take() { handle.abort() }`: the handles aborted, in order.
abbrev pub abort_taken : Option ℕ → List ℕ
abort_taken none = []
abort_taken (some h) = h ∷ []

unfoldable pub reset_vad_state : SpeechFinalState → SpeechFinalState × List ℕ
reset_vad_state s = (
  record s { vad_turn_end_detected = false; vad_turn_detection_handle = none },
  abort_taken s.vad_turn_detection_handle,
)

unfoldable pub reset_internal : Bool → SpeechFinalState → SpeechFinalState × List ℕ
unfolding reset_vad_state
reset_internal keep_fired_stats s =
    let timers = abort_taken s.turn_detection_handle ++ abort_taken s.hard_timeout_handle in
    let s₁ = record s { turn_detection_handle = none; hard_timeout_handle = none } in
    let (s₂, vad) = reset_vad_state s₁ in
    let s₃ = record s₂ {
      text_buffer = [];
      waiting_for_speech_final = false;
      segment_start_ms = 0;
      hard_timeout_deadline_ms = 0;
    } in
    (
      (if keep_fired_stats
          then s₃
          else record s₃ { last_forced_text = []; turn_detection_last_fired_ms = 0 }),
      timers ++ vad,
    )

unfoldable pub reset_for_next_segment : SpeechFinalState → SpeechFinalState × List ℕ
unfolding reset_internal
reset_for_next_segment s = reset_internal false s

unfoldable pub reset_after_firing : SpeechFinalState → SpeechFinalState × List ℕ
unfolding reset_internal
reset_after_firing s = reset_internal true s

pub record InterruptionState : Type 0 where
  pub allow_interruption : Bool
  pub non_interruptible_until_ms : ℕ
  pub current_sample_rate : ℕ
  pub is_completed : Bool

unfoldable pub can_interrupt : ℕ → InterruptionState → Bool
can_interrupt now_ms i =
    if i.allow_interruption
    then true
    else if i.is_completed
    then (if ltb i.non_interruptible_until_ms now_ms then true else false)
    else false

unfoldable pub reset : InterruptionState → InterruptionState
reset i = record i {
  allow_interruption = true;
  non_interruptible_until_ms = 0;
  is_completed = true;
}

pub record SttProcessingConfig : Type 0 where
  pub use_vad_silence_detection : Bool
  pub stt_speech_final_wait_ms : ℕ
  pub vad_silence_duration_ms : ℕ
  pub turn_detection_inference_timeout_ms : ℕ
  pub speech_final_hard_timeout_ms : ℕ
  pub duplicate_window_ms : ℕ

abbrev pub default_config : SttProcessingConfig
default_config = record {
  use_vad_silence_detection = false;
  stt_speech_final_wait_ms = 2000;
  vad_silence_duration_ms = 200;
  turn_detection_inference_timeout_ms = 100;
  speech_final_hard_timeout_ms = 5000;
  duplicate_window_ms = 500;
}

abbrev pub with_vad : ℕ → SttProcessingConfig
with_vad duration = record default_config {
  use_vad_silence_detection = true;
  vad_silence_duration_ms = duration;
}
