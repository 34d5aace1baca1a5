-- ===== src/Voice/Results.antt =====
-- The results of the speech-to-text provider and the VAD events
-- (src/core/voice_manager/stt_result.rs, and the two wrappers of manager.rs that call it): which
-- results reach the user, and which tasks they start and cancel. The build with the feature
-- `stt-vad` is modelled. A clock reading is an argument of each call.
pub mod Deliver
pub mod Segment
pub mod Steps
pub mod Wakes
pub mod Progress
mod Tests
use sayna.Prelude.{
  Float, ℕ, ◌+◌, ◌-◌, Bool, true, false, not, ◌&&◌, ◌||◌, Option, none, some, is_some, List, [],
  ◌∷◌, ◌++◌, ltb, ◌==◌, if◌then◌else◌, length, is_empty, u64,
}
use sayna.Prelude.Text.{Text, text_eq, trim}
use sayna.Vad.Tracker
use sayna.Vad.Tracker.{
  VadEvent, speech_start, silence_detected, speech_resumed, turn_end, SilenceTracker,
}
use sayna.Voice.Chunks
use sayna.Voice.Chunks.{VadState, clear_audio_buffer, min_audio_samples}
use sayna.Voice.State
use sayna.Voice.State.{
  SpeechFinalState, SttResult, SttProcessingConfig, abort_taken, reset_vad_state,
  reset_for_next_segment, InterruptionState, can_interrupt,
}
use sayna.Voice.Tasks.{
  World, Inference, create_hard_timeout_task, create_detection_task, create_smart_fallback_task,
  create_vad_turn_detection_task, wake,
}

-- The processor: its configuration, and which of its three components are there.
pub record SttResultProcessor : Type 0 where
  pub config : SttProcessingConfig
  pub has_detector : Bool
  pub has_tracker : Bool
  pub has_vad_state : Bool

unfoldable pub is_duplicate_speech_final : SttResultProcessor → SpeechFinalState → Text → ℕ → Bool
is_duplicate_speech_final c s transcript now =
    ltb 0 s.turn_detection_last_fired_ms
    && (ltb (now - s.turn_detection_last_fired_ms) c.config.duplicate_window_ms
        && text_eq s.last_forced_text transcript)

-- What `handle_turn_detection` carries from its first write lock to its second.
pub record Pending : Type 0 where
  pub is_new_segment : Bool
  pub handle : ℕ

module _ {F32 : Type 0} where
  unfoldable pub should_deliver_result : SttResult F32 → Bool
  should_deliver_result r =
      not (is_empty (trim r.transcript) && (r.is_final && not r.is_speech_final))

  unfoldable pub handle_real_speech_final :
      SttResultProcessor → SttResult F32 → ℕ → World F32 → World F32 × Option (SttResult F32)
  unfolding is_duplicate_speech_final reset_for_next_segment
  handle_real_speech_final c r now w =
      if is_duplicate_speech_final c w.state r.transcript now
      then (w, none)
      else (let (s, taken) = reset_for_next_segment w.state in
          (record w { state = s; aborted = taken ++ w.aborted }, some r))

  -- The first write lock: the running timer is cancelled, and the text is kept.
  buffer_text : SttResult F32 → World F32 → World F32
  buffer_text r w = record w {
    state = record (w.state) {
      turn_detection_handle = none;
      text_buffer = w.state.text_buffer ++ r.transcript;
    };
    aborted = abort_taken w.state.turn_detection_handle ++ w.aborted;
  }

  start_detection : SttResultProcessor → Text → ℕ → World F32 → World F32
  unfolding create_smart_fallback_task create_detection_task
  start_detection c text now w =
      if c.has_detector && (c.has_tracker && c.has_vad_state)
      then create_smart_fallback_task c.config text now w
      else create_detection_task c.config text now w

  -- The first section of `handle_turn_detection`, and the task that is started before the second.
  unfoldable pub buffer_and_start :
      SttResultProcessor → SttResult F32 → ℕ → World F32 → World F32 × Pending
  unfolding buffer_text start_detection
  buffer_and_start c r now w =
      let w₁ = buffer_text r w in
      (
        start_detection c w₁.state.text_buffer now w₁,
        record { is_new_segment = w₁.state.segment_start_ms == 0; handle = w₁.next_task },
      )

  -- The second write lock opens the segment if none was open under the first.
  open_segment : SttResultProcessor → ℕ → World F32 → World F32
  unfolding create_hard_timeout_task
  open_segment c now w =
      let s = record (w.state) {
        segment_start_ms = now;
        hard_timeout_deadline_ms = u64 (now + c.config.speech_final_hard_timeout_ms);
        hard_timeout_handle = some w.next_task;
      } in
      let taken = abort_taken w.state.hard_timeout_handle in
      create_hard_timeout_task c.config now now
        (record w { state = s; aborted = taken ++ w.aborted })

  -- The second section: the task is held, in whatever state the second write lock finds.
  unfoldable pub store_detection : SttResultProcessor → Pending → ℕ → World F32 → World F32
  unfolding open_segment
  store_detection c p now w =
      let w' = record w {
        state = record (w.state) {
          turn_detection_handle = some p.handle;
          waiting_for_speech_final = true;
        };
      } in
      if p.is_new_segment then open_segment c now w' else w'

  -- Both sections with nothing between them; that others may come between is said by the steps of
  -- Voice.Results.Progress.
  unfoldable pub handle_turn_detection :
      SttResultProcessor → SttResult F32 → ℕ → World F32 → World F32
  unfolding buffer_and_start store_detection
  handle_turn_detection c r now w =
      let (w', p) = buffer_and_start c r now w in store_detection c p now w'

  unfoldable pub process_result :
      SttResultProcessor → SttResult F32 → ℕ → World F32 → World F32 × Option (SttResult F32)
  unfolding should_deliver_result handle_real_speech_final handle_turn_detection
  process_result c r now w =
      if not (should_deliver_result r)
      then (w, none)
      else if r.is_speech_final
      then handle_real_speech_final c r now w
      else if r.is_final
      then (handle_turn_detection c r now w, some r)
      else (w, some r)

  -- The wrapper of `on_stt_result`: a result is dropped while interruption is not allowed.
  unfoldable pub on_result :
      SttResultProcessor
      → InterruptionState
      → SttResult F32
      → ℕ
      → World F32
      → World F32 × Option (SttResult F32)
  unfolding process_result can_interrupt
  on_result c i r now w = if not (can_interrupt now i) then (w, none) else process_result c r now w

  abbrev reset_vad : World F32 → World F32
  unfolding reset_vad_state
  reset_vad w =
      let (s, taken) = reset_vad_state w.state in
      record w { state = s; aborted = taken ++ w.aborted }

  -- `TurnEnd`: the text timer gives way to a task that looks at the audio.
  unfoldable pub handle_vad_turn_end : ℕ → World F32 → World F32
  unfolding create_vad_turn_detection_task
  handle_vad_turn_end now w =
      if w.state.vad_turn_end_detected
      then w
      else if not w.state.waiting_for_speech_final
      then w
      else if is_empty w.vad.audio_buffer
      then w
      else if ltb (length w.vad.audio_buffer) min_audio_samples
      then w
      else (let handle = w.next_task in
          create_vad_turn_detection_task w.state.text_buffer w.vad.audio_buffer now (record w {
            state = record (w.state) {
              vad_turn_end_detected = true;
              turn_detection_handle = none;
              vad_turn_detection_handle = some handle;
            };
            aborted = abort_taken w.state.turn_detection_handle ++ w.aborted;
          }))

  unfoldable pub handle_vad_event_internal : VadEvent → ℕ → World F32 → World F32
  unfolding reset_vad clear_audio_buffer handle_vad_turn_end
  handle_vad_event_internal speech_start now w =
      let w' = reset_vad w in
      if w.state.waiting_for_speech_final then w' else record w' { vad = clear_audio_buffer w'.vad }
  handle_vad_event_internal speech_resumed now w = reset_vad w
  handle_vad_event_internal silence_detected now w = w
  handle_vad_event_internal turn_end now w = handle_vad_turn_end now w

  unfoldable pub process_vad_event : SttResultProcessor → VadEvent → ℕ → World F32 → World F32
  unfolding handle_vad_event_internal
  process_vad_event c event now w =
      if c.has_tracker && c.has_vad_state then handle_vad_event_internal event now w else w

  -- `VoiceManager::stop`, the part of it that touches these objects.
  unfoldable pub stop : World F32 → World F32
  unfolding reset_for_next_segment Tracker.reset Chunks.reset
  stop w =
      let (s, taken) = reset_for_next_segment w.state in
      record w {
        state = record s { user_callback = none };
        aborted = taken ++ w.aborted;
        tracker = Tracker.reset w.tracker;
        vad = Chunks.reset w.vad;
      }
