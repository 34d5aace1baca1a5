-- ===== src/Voice/State/Reset.antt =====
-- The resets of src/core/voice_manager/state.rs.
use sayna.Prelude.{◌≡◌, Bool, false, none, [], ◌++◌, arith}
use sayna.Voice.State.{
  SpeechFinalState, abort_taken, reset_internal, reset_for_next_segment, reset_after_firing,
}

-- No segment is open: nothing buffered, no timer, no task.
pub record IsIdle (s : SpeechFinalState) : Type 0 where
  pub no_text : s.text_buffer ≡ []
  pub no_turn_task : s.turn_detection_handle ≡ none
  pub no_hard_task : s.hard_timeout_handle ≡ none
  pub no_vad_task : s.vad_turn_detection_handle ≡ none
  pub not_waiting : s.waiting_for_speech_final ≡ false
  pub no_start : s.segment_start_ms ≡ 0
  pub no_deadline : s.hard_timeout_deadline_ms ≡ 0
  pub no_turn_end : s.vad_turn_end_detected ≡ false

-- Both resets close the segment: the state is idle, the callback stays, and the three tasks that
-- were held are aborted, the text timer first, then the hard timeout, then the VAD task.
pub reset-IsIdle :
    (keep : Bool) (s : SpeechFinalState)
    → IsIdle (reset_internal keep s).0
      × ((reset_internal keep s).0.user_callback ≡ s.user_callback)
      × ((reset_internal keep s).1
          ≡ (abort_taken s.turn_detection_handle ++ abort_taken s.hard_timeout_handle)
            ++ abort_taken s.vad_turn_detection_handle)
unfolding reset_internal
reset-IsIdle keep s = ground arith

-- The record of what was forced, by which a late real speech_final is recognised, survives a reset
-- after firing and not a reset for the next segment.
pub fired_stats_kept :
    (s : SpeechFinalState)
    → ((reset_after_firing s).0.last_forced_text ≡ s.last_forced_text)
      × ((reset_after_firing s).0.turn_detection_last_fired_ms ≡ s.turn_detection_last_fired_ms)
      × ((reset_for_next_segment s).0.last_forced_text ≡ [])
      × ((reset_for_next_segment s).0.turn_detection_last_fired_ms ≡ 0)
unfolding reset_after_firing reset_for_next_segment
fired_stats_kept s = ground arith
