-- ===== src/Voice/Tasks/Smart.antt =====
-- The outcome of a turn detection (src/core/voice_manager/turn_detection_tasks.rs).
use sayna.Prelude.{Float, ℕ, ◌≤◌, ◌≡◌, Bool, true, false, some, List, arith, length, inl, inr, ◌≢◌}
use sayna.Prelude.Text.{Text}
use sayna.Vad.Tracker
use sayna.Voice.Chunks.{min_audio_samples, clear_audio_buffer}
use sayna.Voice.Tasks.{
  SmartTurnResult, World, Inference, incomplete, run_smart_turn_detection, handle_smart_turn_result,
  fire_speech_final,
}
use sayna.Voice.Tasks.Fire.{Holds}

module _ (f : Float) where
  open f use {F32, one}

  -- When there is a detector, enough audio, and the model answers that the turn is not complete,
  -- the segment stays open: nothing is forced, the text, the audio and the timers are kept, and the
  -- tracker and the flag are reset so that a later turn end is heard again.
  pub incomplete_keeps_segment :
      (has_detector : Bool) (now : ℕ) (suspends : Bool) (me : ℕ) (text : Text) (audio : List ℕ)
      (w : World F32)
      → has_detector ≡ true
      → min_audio_samples ≤ length audio
      → let w' =
          handle_smart_turn_result f now suspends me
            (run_smart_turn_detection f audio has_detector incomplete)
            text
            w in
        (w'.forced ≡ w.forced)
        × (w'.state ≡ record (w.state) { vad_turn_end_detected = false })
        × (w'.vad ≡ w.vad)
        × (w'.tracker ≡ Tracker.reset w.tracker)
        × (w'.aborted ≡ w.aborted)
  unfolding handle_smart_turn_result
  incomplete_keeps_segment has_detector now suspends me text audio w d l = ground arith

  -- Every outcome but an incomplete turn fires: a confirmation, an error, a timeout, no detector,
  -- too little audio. With a callback that returns at once, the tracker is reset and the audio
  -- buffer is cleared after it.
  pub otherwise_fires :
      (has_detector : Bool) (answer : Inference) (now me : ℕ) (text : Text) (audio : List ℕ)
      (w : World F32)
      → (run_smart_turn_detection f audio has_detector answer ≢ SmartTurnResult.incomplete)
      → let w' =
          handle_smart_turn_result f now false me
            (run_smart_turn_detection f audio has_detector answer)
            text
            w in
        let fired = (fire_speech_final f now false me text w).0 in
        w'
        ≡ record fired { tracker = Tracker.reset fired.tracker; vad = clear_audio_buffer fired.vad }
  unfolding handle_smart_turn_result
  otherwise_fires has_detector answer now me text audio w h = ground arith

  -- When the segment is open, a callback is registered, the state holds the firing task, and the
  -- callback suspends in it after a turn is found complete, neither reset is made: the tracker and
  -- the audio buffer stay as they were.
  pub cut_keeps_audio :
      (now me : ℕ) (text : Text) (w : World F32) (callback : ℕ)
      → w.state.waiting_for_speech_final ≡ true
      → w.state.user_callback ≡ some callback
      → Holds f me w.state
      → let w' = handle_smart_turn_result f now true me SmartTurnResult.complete text w in
        (w'.tracker ≡ w.tracker) × (w'.vad ≡ w.vad)
  unfolding handle_smart_turn_result
  cut_keeps_audio now me text w callback q e (inl h) = ground arith
  cut_keeps_audio now me text w callback q e (inr (inl h)) = ground arith
  cut_keeps_audio now me text w callback q e (inr (inr h)) = ground arith
