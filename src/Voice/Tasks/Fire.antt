-- ===== src/Voice/Tasks/Fire.antt =====
-- `fire_speech_final` of src/core/voice_manager/turn_detection_tasks.rs.
use sayna.Prelude.{
  Float, ℕ, ◌+◌, ◌≡◌, refl, ◌⊎◌, inl, inr, Bool, true, false, none, some, arith, length,
  length-append,
}
use sayna.Prelude.Text.{Text}
use sayna.Voice.State.{SpeechFinalState}
use sayna.Voice.State.Reset.{IsIdle}
use sayna.Voice.Tasks.{World, fire_commit, fire_speech_final, fire_check}

module _ (f : Float) where
  open f use {F32, one}

  -- Firing an open segment with a registered callback calls that callback once with an empty final
  -- result, closes the segment, and records the time and the text; without an open segment or a
  -- callback nothing happens.
  pub fire_closes :
      (now : ℕ) (suspends : Bool) (me : ℕ) (text : Text) (w : World F32) (callback : ℕ)
      → w.state.waiting_for_speech_final ≡ true
      → w.state.user_callback ≡ some callback
      → let w' = (fire_speech_final f now suspends me text w).0 in
        IsIdle w'.state
        × (w'.state.turn_detection_last_fired_ms ≡ now)
        × (w'.state.last_forced_text ≡ text)
        × (w'.state.user_callback ≡ some callback)
        × (length w'.forced ≡ length w.forced + 1)
  unfolding fire_speech_final
  fire_closes now suspends me text w callback q e = grind (arith, length-append)

  pub fire_idle :
      (now : ℕ) (suspends : Bool) (me : ℕ) (text : Text) (w : World F32)
      → w.state.waiting_for_speech_final ≡ false
      → fire_speech_final f now suspends me text w ≡ (w, true)
  unfolding fire_speech_final
  fire_idle now suspends me text w q = ground arith

  -- Between the read lock of one firing and its write lock another may read too: although a check
  -- after the first commit finds nothing to fire, both commit, and the user gets two forced results
  -- for one segment.
  pub fire_race :
      (now later : ℕ) (s s' : Bool) (me other : ℕ) (text text' : Text) (w : World F32)
      (callback : ℕ)
      → fire_check w ≡ some callback
      → let w' = (fire_commit f now s me text callback w).0 in
        let w'' = (fire_commit f later s' other text' callback w').0 in
        (fire_check w' ≡ none) × (length w''.forced ≡ length w.forced + 2)
  unfolding fire_commit
  fire_race now later s s' me other text text' w callback p = (refl, grind (arith, length-append))

  -- The tasks that the segment holds.
  abbrev pub Holds : ℕ → SpeechFinalState → Type 0
  Holds me s =
      (s.turn_detection_handle ≡ some me)
      ⊎ ((s.hard_timeout_handle ≡ some me) ⊎ (s.vad_turn_detection_handle ≡ some me))

  -- A task that fires is among those that the reset aborts: when the segment is open, a callback is
  -- registered, the state holds the firing task, and the callback suspends, the task is stopped
  -- there and what should follow does not run.
  pub fire_cut :
      (now me : ℕ) (text : Text) (w : World F32) (callback : ℕ)
      → w.state.waiting_for_speech_final ≡ true
      → w.state.user_callback ≡ some callback
      → Holds me w.state
      → (fire_speech_final f now true me text w).1 ≡ false
  unfolding fire_speech_final
  fire_cut now me text w callback q e (inl h) = ground arith
  fire_cut now me text w callback q e (inr (inl h)) = ground arith
  fire_cut now me text w callback q e (inr (inr h)) = ground arith
