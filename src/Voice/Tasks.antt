-- ===== src/Voice/Tasks.antt =====
-- The timers and detection tasks of src/core/voice_manager/turn_detection_tasks.rs, over the objects
-- that they share. A task is its captured data and the time at which its sleep ends; it runs from one
-- await to the next, with nothing between its sections; that others come between a firing's check and
-- its write is said by `fire_commit` alone. `abort` marks a task: it is not run again, and if it is running it stops at the
-- next await that does not return at once. What the inference answers and whether the user callback
-- suspends are inputs. The detection method only goes to the log and is left out.
pub mod Fire
pub mod Smart
use sayna.Prelude.{
  Float, ℕ, suc, ◌+◌, ◌-◌, Bool, true, false, not, ◌&&◌, ◌||◌, Option, none, some, is_none, List,
  [], ◌∷◌, ◌++◌, ltb, ◌==◌, if◌then◌else◌, length, is_empty,
}
use sayna.Prelude.Text.{Text, text_eq}
use sayna.Vad.Tracker
use sayna.Vad.Tracker.{SilenceTracker}
use sayna.Voice.Chunks.{VadState, clear_audio_buffer, min_audio_samples}
use sayna.Voice.State.{SpeechFinalState, SttResult, SttProcessingConfig, reset_after_firing}

-- What a task does when it next runs; `smart_inference` and `vad_inference` wait for the model.
pub data Body : Type 0 where
  hard_timeout : ℕ → Body
  detection : Text → Body
  smart_fallback : Text → Body
  smart_inference : Text → List ℕ → Body
  vad_detection : Text → List ℕ → Body
  vad_inference : Text → List ℕ → Body

pub record Task : Type 0 where
  pub body : Body
  pub ready_ms : ℕ

-- A call of the user callback with a forced result; `completed` is false if the call was cut off.
pub record Forced (F32 : Type 0) : Type 0 where
  pub callback : ℕ
  pub result : SttResult F32
  pub completed : Bool

pub record World (F32 : Type 0) : Type 0 where
  pub state : SpeechFinalState
  pub tracker : SilenceTracker F32
  pub vad : VadState
  pub tasks : ℕ → Option Task
  pub next_task : ℕ
  pub aborted : List ℕ
  pub forced : List (Forced F32)

pub data Inference : Type 0 where
  confirmed incomplete failed timed_out : Inference

pub data SmartTurnResult : Type 0 where
  complete : SmartTurnResult
  incomplete : SmartTurnResult
  skipped : SmartTurnResult

abbrev pub mem : ℕ → List ℕ → Bool
mem a [] = false
mem a (x ∷ xs) = (a == x) || mem a xs

abbrev pub update : (ℕ → Option Task) → ℕ → Option Task → ℕ → Option Task
update tasks id task j = if j == id then task else tasks j

-- `remaining_ms` is taken when the task starts, and the sleep ends that much later.
abbrev pub hard_timeout_ready : ℕ → ℕ → ℕ → ℕ
hard_timeout_ready hard_timeout_ms segment_start_ms started =
    started + (hard_timeout_ms - (started - segment_start_ms))

module _ {F32 : Type 0} where
  abbrev pub spawn : Task → World F32 → World F32
  spawn task w = record w {
    tasks = update w.tasks w.next_task (some task);
    next_task = suc w.next_task;
  }

  unfoldable pub create_hard_timeout_task : SttProcessingConfig → ℕ → ℕ → World F32 → World F32
  create_hard_timeout_task config segment_start_ms now = spawn (record {
    body = hard_timeout segment_start_ms;
    ready_ms = hard_timeout_ready config.speech_final_hard_timeout_ms segment_start_ms now;
  })

  unfoldable pub create_detection_task : SttProcessingConfig → Text → ℕ → World F32 → World F32
  create_detection_task config buffered_text now =
      spawn (record {
        body = detection buffered_text;
        ready_ms = now + config.stt_speech_final_wait_ms;
      })

  unfoldable pub create_smart_fallback_task : SttProcessingConfig → Text → ℕ → World F32 → World F32
  create_smart_fallback_task config buffered_text now = spawn (record {
    body = smart_fallback buffered_text;
    ready_ms = now + config.stt_speech_final_wait_ms;
  })

  unfoldable pub create_vad_turn_detection_task : Text → List ℕ → ℕ → World F32 → World F32
  create_vad_turn_detection_task buffered_text audio now =
      spawn (record { body = vad_detection buffered_text audio; ready_ms = now })

  -- The read lock of `fire_speech_final`.
  abbrev pub fire_check : World F32 → Option ℕ
  fire_check w = if w.state.waiting_for_speech_final then w.state.user_callback else none

  -- The write lock: the firing is recorded, and the reset aborts every task of the segment.
  abbrev pub fire_reset : ℕ → Text → World F32 → World F32
  unfolding reset_after_firing
  fire_reset now buffered_text w =
      let (s, taken) = reset_after_firing (record (w.state) {
        turn_detection_last_fired_ms = now;
        last_forced_text = buffered_text;
      }) in
      record w { state = s; aborted = taken ++ w.aborted }

  -- `await` of a call that may suspend: false if the running task is stopped there.
  abbrev pub survives : Bool → ℕ → World F32 → Bool
  survives suspends me w = not (suspends && mem me w.aborted)

module _ (f : Float) where
  open f use {F32, one}

  abbrev pub forced_result : SttResult F32
  forced_result = record {
    transcript = [];
    is_final = true;
    is_speech_final = true;
    confidence = one;
  }

  -- After the write lock: the callback is called and awaited.
  unfoldable pub fire_commit : ℕ → Bool → ℕ → Text → ℕ → World F32 → World F32 × Bool
  unfolding fire_reset
  fire_commit now suspends me buffered_text callback w =
      let w' = fire_reset now buffered_text w in
      let alive = survives suspends me w' in
      (
        record w' {
          forced =
              w.forced
              ++ (record { callback = callback; result = forced_result; completed = alive } ∷ []);
        },
        alive,
      )

  -- Both sections with nothing between them; returns whether the calling task goes on.
  unfoldable pub fire_speech_final : ℕ → Bool → ℕ → Text → World F32 → World F32 × Bool
  unfolding fire_commit
  fire_speech_final now suspends me buffered_text w = elim (fire_check w) [
    | none ↦ (w, true)
    | some callback ↦ fire_commit now suspends me buffered_text callback w
  ]

  abbrev pub run_smart_turn_detection : List ℕ → Bool → Inference → SmartTurnResult
  run_smart_turn_detection audio has_detector answer =
      if ltb (length audio) min_audio_samples
      then skipped
      else if not has_detector
      then complete
      else elim answer [ incomplete ↦ incomplete | _ ↦ complete ]

  -- Reset after the firing, if the task is still running.
  finish_smart_turn : World F32 × Bool → World F32
  unfolding Tracker.reset clear_audio_buffer
  finish_smart_turn (w, true) = record w {
    tracker = Tracker.reset w.tracker;
    vad = clear_audio_buffer w.vad;
  }
  finish_smart_turn (w, false) = w

  unfoldable pub handle_smart_turn_result :
      ℕ → Bool → ℕ → SmartTurnResult → Text → World F32 → World F32
  unfolding finish_smart_turn fire_speech_final Tracker.reset
  handle_smart_turn_result now suspends me complete buffered_text w =
      finish_smart_turn (fire_speech_final now suspends me buffered_text w)
  handle_smart_turn_result now suspends me incomplete buffered_text w = record w {
    state = record (w.state) { vad_turn_end_detected = false };
    tracker = Tracker.reset w.tracker;
  }
  handle_smart_turn_result now suspends me skipped buffered_text w =
      finish_smart_turn (fire_speech_final now suspends me buffered_text w)

  -- With too little audio or no detector the outcome is known at once; else the inference is awaited.
  begin_smart_turn :
      Bool
      → ℕ
      → Bool
      → Inference
      → ℕ
      → (Text → List ℕ → Body)
      → Text
      → List ℕ
      → World F32
      → World F32
  unfolding handle_smart_turn_result
  begin_smart_turn has_detector now suspends answer me waiting text audio w =
      if ltb (length audio) min_audio_samples || not has_detector
      then handle_smart_turn_result now suspends me
          (run_smart_turn_detection audio has_detector answer) text w
      else record w {
        tasks = update w.tasks me (some (record { body = waiting text audio; ready_ms = now }));
      }

  -- The bodies, from the end of a sleep or an inference to the next.
  unfoldable pub run_body : Bool → ℕ → Bool → Inference → ℕ → Body → World F32 → World F32
  unfolding fire_speech_final handle_smart_turn_result begin_smart_turn
  run_body has_detector now suspends answer me (hard_timeout start) w =
      if w.state.waiting_for_speech_final
      then (fire_speech_final now suspends me w.state.text_buffer w).0
      else w
  run_body has_detector now suspends answer me (detection text) w =
      if not w.state.waiting_for_speech_final
      then w
      else if not (text_eq w.state.text_buffer text)
      then w
      else (fire_speech_final now suspends me text w).0
  run_body has_detector now suspends answer me (smart_fallback text) w =
      if not w.state.waiting_for_speech_final
      then w
      else if not (text_eq w.state.text_buffer text)
      then w
      else if is_empty w.vad.audio_buffer
      then (fire_speech_final now suspends me text w).0
      else begin_smart_turn true now suspends answer me smart_inference text w.vad.audio_buffer w
  run_body has_detector now suspends answer me (smart_inference text audio) w =
      handle_smart_turn_result now suspends me (run_smart_turn_detection audio true answer) text w
  run_body has_detector now suspends answer me (vad_detection text audio) w =
      if w.state.waiting_for_speech_final && w.state.vad_turn_end_detected
      then begin_smart_turn has_detector now suspends answer me vad_inference text audio w
      else w
  run_body has_detector now suspends answer me (vad_inference text audio) w =
      handle_smart_turn_result now suspends me (run_smart_turn_detection audio has_detector answer)
        text w

  -- The runtime runs task `me` at time `now`: not if it is aborted, not before its sleep has ended.
  unfoldable pub wake : Bool → ℕ → Bool → Inference → ℕ → World F32 → World F32
  unfolding run_body
  wake has_detector now suspends answer me w = elim (w.tasks me) [
    | none ↦ w
    | some task ↦
        if mem me w.aborted
        then w
        else if ltb now task.ready_ms
        then w
        else run_body has_detector now suspends answer me task.body
            (record w { tasks = update w.tasks me none })
  ]
