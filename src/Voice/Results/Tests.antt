-- ===== src/Voice/Results/Tests.antt =====
-- One utterance (src/core/voice_manager): the theorems of the turn logic at its states.
use sayna.Prelude.{
  ℕ, ◌≡◌, refl, ◌⊎◌, ◌++◌, ◌∷◌, inl, true, false, some, none, List, [], arith, milli, length,
  replicate, length-replicate,
}
use sayna.Prelude.Text.{codes, trim}
use sayna.Vad.Tracker
use sayna.Vad.Tracker.{SilenceTrackerConfig, turn_end}
use sayna.Voice.Chunks
use sayna.Voice.State
use sayna.Voice.State.{
  SttResult, InterruptionState, default_config, reset_internal, reset_after_firing, can_interrupt,
}
use sayna.Voice.State.Reset.{IsIdle, fired_stats_kept}
use sayna.Voice.Tasks.{World, confirmed, fire_speech_final, fire_commit, forced_result, wake}
use sayna.Voice.Tasks.Fire.{fire_cut}
use sayna.Voice.Results.{SttResultProcessor, Pending, on_result, buffer_and_start, store_detection}
use sayna.Voice.Results.Deliver.{IsFree, IsBlank, Repeats, on_result-delivers}
use sayna.Voice.Results.Progress.{result, Reach, here, next, IsStart, hard_timeout_closes}

abbrev vad_config : SilenceTrackerConfig ℕ
vad_config = record {
  threshold = 500;
  silence_duration_ms = 100;
  min_speech_duration_ms = 64;
  frame_duration_ms = 32000;
}

abbrev quiet : World ℕ
quiet = record {
  state = State.with_callback 9;
  tracker = Tracker.new vad_config;
  vad = Chunks.new;
  tasks = λ j. none;
  next_task = 0;
  aborted = [];
  forced = [];
}

abbrev processor : SttResultProcessor
processor = record {
  config = default_config;
  has_detector = true;
  has_tracker = true;
  has_vad_state = true;
}

abbrev free : InterruptionState
free = record {
  allow_interruption = true;
  non_interruptible_until_ms = 0;
  current_sample_rate = 24000;
  is_completed = true;
}

abbrev hello : SttResult ℕ
hello = record {
  transcript = codes "hello ";
  is_final = true;
  is_speech_final = false;
  confidence = 900;
}

abbrev world : SttResult ℕ
world = record hello { transcript = codes "world" }

abbrev over : SttResult ℕ
over = record world { is_speech_final = true }

-- After the first final result at 1000 ms.
abbrev listening : World ℕ
listening = (on_result processor free hello 1000 quiet).0

quiet-IsStart : IsStart milli processor quiet
unfolding State.with_callback
quiet-IsStart = ground arith

listening-Reach : Reach milli processor quiet listening
listening-Reach = next here (result free hello 1000 (omega arith))

listening_lem :
    (listening.state.hard_timeout_handle ≡ some 1)
    × (listening.state.turn_detection_handle ≡ some 0)
    × (listening.state.segment_start_ms ≡ 1000)
    × (listening.state.waiting_for_speech_final ≡ true)
    × (listening.state.user_callback ≡ some 9)
unfolding on_result State.with_callback trim
listening_lem = (refl, refl, refl, refl, refl)

hard_timeout_closes_example :
    let u' = wake milli true 7000 false confirmed 1 listening in
    IsIdle u'.state
    × (u'.state.last_forced_text ≡ listening.state.text_buffer)
    × ((k : ℕ) × (listening.state.user_callback ≡ some k)
        × (u'.forced
            ≡ listening.forced
              ++ (record { callback = k; result = forced_result milli; completed = true } ∷ [])))
hard_timeout_closes_example =
    hard_timeout_closes milli processor listening-Reach quiet-IsStart 1 7000 false confirmed
      listening_lem.0 (omega (arith, listening_lem.2))

-- The second result's sections with the hard timeout's firing between them.
abbrev between : World ℕ × Pending
between = buffer_and_start processor hello 1200 listening

abbrev unguarded : World ℕ
unguarded =
    store_detection processor between.1 7001
      (fire_commit milli 7000 false 1 (codes "hello hello ") 9 between.0).0

-- The segment waits for a speech_final and has no hard timeout.
unguarded_lem :
    (unguarded.state.waiting_for_speech_final ≡ true)
    × (unguarded.state.hard_timeout_handle ≡ none)
    × (unguarded.state.segment_start_ms ≡ 0)
unfolding on_result State.with_callback trim buffer_and_start store_detection fire_commit
unguarded_lem = (refl, refl, refl)

abbrev unlocked : InterruptionState
unlocked = record free {
  allow_interruption = false;
  is_completed = true;
  non_interruptible_until_ms = 900;
}

on_result-delivers_example :
    let o = (on_result processor unlocked hello 1000 quiet).1 in
    ((o ≡ some hello)
      × (IsFree milli 1000 unlocked
          × ((¬ IsBlank milli hello) × (¬ Repeats milli processor hello 1000 quiet))))
    ⊎ ((o ≡ none)
        × ((¬ IsFree milli 1000 unlocked)
            ⊎ (IsBlank milli hello ⊎ Repeats milli processor hello 1000 quiet)))
on_result-delivers_example =
    on_result-delivers milli processor unlocked hello 1000 quiet (omega arith)

abbrev blank : SttResult ℕ
blank = record hello { transcript = codes "  " }

blank_dropped : (on_result processor free blank 1000 quiet).1 ≡ none
unfolding on_result trim
blank_dropped = refl

fire_cut_example : (fire_speech_final milli 5000 true 0 [] listening).1 ≡ false
fire_cut_example =
    fire_cut milli 5000 0 [] listening 9 listening_lem.3 listening_lem.4 (inl listening_lem.1)

half_second : List ℕ
half_second = replicate 8000 7

half_second_lem : length half_second ≡ 8000
unfolding half_second
half_second_lem = length-replicate {A = ℕ} 8000 7

fired_stats_kept_example :
    (reset_after_firing listening.state).0.last_forced_text ≡ listening.state.last_forced_text
fired_stats_kept_example = (fired_stats_kept listening.state).0

abbrev speaking : InterruptionState
speaking = record free { allow_interruption = false; is_completed = false }
