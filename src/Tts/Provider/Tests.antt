-- ===== src/Tts/Provider/Tests.antt =====
-- Runs of the queues of a provider (src/core/tts/provider.rs).
use sayna.Prelude.{ℕ, true, length, none, some, List, [], ◌∷◌, ◌++◌, refl, ◌≡◌}
use sayna.Prelude.Text.{Text, codes, trim, trim_start, is_whitespace}
use sayna.Tts.{Bytes, audio, failure, internal_error}
use sayna.Tts.Provider.{
  Call, on_error, on_complete, RequestEntry, QueuedJob, Task, idle, busy, dead, TtsConfig, Provider,
  new, ensure, modify, send_to, close,
}
use sayna.Tts.Provider.Events.{
  Event, speak, clear, connect, job_taken, job_ended, job_sends, dispatched, run,
}
use sayna.Tts.Provider.Speak.{generic_clear}
use sayna.Tts.Provider.Entries.{IsOrdered}
use sayna.Tts.Provider.Order.{clear-speech_in_turn}
use sayna.Tts.Provider.Heard.{heard, conversation, dispatched-hears_all}

abbrev same_text : Text → Text
same_text t = t

abbrev config : TtsConfig
config = record { audio_format = none; sample_rate = some 1000 }

abbrev no_rate : TtsConfig
no_rate = record { audio_format = none; sample_rate = some 0 }

abbrev fresh : Provider
fresh = record new { has_manager = true; has_callback = true }

abbrev hi : Text
hi = codes "hi"

abbrev chunk : Bytes
chunk = 1 ∷ 2 ∷ []

-- A request that is heard, and one that waits.
abbrev one_heard : List Event
one_heard =
    connect
    ∷ (speak config hi
        ∷ (speak config hi
            ∷ (job_taken ∷ (job_sends (audio chunk) ∷ (dispatched ∷ (dispatched ∷ []))))))

one_is_heard :
    (run same_text one_heard fresh).calls
    ≡ heard (record { receiver = 0; format = codes "linear16"; sample_rate = 1000 }) chunk ∷ []
unfolding run new trim trim_start is_whitespace sayna.Tts.Provider.Events.step
    sayna.Tts.Provider.Speak.cache_key sayna.Tts.Chunks.is_linear
one_is_heard = refl

clear-speech_in_turn_example :
    let before = run same_text one_heard fresh in
    (later : List (ℕ × Call)) × (last : ℕ) × ((run same_text one_heard (generic_clear before)).calls
      ≡ before.calls ++ later)
    × IsOrdered (length before.channels) later last
clear-speech_in_turn_example =
    clear-speech_in_turn same_text one_heard (run same_text one_heard fresh)

abbrev entry : RequestEntry
entry = record { receiver = 0; format = codes "linear16"; sample_rate = 1000 }

-- One request is queued, and nothing of it is done.
abbrev asked : Provider
asked = run same_text (connect ∷ (speak config hi ∷ [])) fresh

abbrev asked_job : QueuedJob
asked_job = record {
  sender = 0;
  job = record { text = hi; format = codes "linear16"; sample_rate = 1000; cache_key = none };
}

dispatched-hears_all_example :
    let after =
      run same_text (job_taken ∷ (dispatched ∷ conversation (chunk ∷ (chunk ∷ [])))) asked in
    (after.calls ≡ heard entry chunk ∷ (heard entry chunk ∷ ((0, on_complete) ∷ [])))
    × (after.dispatcher ≡ idle)
    × (after.queue_worker ≡ idle)
    × (after.pending_queue ≡ [])
    × (after.speak_queue ≡ [])
unfolding run new trim trim_start is_whitespace sayna.Tts.Provider.Events.step
    sayna.Tts.Provider.Speak.cache_key sayna.Tts.Chunks.is_linear sayna.Tts.Chunks.is_law
dispatched-hears_all_example =
    dispatched-hears_all same_text entry [] asked_job [] (chunk ∷ (chunk ∷ [])) asked refl refl refl
      refl refl refl refl refl

-- A rate of 0 ends the dispatcher with a panic: the next request is not heard.
rate_of_zero :
    (run same_text
      (connect
        ∷ (speak no_rate hi
            ∷ (job_taken
                ∷ (job_sends (audio chunk)
                    ∷ (dispatched ∷ (dispatched ∷ (speak config hi ∷ [])))))))
      fresh).dispatcher
    ≡ dead
unfolding run new trim trim_start is_whitespace sayna.Tts.Provider.Events.step
    sayna.Tts.Provider.Speak.cache_key sayna.Tts.Chunks.is_linear
rate_of_zero = refl
