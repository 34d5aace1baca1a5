-- ===== src/Tts/Provider/Events.antt =====
-- What happens to a provider, in any order (src/core/tts/provider.rs).
use sayna.Prelude.{Bool, List, [], ◌∷◌}
use sayna.Prelude.Text.{Text}
use sayna.Tts.{Message}
use sayna.Tts.Provider.{TtsConfig, Provider}
use sayna.Tts.Provider.Speak.{generic_speak, generic_clear, generic_disconnect, generic_connect}
use sayna.Tts.Provider.Tasks.{take_job, work_sends, work_ends, dispatch}

pub data Event : Type 0 where
  speak : TtsConfig → Text → Event
  clear connect disconnect job_taken job_ended dispatched : Event
  job_sends : Message → Event
  callback_set : Bool → Event

module _ (text_hash : Text → Text) where
  unfoldable pub step : Event → Provider → Provider
  unfolding generic_speak generic_clear generic_connect generic_disconnect take_job work_sends
      work_ends dispatch
  step (speak config text) p = (generic_speak text_hash config text p).1
  step clear p = generic_clear p
  step connect p = (generic_connect p).1
  step disconnect p = generic_disconnect p
  step job_taken p = take_job p
  step job_ended p = work_ends p
  step dispatched p = dispatch p
  step (job_sends m) p = work_sends m p
  step (callback_set b) p = record p { has_callback = b }

  unfoldable pub run : List Event → Provider → Provider
  unfolding step
  run [] p = p
  run (e ∷ events) p = run events (step e p)
