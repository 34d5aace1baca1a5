-- ===== src/Livekit/Pump/Tests.antt =====
-- Runs of the audio pump (src/livekit/client/audio_pump.rs), with a fade over integers.
use sayna.Prelude.{ℕ, ◌*◌, ◌≡◌, refl, some, none, List, [], ◌∷◌, ◌++◌, true, false, max, ◌-◌}
use sayna.Prelude.Int.{ℤ, pos}
use sayna.Livekit.Pump.{
  FadeFloat, AudioPumpShared, Cursor, Event, call, push, turn, captured, run_pump,
  start_loading_audio, started,
}
use sayna.Livekit.Pump.Speech.{speech_in_order, pushed}

abbrev as_natural : ℤ → ℕ
as_natural (pos n) = n
as_natural _ = 0

abbrev whole : FadeFloat
whole = record {
  F32 = ℕ;
  of_usize = λ n. n;
  of_i16 = as_natural;
  zero_f = 0;
  one_f = 1;
  sub_f = λ a b. a - b;
  div_f = λ a b. 0;
  mul_f = λ a b. a * b;
  max_f = max;
  round_i16 = λ a. pos a;
}

abbrev clip : List ℤ
clip = pos 10 ∷ pos 20 ∷ pos 30 ∷ []

abbrev speaking : AudioPumpShared
speaking = record {
  tts = pos 1 ∷ pos 2 ∷ pos 3 ∷ [];
  max_tts_samples = 8;
  loading_active = false;
  loading_stopping = false;
  loading_samples = some clip;
}

abbrev looping : AudioPumpShared
looping = record speaking { loading_active = true }

abbrev start_of_task : Cursor
start_of_task = record { overlay = none; cursor = 0; fade_index = 0; fading = false }

abbrev playing : Cursor
playing = record start_of_task { overlay = some clip; cursor = 2 }

abbrev pushes : List Event
pushes = turn captured ∷ call (push (pos 4 ∷ [])) ∷ turn captured ∷ []

start_needs_clip : (start_loading_audio true speaking).0 ≡ started
unfolding start_loading_audio
start_needs_clip = refl

first_frames :
    (run_pump whole 2 6 pushes speaking start_of_task).2 ≡ pos 1 ∷ pos 2 ∷ pos 3 ∷ pos 4 ∷ []
unfolding run_pump
first_frames = refl

speech_in_order_example :
    let (sh', at', played) = run_pump whole 2 6 pushes speaking start_of_task in
    played ++ sh'.tts ≡ speaking.tts ++ pushed pushes
speech_in_order_example = speech_in_order whole 2 6 pushes speaking start_of_task refl tt
