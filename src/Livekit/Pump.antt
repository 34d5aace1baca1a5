-- ===== src/Livekit/Pump.antt =====
-- The audio pump (src/livekit/client/audio_pump.rs): one task that plays the buffered speech, alone or
-- mixed into the loading clip. `iterate` is one turn of its loop; how the capture of the frame ends
-- is an input, and so is the token. The arithmetic of the fade is f32 and is a parameter.
pub mod Fill
pub mod Speech
pub mod Fade
pub mod Mix
mod Tests
use sayna.Prelude.{
  ℕ, zero, suc, ◌+◌, ◌*◌, ◌/◌, ◌%◌, Bool, true, false, not, ◌&&◌, ◌||◌, Option, none, some, is_none,
  List, [], ◌∷◌, ◌++◌, ltb, leb, ◌==◌, if◌then◌else◌, length, is_empty, take, drop, min, max,
  replicate, get_or,
}
use sayna.Prelude.Int.{ℤ, pos, saturating_add}

-- The f32 operations of the fade.
pub record FadeFloat : Type 1 where
  pub F32 : Type 0
  pub of_usize : ℕ → F32
  pub of_i16 : ℤ → F32
  pub zero_f : F32
  pub one_f : F32
  pub sub_f : F32 → F32 → F32
  pub div_f : F32 → F32 → F32
  pub mul_f : F32 → F32 → F32
  pub max_f : F32 → F32 → F32
  pub round_i16 : F32 → ℤ

pub record AudioPumpShared : Type 0 where
  pub tts : List ℤ
  pub max_tts_samples : ℕ
  pub loading_active : Bool
  pub loading_stopping : Bool
  pub loading_samples : Option (List ℤ)

-- The variables of the loop.
pub record Cursor : Type 0 where
  pub overlay : Option (List ℤ)
  pub cursor : ℕ
  pub fade_index : ℕ
  pub fading : Bool

abbrev pub loading_fade_out_ms : ℕ
loading_fade_out_ms = 30

abbrev pub new : ℕ → ℕ → AudioPumpShared
new sample_rate channels = record {
  tts = [];
  max_tts_samples = sample_rate * channels * 2;
  loading_active = false;
  loading_stopping = false;
  loading_samples = none;
}

-- The write of `push_tts`, after its wait for room.
unfoldable pub push_tts : List ℤ → AudioPumpShared → AudioPumpShared
push_tts samples sh = record sh { tts = sh.tts ++ samples }

-- The wait of `push_tts` ends when there is room, or by its timeout.
abbrev pub has_room : AudioPumpShared → Bool
has_room sh = ltb (length sh.tts) sh.max_tts_samples

unfoldable pub clear_tts : AudioPumpShared → AudioPumpShared
clear_tts sh = record sh { tts = [] }

abbrev pub set_loading_samples : Option (List ℤ) → AudioPumpShared → AudioPumpShared
set_loading_samples samples sh = record sh { loading_samples = samples }

abbrev pub has_loading_samples : AudioPumpShared → Bool
has_loading_samples sh = elim sh.loading_samples [ none ↦ false | some clip ↦ not (is_empty clip) ]

unfoldable pub deactivate_loading : AudioPumpShared → AudioPumpShared
deactivate_loading sh = record sh { loading_active = false; loading_stopping = false }

-- `start_loading_audio`: the two ways it is refused, and the start.
pub data Start : Type 0 where
  not_connected no_loading_audio started : Start

unfoldable pub start_loading_audio : Bool → AudioPumpShared → Start × AudioPumpShared
start_loading_audio connected sh =
    if not connected
    then (not_connected, sh)
    else if not (has_loading_samples sh)
    then (no_loading_audio, sh)
    else if sh.loading_active
    then (started, sh)
    else (started, record sh { loading_active = true; loading_stopping = false })

unfoldable pub stop_loading_audio : AudioPumpShared → AudioPumpShared
stop_loading_audio sh = if sh.loading_active then record sh { loading_stopping = true } else sh

unfoldable pub frame_len_10ms : ℕ → ℕ → ℕ
frame_len_10ms sample_rate channels = sample_rate / 100 * channels

-- The loop of `fill_loading_frame`: `n` slots from `pos`.
unfoldable pub fill_slots : ℕ → List ℤ → ℕ → List ℤ × ℕ
fill_slots zero clip p = ([], p)
fill_slots (suc n) clip p =
    let (rest, last) = fill_slots n clip (if p + 1 == length clip then 0 else p + 1) in
    (get_or clip p (pos 0) ∷ rest, last)

unfoldable pub fill_loading_frame : List ℤ → ℕ → ℕ → List ℤ × ℕ
unfolding fill_slots
fill_loading_frame clip cursor n =
    if is_empty clip then (replicate n (pos 0), 0) else fill_slots n clip (cursor % length clip)

-- `mix_tts_into`: the queued speech is added to the first slots.
unfoldable pub mix : List ℤ → List ℤ → List ℤ
unfolding saturating_add
mix [] tts = []
mix (slot ∷ frame) [] = slot ∷ frame
mix (slot ∷ frame) (x ∷ tts) = saturating_add slot x ∷ mix frame tts

unfoldable pub mix_tts_into : List ℤ → AudioPumpShared → List ℤ × AudioPumpShared
unfolding mix
mix_tts_into frame sh =
    let n = min (length frame) (length sh.tts) in
    (mix frame (take n sh.tts), record sh { tts = drop n sh.tts })

unfoldable pub take_tts : ℕ → AudioPumpShared → List ℤ × AudioPumpShared
take_tts limit sh =
    let n = min limit (length sh.tts) in (take n sh.tts, record sh { tts = drop n sh.tts })

pub data Capture : Type 0 where
  captured closed cancelled : Capture

-- `again` goes on, `wait` parks until the pump is woken, `stop` ends the task.
pub data Control : Type 0 where
  again wait stop : Control

pub record Turn : Type 0 where
  pub shared : AudioPumpShared
  pub at : Cursor
  pub played : List ℤ
  pub control : Control

-- The calls that change what the pump shares.
pub data Call : Type 0 where
  push : List ℤ → Call
  clear : Call
  set_samples : Option (List ℤ) → Call
  start_loading : Bool → Call
  stop_loading : Call
  deactivate : Call

unfoldable pub apply_call : Call → AudioPumpShared → AudioPumpShared
unfolding push_tts clear_tts start_loading_audio stop_loading_audio deactivate_loading
apply_call (push samples) sh = push_tts samples sh
apply_call clear sh = clear_tts sh
apply_call (set_samples samples) sh = set_loading_samples samples sh
apply_call (start_loading connected) sh = (start_loading_audio connected sh).1
apply_call stop_loading sh = stop_loading_audio sh
apply_call deactivate sh = deactivate_loading sh

pub data Event : Type 0 where
  call : Call → Event
  turn : Capture → Event

unfoldable pub fade_total : ℕ → ℕ
fade_total frame_len = max (loading_fade_out_ms / 10) 1 * frame_len

module _ (ff : FadeFloat) where
  open ff use {F32, of_usize, of_i16, zero_f, one_f, sub_f, div_f, mul_f, max_f, round_i16}

  unfoldable pub fade_factor : ℕ → ℕ → F32
  fade_factor index total =
      if total == 0
      then zero_f
      else max_f (sub_f one_f (div_f (of_usize (index + 1)) (of_usize total))) zero_f

  unfoldable pub apply_fade : List ℤ → ℕ → ℕ → List ℤ × ℕ
  unfolding fade_factor
  apply_fade [] index total = ([], index)
  apply_fade (slot ∷ frame) index total =
      let (rest, last) = apply_fade frame (index + 1) total in
      (round_i16 (mul_f (of_i16 slot) (fade_factor index total)) ∷ rest, last)

  -- The overlay is bound on the turn that finds it active.
  abbrev pub bind_overlay : AudioPumpShared → Cursor → Cursor
  bind_overlay sh at =
      if is_none at.overlay
      then record { overlay = sh.loading_samples; cursor = 0; fade_index = 0; fading = false }
      else at

  -- The mixing mode, with the clip bound.
  unfoldable pub overlay_turn : ℕ → ℕ → Capture → List ℤ → AudioPumpShared → Cursor → Turn
  unfolding fill_loading_frame apply_fade mix_tts_into deactivate_loading
  overlay_turn frame_len total capture clip sh at =
      let fading = at.fading || sh.loading_stopping in
      let (frame, next) = fill_loading_frame clip at.cursor frame_len in
      let (faded, index) =
        if fading then apply_fade frame at.fade_index total else (frame, at.fade_index) in
      let (mixed, sh') = mix_tts_into faded sh in
      let at' = record at { fading = fading; fade_index = index } in
      elim capture [
        | cancelled ↦ record { shared = sh'; at = at'; played = []; control = stop }
        | closed ↦ record { shared = sh'; at = at'; played = []; control = stop }
        | captured ↦
            if fading && leb total index
            then record {
              shared = deactivate_loading sh';
              at = record at' { cursor = next; overlay = none };
              played = mixed;
              control = again;
            }
            else record {
              shared = sh';
              at = record at' { cursor = next };
              played = mixed;
              control = again;
            }
      ]

  -- An overlay without samples is given up.
  unfoldable pub overlay_mode : ℕ → ℕ → Capture → AudioPumpShared → Cursor → Turn
  unfolding overlay_turn deactivate_loading
  overlay_mode frame_len total capture sh at = elim at.overlay [
    | none ↦ record { shared = deactivate_loading sh; at = at; played = []; control = again }
    | some [] ↦ record {
      shared = deactivate_loading sh;
      at = record at { overlay = none };
      played = [];
      control = again;
    }
    | some (s ∷ clip) ↦ overlay_turn frame_len total capture (s ∷ clip) sh at
  ]

  unfoldable pub speech_mode : ℕ → Capture → AudioPumpShared → Cursor → Turn
  unfolding take_tts
  speech_mode frame_len capture sh at =
      let at' = record at { overlay = none } in
      let (taken, sh') = take_tts frame_len sh in
      if is_empty taken
      then record { shared = sh'; at = at'; played = []; control = wait }
      else elim capture [
        | captured ↦ record { shared = sh'; at = at'; played = taken; control = again }
        | _ ↦ record { shared = sh'; at = at'; played = []; control = stop }
      ]

  unfoldable pub iterate : ℕ → ℕ → Capture → AudioPumpShared → Cursor → Turn
  unfolding overlay_mode speech_mode
  iterate frame_len total capture sh at =
      if sh.loading_active
      then overlay_mode frame_len total capture sh (bind_overlay sh at)
      else speech_mode frame_len capture sh at

  -- The turns of the loop and the calls from the rest of the client, in the order they take effect,
  -- until a turn stops the task; the frames played are joined in order.
  unfoldable pub run_pump :
      ℕ → ℕ → List Event → AudioPumpShared → Cursor → AudioPumpShared × Cursor × List ℤ
  unfolding iterate apply_call
  run_pump frame_len total [] sh at = (sh, at, [])
  run_pump frame_len total (call e ∷ es) sh at = run_pump frame_len total es (apply_call e sh) at
  run_pump frame_len total (turn c ∷ es) sh at =
      let t = iterate frame_len total c sh at in
      let (sh', at', played) = run_pump frame_len total es t.shared t.at in
      elim t.control [ stop ↦ (t.shared, t.at, t.played) | _ ↦ (sh', at', t.played ++ played) ]
