-- ===== src/Livekit/Worker.antt =====
-- The operation worker of a LiveKit client (src/livekit/client/operation_worker.rs, audio.rs and
-- messaging.rs): one operation of the queue after another, each answered on its channel. What the
-- LiveKit room answers, and JSON, are parameters.
pub mod Replies
pub mod Speech
pub mod Reconnect
mod Tests
use sayna.Prelude.{
  ℕ, zero, suc, ◌+◌, ◌/◌, ◌%◌, ◌^◌, Bool, true, false, not, ◌&&◌, ◌||◌, Option, none, some, List,
  [], ◌∷◌, ◌++◌, ltb, ◌==◌, if◌then◌else◌, length, map, ◌⊎◌, inl, inr,
}
use sayna.Prelude.Text.{Text}
use sayna.Prelude.Bytes.{samples_of_bytes, bytes_of_samples}
use sayna.Prelude.Int.{ℤ, of_bits, to_bits}
use sayna.Livekit.Pump.{AudioPumpShared, push_tts, clear_tts, deactivate_loading}
use sayna.Livekit.Queue.{
  Operation, send_audio, send_message, send_data_message, clear_audio, is_connected,
  has_audio_source, reconnect, shutdown, QueueStats, record_operation,
}

-- The messages of the `InternalServerError`s.
pub data AppError : Type 0 where
  not_connected odd_length uneven_samples not_serializable room_unavailable : AppError
  send_failed reconnect_failed publish_failed : AppError

pub data Reply : Type 0 where
  done : Reply
  failed : AppError → Reply
  answer : Bool → Reply

-- JSON and the configured texts.
pub record Json : Type 1 where
  pub Value : Type 0
  pub message_json : Text → Text → Option Value → Value
  pub to_vec : Value → Option (List ℕ)
  pub messages_topic : Text

-- What the room answers while one operation is processed.
pub record Room : Type 0 where
  pub data_published : Bool
  pub room_joined : Bool
  pub track_published : Bool

pub record Client : Type 0 where
  pub audio_pump : AudioPumpShared
  pub connected : Bool
  pub room : Bool
  pub audio_source : Bool
  pub local_track_publication : Bool
  pub has_source : Bool
  pub pump_running : Bool
  pub channels : ℕ
  pub publish_audio : Bool
  pub audio_generation : ℕ
  pub source_cleared : ℕ
  pub handlers_started : ℕ
  pub packets : List (Text × List ℕ)
  pub replies : List (ℕ × Reply)

abbrev pub signed : List ℕ → List ℤ
signed = map of_bits

-- Both branches of the source read the bytes as little-endian words.
unfoldable pub pcm_to_samples : List ℕ → ℕ → AppError ⊎ List ℤ
unfolding samples_of_bytes
pcm_to_samples bytes channels =
    let num_samples = length bytes / 2 in
    if not (length bytes % 2 == 0)
    then inl odd_length
    else if (num_samples == 0) || not (num_samples % channels == 0)
    then inl uneven_samples
    else inr (signed (samples_of_bytes bytes))

unfoldable pub convert_frame_to_audio : List ℤ → List ℕ
unfolding bytes_of_samples
convert_frame_to_audio frame = bytes_of_samples (map to_bits frame)

abbrev pub reply : ℕ → Reply → Client → Client
reply ticket r c = record c { replies = c.replies ++ ((ticket, r) ∷ []) }

unfoldable pub process_send_audio : List ℕ → Client → Reply × Client
unfolding pcm_to_samples push_tts
process_send_audio bytes c =
    if not c.connected then (failed not_connected, c) else elim (pcm_to_samples bytes c.channels) [
      | inl e ↦ (failed e, c)
      | inr samples ↦ (done, record c { audio_pump = push_tts samples c.audio_pump })
    ]

unfoldable pub process_clear_audio : Client → Reply × Client
unfolding clear_tts
process_clear_audio c = if not c.connected then (failed not_connected, c) else (
  done,
  record c {
    source_cleared = c.source_cleared + (if c.audio_source then 1 else 0);
    audio_pump = clear_tts c.audio_pump;
  },
)

-- The new room is joined, and the audio track published again unless the session has no media.
unfoldable pub process_reconnect : Room → Client → Option AppError × Client
unfolding deactivate_loading
process_reconnect room c =
    if not c.connected
    then (none, c)
    else if not room.room_joined
    then (some reconnect_failed, record c { connected = false; has_source = false })
    else let c' = record c {
      pump_running = false;
      audio_source = false;
      local_track_publication = false;
      has_source = false;
      audio_pump = deactivate_loading c.audio_pump;
      room = true;
    } in
      let joined = record c' { handlers_started = c'.handlers_started + 1 } in
      if not c.publish_audio
      then (none, joined)
      else if room.track_published
      then (
        none,
        record joined {
          audio_source = true;
          local_track_publication = true;
          has_source = true;
          pump_running = true;
        },
      )
      else (some publish_failed, record c' { connected = false })

module _ (json : Json) where
  open json use {Value, message_json, to_vec, messages_topic}

  unfoldable pub publish_data_packet_internal : Room → Text → Value → Client → Reply × Client
  publish_data_packet_internal room topic value c =
      if not c.connected then (failed not_connected, c) else elim (to_vec value) [
        | none ↦ (failed not_serializable, c)
        | some payload ↦
            if not c.room
            then (failed room_unavailable, c)
            else if room.data_published
            then (done, record c { packets = c.packets ++ ((topic, payload) ∷ []) })
            else (failed send_failed, c)
      ]

  unfoldable pub process_send_message :
      Room → Text → Text → Option Text → Option Value → Client → Reply × Client
  unfolding publish_data_packet_internal
  process_send_message room message role topic debug c =
      if not c.connected
      then (failed not_connected, c)
      else let topic' : Text = elim topic [ none ↦ messages_topic | some t ↦ t ] in
        publish_data_packet_internal room topic' (message_json message role debug) c

  unfoldable pub process_operation : Room → Operation Value → Client → Client
  unfolding process_send_audio process_clear_audio process_reconnect publish_data_packet_internal
      process_send_message
  process_operation room (send_audio bytes ticket generation) c =
      if ltb generation c.audio_generation
      then reply ticket done c
      else let (r, c') = process_send_audio bytes c in reply ticket r c'
  process_operation room (send_message message role topic debug ticket) c =
      let (r, c') = process_send_message room message role topic debug c in reply ticket r c'
  process_operation room (send_data_message topic value ticket) c =
      let (r, c') = publish_data_packet_internal room topic value c in reply ticket r c'
  process_operation room (clear_audio ticket) c =
      let (r, c') = process_clear_audio c in reply ticket r c'
  process_operation room (is_connected ticket) c = reply ticket (answer c.connected) c
  process_operation room (has_audio_source ticket) c =
      reply ticket (answer (c.audio_source && c.local_track_publication)) c
  process_operation room (reconnect ticket) c =
      let (e, c') = process_reconnect room c in
      reply ticket (elim e [ none ↦ done | some err ↦ failed err ]) c'
  process_operation room (shutdown (some ticket)) c = reply ticket done c
  process_operation room (shutdown none) c = c

  abbrev pub is_shutdown : Operation Value → Bool
  is_shutdown (shutdown ack) = true
  is_shutdown _ = false

  -- The loop of the worker: each operation comes with the room's answers, its latency and whether
  -- the lock of the statistics was free. `process_operation` returns `Ok` on every path.
  unfoldable pub run_worker :
      List (Operation Value × Room × ℕ × Bool) → Client → QueueStats → Client × QueueStats
  unfolding process_operation record_operation
  run_worker [] c stats = (c, stats)
  run_worker ((op, room, latency, unlocked) ∷ ops) c stats =
      let c' = process_operation room op c in
      let stats' = if unlocked then record_operation op true latency stats else stats in
      let rest = run_worker ops c' stats' in if is_shutdown op then (c', stats') else rest
