-- ===== src/Livekit/Worker/Tests.antt =====
-- Runs of the operation worker (src/livekit/client/operation_worker.rs).
use sayna.Prelude.{ℕ, ◌≡◌, refl, ◌⊎◌, Bool, true, false, some, none, List, [], ◌∷◌, ◌++◌, arith}
use sayna.Prelude.Int.{ℤ, pos, negsuc}
use sayna.Livekit.Queue.{
  Operation, OperationQueue, QueueStats, send_audio, is_connected, shutdown, cancel_audio,
  queue_audio,
}
use sayna.Livekit.Queue
use sayna.Livekit.Queue.Generations.{Reached, fresh, audio, other, cancelled}
use sayna.Livekit.Worker.{Json, Room, Client, run_worker, convert_frame_to_audio}
use sayna.Livekit.Worker.Replies.{answered, waiting, each_answered_once}
use sayna.Livekit.Worker.Speech.{cancel_silences}

abbrev bytes_json : Json
bytes_json = record {
  Value = List ℕ;
  message_json = λ message role debug. message ++ role;
  to_vec = λ v. some v;
  messages_topic = [];
}

abbrev room : Room
room = record { data_published = true; room_joined = true; track_published = false }

abbrev client : Client
client = record {
  audio_pump = record {
    tts = pos 5 ∷ [];
    max_tts_samples = 8;
    loading_active = true;
    loading_stopping = false;
    loading_samples = none;
  };
  connected = true;
  room = true;
  audio_source = true;
  local_track_publication = true;
  has_source = true;
  pump_running = true;
  channels = 2;
  publish_audio = true;
  audio_generation = 3;
  source_cleared = 0;
  handlers_started = 1;
  packets = [];
  replies = [];
}

abbrev stats : QueueStats
stats = record {
  total_operations = 0;
  successful_operations = 0;
  failed_operations = 0;
  audio_operations = 0;
  message_operations = 0;
  average_latency_ms = 0;
  max_latency_ms = 0;
}

abbrev frame : List ℤ
frame = pos 300 ∷ negsuc 0 ∷ []

abbrev old_audio : Operation (List ℕ)
old_audio = send_audio (convert_frame_to_audio frame) 7 2

abbrev queue : OperationQueue (List ℕ)
queue = record {
  queued = old_audio ∷ is_connected 8 ∷ shutdown (some 9) ∷ [];
  max_capacity = 1024;
  closed = false;
  audio_generation = 2;
}

queue-Reached : Reached queue
unfolding queue_audio cancel_audio Queue.queue
queue-Reached = other (shutdown (some 9)) tt (
    other (is_connected 8) tt (
      audio (convert_frame_to_audio frame) 7
        (cancelled (omega arith) (cancelled (omega arith) (fresh 1024)))))

abbrev ops : List (Operation (List ℕ) × Room × ℕ × Bool)
ops =
    (old_audio, room, 1, true)
    ∷ (is_connected 8, room, 1, true)
    ∷ (shutdown (some 9), room, 1, false)
    ∷ []

each_answered_once_example :
    answered (run_worker bytes_json ops client stats).0 ≡ answered client ++ waiting bytes_json ops
each_answered_once_example = each_answered_once bytes_json ops client stats

next : client.audio_generation ≡ (cancel_audio queue).0
unfolding cancel_audio
next = refl

cancel_silences_example :
    let c' = (run_worker bytes_json ops client stats).0 in
    (c'.audio_pump.tts ≡ client.audio_pump.tts) ⊎ (c'.audio_pump.tts ≡ [])
cancel_silences_example =
    cancel_silences bytes_json queue ops client stats queue-Reached (omega arith) refl next
