-- ===== src/Livekit/Queue/Tests.antt =====
-- Runs of the operation queue (src/livekit/operations.rs).
use sayna.Prelude.{ℕ, ◌≡◌, refl, false, true, [], ◌∷◌}
use sayna.Livekit.Queue.{
  Operation, send_audio, is_connected, OperationQueue, QueueStats, low, priority, send_data_message,
  record_operation,
}

abbrev pub one_waiting : OperationQueue ℕ
one_waiting = record {
  queued = send_audio (1 ∷ 0 ∷ []) 7 2 ∷ [];
  max_capacity = 1024;
  closed = false;
  audio_generation = 2;
}

abbrev first : QueueStats
first = record {
  total_operations = 1;
  successful_operations = 1;
  failed_operations = 0;
  audio_operations = 1;
  message_operations = 0;
  average_latency_ms = 4;
  max_latency_ms = 4;
}

data_is_low : priority {V = ℕ} (send_data_message [] 3 1) ≡ low
unfolding priority
data_is_low = refl

abbrev one_connected : Operation ℕ
one_connected = is_connected 1

averages : (record_operation one_connected true 9 first).average_latency_ms ≡ 6
unfolding record_operation
averages = refl
