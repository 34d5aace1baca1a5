-- ===== src/Livekit/Queue.antt =====
-- The operations of a LiveKit client and their queue (src/livekit/operations.rs). A reply channel is
-- a ticket; the JSON value of a message is a parameter. The retry counts of the messages and the
-- times of queuing, which nothing reads, are left out.
pub mod Stats
pub mod Generations
mod Tests
use sayna.Prelude.{
  drop, ℕ, ◌+◌, ◌-◌, ◌*◌, ◌/◌, ◌%◌, ◌^◌, max, Bool, true, false, Option, List, [], ◌∷◌, ◌++◌, ◌==◌,
  if◌then◌else◌,
}
use sayna.Prelude.Text.{Text}

pub data OperationPriority : Type 0 where
  high medium low : OperationPriority

pub data Operation (V : Type 0) : Type 0 where
  send_audio : List ℕ → ℕ → ℕ → Operation V
  send_message : Text → Text → Option Text → Option V → ℕ → Operation V
  send_data_message : Text → V → ℕ → Operation V
  clear_audio : ℕ → Operation V
  is_connected : ℕ → Operation V
  has_audio_source : ℕ → Operation V
  reconnect : ℕ → Operation V
  shutdown : Option ℕ → Operation V

-- `queued` holds what is sent and not yet received, the oldest first.
pub record OperationQueue (V : Type 0) : Type 0 where
  pub queued : List (Operation V)
  pub max_capacity : ℕ
  pub closed : Bool
  pub audio_generation : ℕ

pub record QueueStats : Type 0 where
  pub total_operations : ℕ
  pub successful_operations : ℕ
  pub failed_operations : ℕ
  pub audio_operations : ℕ
  pub message_operations : ℕ
  pub average_latency_ms : ℕ
  pub max_latency_ms : ℕ

module _ {V : Type 0} where
  unfoldable pub priority : Operation V → OperationPriority
  priority (send_audio bytes ticket generation) = high
  priority (send_message message role topic debug ticket) = low
  priority (send_data_message topic value ticket) = low
  priority (clear_audio ticket) = high
  priority (is_connected ticket) = medium
  priority (has_audio_source ticket) = medium
  priority (reconnect ticket) = high
  priority (shutdown ack) = high

  abbrev pub new : ℕ → OperationQueue V
  new buffer_size = record {
    queued = [];
    max_capacity = buffer_size;
    closed = false;
    audio_generation = 0;
  }

  unfoldable pub cancel_audio : OperationQueue V → ℕ × OperationQueue V
  cancel_audio q =
      let generation = (q.audio_generation + 1) % 2 ^ 64 in
      (generation, record q { audio_generation = generation })

  -- The send succeeds unless the receiver is gone; it waits for room, so the order is that of the
  -- sends that went through.
  unfoldable pub queue : Operation V → OperationQueue V → Bool × OperationQueue V
  queue op q = if q.closed then (false, q) else (true, record q { queued = q.queued ++ (op ∷ []) })

  unfoldable pub queue_audio : List ℕ → ℕ → OperationQueue V → Bool × OperationQueue V
  unfolding queue
  queue_audio bytes ticket q = queue (send_audio bytes ticket q.audio_generation) q

  -- `recv` of the worker, and the end of the worker.
  abbrev pub receive : OperationQueue V → OperationQueue V
  receive q = record q { queued = drop 1 q.queued }

  abbrev pub close : OperationQueue V → OperationQueue V
  close q = record q { closed = true }

  -- `capacity() - max_capacity()` on `usize`, with `free` slots left.
  unfoldable pub pending_count : ℕ → OperationQueue V → ℕ
  pending_count free q = (free + (2 ^ 64 - q.max_capacity)) % 2 ^ 64

  abbrev pub is_audio : Operation V → Bool
  is_audio (send_audio bytes ticket generation) = true
  is_audio (clear_audio ticket) = true
  is_audio _ = false

  abbrev pub is_message : Operation V → Bool
  is_message (send_message message role topic debug ticket) = true
  is_message (send_data_message topic value ticket) = true
  is_message _ = false

  -- The same update stands in the worker.
  unfoldable pub record_operation : Operation V → Bool → ℕ → QueueStats → QueueStats
  record_operation op success latency s =
      let total = s.total_operations + 1 in
      record {
        total_operations = total;
        successful_operations = s.successful_operations + (if success then 1 else 0);
        failed_operations = s.failed_operations + (if success then 0 else 1);
        audio_operations = s.audio_operations + (if is_audio op then 1 else 0);
        message_operations = s.message_operations + (if is_message op then 1 else 0);
        max_latency_ms = max s.max_latency_ms latency;
        average_latency_ms =
            if total == 1 then latency else (s.average_latency_ms * (total - 1) + latency) / total;
      }
