-- ===== src/Livekit/Queue/Stats.antt =====
-- The statistics of the operations, and the count of pending ones (src/livekit/operations.rs).
use native.Mathlib.Nat.{div-le_of_le-mul, mul-le-mul_right, mul-suc, mul_comm}
use sayna.Prelude.{
  ℕ, ◌+◌, ◌-◌, ◌*◌, ◌/◌, ◌^◌, ◌≤◌, ◌<◌, ◌≡◌, Bool, ◌==◌, if◌then◌else◌, max, arith, Bool-cases, inl,
  inr, length,
}
use sayna.Livekit.Queue.{
  Operation, send_audio, send_message, send_data_message, clear_audio, is_connected,
  has_audio_source, reconnect, shutdown, OperationQueue, QueueStats, record_operation,
  pending_count, is_audio, is_message,
}

-- What holds of the statistics at every time.
abbrev pub IsSound : QueueStats → Type 0
IsSound s =
    (s.total_operations ≡ s.successful_operations + s.failed_operations)
    × (s.audio_operations + s.message_operations ≤ s.total_operations)
    × (s.average_latency_ms ≤ s.max_latency_ms)

average_le : (a m l n : ℕ) → a ≤ m → l ≤ m → (a * n + l) / (n + 1) ≤ m
average_le a m l n h k =
    div-le_of_le-mul (n + 1) (omega (arith, mul-le-mul_right n h, mul_comm (n + 1) m, mul-suc m n))

module _ {V : Type 0} where
  one_kind :
      (op : Operation V) → (if is_audio op then 1 else 0) + (if is_message op then 1 else 0) ≤ 1
  one_kind (send_audio bytes ticket generation) = omega arith
  one_kind (send_message message role topic debug ticket) = omega arith
  one_kind (send_data_message topic value ticket) = omega arith
  one_kind (clear_audio ticket) = omega arith
  one_kind (is_connected ticket) = omega arith
  one_kind (has_audio_source ticket) = omega arith
  one_kind (reconnect ticket) = omega arith
  one_kind (shutdown ack) = omega arith

  -- Recording any operation keeps the statistics sound: the total is the sum of the successes and
  -- the failures, the audio and the message operations are together at most the total, and the
  -- average latency is at most the greatest.
  pub record_operation-IsSound :
      (op : Operation V) (success : Bool) (latency : ℕ) (s : QueueStats)
      → IsSound s
      → IsSound (record_operation op success latency s)
  unfolding record_operation
  record_operation-IsSound op success latency s (sum, kinds, avg) =
      let n = s.total_operations in
      let e : n + 1 - 1 ≡ n = omega arith in
      let average =
        average_le s.average_latency_ms (max s.max_latency_ms latency) latency n (omega arith)
          (omega arith) in
      (
        ground arith,
        omega (arith, one_kind op),
        elim (Bool-cases (n + 1 == 1)) [ inl f ↦ rw f (omega arith) | inr f ↦ rw (f, e) average ],
      )

  -- The count of pending operations is wrong as soon as one is pending: with `n` of them queued, 0
  -- < n, and the rest of a capacity below 2 ^ 64 free, it is 2 ^ 64 - n.
  pub pending_count_wraps :
      (q : OperationQueue V)
      → 0 < length q.queued
      → length q.queued ≤ q.max_capacity
      → q.max_capacity < 2 ^ 64
      → pending_count (q.max_capacity - length q.queued) q ≡ 2 ^ 64 - length q.queued
  unfolding pending_count
  pending_count_wraps q some_queued fits small = omega arith
