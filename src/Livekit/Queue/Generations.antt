-- ===== src/Livekit/Queue/Generations.antt =====
-- The generations of queued audio (src/livekit/operations.rs).
use sayna.Prelude.{ℕ, ◌+◌, ◌<◌, ◌^◌, List, [], ◌∷◌, ◌++◌, arith, drop, Bool-cases, inl, inr}
use native.Mathlib.Nat.{mod-eq_of_lt}
use sayna.Livekit.Queue.{
  Operation, send_audio, send_message, send_data_message, clear_audio, is_connected,
  has_audio_source, reconnect, shutdown, OperationQueue, new, queue, queue_audio, cancel_audio,
  receive, close,
}

-- Audio of a generation before `generation`.
abbrev pub IsStale : {V : Type 0} → ℕ → Operation V → Type 0
IsStale generation (send_audio bytes ticket old) = old < generation
IsStale generation _ = Unit {0}

abbrev pub AllStale : {V : Type 0} → ℕ → List (Operation V) → Type 0
AllStale generation [] = Unit {0}
AllStale generation (op ∷ ops) = IsStale generation op × AllStale generation ops

-- No audio in the queue is of a generation to come.
abbrev pub IsCurrent : {V : Type 0} → OperationQueue V → Type 0
IsCurrent q = AllStale (q.audio_generation + 1) q.queued

-- Anything but audio.
abbrev pub IsOther : {V : Type 0} → Operation V → Type 0
IsOther (send_audio bytes ticket generation) = ⊥
IsOther _ = Unit {0}

-- The queues that the clients and the worker reach: audio is queued with the generation of its
-- time, other operations as they are, and a cancel does not wrap.
pub data Reached {V : Type 0} : OperationQueue V → Type 0 where
  fresh : (buffer_size : ℕ) → Reached (new buffer_size)
  audio :
      {q : OperationQueue V} (bytes : List ℕ) (ticket : ℕ)
      → Reached q
      → Reached (queue_audio bytes ticket q).1
  other :
      {q : OperationQueue V} (op : Operation V) → IsOther op → Reached q → Reached (queue op q).1
  cancelled :
      {q : OperationQueue V}
      → q.audio_generation + 1 < 2 ^ 64
      → Reached q
      → Reached (cancel_audio q).1
  received : {q : OperationQueue V} → Reached q → Reached (receive q)
  worker_ended : {q : OperationQueue V} → Reached q → Reached (close q)

module _ {V : Type 0} where
  IsOther-IsStale : (g : ℕ) (op : Operation V) → IsOther op → IsStale g op
  IsOther-IsStale g (send_audio bytes ticket old) h = elim h [ ]
  IsOther-IsStale g (send_message message role topic debug ticket) h = tt
  IsOther-IsStale g (send_data_message topic value ticket) h = tt
  IsOther-IsStale g (clear_audio ticket) h = tt
  IsOther-IsStale g (is_connected ticket) h = tt
  IsOther-IsStale g (has_audio_source ticket) h = tt
  IsOther-IsStale g (reconnect ticket) h = tt
  IsOther-IsStale g (shutdown ack) h = tt

  AllStale-append :
      (generation : ℕ) (ops : List (Operation V)) (op : Operation V)
      → AllStale generation ops
      → IsStale generation op
      → AllStale generation (ops ++ (op ∷ []))
  AllStale-append generation [] op h i = (i, tt)
  AllStale-append generation (o ∷ ops) op h i = (h.0, AllStale-append generation ops op h.1 i)

  IsStale-later : (g : ℕ) (op : Operation V) → IsStale g op → IsStale (g + 1) op
  IsStale-later g (send_audio bytes ticket old) h = omega arith
  IsStale-later g (send_message message role topic debug ticket) h = tt
  IsStale-later g (send_data_message topic value ticket) h = tt
  IsStale-later g (clear_audio ticket) h = tt
  IsStale-later g (is_connected ticket) h = tt
  IsStale-later g (has_audio_source ticket) h = tt
  IsStale-later g (reconnect ticket) h = tt
  IsStale-later g (shutdown ack) h = tt

  AllStale-later : (g : ℕ) (ops : List (Operation V)) → AllStale g ops → AllStale (g + 1) ops
  AllStale-later g [] h = tt
  AllStale-later g (op ∷ ops) h = (IsStale-later g op h.0, AllStale-later g ops h.1)

  AllStale-drop : (g : ℕ) (ops : List (Operation V)) → AllStale g ops → AllStale g (drop 1 ops)
  AllStale-drop g [] h = tt
  AllStale-drop g (op ∷ ops) h = h.1

  queue-IsCurrent :
      (op : Operation V) (q : OperationQueue V)
      → IsStale (q.audio_generation + 1) op
      → IsCurrent q
      → IsCurrent (queue op q).1
  unfolding queue
  queue-IsCurrent op q i h = elim (Bool-cases q.closed) [
    | inl e ↦ rw e h
    | inr e ↦ rw e (AllStale-append (q.audio_generation + 1) q.queued op h i)
  ]

  pub Reached-IsCurrent : {q : OperationQueue V} → Reached q → IsCurrent q
  unfolding queue_audio cancel_audio
  Reached-IsCurrent (fresh buffer_size) = tt
  Reached-IsCurrent (audio {q = q} bytes ticket r) =
      queue-IsCurrent (send_audio bytes ticket q.audio_generation) q (omega arith)
        (Reached-IsCurrent r)
  Reached-IsCurrent (other {q = q} op o r) =
      queue-IsCurrent op q (IsOther-IsStale (q.audio_generation + 1) op o) (Reached-IsCurrent r)
  Reached-IsCurrent (cancelled {q = q} small r) =
      rw (mod-eq_of_lt small)
        (AllStale-later (q.audio_generation + 1) q.queued (Reached-IsCurrent r))
  Reached-IsCurrent (received {q = q} r) =
      AllStale-drop (q.audio_generation + 1) q.queued (Reached-IsCurrent r)
  Reached-IsCurrent (worker_ended r) = Reached-IsCurrent r
