-- ===== src/Tts/Provider/Tasks.antt =====
-- The turns of the worker and of the dispatcher (src/core/tts/provider.rs). A job's token is cancelled
-- only by a clear, which empties the queue, so the worker's test of it is left out.
use sayna.Prelude.{
  ℕ, ◌==◌, Bool, ◌&&◌, Option, none, some, List, [], ◌∷◌, ◌++◌, is_empty, get_elem?, drop,
  if◌then◌else◌,
}
use sayna.Tts.{Bytes, Message, audio, failure}
use sayna.Tts.Chunks.{duration_ms}
use sayna.Tts.Provider.{
  AudioData, Call, Channel, RequestEntry, Provider, modify, send_to, close, is_raw, on_audio,
  on_error, on_complete, off, idle, dead, busy,
}

-- The worker takes the next job.
unfoldable pub take_job : Provider → Provider
take_job p = elim p.queue_worker [
  | idle ↦ elim p.speak_queue [
    | [] ↦ p
    | q ∷ queue ↦ record p { queue_worker = busy q; speak_queue = queue }
  ]
  | _ ↦ p
]

-- The job in work sends a message; with its channel full it waits.
unfoldable pub work_sends : Message → Provider → Provider
unfolding send_to
work_sends m p = elim p.queue_worker [
  | busy q ↦ record p { channels = send_to q.sender m p.channels }
  | _ ↦ p
]

-- The job in work is done, and drops its sender.
unfoldable pub work_ends : Provider → Provider
unfolding close
work_ends p = elim p.queue_worker [
  | busy q ↦ record p { queue_worker = idle; channels = close q.sender p.channels }
  | _ ↦ p
]

-- A call of the callback that the dispatcher got, if it got one.
unfoldable pub tell : ℕ → Bool → Call → List (ℕ × Call) → List (ℕ × Call)
tell ticket told call calls = if told then calls ++ ((ticket, call) ∷ []) else calls

-- After the last message of an entry: completion is told if no entry waits.
unfoldable pub entry_ends : RequestEntry → Bool → Provider → Provider
unfolding tell
entry_ends entry told p = record p {
  dispatcher = idle;
  calls = tell entry.receiver (told && is_empty p.pending_queue) on_complete p.calls;
}

-- A chunk that is received.
unfoldable pub dispatch_audio : RequestEntry → Bool → Bytes → Provider → Provider
unfolding tell
dispatch_audio entry told chunk p =
    let heard : AudioData = record {
      data_bytes = chunk;
      sample_rate = entry.sample_rate;
      format = entry.format;
      duration_ms = duration_ms chunk entry.format entry.sample_rate;
    } in
    if told && is_raw entry.format && (entry.sample_rate == 0)
    then record p { dispatcher = dead }
    else record p { calls = tell entry.receiver told (on_audio heard) p.calls }

unfoldable pub dispatch_message : RequestEntry → Bool → Message → Provider → Provider
unfolding dispatch_audio entry_ends tell
dispatch_message entry told (audio chunk) p = dispatch_audio entry told chunk p
dispatch_message entry told (failure e) p =
    entry_ends entry told (record p { calls = tell entry.receiver told (on_error e) p.calls })

abbrev pub drop_first : Channel → Channel
drop_first c = record { waiting = drop 1 c.waiting; open_end = c.open_end }

-- What the dispatcher finds in the channel of its entry.
unfoldable pub receive : RequestEntry → Bool → List Message → Bool → Provider → Provider
unfolding modify dispatch_message entry_ends
receive entry told [] still_open p = if still_open then p else entry_ends entry told p
receive entry told (m ∷ ms) still_open p =
    dispatch_message entry told m
      (record p { channels = modify entry.receiver drop_first p.channels })

unfoldable pub receive_from : RequestEntry → Bool → Option Channel → Provider → Provider
unfolding receive
receive_from entry told none p = p
receive_from entry told (some c) p = receive entry told c.waiting c.open_end p

-- A turn of the dispatcher: it takes an entry, or receives what its entry has.
unfoldable pub dispatch : Provider → Provider
unfolding receive_from
dispatch p = elim p.dispatcher [
  | off ↦ p
  | dead ↦ p
  | idle ↦ elim p.pending_queue [
    | [] ↦ p
    | entry ∷ queue ↦ record p { dispatcher = busy (entry, p.has_callback); pending_queue = queue }
  ]
  | busy (entry, told) ↦ receive_from entry told (get_elem? p.channels entry.receiver) p
]
