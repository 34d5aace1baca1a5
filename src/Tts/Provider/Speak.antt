-- ===== src/Tts/Provider/Speak.antt =====
-- What a client asks of a provider: to speak, to clear, to connect and to disconnect
-- (src/core/tts/provider.rs).
use sayna.Prelude.{
  ℕ, true, false, not, ◌||◌, Option, none, some, List, [], ◌∷◌, ◌++◌, is_empty, length,
  if◌then◌else◌,
}
use sayna.Prelude.Text.{Text, codes, trim}
use sayna.Tts.{TtsError, failure, provider_not_ready, internal_error}
use sayna.Tts.Request.{SpeakJob}
use sayna.Tts.Provider.{
  Channel, RequestEntry, QueuedJob, Task, TtsConfig, Provider, send_to, close, ensure, or_else, off,
  busy,
}

module _ (text_hash : Text → Text) where
  unfoldable pub cache_key : Provider → Text → Option Text
  cache_key p text =
      let key = or_else p.config_hash [] ++ (codes ":" ++ text_hash text) in
      elim p.config_hash [ none ↦ none | some hash ↦ if p.has_cache then some key else none ]

  -- The entry is there before the manager is looked for.
  unfoldable pub enqueue_entry : RequestEntry → Provider → Provider
  unfolding ensure
  enqueue_entry entry p = record p {
    dispatcher = ensure p.dispatcher;
    pending_queue = p.pending_queue ++ (entry ∷ []);
    channels = p.channels ++ (record { waiting = []; open_end = true } ∷ []);
  }

  -- Without a manager the sender is dropped.
  unfoldable pub enqueue_job : SpeakJob → ℕ → Provider → Option TtsError × Provider
  unfolding close ensure
  enqueue_job job sender p =
      if p.has_manager
      then (
        none,
        record p {
          speak_queue = p.speak_queue ++ (record { sender = sender; job = job } ∷ []);
          queue_worker = ensure p.queue_worker;
        },
      )
      else (some internal_error, record p { channels = close sender p.channels })

  unfoldable pub enqueue : TtsConfig → Text → Provider → Option TtsError × Provider
  unfolding enqueue_entry enqueue_job cache_key
  enqueue config text p =
      let format = or_else config.audio_format (codes "linear16") in
      let sample_rate = or_else config.sample_rate 24000 in
      let entry : RequestEntry = record {
        receiver = length p.channels;
        format = format;
        sample_rate = sample_rate;
      } in
      let job : SpeakJob = record {
        text = text;
        format = format;
        sample_rate = sample_rate;
        cache_key = cache_key p text;
      } in
      enqueue_job job (length p.channels) (enqueue_entry entry p)

  -- The error, or none.
  unfoldable pub generic_speak : TtsConfig → Text → Provider → Option TtsError × Provider
  unfolding enqueue
  generic_speak config text p =
      if not p.connected
      then (some provider_not_ready, p)
      else if is_empty text || is_empty (trim text)
      then (none, p)
      else enqueue config (trim text) p

-- The tasks are stopped and the queues emptied. The jobs that waited send an error, which no entry is
-- left to receive.
unfoldable pub clear_queue : List QueuedJob → List Channel → List Channel
unfolding send_to close
clear_queue [] channels = channels
clear_queue (q ∷ queue) channels =
    clear_queue queue (close q.sender (send_to q.sender (failure internal_error) channels))

-- The job in work is aborted, and its sender dropped.
unfoldable pub abort_job : Task QueuedJob → List Channel → List Channel
unfolding close
abort_job (busy q) channels = close q.sender channels
abort_job task channels = channels

unfoldable pub generic_clear : Provider → Provider
unfolding clear_queue abort_job
generic_clear p = record p {
  queue_worker = off;
  dispatcher = off;
  channels = clear_queue p.speak_queue (abort_job p.queue_worker p.channels);
  speak_queue = [];
  pending_queue = [];
  previous_text = none;
}

unfoldable pub generic_disconnect : Provider → Provider
unfolding generic_clear
generic_disconnect p = record (generic_clear p) { connected = false; has_callback = false }

unfoldable pub generic_connect : Provider → Option TtsError × Provider
generic_connect p =
    if p.has_manager
    then (none, record p { connected = true })
    else (some TtsError.connection_failed, p)
