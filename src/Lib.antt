-- ===== src/Lib.antt =====
-- Sayna, a real-time voice server: the models of its core and the theorems about them.
--
-- The program takes audio from a client, hands it to a speech-to-text provider, decides when the
-- speaker's turn is over, and plays synthesised speech back. The parts here, each with its file of
-- the repository:
--
--   Vad.Tracker   src/core/vad/silence_tracker.rs: from the probability of each frame to the events
--                 SpeechStart, SilenceDetected, SpeechResumed and TurnEnd.
--   Voice.Chunks  src/core/voice_manager/vad_processor.rs: from bytes to samples, frames and events.
--   Voice.State   src/core/voice_manager/state.rs and stt_config.rs: what is known of the utterance,
--                 its resets, and whether speech may be interrupted.
--   Voice.Tasks   src/core/voice_manager/turn_detection_tasks.rs: the timers and detection tasks.
--   Voice.Results src/core/voice_manager/stt_result.rs: what each result and event does, and the
--                 steps that all of them may take in any order (Voice.Results.Progress).
--   Livekit.Pump  src/livekit/client/audio_pump.rs: the task that plays the buffered speech, alone or
--                 over a loading clip, in frames of 10 ms.
--   Livekit.Queue src/livekit/operations.rs: the operations of a client, their queue with its audio
--                 generations, and the statistics.
--   Livekit.Worker  src/livekit/client/operation_worker.rs, audio.rs and messaging.rs: the loop that
--                 processes and answers the operations.
--   Livekit.Clip  src/livekit/loading_clip.rs: what a client may send as a loading clip, and its
--                 samples.
--   Requests      src/utils/req_manager.rs: permits, retries and metrics of HTTP requests, and the
--                 keep-alive task.
--   Cache         src/core/cache/store.rs: the store of synthesised audio, over a backend in memory
--                 (Cache.Memory) or in files (Cache.Files), and what a backend promises (Cache.Spec).
--   Tts           src/core/tts/provider.rs: one request for speech (Tts.Request), from the cache or the
--                 service to the chunks that are sent and remembered (Tts.Chunks); and the two queues,
--                 their worker and their dispatcher (Tts.Provider: Speak, Tasks and Events).
--   Rooms         src/auth/context.rs, src/livekit/metadata.rs (Rooms.Metadata),
--                 src/handlers/livekit/room_guard.rs (Rooms.Guard) and src/livekit/room_handler.rs
--                 (Rooms.Handler): which tenant owns which room, who is let in, and how a room gets its
--                 tenant. The room service is a parameter under the laws of an interface.
--   Access        src/config/validation.rs and src/auth/api_secret.rs (Access.Secrets),
--                 src/auth/extractor.rs and src/middleware/auth.rs (Access.Middleware): whom a request
--                 speaks for.
--   Sip           src/utils/sip_hooks.rs (Sip.Hooks), src/state/sip_hooks_state.rs (Sip.Served),
--                 src/handlers/sip/hooks.rs (Sip.Endpoints), src/config/sip.rs and validation.rs
--                 (Sip.Checks) and src/utils/phone_validation.rs (Sip.Phone): the hooks that incoming
--                 calls are sent to, how they change, and what is checked.
--   Webhook       src/handlers/livekit/webhook.rs: the events of LiveKit (Webhook.Handler), the host of
--                 a SIP header (Webhook.Domain), and the signed request that goes to the hook of the
--                 host (Webhook.Prepare, Webhook.Signature, Webhook.Forward).
--   Config        src/config/merge.rs and src/config/mod.rs: the file, the environment and the defaults
--                 are merged and then checked (Config.Loaded, Config.Merged).
--
-- How they interact: Chunks feeds frames to the tracker; the tracker's events and the provider's
-- results go to Results, which starts and aborts the tasks; a task reads and resets the shared
-- state and calls the user. The answer of the agent is spoken by Tts, which asks Cache first.
-- Towards the room, the callers put operations into Queue, Worker takes them in order and writes
-- speech into what Pump shares, and Pump plays it.
--
-- Conventions. A method that mutates an object returns the new record. Atomics are plain fields,
-- and a section under one lock is one step. Where a method takes a lock twice, each section is a
-- definition, and the method is both with nothing between them: `buffer_and_start` and
-- `store_detection` of Voice.Results, `fire_check` and `fire_commit` of Voice.Tasks,
-- `persist_hooks` and `publish_hooks` of Sip.Endpoints. The steps of Voice.Results.Progress and
-- the overlaps of Sip.Endpoints.Restart let others come between. Times are arguments. The
-- arithmetic of u64 that may wrap, the counters of Requests included, is written `% 2 ^ 64`. f32
-- is a parameter (Prelude.Floats), and so is the Silero model. A spawned task is a value in the
-- world, run from one await to the next; `abort` marks it. A loop on fuel
-- (Voice.Chunks.drain_frames) has the length of its buffer as fuel, which is enough for frames
-- that are not empty; the retry loop (Requests.retry_loop) has one unit more than its attempts,
-- so that its own test ends it; the loop over an item of audio (Tts.Chunks.cut) has its length.
-- Logging, and the labels that only go to the log, are left out.
--
-- The Livekit parts take what the SDK answers, and the frames that are captured or cut off, as
-- inputs; a turn of the pump or a call of the client is the next event of a list. A reply channel
-- is a ticket. The counters of Livekit.Queue are unbounded; the generation wraps.
--
-- Libraries are parameters: the JSON reader and writer, the hash of a cache key, the tables of
-- characters (lower case, letters), the pattern of an address. A hash map is an association list
-- of which only the look-ups are stated. The concurrent map of Cache.Memory may evict entries to
-- keep its bounds, which is an operation in Cache.Memory.Evicted; the other theorems on it are of
-- runs in which it does not. A channel of Tts.Provider holds one message, and a send to a full
-- one waits.
--
-- An event of LiveKit that is verified goes from Webhook to a hook of Sip.Served, after the room was
-- given to the hook's tenant by Rooms.Handler. A panic of the source is a value (Webhook.Domain).
--
-- A request passes Access, which gives it a tenant, before an endpoint asks Rooms for its rooms.
--
-- Not modelled: the speech providers, the neural models, the settings of recordings, the other
-- HTTP handlers and the WebSocket, the client of the authentication service, and the start and stop
-- of tasks, which are input and output, wiring, or left for later.
pub mod Prelude
pub mod Vad
pub mod Voice
pub mod Livekit
pub mod Requests
pub mod Cache
pub mod Tts
pub mod Rooms
pub mod Sip
pub mod Access
pub mod Webhook
pub mod Config
