-- ===== src/Tts/Provider.antt =====
-- The queues of a text-to-speech provider (src/core/tts/provider.rs): `speak` puts a job and an entry in
-- two queues, the worker takes the jobs and the dispatcher the entries. What a job sends stands in a
-- channel, which both know by its number. A channel holds one message: a send to a full one waits,
-- so that it changes nothing and comes again. Requests themselves are the part of Tts.Request; their sends are events here.
pub mod Speak
pub mod Tasks
pub mod Events
pub mod Entries
pub mod Order
pub mod Heard
mod Tests
use sayna.Prelude.{
  ℕ, zero, suc, ◌*◌, ◌/◌, ◌%◌, ◌^◌, ◌==◌, Bool, true, false, not, ◌&&◌, ◌||◌, Option, none, some,
  List, [], ◌∷◌, ◌++◌, is_empty, length, get_elem?, drop, if◌then◌else◌,
}
use sayna.Prelude.Text.{Text, codes, text_eq, trim}
use sayna.Tts.{Bytes, TtsError, Message, audio, failure, provider_not_ready, internal_error}
use sayna.Tts.Chunks.{is_linear, is_law, duration_ms}
use sayna.Tts.Request.{SpeakJob}

pub record AudioData : Type 0 where
  pub data_bytes : Bytes
  pub sample_rate : ℕ
  pub format : Text
  pub duration_ms : Option ℕ

-- A call of the audio callback.
pub data Call : Type 0 where
  on_audio : AudioData → Call
  on_error : TtsError → Call
  on_complete : Call

-- The sender's and the receiver's ends: what was sent and not received, and whether the sender lives.
pub record Channel : Type 0 where
  pub waiting : List Message
  pub open_end : Bool

pub record RequestEntry : Type 0 where
  pub receiver : ℕ
  pub format : Text
  pub sample_rate : ℕ

-- A job and the channel that it sends to.
pub record QueuedJob : Type 0 where
  pub sender : ℕ
  pub job : SpeakJob

-- A task: not started, waiting, at something, or ended by a panic.
pub data Task (A : Type 0) : Type 0 where
  off idle dead : Task A
  busy : A → Task A

-- The fields of `TtsConfig` that a request reads.
pub record TtsConfig : Type 0 where
  pub audio_format : Option Text
  pub sample_rate : Option ℕ

-- The dispatcher holds its entry and whether there was a callback when it took it.
pub record Provider : Type 0 where
  pub connected : Bool
  pub has_callback : Bool
  pub has_manager : Bool
  pub config_hash : Option Text
  pub has_cache : Bool
  pub speak_queue : List QueuedJob
  pub pending_queue : List RequestEntry
  pub queue_worker : Task QueuedJob
  pub dispatcher : Task (RequestEntry × Bool)
  pub previous_text : Option Text
  pub channels : List Channel
  pub calls : List (ℕ × Call)

unfoldable pub modify : ℕ → (Channel → Channel) → List Channel → List Channel
modify i f [] = []
modify zero f (c ∷ channels) = f c ∷ channels
modify (suc i) f (c ∷ channels) = c ∷ modify i f channels

-- The capacity of a channel is 1. A clear sends to channels of jobs that have sent nothing.
unfoldable pub put_message : Message → Channel → Channel
put_message m c = if is_empty c.waiting then record c { waiting = m ∷ [] } else c

unfoldable pub send_to : ℕ → Message → List Channel → List Channel
unfolding modify put_message
send_to i m channels = modify i (put_message m) channels

unfoldable pub close : ℕ → List Channel → List Channel
unfolding modify
close i channels = modify i (λ c. record c { open_end = false }) channels

unfoldable pub ensure : {A : Type 0} → Task A → Task A
ensure off = idle
ensure idle = idle
ensure dead = dead
ensure (busy a) = busy a

abbrev pub or_else {ℓ} : {A : Type ℓ} → Option A → A → A
or_else none d = d
or_else (some a) d = a

abbrev pub is_raw : Text → Bool
is_raw format = is_linear format || is_law format

unfoldable pub new : Provider
new = record {
  connected = false;
  has_callback = false;
  has_manager = false;
  config_hash = none;
  has_cache = false;
  speak_queue = [];
  pending_queue = [];
  queue_worker = off;
  dispatcher = off;
  previous_text = none;
  channels = [];
  calls = [];
}
