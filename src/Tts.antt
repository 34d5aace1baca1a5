-- ===== src/Tts.antt =====
-- The core that the text-to-speech providers share (src/core/tts/provider.rs): chunks of audio, one
-- request, and the queues.
pub mod Chunks
pub mod Request
pub mod Provider
mod Tests
use sayna.Prelude.{ℕ, List}
use sayna.Prelude.Text.{Text}

abbrev pub Bytes : Type 0
Bytes = List ℕ

-- The variants of `TTSError` that the provider makes. The texts of the errors are left out.
pub data TtsError : Type 0 where
  connection_failed provider_not_ready audio_generation_failed provider_error network_error
        internal_error :
      TtsError

-- What a request sends to its receiver.
pub data Message : Type 0 where
  audio : Bytes → Message
  failure : TtsError → Message
