-- ===== src/Livekit/Clip.antt =====
-- The loading clip (src/livekit/loading_clip.rs): what a client sends, checked and decoded to samples.
-- Base64, the WAV reader and f32 are parameters. The texts of the errors are left out. The count of
-- frames times 1000 is below 2 ^ 64, since a file has fewer bytes.
pub mod Duration
pub mod Accepted
pub mod Raw
mod Tests
use sayna.Prelude.{
  ℕ, ◌+◌, ◌-◌, ◌*◌, ◌/◌, ◌%◌, ltb, leb, ◌==◌, Bool, true, false, not, ◌&&◌, ◌||◌, Option, none,
  some, List, [], ◌∷◌, map, take, drop, length, is_empty, if◌then◌else◌,
}
use sayna.Prelude.Text.{Text, codes, text_eq, trim}
use sayna.Prelude.Bytes.{samples_of_bytes}
use sayna.Prelude.Int.{ℤ, of_bits, clamp_i16}

abbrev pub min_loading_audio_ms : ℕ
min_loading_audio_ms = 250

abbrev pub max_loading_audio_ms : ℕ
max_loading_audio_ms = 10000

abbrev pub sample_rate_min : ℕ
sample_rate_min = 8000

abbrev pub sample_rate_max : ℕ
sample_rate_max = 48000

abbrev pub max_decoded_bytes : ℕ
max_decoded_bytes = 1920000

abbrev pub max_payload_bytes : ℕ
max_payload_bytes = 1924096

pub data ClipError : Type 0 where
  payload_too_large invalid_base64 unknown_format not_wav not_16_bit decoded_too_large unreadable
        not_whole_frames rate_missing not_aligned channels_unsupported rate_out_of_range too_short
        too_long :
      ClipError

pub data Result (A : Type 0) : Type 0 where
  ok : A → Result A
  err : ClipError → Result A

-- Samples, their rate and their channels.
pub record Decoded : Type 0 where
  pub samples : List ℤ
  pub sample_rate : ℕ
  pub channels : ℕ

pub record LoadingClip (F : Type 0) : Type 0 where
  pub samples : List ℤ
  pub sample_rate : ℕ
  pub channels : ℕ
  pub volume : F

-- What the WAV reader has of a file: its header, and its samples if they can be read.
pub record WavFile : Type 0 where
  pub is_int : Bool
  pub bits_per_sample : ℕ
  pub sample_rate : ℕ
  pub channels : ℕ
  pub declared_samples : ℕ
  pub samples : Option (List ℤ)

pub record Codec (F : Type 0) : Type 0 where
  pub base64_decode : List ℕ → Option (List ℕ)
  pub read_wav : List ℕ → Option WavFile
  pub lower : Text → Text
  pub one : F
  pub clamp_unit : F → F
  pub is_one : F → Bool
  pub scaled : F → ℤ → ℤ

-- `usize::is_multiple_of`
unfoldable pub is_multiple_of : ℕ → ℕ → Bool
is_multiple_of n k = if k == 0 then n == 0 else (n % k) == 0

unfoldable pub check_frames : ℕ → ℕ → List ℤ → Result Decoded
unfolding is_multiple_of
check_frames sample_rate channels samples =
    if (channels == 0) || not (is_multiple_of (length samples) channels)
    then err not_whole_frames
    else ok (record { samples = samples; sample_rate = sample_rate; channels = channels })

unfoldable pub decode_wav : Option WavFile → Result Decoded
unfolding check_frames
decode_wav none = err not_wav
decode_wav (some w) =
    if not w.is_int || not (w.bits_per_sample == 16)
    then err not_16_bit
    else if ltb max_decoded_bytes (w.declared_samples * 2)
    then err decoded_too_large
    else elim w.samples [
      | none ↦ err unreadable
      | some samples ↦ check_frames w.sample_rate w.channels samples
    ]

abbrev pub or_one : Option ℕ → ℕ
or_one none = 1
or_one (some n) = n

unfoldable pub raw_samples : ℕ → ℕ → List ℕ → Result Decoded
unfolding is_multiple_of
raw_samples sample_rate channels bytes =
    if not (is_multiple_of (length bytes) 2) || not (is_multiple_of (length bytes) (2 * channels))
    then err not_aligned
    else ok (record {
      samples = map of_bits (samples_of_bytes bytes);
      sample_rate = sample_rate;
      channels = channels;
    })

unfoldable pub decode_raw_pcm : List ℕ → Option ℕ → Option ℕ → Result Decoded
unfolding raw_samples
decode_raw_pcm bytes none channels = err rate_missing
decode_raw_pcm bytes (some sample_rate) channels = raw_samples sample_rate (or_one channels) bytes

-- A file that starts as a WAV file does.
unfoldable pub looks_like_wav : List ℕ → Bool
looks_like_wav bytes =
    leb 12 (length bytes)
    && text_eq (take 4 bytes) (codes "RIFF")
    && text_eq (take 4 (drop 8 bytes)) (codes "WAVE")

module _ {F : Type 0} (codec : Codec F) where
  unfoldable pub is_wav : Option Text → List ℕ → Option Bool
  unfolding looks_like_wav
  is_wav none bytes = some (looks_like_wav bytes)
  is_wav (some format) bytes =
      if text_eq (codec.lower (trim format)) (codes "wav")
      then some true
      else if text_eq (codec.lower (trim format)) (codes "pcm")
      then some false
      else none

  unfoldable pub apply_volume : F → List ℤ → List ℤ
  apply_volume volume [] = []
  apply_volume volume (s ∷ samples) =
      clamp_i16 (codec.scaled volume s) ∷ apply_volume volume samples

  abbrev pub unit_volume : Option F → F
  unit_volume none = codec.clamp_unit codec.one
  unit_volume (some v) = codec.clamp_unit v

  unfoldable pub with_volume : F → Decoded → LoadingClip F
  unfolding apply_volume
  with_volume volume d = record {
    samples = if codec.is_one volume then d.samples else apply_volume volume d.samples;
    sample_rate = d.sample_rate;
    channels = d.channels;
    volume = volume;
  }

  -- The duration, for channels and a rate that are not 0.
  unfoldable pub check_duration : Option F → Decoded → Result (LoadingClip F)
  unfolding with_volume
  check_duration volume d =
      let frames = length d.samples / d.channels in
      let duration_ms = (frames * 1000) / d.sample_rate in
      if is_empty d.samples || (frames == 0)
      then err too_short
      else if ltb duration_ms min_loading_audio_ms
      then err too_short
      else if ltb max_loading_audio_ms duration_ms
      then err too_long
      else ok (with_volume (unit_volume volume) d)

  unfoldable pub check_decoded : Option F → Decoded → Result (LoadingClip F)
  unfolding check_duration
  check_decoded volume d =
      if not (d.channels == 1) && not (d.channels == 2)
      then err channels_unsupported
      else if not (leb sample_rate_min d.sample_rate && leb d.sample_rate sample_rate_max)
      then err rate_out_of_range
      else check_duration volume d

  abbrev pub and_check : Option F → Result Decoded → Result (LoadingClip F)
  and_check volume (err e) = err e
  and_check volume (ok d) = check_decoded volume d

  unfoldable pub decode_bytes :
      Option Text → Option ℕ → Option ℕ → Option F → List ℕ → Result (LoadingClip F)
  unfolding is_wav decode_wav decode_raw_pcm check_decoded
  decode_bytes format sample_rate channels volume bytes =
      if ltb max_payload_bytes (length bytes)
      then err payload_too_large
      else elim (is_wav format bytes) [
        | none ↦ err unknown_format
        | some true ↦ and_check volume (decode_wav (codec.read_wav bytes))
        | some false ↦ and_check volume (decode_raw_pcm bytes sample_rate channels)
      ]

  -- `text` is the bytes of the text.
  unfoldable pub decode_loading_clip :
      List ℕ → Option Text → Option ℕ → Option ℕ → Option F → Result (LoadingClip F)
  unfolding decode_bytes
  decode_loading_clip text format sample_rate channels volume =
      if ltb max_payload_bytes ((length text / 4) * 3)
      then err payload_too_large
      else elim (codec.base64_decode text) [
        | none ↦ err invalid_base64
        | some bytes ↦ decode_bytes format sample_rate channels volume bytes
      ]
