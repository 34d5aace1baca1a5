-- ===== src/Livekit/Clip/Tests.antt =====
-- Runs of the loading clip (src/livekit/loading_clip.rs).
use sayna.Prelude.{
  ℕ, true, none, some, List, [], ◌∷◌, map, length, replicate, length-replicate, refl, ◌≡◌, arith,
}
use sayna.Prelude.Int.{of_bits}
use sayna.Prelude.Bytes.{bytes_of_samples}
use sayna.Livekit.Clip.{
  ok, err, Codec, unit_volume, decode_loading_clip, channels_unsupported, decode_raw_pcm,
  check_decoded, Result, LoadingClip, raw_samples, not_aligned,
}
use sayna.Livekit.Clip.Duration.{IsPlayable}
use sayna.Livekit.Clip.Accepted.{decode_loading_clip-IsPlayable}
use sayna.Livekit.Clip.Raw.{decode_loading_clip-bytes_of_samples}

-- A quarter of a second at 8 kHz.
abbrev quarter : List ℕ
quarter = replicate 2000 7

-- A codec whose texts all stand for that audio.
abbrev codec : Codec ℕ
codec = record {
  base64_decode = λ text. some (bytes_of_samples quarter);
  read_wav = λ bytes. none;
  lower = λ t. t;
  one = 1;
  clamp_unit = λ v. v;
  is_one = λ v. true;
  scaled = λ v s. s;
}

abbrev sent : List ℕ
sent = 65 ∷ (65 ∷ (65 ∷ (65 ∷ [])))

quarter-length : length quarter ≡ 2000
quarter-length = length-replicate {A = ℕ} 2000 7

decode_loading_clip-bytes_of_samples_example :
    decode_loading_clip codec sent none (some 8000) none none
    ≡ ok (record { samples = map of_bits quarter; sample_rate = 8000; channels = 1; volume = 1 })
unfolding sayna.Livekit.Clip.is_wav sayna.Livekit.Clip.looks_like_wav bytes_of_samples
decode_loading_clip-bytes_of_samples_example =
    decode_loading_clip-bytes_of_samples codec sent quarter none none 8000 refl (omega arith) refl
      refl (omega arith) (omega arith) (omega (arith, quarter-length))
      (omega (arith, quarter-length))

quarter_accepted :
    decode_loading_clip codec sent none (some 8000) none none
    ≡ ok (record { samples = map of_bits quarter; sample_rate = 8000; channels = 1; volume = 1 })
unfolding sayna.Livekit.Clip.is_wav sayna.Livekit.Clip.looks_like_wav bytes_of_samples
quarter_accepted =
    decode_loading_clip-bytes_of_samples codec sent quarter none none 8000 refl (omega arith) refl
      refl (omega arith) (omega arith) (omega (arith, quarter-length))
      (omega (arith, quarter-length))

decode_loading_clip-IsPlayable_example : IsPlayable (length (map of_bits quarter)) 1 8000
decode_loading_clip-IsPlayable_example =
    decode_loading_clip-IsPlayable codec sent none (some 8000) none none
      (record { samples = map of_bits quarter; sample_rate = 8000; channels = 1; volume = 1 })
      quarter_accepted

-- No channels are refused as not aligned before they are refused as channels.
no_channels : raw_samples 8000 0 (1 ∷ (2 ∷ [])) ≡ err not_aligned
unfolding raw_samples sayna.Livekit.Clip.is_multiple_of
no_channels = refl
