-- ===== src/Livekit/Clip/Accepted.antt =====
-- What an accepted loading clip is (src/livekit/loading_clip.rs).
use sayna.Prelude.{
  ℕ, suc, ◌*◌, ◌/◌, ◌≤◌, ltb, leb, ◌==◌, true, false, not, ◌&&◌, ◌||◌, Option, none, some, List, [],
  ◌∷◌, map, length, is_empty, refl, sym, ap, ◌≡◌, ◌⊎◌, inl, inr, Bool-cases, Option-cases, arith,
}
use sayna.Prelude.Text.{Text}
use sayna.Prelude.Int.{ℤ, of_bits}
use sayna.Prelude.Bytes.{samples_of_bytes, length-samples_of_bytes}
use sayna.Livekit.Clip.Duration.{IsPlayable, IsWhole, playable}
use sayna.Livekit.Clip.{
  ClipError, Result, ok, err, Decoded, LoadingClip, WavFile, Codec, is_multiple_of, check_frames,
  decode_wav, raw_samples, decode_raw_pcm, is_wav, apply_volume, with_volume, check_duration,
  check_decoded, decode_bytes, decode_loading_clip, unit_volume, or_one,
}

Result-cases :
    {A : Type 0} → (r : Result A) → ((a : A) × (r ≡ ok a)) ⊎ ((e : ClipError) × (r ≡ err e))
Result-cases (ok a) = inl (a, refl)
Result-cases (err e) = inr (e, refl)

pub length-map : (samples : List ℕ) → length (map of_bits samples) ≡ length samples
length-map [] = refl
length-map (s ∷ samples) = ap suc (length-map samples)

ltb-false : (a b : ℕ) → ltb a b ≡ false → b ≤ a
ltb-false a b h = ground (arith, h)

ok_injective : {A : Type 0} → (a b : A) → ok a ≡ ok b → a ≡ b
ok_injective a b e = ground (arith, e)

module _ {F : Type 0} (codec : Codec F) where
  length-apply_volume :
      (volume : F) (samples : List ℤ) → length (apply_volume codec volume samples) ≡ length samples
  unfolding apply_volume
  length-apply_volume volume [] = refl
  length-apply_volume volume (s ∷ samples) = ap suc (length-apply_volume volume samples)

  length-with_volume :
      (volume : F) (d : Decoded) → length (with_volume codec volume d).samples ≡ length d.samples
  unfolding with_volume
  length-with_volume volume d = elim (Bool-cases (codec.is_one volume)) [
    | inl y ↦ rw (with_volume, y) refl
    | inr n ↦ rw (with_volume, n) (length-apply_volume volume d.samples)
  ]

  check_duration-ok :
      (volume : Option F) (d : Decoded) (clip : LoadingClip F)
      → check_duration codec volume d ≡ ok clip
      → (250 ≤ ((length d.samples / d.channels) * 1000) / d.sample_rate)
        × (((length d.samples / d.channels) * 1000) / d.sample_rate ≤ 10000)
        × (clip.sample_rate ≡ d.sample_rate)
        × (clip.channels ≡ d.channels)
        × (length clip.samples ≡ length d.samples)
  unfolding check_duration
  check_duration-ok volume d clip e =
      let frames : ℕ = length d.samples / d.channels in
      let duration : ℕ = (frames * 1000) / d.sample_rate in
      elim (Bool-cases (is_empty d.samples || (frames == 0))) [
        | inl y ↦ absurd (ground (arith, rw (check_duration, y) at e))
        | inr some_frames ↦ elim (Bool-cases (ltb duration 250)) [
          | inl y ↦ absurd (ground (arith, rw (check_duration, some_frames, y) at e))
          | inr long ↦ elim (Bool-cases (ltb 10000 duration)) [
            | inl y ↦ absurd (ground (arith, rw (check_duration, some_frames, long, y) at e))
            | inr short ↦
                let same : with_volume codec (unit_volume codec volume) d ≡ clip =
                  ok_injective _ clip (rw (check_duration, some_frames, long, short) at e) in
                (
                  ltb-false duration 250 long,
                  ltb-false 10000 duration short,
                  rw (sym same) (unfold with_volume in refl),
                  rw (sym same) (unfold with_volume in refl),
                  rw (sym same) (length-with_volume (unit_volume codec volume) d),
                )
          ]
        ]
      ]

  check_decoded-IsPlayable :
      (volume : Option F) (d : Decoded) (clip : LoadingClip F)
      → check_decoded codec volume d ≡ ok clip
      → (((d.channels ≡ 1) ⊎ (d.channels ≡ 2)) → IsWhole (length d.samples) d.channels)
      → IsPlayable (length clip.samples) clip.channels clip.sample_rate
  unfolding check_decoded
  check_decoded-IsPlayable volume d clip e whole =
      elim (Bool-cases (not (d.channels == 1) && not (d.channels == 2))) [
        | inl y ↦ absurd (ground (arith, rw (check_decoded, y) at e))
        | inr few ↦ elim (Bool-cases (leb 8000 d.sample_rate && leb d.sample_rate 48000)) [
          | inr n ↦ absurd (ground (arith, rw (check_decoded, few, n) at e))
          | inl in_range ↦
              let (long, short, rate, same, count) =
                check_duration-ok volume d clip (rw (check_decoded, few, in_range) at e) in
              let two : (d.channels ≡ 1) ⊎ (d.channels ≡ 2) = ground (arith, few) in
              let low : 8000 ≤ d.sample_rate = ground (arith, in_range) in
              let high : d.sample_rate ≤ 48000 = ground (arith, in_range) in
              rw (rate, same, count)
                (playable (length d.samples) d.channels d.sample_rate (two, low, high) (whole two)
                  long short)
        ]
      ]

  -- A file's samples are whole frames.
  check_frames-IsWhole :
      (sample_rate channels : ℕ) (samples : List ℤ) (d : Decoded)
      → check_frames sample_rate channels samples ≡ ok d
      → IsWhole (length d.samples) d.channels
  unfolding check_frames
  check_frames-IsWhole sample_rate channels samples d e =
      elim (Bool-cases ((channels == 0) || not (is_multiple_of (length samples) channels))) [
        | inl y ↦ absurd (ground (arith, rw (check_frames, y) at e))
        | inr n ↦
            let same : record { samples = samples; sample_rate = sample_rate; channels = channels }
                ≡ d =
              ok_injective _ d (rw (check_frames, n) at e) in
            rw (sym same) (ground (arith, n))
      ]

  decode_wav-IsWhole :
      (file : Option WavFile) (d : Decoded)
      → decode_wav file ≡ ok d
      → IsWhole (length d.samples) d.channels
  unfolding decode_wav
  decode_wav-IsWhole none d e = absurd (ground (arith, e))
  decode_wav-IsWhole (some w) d e =
      elim (Bool-cases (not w.is_int || not (w.bits_per_sample == 16))) [
        | inl y ↦ absurd (ground (arith, rw (decode_wav, y) at e))
        | inr n ↦ elim (Bool-cases (ltb 1920000 (w.declared_samples * 2))) [
          | inl y ↦ absurd (ground (arith, rw (decode_wav, n, y) at e))
          | inr small ↦ elim (Option-cases w.samples) [
            | inl x ↦ absurd (ground (arith, rw (decode_wav, n, small, x) at e))
            | inr (samples, x) ↦
                check_frames-IsWhole w.sample_rate w.channels samples d
                  (rw (decode_wav, n, small, x) at e)
          ]
        ]
      ]

  -- Raw audio that is a whole number of frames.
  raw_frames :
      (bytes : List ℕ) (channels : ℕ)
      → is_multiple_of (length bytes) 2 ≡ true
      → is_multiple_of (length bytes) (2 * channels) ≡ true
      → (channels ≡ 1) ⊎ (channels ≡ 2)
      → IsWhole (length (map of_bits (samples_of_bytes bytes))) channels
  unfolding is_multiple_of
  raw_frames bytes channels even whole (inl one) =
      rw (length-map (samples_of_bytes bytes), length-samples_of_bytes bytes, one) (ground arith)
  raw_frames bytes channels even whole (inr two) =
      let by_four : is_multiple_of (length bytes) 4 ≡ true = rw two at whole in
      rw (length-map (samples_of_bytes bytes), length-samples_of_bytes bytes, two)
        (ground (arith, by_four))

  decode_raw_pcm-IsWhole :
      (bytes : List ℕ) (sample_rate channels : Option ℕ) (d : Decoded)
      → decode_raw_pcm bytes sample_rate channels ≡ ok d
      → (d.channels ≡ 1) ⊎ (d.channels ≡ 2)
      → IsWhole (length d.samples) d.channels
  unfolding decode_raw_pcm raw_samples
  decode_raw_pcm-IsWhole bytes none channels d e two = absurd (ground (arith, e))
  decode_raw_pcm-IsWhole bytes (some rate) channels d e two =
      let ch : ℕ = or_one channels in
      elim (Bool-cases
        (not (is_multiple_of (length bytes) 2) || not (is_multiple_of (length bytes) (2 * ch)))) [
          | inl y ↦ absurd (ground (arith, rw (raw_samples, y) at e))
          | inr n ↦
              let same : record {
                samples = map of_bits (samples_of_bytes bytes);
                sample_rate = rate;
                channels = ch;
              }
                  ≡ d =
                ok_injective _ d (rw (raw_samples, n) at e) in
              rw (sym same)
                (raw_frames bytes ch (ground (arith, n)) (ground (arith, n)) (rw (sym same) at two))
        ]

  decode_bytes-IsPlayable :
      (format : Option Text) (sample_rate channels : Option ℕ) (volume : Option F) (bytes : List ℕ)
      (clip : LoadingClip F)
      → decode_bytes codec format sample_rate channels volume bytes ≡ ok clip
      → IsPlayable (length clip.samples) clip.channels clip.sample_rate
  unfolding decode_bytes
  decode_bytes-IsPlayable format sample_rate channels volume bytes clip e =
      elim (Bool-cases (ltb 1924096 (length bytes))) [
        | inl y ↦ absurd (ground (arith, rw (decode_bytes, y) at e))
        | inr n ↦ elim (Option-cases (is_wav codec format bytes)) [
          | inl x ↦ absurd (ground (arith, rw (decode_bytes, n, x) at e))
          | inr (true, x) ↦ elim (Result-cases (decode_wav (codec.read_wav bytes))) [
            | inr (bad, r) ↦ absurd (ground (arith, rw (decode_bytes, n, x, r) at e))
            | inl (d, r) ↦
                check_decoded-IsPlayable volume d clip (rw (decode_bytes, n, x, r) at e)
                  (λ two. decode_wav-IsWhole (codec.read_wav bytes) d r)
          ]
          | inr (false, x) ↦ elim (Result-cases (decode_raw_pcm bytes sample_rate channels)) [
            | inr (bad, r) ↦ absurd (ground (arith, rw (decode_bytes, n, x, r) at e))
            | inl (d, r) ↦
                check_decoded-IsPlayable volume d clip (rw (decode_bytes, n, x, r) at e)
                  (decode_raw_pcm-IsWhole bytes sample_rate channels d r)
          ]
        ]
      ]

  -- A clip that is accepted, from a WAV file or raw, is mono or stereo at a rate from 8 to 48 kHz, and
  -- has whole frames that last from 250 ms to 10 s, rounded down to milliseconds: so it has a sample,
  -- and less than 960096 of them.
  pub decode_loading_clip-IsPlayable :
      (text : List ℕ) (format : Option Text) (sample_rate channels : Option ℕ) (volume : Option F)
      (clip : LoadingClip F)
      → decode_loading_clip codec text format sample_rate channels volume ≡ ok clip
      → IsPlayable (length clip.samples) clip.channels clip.sample_rate
  unfolding decode_loading_clip
  decode_loading_clip-IsPlayable text format sample_rate channels volume clip e =
      elim (Bool-cases (ltb 1924096 ((length text / 4) * 3))) [
        | inl y ↦ absurd (ground (arith, rw (decode_loading_clip, y) at e))
        | inr n ↦ elim (Option-cases (codec.base64_decode text)) [
          | inl x ↦ absurd (ground (arith, rw (decode_loading_clip, n, x) at e))
          | inr (bytes, x) ↦
              decode_bytes-IsPlayable format sample_rate channels volume bytes clip
                (rw (decode_loading_clip, n, x) at e)
        ]
      ]
