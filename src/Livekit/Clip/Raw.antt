-- ===== src/Livekit/Clip/Raw.antt =====
-- Raw audio goes through a loading clip unchanged (src/livekit/loading_clip.rs).
use sayna.Prelude.{
  ℕ, ◌*◌, ◌/◌, ◌%◌, ◌≤◌, ◌<◌, ltb, leb, ◌==◌, true, false, ◌&&◌, ◌||◌, Option, none, some, List, [],
  ◌∷◌, map, length, is_empty, refl, ◌≡◌, ◌∙◌, arith,
}
use native.Mathlib.Nat.{le-div_iff_mul-le, div-lt_iff_lt-mul}
use sayna.Prelude.Text.{Text}
use sayna.Prelude.Int.{ℤ, of_bits}
use sayna.Prelude.Bytes.{bytes_of_samples, samples_of_bytes-bytes_of_samples}
use sayna.Livekit.Clip.{
  ok, Codec, is_multiple_of, raw_samples, decode_raw_pcm, is_wav, with_volume, unit_volume,
  check_duration, check_decoded, decode_bytes, decode_loading_clip,
}
use sayna.Livekit.Clip.Accepted.{length-map}

length-bytes_of_samples : (xs : List ℕ) → length (bytes_of_samples xs) ≡ 2 * length xs
unfolding bytes_of_samples
length-bytes_of_samples [] = omega arith
length-bytes_of_samples (x ∷ xs) = omega (arith, length-bytes_of_samples xs)

raw_samples-bytes_of_samples :
    (xs : List ℕ) (rate : ℕ)
    → raw_samples rate 1 (bytes_of_samples xs)
      ≡ ok (record { samples = map of_bits xs; sample_rate = rate; channels = 1 })
unfolding raw_samples is_multiple_of
raw_samples-bytes_of_samples xs rate =
    let even : (length (bytes_of_samples xs) % 2 == 0) ≡ true =
      ground (arith, length-bytes_of_samples xs) in
    rw (raw_samples, is_multiple_of, even) (rw (samples_of_bytes-bytes_of_samples xs) refl)

some_samples :
    (samples : List ℤ) → 0 < length samples → (is_empty samples || (length samples == 0)) ≡ false
some_samples [] h = absurd (omega (arith, h))
some_samples (s ∷ samples) h = ground arith

module _ {F : Type 0} (codec : Codec F) where
  check_decoded-passes :
      (volume : Option F) (samples : List ℤ) (rate : ℕ)
      → 8000 ≤ rate
      → rate ≤ 48000
      → 250 * rate ≤ length samples * 1000
      → length samples * 1000 < 10001 * rate
      → check_decoded codec volume (record { samples = samples; sample_rate = rate; channels = 1 })
        ≡ ok (
            with_volume codec
              (unit_volume codec volume)
              (record { samples = samples; sample_rate = rate; channels = 1 }))
  unfolding check_decoded check_duration
  check_decoded-passes volume samples rate low high long short =
      let some_rate : 0 < rate = omega (arith, low) in
      let in_range : (leb 8000 rate && leb rate 48000) ≡ true = ground (arith, low, high) in
      let whole : length samples / 1 ≡ length samples = omega arith in
      let some_frames : (is_empty samples || (length samples == 0)) ≡ false =
        some_samples samples (omega (arith, long, low)) in
      let enough : 250 ≤ (length samples * 1000) / rate = (le-div_iff_mul-le some_rate).1 long in
      let few : (length samples * 1000) / rate < 10001 = (div-lt_iff_lt-mul some_rate).1 short in
      let not_short : ltb ((length samples * 1000) / rate) 250 ≡ false = ground (arith, enough) in
      let not_long : ltb 10000 ((length samples * 1000) / rate) ≡ false = ground (arith, few) in
      rw (check_decoded, in_range, check_duration, whole, some_frames, not_short, not_long) refl

  -- Mono samples, sent raw in base64 at a rate from 8 to 48 kHz, that last from 250 ms to 10 s, are
  -- accepted as they are, at full volume.
  pub decode_loading_clip-bytes_of_samples :
      (text xs : List ℕ) (format : Option Text) (volume : Option F) (rate : ℕ)
      → codec.base64_decode text ≡ some (bytes_of_samples xs)
      → (length text / 4) * 3 ≤ 1924096
      → is_wav codec format (bytes_of_samples xs) ≡ some false
      → codec.is_one (unit_volume codec volume) ≡ true
      → 8000 ≤ rate
      → rate ≤ 48000
      → 250 * rate ≤ length xs * 1000
      → length xs * 1000 < 10001 * rate
      → decode_loading_clip codec text format (some rate) none volume
        ≡ ok (record {
          samples = map of_bits xs;
          sample_rate = rate;
          channels = 1;
          volume = unit_volume codec volume;
        })
  unfolding decode_loading_clip decode_bytes decode_raw_pcm with_volume
  decode_loading_clip-bytes_of_samples text xs format volume rate decoded small raw full low high
        long short =
      let small_text : ltb 1924096 ((length text / 4) * 3) ≡ false = ground (arith, small) in
      let small_bytes : ltb 1924096 (length (bytes_of_samples xs)) ≡ false =
        ground (arith, length-bytes_of_samples xs, short, high) in
      let passed =
        check_decoded-passes volume (map of_bits xs) rate low high (rw (length-map xs) long)
          (rw (length-map xs) short) in
      rw (decode_loading_clip, small_text, decoded, decode_bytes, small_bytes, raw)
        (rw (raw_samples-bytes_of_samples xs rate) (passed ∙ rw (with_volume, full) refl))
