-- ===== src/Livekit/Clip/Duration.antt =====
-- Which durations a loading clip may have (src/livekit/loading_clip.rs).
use sayna.Prelude.{ℕ, ◌*◌, ◌/◌, ◌≤◌, ◌<◌, true, refl, ◌≡◌, ◌⊎◌, inl, inr, arith}
use native.Mathlib.Nat.{le-div_iff_mul-le, div-lt_iff_lt-mul}
use sayna.Livekit.Clip.{is_multiple_of}

-- Mono or stereo, at a rate from 8 to 48 kHz.
abbrev pub IsSupported : ℕ → ℕ → Type 0
IsSupported channels sample_rate =
    ((channels ≡ 1) ⊎ (channels ≡ 2)) × (8000 ≤ sample_rate) × (sample_rate ≤ 48000)

-- Mono or stereo, at a rate from 8 to 48 kHz; whole frames that last 250 ms or more, and not 10001 ms;
-- and so at least one sample, and less than 960096.
abbrev pub IsPlayable : ℕ → ℕ → ℕ → Type 0
IsPlayable count channels sample_rate =
    ((channels ≡ 1) ⊎ (channels ≡ 2))
    × (8000 ≤ sample_rate)
    × (sample_rate ≤ 48000)
    × ((frames : ℕ) × (count ≡ frames * channels)
        × (250 * sample_rate ≤ frames * 1000)
        × (frames * 1000 < 10001 * sample_rate))
    × (0 < count)
    × (count < 960096)

-- Whole frames.
abbrev pub IsWhole : ℕ → ℕ → Type 0
IsWhole count channels = is_multiple_of count channels ≡ true

IsPlayable-frames :
    (count channels sample_rate frames : ℕ)
    → IsSupported channels sample_rate
    → count ≡ frames * channels
    → count / channels ≡ frames
    → 250 ≤ ((count / channels) * 1000) / sample_rate
    → ((count / channels) * 1000) / sample_rate ≤ 10000
    → IsPlayable count channels sample_rate
IsPlayable-frames count channels sample_rate frames (two, low, high) whole same long short =
    let some_rate : 0 < sample_rate = omega (arith, low) in
    let enough : 250 * sample_rate ≤ frames * 1000 =
      (le-div_iff_mul-le some_rate).0 (rw same at long) in
    let below : (frames * 1000) / sample_rate < 10001 = omega (arith, rw same at short) in
    let few : frames * 1000 < 10001 * sample_rate = (div-lt_iff_lt-mul some_rate).0 below in
    (
      two,
      low,
      high,
      (frames, whole, enough, few),
      elim two [
        | inl one ↦ omega (arith, rw one at whole, enough, low)
        | inr two ↦ omega (arith, rw two at whole, enough, low)
      ],
      elim two [
        | inl one ↦ omega (arith, rw one at whole, few, high)
        | inr two ↦ omega (arith, rw two at whole, few, high)
      ],
    )

pub playable :
    (count channels sample_rate : ℕ)
    → IsSupported channels sample_rate
    → IsWhole count channels
    → 250 ≤ ((count / channels) * 1000) / sample_rate
    → ((count / channels) * 1000) / sample_rate ≤ 10000
    → IsPlayable count channels sample_rate
unfolding is_multiple_of
playable count channels sample_rate (inl one, low, high) whole long short =
    IsPlayable-frames count channels sample_rate count (inl one, low, high) (rw one (omega arith))
      (rw one (omega arith)) long short
playable count channels sample_rate (inr two, low, high) whole long short =
    let even : is_multiple_of count 2 ≡ true = rw two at whole in
    IsPlayable-frames count channels sample_rate (count / 2) (inr two, low, high)
      (rw two (ground (arith, even))) (rw two refl) long short
