-- ===== src/Voice/Chunks/Frames.antt =====
-- Cutting the sample stream into frames (src/core/voice_manager/vad_processor.rs).
use mathlib.Core.List.{append_assoc}
use sayna.Prelude.{
  ℕ, zero, suc, ◌≤◌, ◌<◌, ◌≡◌, refl, ap, ◌∙◌, List, [], ◌∷◌, ◌++◌, arith, leb, length, take, drop,
  Bool-cases, inl, inr, length-drop, length-take, take-append-drop,
}
use sayna.Voice.Chunks.{VadState, drain_frames, take_frames}

abbrev pub flatten : List (List ℕ) → List ℕ
flatten [] = []
flatten (x ∷ xs) = x ++ flatten xs

abbrev pub AllLength : ℕ → List (List ℕ) → Type 0
AllLength n [] = Unit {0}
AllLength n (x ∷ xs) = (length x ≡ n) × AllLength n xs

drain_frames-lossless :
    (fuel size : ℕ) (buffer : List ℕ)
    → flatten (drain_frames fuel size buffer).0 ++ (drain_frames fuel size buffer).1 ≡ buffer
unfolding drain_frames
drain_frames-lossless zero size buffer = refl
drain_frames-lossless (suc fuel) size buffer = elim (Bool-cases (leb size (length buffer))) [
  | inl e ↦ rw e (
      append_assoc (take size buffer) _ _
      ∙ ap (◌++◌ (take size buffer)) (drain_frames-lossless fuel size (drop size buffer))
      ∙ take-append-drop size buffer)
  | inr e ↦ rw e refl
]

drain_frames-whole :
    (fuel size : ℕ) (buffer : List ℕ) → AllLength size (drain_frames fuel size buffer).0
unfolding drain_frames
drain_frames-whole zero size buffer = tt
drain_frames-whole (suc fuel) size buffer = elim (Bool-cases (leb size (length buffer))) [
  | inl e ↦
      rw e
        (ground (arith, length-take size buffer), drain_frames-whole fuel size (drop size buffer))
  | inr e ↦ rw e tt
]

drain_frames-short :
    (fuel size : ℕ) (buffer : List ℕ)
    → 0 < size
    → length buffer ≤ fuel
    → length (drain_frames fuel size buffer).1 < size
unfolding drain_frames
drain_frames-short zero size buffer w h = omega arith
drain_frames-short (suc fuel) size buffer w h =
    ground (arith, length-drop size buffer, drain_frames-short fuel size (drop size buffer) w)

-- No sample is lost, repeated or reordered by the cut into frames: the frames and what stays in the
-- buffer are what was buffered followed by the new samples. Every frame is whole, and when frames
-- have a length the loop runs to its end: less than a frame stays.
pub take_frames_lem :
    (size : ℕ) (samples : List ℕ) (v : VadState)
    → 0 < size
    → let (frames, v') = take_frames size samples v in
      (flatten frames ++ v'.frame_buffer ≡ v.frame_buffer ++ samples)
      × AllLength size frames
      × (length v'.frame_buffer < size)
      × (v'.audio_buffer ≡ v.audio_buffer)
unfolding take_frames
take_frames_lem size samples v w =
    let buffer = v.frame_buffer ++ samples in
    (
      drain_frames-lossless (length buffer) size buffer,
      drain_frames-whole (length buffer) size buffer,
      drain_frames-short (length buffer) size buffer w (omega arith),
      refl,
    )
