-- ===== src/Livekit/Pump/Fill.antt =====
-- The loading clip is played as a ring (src/livekit/client/audio_pump.rs, `fill_loading_frame`).
use native.Mathlib.Nat.{mod_self, mod-lt, mod-eq_of_lt, mod-add-mod}
use sayna.Prelude.{
  ℕ, zero, suc, ◌+◌, ◌%◌, ◌<◌, ◌≡◌, refl, sym, ap, ◌∙◌, List, [], ◌∷◌, arith, ◌==◌, if◌then◌else◌,
  Bool-cases, inl, inr, length, get_elem?, get_elem?-get_or, length-replicate,
}
use sayna.Prelude.Int.{ℤ, pos}
use sayna.Livekit.Pump.{fill_slots, fill_loading_frame}

-- One step along the ring.
advance : (p len : ℕ) → p < len → (if p + 1 == len then 0 else p + 1) ≡ (p + 1) % len
advance p len h = elim (Bool-cases (p + 1 == len)) [
  | inl e ↦ rw e (sym (ap (λ k. k % len) (ground arith) ∙ mod_self len))
  | inr e ↦ rw e (sym (mod-eq_of_lt (ground arith)))
]

fill_slots-length : (n : ℕ) (clip : List ℤ) (p : ℕ) → length (fill_slots n clip p).0 ≡ n
unfolding fill_slots
fill_slots-length zero clip p = refl
fill_slots-length (suc n) clip p = ap suc (fill_slots-length n clip _)

fill_slots-next :
    (n : ℕ) (clip : List ℤ) (p : ℕ)
    → p < length clip
    → (fill_slots n clip p).1 ≡ (p + n) % length clip
unfolding fill_slots
fill_slots-next zero clip p h =
    sym (mod-eq_of_lt (omega arith)) ∙ ap (λ k. k % length clip) (omega arith)
fill_slots-next (suc n) clip p h = rw (advance p (length clip) h) (
    fill_slots-next n clip ((p + 1) % length clip) (mod-lt (p + 1) (omega arith))
    ∙ mod-add-mod (p + 1) (length clip) n
    ∙ ap (λ k. k % length clip) (omega arith))

fill_slots-elem :
    (n : ℕ) (clip : List ℤ) (p k : ℕ)
    → p < length clip
    → k < n
    → get_elem? (fill_slots n clip p).0 k ≡ get_elem? clip ((p + k) % length clip)
unfolding fill_slots
fill_slots-elem zero clip p k h l = absurd (omega arith)
fill_slots-elem (suc n) clip p zero h l = sym (
    ap (get_elem? clip) (ap (λ k. k % length clip) (omega arith) ∙ mod-eq_of_lt h)
    ∙ get_elem?-get_or clip p (pos 0) h)
fill_slots-elem (suc n) clip p (suc k) h l = rw (advance p (length clip) h) (
    fill_slots-elem n clip ((p + 1) % length clip) k (mod-lt (p + 1) (omega arith)) (omega arith)
    ∙ ap (get_elem? clip)
        (mod-add-mod (p + 1) (length clip) k ∙ ap (λ k. k % length clip) (omega arith)))

pub fill_loading_frame-length :
    (clip : List ℤ) (cursor n : ℕ) → length (fill_loading_frame clip cursor n).0 ≡ n
unfolding fill_loading_frame
fill_loading_frame-length [] cursor n = length-replicate n (pos 0)
fill_loading_frame-length (s ∷ clip) cursor n = fill_slots-length n (s ∷ clip) _

-- Consecutive frames play a non-empty clip as a ring from whatever position the cursor has: slot `k`
-- of a frame of `n` slots is sample `cursor + k` modulo the length of the clip, which is in range,
-- and the returned cursor is `cursor + n` modulo the length.
pub fill_loading_frame-ring :
    (clip : List ℤ) (cursor n k : ℕ)
    → 0 < length clip
    → k < n
    → let (frame, next) = fill_loading_frame clip cursor n in
      (get_elem? frame k ≡ get_elem? clip ((cursor + k) % length clip))
      × ((cursor + k) % length clip < length clip)
      × (next ≡ (cursor + n) % length clip)
      × (length frame ≡ n)
unfolding fill_loading_frame
fill_loading_frame-ring [] cursor n k h l = absurd (omega arith)
fill_loading_frame-ring (s ∷ clip) cursor n k h l =
    let len = length (s ∷ clip) in
    (
      fill_slots-elem n (s ∷ clip) (cursor % len) k (mod-lt cursor h) l
          ∙ ap (get_elem? (s ∷ clip)) (mod-add-mod cursor len k),
      mod-lt (cursor + k) h,
      fill_slots-next n (s ∷ clip) (cursor % len) (mod-lt cursor h) ∙ mod-add-mod cursor len n,
      fill_loading_frame-length (s ∷ clip) cursor n,
    )
