-- ===== src/Livekit/Pump/Mix.antt =====
-- Speech over the loading clip (src/livekit/client/audio_pump.rs, the mixing branch).
use sayna.Prelude.{
  ℕ, zero, suc, ◌+◌, ◌%◌, ◌<◌, ◌≡◌, refl, ap, ◌∙◌, Option, some, none, List, [], ◌∷◌, false, true,
  ◌||◌, Bool, if◌then◌else◌, min, arith, length, take, drop, get_elem?, take-min,
}
use sayna.Prelude.Int.{ℤ, saturating_add}
use sayna.Livekit.Pump.{
  FadeFloat, AudioPumpShared, Cursor, Capture, captured, closed, cancelled, mix, overlay_turn,
  iterate, again, stop, fill_loading_frame, apply_fade,
}
use sayna.Livekit.Pump.Fill.{fill_loading_frame-length, fill_loading_frame-ring}
use sayna.Livekit.Pump.Fade.{iterate_overlay, apply_fade-length}

-- One slot of the frame: the clip's sample, with the speech's sample added where there is one.
abbrev pub mixed : Option ℤ → Option ℤ → Option ℤ
unfolding saturating_add
mixed none x = none
mixed (some a) none = some a
mixed (some a) (some x) = some (saturating_add a x)

get_elem?-mix :
    (frame tts : List ℤ) (k : ℕ)
    → get_elem? (mix frame tts) k ≡ mixed (get_elem? frame k) (get_elem? tts k)
unfolding mix
get_elem?-mix [] tts k = refl
get_elem?-mix (a ∷ frame) [] zero = refl
get_elem?-mix (a ∷ frame) [] (suc k) = elim (get_elem? frame k) as (λ o. o ≡ mixed o none) [
  | none ↦ refl
  | some b ↦ refl
]
get_elem?-mix (a ∷ frame) (x ∷ tts) zero = refl
get_elem?-mix (a ∷ frame) (x ∷ tts) (suc k) = get_elem?-mix frame tts k

mix-take : (frame tts : List ℤ) → mix frame (take (length frame) tts) ≡ mix frame tts
unfolding mix
mix-take [] tts = refl
mix-take (a ∷ frame) [] = refl
mix-take (a ∷ frame) (x ∷ tts) = ap (◌∷◌ (saturating_add a x)) (mix-take frame tts)

mix-fits :
    (frame tts : List ℤ) → mix frame (take (min (length frame) (length tts)) tts) ≡ mix frame tts
mix-fits frame tts =
    let e : min (length frame) (length tts) ≡ min (length tts) (length frame) = omega arith in
    ap (λ n. mix frame (take n tts)) e
    ∙ ap (mix frame) (take-min (length frame) tts)
    ∙ mix-take frame tts

drop-min : (n : ℕ) (xs : List ℤ) → drop (min n (length xs)) xs ≡ drop n xs
drop-min zero xs = let e : min zero (length xs) ≡ zero = omega arith in ap (λ k. drop k xs) e
drop-min (suc n) [] = let e : min (suc n) zero ≡ zero = omega arith in ap (λ k. drop k []) e
drop-min (suc n) (x ∷ xs) =
    let e : min (suc n) (suc (length xs)) ≡ suc (min n (length xs)) = omega arith in
    ap (λ k. drop k (x ∷ xs)) e ∙ drop-min n xs

abbrev pub IsCut : Capture → Type 0
IsCut captured = ⊥
IsCut closed = Unit {0}
IsCut cancelled = Unit {0}

or_false : (b c : Bool) → b ≡ false → c ≡ false → (b || c) ≡ false
or_false b c h l = ground arith

module _ (ff : FadeFloat) where
  -- While the clip plays, bound, and no fade is asked for or begun, a captured frame is the ring of
  -- the clip with the buffered speech added slot by slot, saturating, and the clip alone where the
  -- speech has run out; as many samples of speech leave the buffer as the frame has slots, and the
  -- cursor moves on by a frame, modulo the clip.
  pub speech_over_clip :
      (frame_len total : ℕ) (clip : List ℤ) (s : ℤ) (sh : AudioPumpShared) (at : Cursor) (k : ℕ)
      → sh.loading_active ≡ true
      → sh.loading_stopping ≡ false
      → at.fading ≡ false
      → at.overlay ≡ some (s ∷ clip)
      → k < frame_len
      → let t = iterate ff frame_len total captured sh at in
        (get_elem? t.played k
          ≡ mixed (get_elem? (s ∷ clip) ((at.cursor + k) % length (s ∷ clip))) (get_elem? sh.tts k))
        × (t.shared.tts ≡ drop frame_len sh.tts)
        × (t.at.cursor ≡ (at.cursor + frame_len) % length (s ∷ clip))
        × (t.control ≡ again)
  unfolding iterate
  speech_over_clip frame_len total clip s sh at k act run fad ov l =
      let (slot, _, next, len) =
        fill_loading_frame-ring (s ∷ clip) at.cursor frame_len k (omega arith) l in
      rw
        (
          iterate_overlay ff frame_len total captured clip s sh at act ov,
          overlay_turn,
          or_false at.fading sh.loading_stopping fad run,
        )
        (
          rw (mix-fits (fill_loading_frame (s ∷ clip) at.cursor frame_len).0 sh.tts) (
              get_elem?-mix (fill_loading_frame (s ∷ clip) at.cursor frame_len).0 sh.tts k
              ∙ ap (λ o. mixed o (get_elem? sh.tts k)) slot),
          ap (λ n. drop (min n (length sh.tts)) sh.tts) len ∙ drop-min frame_len sh.tts,
          next,
          refl,
        )

  overlay_frame-length :
      (frame_len total : ℕ) (clip : List ℤ) (at : Cursor) (fading : Bool)
      → length
          (if fading
            then apply_fade ff (fill_loading_frame clip at.cursor frame_len).0 at.fade_index total
            else ((fill_loading_frame clip at.cursor frame_len).0, at.fade_index)).0
        ≡ frame_len
  overlay_frame-length frame_len total clip at true =
      apply_fade-length ff (fill_loading_frame clip at.cursor frame_len).0 at.fade_index total
      ∙ fill_loading_frame-length clip at.cursor frame_len
  overlay_frame-length frame_len total clip at false =
      fill_loading_frame-length clip at.cursor frame_len

  cut_drop :
      (frame_len total : ℕ) (clip tts : List ℤ) (at : Cursor) (fading : Bool)
      → drop
          (min
            (length
              (if fading
                then apply_fade ff
                    (fill_loading_frame clip at.cursor frame_len).0
                    at.fade_index
                    total
                else ((fill_loading_frame clip at.cursor frame_len).0, at.fade_index)).0)
            (length tts))
          tts
        ≡ drop frame_len tts
  cut_drop frame_len total clip tts at fading =
      ap (λ n. drop (min n (length tts)) tts) (overlay_frame-length frame_len total clip at fading)
      ∙ drop-min frame_len tts

  -- A frame over the clip that is not captured, because the pump is cancelled or the source has
  -- closed, ends the task. The clip keeps its position, so nothing of it is skipped, but
  -- the speech that was mixed into the frame has left the buffer and is not played.
  pub cut_over_clip :
      (frame_len total : ℕ) (c : Capture) (clip : List ℤ) (s : ℤ) (sh : AudioPumpShared)
      (at : Cursor)
      → IsCut c
      → sh.loading_active ≡ true
      → at.overlay ≡ some (s ∷ clip)
      → let t = iterate ff frame_len total c sh at in
        (t.control ≡ stop)
        × (t.played ≡ [])
        × (t.at.cursor ≡ at.cursor)
        × (t.at.overlay ≡ at.overlay)
        × (t.shared.tts ≡ drop frame_len sh.tts)
  unfolding iterate
  cut_over_clip frame_len total captured clip s sh at cut act ov = elim cut [ ]
  cut_over_clip frame_len total closed clip s sh at cut act ov =
      rw (iterate_overlay ff frame_len total closed clip s sh at act ov, overlay_turn)
        (refl, refl, refl, refl, cut_drop frame_len total (s ∷ clip) sh.tts at _)
  cut_over_clip frame_len total cancelled clip s sh at cut act ov =
      rw (iterate_overlay ff frame_len total cancelled clip s sh at act ov, overlay_turn)
        (refl, refl, refl, refl, cut_drop frame_len total (s ∷ clip) sh.tts at _)
