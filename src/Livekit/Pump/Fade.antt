-- ===== src/Livekit/Pump/Fade.antt =====
-- The fade-out of the loading clip (src/livekit/client/audio_pump.rs, the mixing branch).
use sayna.Prelude.{
  ℕ, suc, ◌+◌, ◌*◌, ◌<◌, ◌≡◌, refl, ap, ◌∙◌, List, [], ◌∷◌, some, none, true, false, leb, arith,
  length, if◌then◌else◌, ◌||◌, Bool, Bool-cases, inl, inr,
}
use sayna.Prelude.Int.{ℤ}
use sayna.Livekit.Pump.{
  FadeFloat, AudioPumpShared, Cursor, Capture, captured, apply_fade, fade_total, overlay_turn,
  iterate, again, fill_loading_frame, stop_loading_audio,
}
use sayna.Livekit.Pump.Fill.{fill_loading_frame-length}

module _ (ff : FadeFloat) where
  apply_fade-index :
      (frame : List ℤ) (index total : ℕ)
      → (apply_fade ff frame index total).1 ≡ index + length frame
  unfolding apply_fade
  apply_fade-index [] index total = omega arith
  apply_fade-index (s ∷ frame) index total = apply_fade-index frame (index + 1) total ∙ omega arith

  pub apply_fade-length :
      (frame : List ℤ) (index total : ℕ) → length (apply_fade ff frame index total).0 ≡ length frame
  unfolding apply_fade
  apply_fade-length [] index total = refl
  apply_fade-length (s ∷ frame) index total = ap suc (apply_fade-length frame (index + 1) total)

  -- With the overlay bound, a turn is `overlay_turn`.
  pub iterate_overlay :
      (frame_len total : ℕ) (c : Capture) (clip : List ℤ) (s : ℤ) (sh : AudioPumpShared)
      (at : Cursor)
      → sh.loading_active ≡ true
      → at.overlay ≡ some (s ∷ clip)
      → iterate ff frame_len total c sh at ≡ overlay_turn ff frame_len total c (s ∷ clip) sh at
  unfolding iterate
  iterate_overlay frame_len total c clip s sh at act ov = simp (act, ov)

  or_true : (b c : Bool) → c ≡ true → (b || c) ≡ true
  or_true b c h = ground arith

  -- A turn of the fade moves its index by a frame and ends the overlay when the index has reached
  -- the end of the ramp.
  pub iterate_fading :
      (frame_len total : ℕ) (clip : List ℤ) (s : ℤ) (sh : AudioPumpShared) (at : Cursor)
      → sh.loading_active ≡ true
      → sh.loading_stopping ≡ true
      → at.overlay ≡ some (s ∷ clip)
      → let t = iterate ff frame_len total captured sh at in
        let ended = leb total (at.fade_index + frame_len) in
        (t.at.fade_index ≡ at.fade_index + frame_len)
        × (t.control ≡ again)
        × (t.shared.loading_active ≡ (if ended then false else true))
        × (t.shared.loading_stopping ≡ (if ended then false else true))
        × (t.at.overlay ≡ (if ended then none else some (s ∷ clip)))
  unfolding iterate
  iterate_fading frame_len total clip s sh at act stp ov =
      let frame = (fill_loading_frame (s ∷ clip) at.cursor frame_len).0 in
      let index : (apply_fade ff frame at.fade_index total).1 ≡ at.fade_index + frame_len =
        apply_fade-index frame at.fade_index total
        ∙ ap (λ k. at.fade_index + k) (fill_loading_frame-length (s ∷ clip) at.cursor frame_len) in
      rw
        (
          iterate_overlay frame_len total captured clip s sh at act ov,
          overlay_turn,
          or_true at.fading _ stp,
        )
        (rw index (elim (Bool-cases (leb total (at.fade_index + frame_len))) [
          | inl e ↦ rw e (refl, refl, refl, refl, refl)
          | inr e ↦ rw e (refl, refl, act, stp, ov)
        ]))

  fade_goes_on :
      (frame_len total : ℕ) (clip : List ℤ) (s : ℤ) (sh : AudioPumpShared) (at : Cursor)
      → sh.loading_active ≡ true
      → sh.loading_stopping ≡ true
      → at.overlay ≡ some (s ∷ clip)
      → at.fade_index + frame_len < total
      → let t = iterate ff frame_len total captured sh at in
        (t.shared.loading_active ≡ true)
        × (t.shared.loading_stopping ≡ true)
        × (t.at.overlay ≡ some (s ∷ clip))
        × (t.at.fade_index ≡ at.fade_index + frame_len)
  fade_goes_on frame_len total clip s sh at act stp ov h =
      let (index, _, act', stp', ov') = iterate_fading frame_len total clip s sh at act stp ov in
      let e : leb total (at.fade_index + frame_len) ≡ false = ground arith in
      (act' ∙ rw e refl, stp' ∙ rw e refl, ov' ∙ rw e refl, index)

  -- A stop of the loading clip is heard for 30 ms. From a turn at which the clip is playing, its
  -- fade not begun, and after the stop, the overlay is still active when two more frames have been
  -- captured, with two frames of the fade done; the third captured frame unbinds the clip and
  -- lowers both flags. Frames are not empty.
  pub stop_fades_out :
      (frame_len : ℕ) (clip : List ℤ) (s : ℤ) (sh : AudioPumpShared) (at : Cursor)
      → 0 < frame_len
      → sh.loading_active ≡ true
      → at.overlay ≡ some (s ∷ clip)
      → at.fade_index ≡ 0
      → let total = fade_total frame_len in
        let t₁ = iterate ff frame_len total captured (stop_loading_audio sh) at in
        let t₂ = iterate ff frame_len total captured t₁.shared t₁.at in
        let t₃ = iterate ff frame_len total captured t₂.shared t₂.at in
        ((t₂.shared.loading_active ≡ true)
          × (t₂.at.overlay ≡ some (s ∷ clip))
          × (t₂.at.fade_index ≡ 2 * frame_len))
        × ((t₃.shared.loading_active ≡ false)
            × (t₃.shared.loading_stopping ≡ false)
            × (t₃.at.overlay ≡ none))
  unfolding fade_total stop_loading_audio
  stop_fades_out frame_len clip s sh at w act ov zero_index =
      let total = fade_total frame_len in
      let sh₁ = stop_loading_audio sh in
      let a₀ : sh₁.loading_active ≡ true = ground arith in
      let s₀ : sh₁.loading_stopping ≡ true = ground arith in
      let t₁ = iterate ff frame_len total captured sh₁ at in
      let (a₁, s₁, o₁, i₁) =
        fade_goes_on frame_len total clip s sh₁ at a₀ s₀ ov (omega (arith, zero_index)) in
      let t₂ = iterate ff frame_len total captured t₁.shared t₁.at in
      let (a₂, s₂, o₂, i₂) =
        fade_goes_on frame_len total clip s t₁.shared t₁.at a₁ s₁ o₁ (omega (arith, i₁)) in
      let (i₃, _, a₃, s₃, o₃) = iterate_fading frame_len total clip s t₂.shared t₂.at a₂ s₂ o₂ in
      let e : leb total (t₂.at.fade_index + frame_len) ≡ true = ground (arith, i₂, i₁) in
      ((a₂, o₂, i₂ ∙ omega (arith, i₁)), (a₃ ∙ rw e refl, s₃ ∙ rw e refl, o₃ ∙ rw e refl))
