-- ===== src/Voice/Results/Deliver.antt =====
-- What reaches the user (src/core/voice_manager/stt_result.rs).
use mathlib.Core.List.{append-nil, append_assoc}
use sayna.Prelude.{
  Float, ℕ, ◌-◌, ◌<◌, ◌≡◌, sym, ap, ◌∙◌, ◌+◌, ◌⊎◌, Bool, true, false, not, ◌&&◌, none, some, List,
  [], ◌∷◌, ◌++◌, arith, ltb, if◌then◌else◌, is_empty,
}
use sayna.Prelude.Text.{Text, text_eq, trim}
use sayna.Voice.State.{SttResult, InterruptionState}
use sayna.Voice.Tasks.{World, fire_commit}
use sayna.Voice.Results.{SttResultProcessor, process_result, on_result}

module _ (f : Float) where
  open f use {F32}

  -- The user may be interrupted: it is allowed, or what was played is completed and its time is over.
  abbrev pub IsFree : ℕ → InterruptionState → Type 0
  IsFree now i =
      (i.allow_interruption ≡ true)
      ⊎ ((i.is_completed ≡ true) × (i.non_interruptible_until_ms < now))

  abbrev pub IsBlank : SttResult F32 → Type 0
  IsBlank r =
      (is_empty (trim r.transcript) ≡ true) × (r.is_final ≡ true) × (r.is_speech_final ≡ false)

  -- A speech_final with the text that was forced less than the window ago.
  abbrev pub Repeats : SttResultProcessor → SttResult F32 → ℕ → World F32 → Type 0
  Repeats c r now w =
      (r.is_speech_final ≡ true)
      × (0 < w.state.turn_detection_last_fired_ms)
      × (now < w.state.turn_detection_last_fired_ms + c.config.duplicate_window_ms)
      × (text_eq w.state.last_forced_text r.transcript ≡ true)

  -- Exactly which results reach the user, and that they are delivered as they came: those for which
  -- the user may be interrupted (it is allowed, or the audio is completed and its time lies before
  -- now), that are no blank final results short of a speech_final, and no speech_final with the text
  -- that was forced at a time other than 0 with the duplicate window not yet over. The window is not 0.
  pub on_result-delivers :
      (c : SttResultProcessor) (i : InterruptionState) (r : SttResult F32) (now : ℕ) (w : World F32)
      → 0 < c.config.duplicate_window_ms
      → let o = (on_result c i r now w).1 in
        ((o ≡ some r) × (IsFree now i × ((¬ IsBlank r) × (¬ Repeats c r now w))))
        ⊎ ((o ≡ none) × ((¬ IsFree now i) ⊎ (IsBlank r ⊎ Repeats c r now w)))
  unfolding on_result
  on_result-delivers c i r now w p = ground arith

  -- After a forced speech_final with the text `text`, the provider's own speech_final with that
  -- text is dropped until the duplicate window has passed, and then, or with another text, it is
  -- delivered. The clock does not read 0 at the firing.
  pub duplicate_window :
      (c : SttResultProcessor) (r : SttResult F32) (now later : ℕ) (suspends : Bool) (me : ℕ)
      (text : Text) (callback : ℕ) (w : World F32)
      → r.is_speech_final ≡ true
      → 0 < now
      → (process_result c r later (fire_commit f now suspends me text callback w).0).1 ≡ (
          if ltb (later - now) c.config.duplicate_window_ms && text_eq text r.transcript
          then none
          else some r)
  unfolding process_result fire_commit
  duplicate_window c r now later suspends me text callback w s p = ground arith

  -- Results that come one after the other, each with its time.
  unfoldable pub run_results : SttResultProcessor → List (ℕ × SttResult F32) → World F32 → World F32
  run_results c [] w = w
  run_results c ((now, r) ∷ rs) w = run_results c rs (process_result c r now w).0

  -- What was said in final results that are not blank.
  abbrev pub said : List (ℕ × SttResult F32) → Text
  said [] = []
  said ((now, r) ∷ rs) =
      (if r.is_final && not (is_empty (trim r.transcript)) then r.transcript else []) ++ said rs

  abbrev pub NoneSpeechFinal : List (ℕ × SttResult F32) → Type 0
  NoneSpeechFinal [] = Unit {0}
  NoneSpeechFinal ((now, r) ∷ rs) = (r.is_speech_final ≡ false) × NoneSpeechFinal rs

  text-process_result :
      (c : SttResultProcessor) (r : SttResult F32) (now : ℕ) (w : World F32)
      → r.is_speech_final ≡ false
      → (process_result c r now w).0.state.text_buffer
        ≡ w.state.text_buffer
          ++ (if r.is_final && not (is_empty (trim r.transcript)) then r.transcript else [])
  unfolding process_result
  text-process_result c r now w s = ground (arith, append-nil w.state.text_buffer)

  -- Until a speech_final comes, the buffered text is what was buffered followed by the final
  -- results' transcripts in their order, the blank ones and the interim ones left out.
  pub text_accumulates :
      (c : SttResultProcessor) (rs : List (ℕ × SttResult F32)) (w : World F32)
      → NoneSpeechFinal rs
      → (run_results c rs w).state.text_buffer ≡ w.state.text_buffer ++ said rs
  unfolding run_results
  text_accumulates c [] w h = sym (append-nil w.state.text_buffer)
  text_accumulates c ((now, r) ∷ rs) w h =
      text_accumulates c rs (process_result c r now w).0 h.1
      ∙ ap (λ s. s ++ said rs) (text-process_result c r now w h.0)
      ∙ append_assoc w.state.text_buffer _ (said rs)
