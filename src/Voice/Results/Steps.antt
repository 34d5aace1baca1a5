-- ===== src/Voice/Results/Steps.antt =====
-- What one step does to the phase of the segment and to the numbering of its tasks
-- (src/core/voice_manager).
use sayna.Prelude.{true, false, ◌∙◌, ℕ, ◌<◌, ◌≡◌, subst, sym, ◌⊎◌, inl, inr, ◌++◌, arith}
use sayna.Vad.Tracker.{VadEvent, speech_start, speech_resumed, silence_detected, turn_end}
use sayna.Voice.State.{SttResult, InterruptionState, reset_for_next_segment}
use sayna.Voice.Tasks.{World}
use sayna.Voice.Results.{
  SttResultProcessor, on_result, process_vad_event, handle_turn_detection, buffer_and_start,
}
use sayna.Voice.Results.Segment.{
  Below-mono, Numbered, IsOpen, IsClosed, Phase, IsClosed-buffer_and_start, IsOpen-buffer_and_start,
  Numbered-buffer_and_start, IsPending-buffer_and_start, Numbered-store_detection,
  store_detection-Phase, store_detection-IsOpen, store_detection-stays, buffer_and_start-is_new,
}

module _ {F32 : Type 0} (c : SttResultProcessor) where
  abbrev closed : World F32 → World F32
  unfolding reset_for_next_segment
  closed w =
      let (s, taken) = reset_for_next_segment w.state in
      record w { state = s; aborted = taken ++ w.aborted }

  on_result-cases :
      (i : InterruptionState) (r : SttResult F32) (now : ℕ) (w : World F32)
      → ((on_result c i r now w).0 ≡ w)
        ⊎ (((on_result c i r now w).0 ≡ handle_turn_detection c r now w)
            ⊎ ((on_result c i r now w).0 ≡ closed w))
  unfolding on_result closed
  on_result-cases i r now w = ground arith

  closed-lem : (w : World F32) → Numbered w → IsClosed (closed w) × Numbered (closed w)
  unfolding closed
  closed-lem w n = ground arith

  pub process_vad_event-Numbered :
      (e : VadEvent) (now : ℕ) (w : World F32) → Numbered w → Numbered (process_vad_event c e now w)
  unfolding process_vad_event
  process_vad_event-Numbered speech_start now w n = ground arith
  process_vad_event-Numbered speech_resumed now w n = ground arith
  process_vad_event-Numbered silence_detected now w n = ground arith
  process_vad_event-Numbered turn_end now w n =
      ground (arith, Below-mono w.next_task w.aborted n.aborted_old)

  process_vad_event-IsClosed :
      (e : VadEvent) (now : ℕ) (w : World F32) → IsClosed w → IsClosed (process_vad_event c e now w)
  unfolding process_vad_event
  process_vad_event-IsClosed speech_start now w n = ground arith
  process_vad_event-IsClosed speech_resumed now w n = ground arith
  process_vad_event-IsClosed silence_detected now w n = ground arith
  process_vad_event-IsClosed turn_end now w n = ground arith

  process_vad_event-IsOpen :
      (e : VadEvent) (now : ℕ) (w : World F32) (h : ℕ)
      → Numbered w
      → IsOpen c.config w h
      → IsOpen c.config (process_vad_event c e now w) h
  unfolding process_vad_event
  process_vad_event-IsOpen speech_start now w h n o = ground arith
  process_vad_event-IsOpen speech_resumed now w h n o = ground arith
  process_vad_event-IsOpen silence_detected now w h n o = ground arith
  process_vad_event-IsOpen turn_end now w h n o = ground arith

  -- With nothing between its sections, a result leaves an open segment.
  pub handle_turn_detection-IsOpen :
      (r : SttResult F32) (now : ℕ) (w : World F32)
      → 0 < now
      → Numbered w
      → Phase c.config w
      → (h : ℕ) × IsOpen c.config (handle_turn_detection c r now w) h
  unfolding handle_turn_detection
  handle_turn_detection-IsOpen r now w p n (inl i) =
      let (w', q) = buffer_and_start c r now w in
      let new : q.is_new_segment ≡ true =
        buffer_and_start-is_new c r now w ∙ ground (arith, i.no_start) in
      (
        w'.next_task,
        store_detection-IsOpen c q now w' p new (IsPending-buffer_and_start c r now w n).old
            (Numbered-buffer_and_start c r now w n),
      )
  handle_turn_detection-IsOpen r now w p n (inr (h, o)) =
      let (w', q) = buffer_and_start c r now w in
      let old : q.is_new_segment ≡ false =
        buffer_and_start-is_new c r now w ∙ ground (arith, o.started) in
      (
        h,
        store_detection-stays c q now w' h old (IsPending-buffer_and_start c r now w n)
            (IsOpen-buffer_and_start c r now w h n o),
      )

  Numbered-handle_turn_detection :
      (r : SttResult F32) (now : ℕ) (w : World F32)
      → Numbered w
      → Numbered (handle_turn_detection c r now w)
  unfolding handle_turn_detection
  Numbered-handle_turn_detection r now w n =
      let (w', q) = buffer_and_start c r now w in
      Numbered-store_detection c q now w' (IsPending-buffer_and_start c r now w n).old
        (Numbered-buffer_and_start c r now w n)

  pub on_result-Numbered :
      (i : InterruptionState) (r : SttResult F32) (now : ℕ) (w : World F32)
      → Numbered w
      → Numbered (on_result c i r now w).0
  on_result-Numbered i r now w n = elim (on_result-cases i r now w) [
    | inl e ↦ subst Numbered (sym e) n
    | inr (inl e) ↦ subst Numbered (sym e) (Numbered-handle_turn_detection r now w n)
    | inr (inr e) ↦ subst Numbered (sym e) (closed-lem w n).1
  ]

  pub buffer_and_start-Phase :
      (r : SttResult F32) (now : ℕ) (w : World F32)
      → Numbered w
      → Phase c.config w
      → Phase c.config (buffer_and_start c r now w).0
  buffer_and_start-Phase r now w n (inl i) = inl (IsClosed-buffer_and_start c r now w i)
  buffer_and_start-Phase r now w n (inr (h, o)) = inr (h, IsOpen-buffer_and_start c r now w h n o)

  handle_turn_detection-Phase :
      (r : SttResult F32) (now : ℕ) (w : World F32)
      → 0 < now
      → Numbered w
      → Phase c.config w
      → Phase c.config (handle_turn_detection c r now w)
  unfolding handle_turn_detection
  handle_turn_detection-Phase r now w p n ph =
      let (w', q) = buffer_and_start c r now w in
      store_detection-Phase c q now w' p (IsPending-buffer_and_start c r now w n)
        (Numbered-buffer_and_start c r now w n) (buffer_and_start-Phase r now w n ph)

  pub on_result-Phase :
      (i : InterruptionState) (r : SttResult F32) (now : ℕ) (w : World F32)
      → 0 < now
      → Numbered w
      → Phase c.config w
      → Phase c.config (on_result c i r now w).0
  on_result-Phase i r now w p n ph = elim (on_result-cases i r now w) [
    | inl e ↦ subst (Phase c.config) (sym e) ph
    | inr (inl e) ↦ subst (Phase c.config) (sym e) (handle_turn_detection-Phase r now w p n ph)
    | inr (inr e) ↦ subst (Phase c.config) (sym e) (inl (closed-lem w n).0)
  ]

  pub process_vad_event-Phase :
      (e : VadEvent) (now : ℕ) (w : World F32)
      → Numbered w
      → Phase c.config w
      → Phase c.config (process_vad_event c e now w)
  process_vad_event-Phase e now w n (inl i) = inl (process_vad_event-IsClosed e now w i)
  process_vad_event-Phase e now w n (inr (h, o)) = inr (h, process_vad_event-IsOpen e now w h n o)

  pub on_result-callback :
      (i : InterruptionState) (r : SttResult F32) (now : ℕ) (w : World F32)
      → (on_result c i r now w).0.state.user_callback ≡ w.state.user_callback
  unfolding on_result
  on_result-callback i r now w = ground arith

  pub process_vad_event-callback :
      (e : VadEvent) (now : ℕ) (w : World F32)
      → (process_vad_event c e now w).state.user_callback ≡ w.state.user_callback
  unfolding process_vad_event
  process_vad_event-callback e now w = ground arith
