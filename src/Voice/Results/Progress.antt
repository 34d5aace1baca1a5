-- ===== src/Voice/Results/Progress.antt =====
-- Every order of provider results, VAD events, audio and running tasks (src/core/voice_manager).
use sayna.Prelude.{
  Float, ℕ, ◌+◌, ◌≤◌, ◌<◌, ◌≡◌, inl, inr, Bool, true, some, is_some, not, [], ◌∷◌, ◌++◌, arith,
  subst, sym,
}
use sayna.Vad.Tracker.{VadEvent, SilenceTracker}
use sayna.Voice.Chunks.{VadState}
use sayna.Voice.State.{SttResult, InterruptionState}
use sayna.Voice.State.Reset.{IsIdle}
use sayna.Voice.Tasks.{World, Inference, wake, fire_commit, forced_result}
use sayna.Voice.Results.{
  SttResultProcessor, Pending, on_result, process_vad_event, buffer_and_start, store_detection,
}
use sayna.Prelude.Text.{Text}
use sayna.Voice.Results.Segment.{
  Numbered, IsOpen, Phase, IsPending, Numbered-buffer_and_start, Numbered-store_detection,
  store_detection-Phase,
}
use sayna.Voice.Results.Steps.{
  on_result-Numbered, on_result-Phase, process_vad_event-Numbered, process_vad_event-Phase,
  on_result-callback, process_vad_event-callback, buffer_and_start-Phase,
}
use sayna.Voice.Results.Wakes.{wake-Numbered, wake-callback, wake-Phase, wake_hard_timeout}

module _ (f : Float) (c : SttResultProcessor) where
  open f use {F32}

  -- One step: a result at a time that is not 0, either with nothing between its two sections, or one
  -- of the sections alone, the second with any task that is pending; a VAD event; new audio and
  -- tracker values; the runtime running any task; or the write lock of a firing, with any text and
  -- callback, whenever it comes after the check of its read lock.
  pub data Step (w : World F32) : World F32 → Type 0 where
    result :
        (i : InterruptionState) (r : SttResult F32) (now : ℕ)
        → 0 < now
        → Step w (on_result c i r now w).0
    buffered : (r : SttResult F32) (now : ℕ) → Step w (buffer_and_start c r now w).0
    stored : (p : Pending) (now : ℕ) → 0 < now → IsPending w p → Step w (store_detection c p now w)
    event : (e : VadEvent) (now : ℕ) → Step w (process_vad_event c e now w)
    audio : (v : VadState) (t : SilenceTracker F32) → Step w (record w { vad = v; tracker = t })
    task :
        (now : ℕ) (suspends : Bool) (answer : Inference) (me : ℕ)
        → Step w (wake f c.has_detector now suspends answer me w)
    commit :
        (now : ℕ) (suspends : Bool) (me : ℕ) (text : Text) (callback : ℕ)
        → Step w (fire_commit f now suspends me text callback w).0

  pub data Reach (w : World F32) : World F32 → Type 0 where
    here : Reach w w
    next : {u v : World F32} → Reach w u → Step u v → Reach w v

  pub record Inv (w : World F32) : Type 0 where
    pub registered : is_some w.state.user_callback ≡ true
    pub numbered : Numbered w
    pub phase : Phase c.config w

  audio-Phase :
      (vad : VadState) (t : SilenceTracker F32) (w : World F32)
      → Phase c.config w
      → Phase c.config (record w { vad = vad; tracker = t })
  audio-Phase vad t w (inl i) =
      inl (record { no_start = i.no_start; no_hard_task = i.no_hard_task })
  audio-Phase vad t w (inr (h, o)) = inr (h, ground arith)

  commit_lem :
      (now : ℕ) (suspends : Bool) (me : ℕ) (text : Text) (callback : ℕ) (w : World F32)
      → Inv w
      → Inv (fire_commit f now suspends me text callback w).0
  unfolding fire_commit
  commit_lem now suspends me text callback w v =
      let n = v.numbered in
      record { registered = v.registered; numbered = ground arith; phase = inl (ground arith) }

  buffered-callback :
      (r : SttResult F32) (now : ℕ) (w : World F32)
      → (buffer_and_start c r now w).0.state.user_callback ≡ w.state.user_callback
  unfolding buffer_and_start
  buffered-callback r now w = ground arith

  stored-callback :
      (p : Pending) (now : ℕ) (w : World F32)
      → (store_detection c p now w).state.user_callback ≡ w.state.user_callback
  unfolding store_detection
  stored-callback p now w = ground arith

  Step-Inv : {w u : World F32} → Step w u → Inv w → Inv u
  Step-Inv {w} (result i r now p) v = record {
    registered = subst (λ o. is_some o ≡ true) (sym (on_result-callback c i r now w)) v.registered;
    numbered = on_result-Numbered c i r now w v.numbered;
    phase = on_result-Phase c i r now w p v.numbered v.phase;
  }
  Step-Inv {w} (buffered r now) v = record {
    registered = subst (λ o. is_some o ≡ true) (sym (buffered-callback r now w)) v.registered;
    numbered = Numbered-buffer_and_start c r now w v.numbered;
    phase = buffer_and_start-Phase c r now w v.numbered v.phase;
  }
  Step-Inv {w} (stored p now q a) v = record {
    registered = subst (λ o. is_some o ≡ true) (sym (stored-callback p now w)) v.registered;
    numbered = Numbered-store_detection c p now w a.old v.numbered;
    phase = store_detection-Phase c p now w q a v.numbered v.phase;
  }
  Step-Inv {w} (commit now suspends me text callback) v =
      commit_lem now suspends me text callback w v
  Step-Inv {w} (event e now) v = record {
    registered =
        subst (λ o. is_some o ≡ true) (sym (process_vad_event-callback c e now w)) v.registered;
    numbered = process_vad_event-Numbered c e now w v.numbered;
    phase = process_vad_event-Phase c e now w v.numbered v.phase;
  }
  Step-Inv {w} (audio vad t) v = record {
    registered = v.registered;
    numbered = ground arith;
    phase = audio-Phase vad t w v.phase;
  }
  Step-Inv {w} (task now suspends answer me) v = record {
    registered =
        subst (λ o. is_some o ≡ true)
          (sym (wake-callback f c.config c.has_detector now suspends answer me w)) v.registered;
    numbered = wake-Numbered f c.config c.has_detector now suspends answer me w v.numbered;
    phase = wake-Phase f c.config c.has_detector now suspends answer me w v.registered v.phase;
  }

  Reach-Inv : {w u : World F32} → Reach w u → Inv w → Inv u
  Reach-Inv here v = v
  Reach-Inv (next r s) v = Step-Inv s (Reach-Inv r v)

  -- Nothing is open, no task is held or aborted, and a callback is registered.
  pub record IsStart (w : World F32) : Type 0 where
    pub registered : is_some w.state.user_callback ≡ true
    pub idle : IsIdle w.state
    pub none_aborted : w.aborted ≡ []

  IsStart-Inv : {w : World F32} → IsStart w → Inv w
  IsStart-Inv v =
      let i = v.idle in
      record { registered = v.registered; numbered = ground arith; phase = inl (ground arith) }

  -- In a reached state that holds a hard timeout, whatever happened before, that task, run at any
  -- time from the deadline on with no other step between its sections, calls the registered callback
  -- once more with the forced speech_final, records the buffered text, and closes the segment. The
  -- call completes exactly if the callback does not suspend, since the reset aborts the task too.
  pub hard_timeout_closes :
      {w u : World F32}
      → Reach w u
      → IsStart w
      → (h now : ℕ) (suspends : Bool) (answer : Inference) → u.state.hard_timeout_handle ≡ some h
      → u.state.segment_start_ms + c.config.speech_final_hard_timeout_ms ≤ now
      → let u' = wake f c.has_detector now suspends answer h u in
        IsIdle u'.state
        × (u'.state.last_forced_text ≡ u.state.text_buffer)
        × ((k : ℕ) × (u.state.user_callback ≡ some k)
            × (u'.forced
                ≡ u.forced
                  ++ (record { callback = k; result = forced_result f; completed = not suspends }
                      ∷ [])))
  hard_timeout_closes {u} r s h now suspends answer e d =
      let v = Reach-Inv r (IsStart-Inv s) in
      elim v.phase [
        | inl i ↦ absurd (cc (i.no_hard_task, e))
        | inr (k, o) ↦
            let same : k ≡ h = cc (o.handle, e) in
            wake_hard_timeout f c.config c.has_detector now suspends answer h u v.registered
              (subst (IsOpen c.config u) same o) d
      ]
