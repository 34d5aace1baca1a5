-- ===== src/Voice/Results/Wakes.antt =====
-- What a task that runs does to the phase of the segment and to the numbering of its tasks
-- (src/core/voice_manager/turn_detection_tasks.rs).
use sayna.Prelude.{
  Float, ℕ, ◌+◌, ◌≤◌, ◌≡◌, refl, subst, sym, ◌⊎◌, inl, inr, Bool, true, false, none, some, is_some,
  arith, Bool-cases, ◌≢◌, ltb, Option-cases, ap, not, [], ◌∷◌, ◌++◌,
}
use native.Mathlib.Decide.{ℕ_discrete}
use sayna.Voice.State.{SttProcessingConfig}
use sayna.Voice.State.Reset.{IsIdle}
use sayna.Voice.Tasks.{
  World, Task, Body, hard_timeout, detection, smart_fallback, smart_inference, vad_detection,
  vad_inference, Inference, wake, mem, run_body, update, forced_result,
}
use sayna.Voice.Results.Segment.{Numbered, IsOpen, IsClosed, Phase}

module _ (f : Float) (config : SttProcessingConfig) (has_detector : Bool) where
  open f use {F32}

  run_body-Numbered :
      (now : ℕ) (suspends : Bool) (answer : Inference) (me : ℕ) (body : Body) (w : World F32)
      → Numbered w
      → Numbered (run_body f has_detector now suspends answer me body w)
  unfolding run_body
  run_body-Numbered now suspends answer me (hard_timeout start) w n = ground arith
  run_body-Numbered now suspends answer me (detection text) w n = ground arith
  run_body-Numbered now suspends answer me (smart_fallback text) w n = ground arith
  run_body-Numbered now suspends answer me (smart_inference text audio) w n = ground arith
  run_body-Numbered now suspends answer me (vad_detection text audio) w n = ground arith
  run_body-Numbered now suspends answer me (vad_inference text audio) w n = ground arith

  run_body-IsClosed :
      (now : ℕ) (suspends : Bool) (answer : Inference) (me : ℕ) (body : Body) (w : World F32)
      → IsClosed w
      → IsClosed (run_body f has_detector now suspends answer me body w)
  unfolding run_body
  run_body-IsClosed now suspends answer me (hard_timeout start) w n = ground arith
  run_body-IsClosed now suspends answer me (detection text) w n = ground arith
  run_body-IsClosed now suspends answer me (smart_fallback text) w n = ground arith
  run_body-IsClosed now suspends answer me (smart_inference text audio) w n = ground arith
  run_body-IsClosed now suspends answer me (vad_detection text audio) w n = ground arith
  run_body-IsClosed now suspends answer me (vad_inference text audio) w n = ground arith

  pub IsIdle-IsClosed : {w : World F32} → IsIdle w.state → IsClosed w
  IsIdle-IsClosed i = record { no_start = i.no_start; no_hard_task = i.no_hard_task }

  -- Another task of an open segment either leaves it open or closes it.
  run_body-IsOpen :
      (now : ℕ) (suspends : Bool) (answer : Inference) (me : ℕ) (body : Body) (w : World F32)
      (h : ℕ)
      → is_some w.state.user_callback ≡ true
      → IsOpen config w h
      → me ≢ h
      → let w' = run_body f has_detector now suspends answer me body w in
        IsClosed w' ⊎ IsOpen config w' h
  unfolding run_body
  run_body-IsOpen now suspends answer me (hard_timeout start) w h u o d = ground arith
  run_body-IsOpen now suspends answer me (detection text) w h u o d = ground arith
  run_body-IsOpen now suspends answer me (smart_fallback text) w h u o d = ground arith
  run_body-IsOpen now suspends answer me (smart_inference text audio) w h u o d = ground arith
  run_body-IsOpen now suspends answer me (vad_detection text audio) w h u o d = ground arith
  run_body-IsOpen now suspends answer me (vad_inference text audio) w h u o d = ground arith

  -- Taking a task that is not the hard timeout off the schedule, and no other change.
  without : ℕ → World F32 → World F32
  without me w = record w { tasks = update w.tasks me none }

  wake-cases :
      (now : ℕ) (suspends : Bool) (answer : Inference) (me : ℕ) (w : World F32)
      → (wake f has_detector now suspends answer me w ≡ w)
        ⊎ ((task : Task) × (w.tasks me ≡ some task)
            × (mem me w.aborted ≡ false)
            × (task.ready_ms ≤ now)
            × (wake f has_detector now suspends answer me w
                ≡ run_body f has_detector now suspends answer me task.body (without me w)))
  unfolding wake without
  wake-cases now suspends answer me w = elim (Option-cases (w.tasks me)) [
    | inl e ↦ inl (rw (e, wake) refl)
    | inr (task, e) ↦ elim (Bool-cases (mem me w.aborted)) [
      | inl a ↦ inl (rw (e, wake) (rw a refl))
      | inr a ↦ elim (Bool-cases (ltb now task.ready_ms)) [
        | inl early ↦ inl (rw (e, wake) (rw (a, early) refl))
        | inr due ↦ inr (task, e, a, ground arith, rw (e, wake) (rw (a, due) refl))
      ]
    ]
  ]

  run_body-callback :
      (now : ℕ) (suspends : Bool) (answer : Inference) (me : ℕ) (body : Body) (w : World F32)
      → (run_body f has_detector now suspends answer me body w).state.user_callback
        ≡ w.state.user_callback
  unfolding run_body
  run_body-callback now suspends answer me (hard_timeout start) w = ground arith
  run_body-callback now suspends answer me (detection text) w = ground arith
  run_body-callback now suspends answer me (smart_fallback text) w = ground arith
  run_body-callback now suspends answer me (smart_inference text audio) w = ground arith
  run_body-callback now suspends answer me (vad_detection text audio) w = ground arith
  run_body-callback now suspends answer me (vad_inference text audio) w = ground arith

  -- The hard timeout closes an open segment with a forced result.
  pub hard_timeout-closes :
      (now : ℕ) (suspends : Bool) (answer : Inference) (me start : ℕ) (w : World F32)
      → is_some w.state.user_callback ≡ true
      → w.state.waiting_for_speech_final ≡ true
      → w.state.hard_timeout_handle ≡ some me
      → let w' = run_body f has_detector now suspends answer me (hard_timeout start) w in
        IsIdle w'.state
        × (w'.state.last_forced_text ≡ w.state.text_buffer)
        × ((k : ℕ) × (w.state.user_callback ≡ some k)
            × (w'.forced
                ≡ w.forced
                  ++ (record { callback = k; result = forced_result f; completed = not suspends }
                      ∷ [])))
  unfolding run_body
  hard_timeout-closes now suspends answer me start w u q held =
      elim (Option-cases w.state.user_callback) [
        | inl e ↦ absurd (cc (u, e))
        | inr (k, e) ↦ ground arith
      ]

  pub wake-Numbered :
      (now : ℕ) (suspends : Bool) (answer : Inference) (me : ℕ) (w : World F32)
      → Numbered w
      → Numbered (wake f has_detector now suspends answer me w)
  unfolding without
  wake-Numbered now suspends answer me w n = elim (wake-cases now suspends answer me w) [
    | inl e ↦ subst Numbered (sym e) n
    | inr (task, e, a, due, run) ↦
        subst Numbered (sym run)
          (run_body-Numbered now suspends answer me task.body (without me w) (ground arith))
  ]

  pub wake-callback :
      (now : ℕ) (suspends : Bool) (answer : Inference) (me : ℕ) (w : World F32)
      → (wake f has_detector now suspends answer me w).state.user_callback ≡ w.state.user_callback
  unfolding without
  wake-callback now suspends answer me w = elim (wake-cases now suspends answer me w) [
    | inl e ↦ rw e refl
    | inr (task, e, a, due, run) ↦
        rw run (run_body-callback now suspends answer me task.body (without me w))
  ]

  without-IsOpen :
      (me h : ℕ) (w : World F32) → IsOpen config w h → me ≢ h → IsOpen config (without me w) h
  unfolding without
  without-IsOpen me h w o d = ground arith

  hard_body :
      (me h : ℕ) (w : World F32) (task : Task)
      → IsOpen config w h
      → me ≡ h
      → w.tasks me ≡ some task
      → task.body ≡ hard_timeout w.state.segment_start_ms
  hard_body me h w task o same e = cc (o.scheduled, e, ap w.tasks same)

  pub wake-Phase :
      (now : ℕ) (suspends : Bool) (answer : Inference) (me : ℕ) (w : World F32)
      → is_some w.state.user_callback ≡ true
      → Phase config w
      → Phase config (wake f has_detector now suspends answer me w)
  unfolding without
  wake-Phase now suspends answer me w u (inl i) = elim (wake-cases now suspends answer me w) [
    | inl e ↦ subst (Phase config) (sym e) (inl i)
    | inr (task, e, a, due, run) ↦ subst (Phase config) (sym run) (
        inl (
          run_body-IsClosed now suspends answer me task.body (without me w)
            (record { no_start = i.no_start; no_hard_task = i.no_hard_task })))
  ]
  wake-Phase now suspends answer me w u (inr (h, o)) = elim (wake-cases now suspends answer me w) [
    | inl e ↦ subst (Phase config) (sym e) (inr (h, o))
    | inr (task, e, a, due, run) ↦ elim (ℕ_discrete me h) [
      | yes same ↦
          let body : task.body ≡ hard_timeout w.state.segment_start_ms =
            hard_body me h w task o same e in
          subst (Phase config) (sym run) (
            rw body (
              inl (
                IsIdle-IsClosed
                  (hard_timeout-closes now suspends answer me w.state.segment_start_ms
                    (without me w) u o.waiting
                    (subst (λ k. w.state.hard_timeout_handle ≡ some k) (sym same) o.handle)).0)))
      | no other ↦
          elim (run_body-IsOpen now suspends answer me task.body (without me w) h u
            (without-IsOpen me h w o other) other) [
              | inl i ↦ subst (Phase config) (sym run) (inl i)
              | inr o' ↦ subst (Phase config) (sym run) (inr (h, o'))
            ]
    ]
  ]

  wake-due :
      (now : ℕ) (suspends : Bool) (answer : Inference) (h : ℕ) (w : World F32)
      → IsOpen config w h
      → w.state.segment_start_ms + config.speech_final_hard_timeout_ms ≤ now
      → wake f has_detector now suspends answer h w
        ≡ run_body f has_detector now suspends answer h
            (hard_timeout w.state.segment_start_ms)
            (without h w)
  unfolding wake without
  wake-due now suspends answer h w o d =
      rw (o.scheduled, wake) (rw (o.live, not_early now _ d) refl)
    where
      not_early : (now ready : ℕ) → ready ≤ now → ltb now ready ≡ false
      not_early now ready d = ground arith

  -- The hard timeout of an open segment, run when it is due.
  pub wake_hard_timeout :
      (now : ℕ) (suspends : Bool) (answer : Inference) (h : ℕ) (w : World F32)
      → is_some w.state.user_callback ≡ true
      → IsOpen config w h
      → w.state.segment_start_ms + config.speech_final_hard_timeout_ms ≤ now
      → let w' = wake f has_detector now suspends answer h w in
        IsIdle w'.state
        × (w'.state.last_forced_text ≡ w.state.text_buffer)
        × ((k : ℕ) × (w.state.user_callback ≡ some k)
            × (w'.forced
                ≡ w.forced
                  ++ (record { callback = k; result = forced_result f; completed = not suspends }
                      ∷ [])))
  unfolding without
  wake_hard_timeout now suspends answer h w u o d = rw (wake-due now suspends answer h w o d) (
      hard_timeout-closes now suspends answer h w.state.segment_start_ms (without h w) u o.waiting
        o.handle)
