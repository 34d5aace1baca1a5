-- ===== src/Voice/Results/Segment.antt =====
-- The life of a segment (src/core/voice_manager): the steps that the provider, the VAD and the
-- runtime may take in any order, and what holds of every state that they reach.
use sayna.Prelude.{
  ℕ, suc, ◌+◌, ◌<◌, ◌≡◌, refl, ◌⊎◌, ◌==◌, inl, inr, true, false, Option, none, some, List, [], ◌∷◌,
  arith, ◌≢◌, Bool-cases,
}
use sayna.Voice.State.{SttResult, SttProcessingConfig}
use sayna.Voice.Tasks.{World, hard_timeout, mem}
use sayna.Voice.Results.{SttResultProcessor, Pending, buffer_and_start, store_detection}

abbrev pub Below : ℕ → List ℕ → Type 0
Below n [] = Unit {0}
Below n (x ∷ xs) = (x < n) × Below n xs

abbrev pub Fits : ℕ → Option ℕ → Type 0
Fits n none = Unit {0}
Fits n (some h) = h < n

pub mem_above : (n : ℕ) (xs : List ℕ) → Below n xs → mem n xs ≡ false
mem_above n [] b = refl
mem_above n (x ∷ xs) b = ground (arith, mem_above n xs b.1)

pub Below-mono : (n : ℕ) (xs : List ℕ) → Below n xs → Below (suc n) xs
Below-mono n [] b = tt
Below-mono n (x ∷ xs) b = (omega arith, Below-mono n xs b.1)

-- The numbers of the tasks are fresh.
pub record Numbered {F32 : Type 0} (w : World F32) : Type 0 where
  pub aborted_old : Below w.next_task w.aborted
  pub turn_old : Fits w.next_task w.state.turn_detection_handle
  pub hard_old : Fits w.next_task w.state.hard_timeout_handle
  pub vad_old : Fits w.next_task w.state.vad_turn_detection_handle

-- A segment is open: its hard timeout `h` is scheduled, at the configured time after its start, is not
-- aborted, and is no other of its tasks.
pub record IsOpen {F32 : Type 0} (config : SttProcessingConfig) (w : World F32) (h : ℕ)
    : Type 0 where
  pub waiting : w.state.waiting_for_speech_final ≡ true
  pub started : 0 < w.state.segment_start_ms
  pub handle : w.state.hard_timeout_handle ≡ some h
  pub scheduled :
      w.tasks h
      ≡ some (record {
        body = hard_timeout w.state.segment_start_ms;
        ready_ms = w.state.segment_start_ms + config.speech_final_hard_timeout_ms;
      })
  pub live : mem h w.aborted ≡ false
  pub not_turn : w.state.turn_detection_handle ≢ some h
  pub not_vad : w.state.vad_turn_detection_handle ≢ some h

-- No segment is open and no hard timeout is held. A detection task may be, and the state may wait
-- for a speech_final: this is what a reset between the two sections of a result leaves.
pub record IsClosed {F32 : Type 0} (w : World F32) : Type 0 where
  pub no_start : w.state.segment_start_ms ≡ 0
  pub no_hard_task : w.state.hard_timeout_handle ≡ none

abbrev pub Phase : {F32 : Type 0} → SttProcessingConfig → World F32 → Type 0
Phase config w = IsClosed w ⊎ ((h : ℕ) × IsOpen config w h)

-- The pending task was made before, and is not the hard timeout that is held.
pub record IsPending {F32 : Type 0} (w : World F32) (p : Pending) : Type 0 where
  pub old : p.handle < w.next_task
  pub not_hard : w.state.hard_timeout_handle ≢ some p.handle

module _ {F32 : Type 0} (c : SttResultProcessor) where
  pub IsClosed-buffer_and_start :
      (r : SttResult F32) (now : ℕ) (w : World F32)
      → IsClosed w
      → IsClosed (buffer_and_start c r now w).0
  unfolding buffer_and_start
  IsClosed-buffer_and_start r now w i = ground arith

  pub IsOpen-buffer_and_start :
      (r : SttResult F32) (now : ℕ) (w : World F32) (h : ℕ)
      → Numbered w
      → IsOpen c.config w h
      → IsOpen c.config (buffer_and_start c r now w).0 h
  unfolding buffer_and_start
  IsOpen-buffer_and_start r now w h n o = ground arith

  pub Numbered-buffer_and_start :
      (r : SttResult F32) (now : ℕ) (w : World F32)
      → Numbered w
      → Numbered (buffer_and_start c r now w).0
  unfolding buffer_and_start
  Numbered-buffer_and_start r now w n =
      ground (arith, Below-mono w.next_task w.aborted n.aborted_old)

  -- The task that the first section starts is pending after it.
  pub IsPending-buffer_and_start :
      (r : SttResult F32) (now : ℕ) (w : World F32)
      → Numbered w
      → let (w', p) = buffer_and_start c r now w in IsPending w' p
  unfolding buffer_and_start
  IsPending-buffer_and_start r now w n = ground arith

  pub buffer_and_start-is_new :
      (r : SttResult F32) (now : ℕ) (w : World F32)
      → (buffer_and_start c r now w).1.is_new_segment ≡ (w.state.segment_start_ms == 0)
  unfolding buffer_and_start
  buffer_and_start-is_new r now w = refl

  pub Numbered-store_detection :
      (p : Pending) (now : ℕ) (w : World F32)
      → p.handle < w.next_task
      → Numbered w
      → Numbered (store_detection c p now w)
  unfolding store_detection
  Numbered-store_detection p now w old n =
      ground (arith, Below-mono w.next_task w.aborted n.aborted_old)

  pub store_detection-IsOpen :
      (p : Pending) (now : ℕ) (w : World F32)
      → 0 < now
      → p.is_new_segment ≡ true
      → p.handle < w.next_task
      → Numbered w
      → IsOpen c.config (store_detection c p now w) w.next_task
  unfolding store_detection
  store_detection-IsOpen p now w q new old n =
      ground (arith, mem_above w.next_task w.aborted n.aborted_old)

  store_detection-IsClosed :
      (p : Pending) (now : ℕ) (w : World F32)
      → p.is_new_segment ≡ false
      → IsClosed w
      → IsClosed (store_detection c p now w)
  unfolding store_detection
  store_detection-IsClosed p now w new i = ground arith

  pub store_detection-stays :
      (p : Pending) (now : ℕ) (w : World F32) (h : ℕ)
      → p.is_new_segment ≡ false
      → IsPending w p
      → IsOpen c.config w h
      → IsOpen c.config (store_detection c p now w) h
  unfolding store_detection
  store_detection-stays p now w h new a o = ground arith

  -- The second section opens a segment if none was open under the first, and else leaves closed
  -- what is closed and open what is open.
  pub store_detection-Phase :
      (p : Pending) (now : ℕ) (w : World F32)
      → 0 < now
      → IsPending w p
      → Numbered w
      → Phase c.config w
      → Phase c.config (store_detection c p now w)
  store_detection-Phase p now w q a n (inl i) = elim (Bool-cases p.is_new_segment) [
    | inl new ↦ inr (w.next_task, store_detection-IsOpen p now w q new a.old n)
    | inr new ↦ inl (store_detection-IsClosed p now w new i)
  ]
  store_detection-Phase p now w q a n (inr (h, o)) = elim (Bool-cases p.is_new_segment) [
    | inl new ↦ inr (w.next_task, store_detection-IsOpen p now w q new a.old n)
    | inr new ↦ inr (h, store_detection-stays p now w h new a o)
  ]
