-- ===== src/Livekit/Pump/Speech.antt =====
-- Speech played alone (src/livekit/client/audio_pump.rs, the pass-through branch).
use mathlib.Core.List.{append_assoc, append-nil}
use sayna.Prelude.{
  ℕ, zero, suc, ◌≤◌, ◌≡◌, refl, sym, ap, ◌∙◌, List, [], ◌∷◌, ◌++◌, arith, true, false, min,
  Bool-cases, inl, inr, length, take, is_empty, none, take-append-drop, replicate, length-drop, ◌*◌,
}
use sayna.Prelude.Int.{ℤ}
use sayna.Livekit.Pump.{
  FadeFloat, AudioPumpShared, Cursor, push, clear, set_samples, start_loading, stop_loading,
  deactivate, Event, Capture, call, turn, captured, closed, cancelled, take_tts, speech_mode,
  iterate, apply_call, run_pump,
}

-- Whole turns and every call but a clear and a start of the loading clip, in any order.
abbrev pub SpeechOnly : List Event → Type 0
SpeechOnly [] = Unit {0}
SpeechOnly (call (push samples) ∷ es) = SpeechOnly es
SpeechOnly (call clear ∷ es) = ⊥
SpeechOnly (call (set_samples samples) ∷ es) = SpeechOnly es
SpeechOnly (call (start_loading connected) ∷ es) = ⊥
SpeechOnly (call stop_loading ∷ es) = SpeechOnly es
SpeechOnly (call deactivate ∷ es) = SpeechOnly es
SpeechOnly (turn captured ∷ es) = SpeechOnly es
SpeechOnly (turn closed ∷ es) = ⊥
SpeechOnly (turn cancelled ∷ es) = ⊥

is_empty-nil {ℓ} : {A : Type ℓ} (xs : List A) → is_empty xs ≡ true → xs ≡ []
is_empty-nil [] e = refl
is_empty-nil (x ∷ xs) e = ground arith

-- The speech pushed, in order.
abbrev pub pushed : List Event → List ℤ
pushed [] = []
pushed (call (push samples) ∷ es) = samples ++ pushed es
pushed (call _ ∷ es) = pushed es
pushed (turn _ ∷ es) = pushed es

module _ (ff : FadeFloat) where
  iterate_inactive :
      (frame_len total : ℕ) (c : Capture) (sh : AudioPumpShared) (at : Cursor)
      → sh.loading_active ≡ false
      → iterate ff frame_len total c sh at ≡ speech_mode ff frame_len c sh at
  unfolding iterate
  iterate_inactive frame_len total c sh at off = simp (off)

  stop_loading_inactive :
      (sh : AudioPumpShared) → sh.loading_active ≡ false → apply_call stop_loading sh ≡ sh
  unfolding apply_call
  stop_loading_inactive sh off = simp (off)

  -- The speech is played in the order it was pushed, nothing lost, repeated or altered: after any
  -- order of whole turns and of calls, clears and starts of the loading clip excepted, from a state
  -- in which no clip is active, the frames played and what is left in the buffer are what was in
  -- the buffer followed by everything pushed.
  pub speech_in_order :
      (frame_len total : ℕ) (es : List Event) (sh : AudioPumpShared) (at : Cursor)
      → sh.loading_active ≡ false
      → SpeechOnly es
      → let (sh', at', played) = run_pump ff frame_len total es sh at in
        played ++ sh'.tts ≡ sh.tts ++ pushed es
  unfolding run_pump
  speech_in_order frame_len total [] sh at off h = sym (append-nil sh.tts)
  speech_in_order frame_len total (call (push samples) ∷ es) sh at off h =
      speech_in_order frame_len total es (apply_call (push samples) sh) at off h
      ∙ append_assoc sh.tts samples (pushed es)
  speech_in_order frame_len total (call clear ∷ es) sh at off h = elim h [ ]
  speech_in_order frame_len total (call (set_samples samples) ∷ es) sh at off h =
      speech_in_order frame_len total es (apply_call (set_samples samples) sh) at off h
  speech_in_order frame_len total (call (start_loading connected) ∷ es) sh at off h = elim h [ ]
  speech_in_order frame_len total (call stop_loading ∷ es) sh at off h =
      ap
        (λ s.
          (run_pump ff frame_len total es s at).2 ++ (run_pump ff frame_len total es s at).0.tts)
        (stop_loading_inactive sh off)
      ∙ speech_in_order frame_len total es sh at off h
  speech_in_order frame_len total (call deactivate ∷ es) sh at off h =
      speech_in_order frame_len total es (apply_call deactivate sh) at refl h
  speech_in_order frame_len total (turn closed ∷ es) sh at off h = elim h [ ]
  speech_in_order frame_len total (turn cancelled ∷ es) sh at off h = elim h [ ]
  speech_in_order frame_len total (turn captured ∷ es) sh at off h =
      let r = iterate_inactive frame_len total captured sh at off in
      let n = min frame_len (length sh.tts) in
      let sh' = (take_tts frame_len sh).1 in
      let rest = speech_in_order frame_len total es sh' (record at { overlay = none }) off h in
      elim (Bool-cases (is_empty (take_tts frame_len sh).0)) [
        | inl e ↦
            rw (run_pump, r, e)
              (rw (r, speech_mode, e)
                (rest
                  ∙ ap (λ l. l ++ pushed es)
                      (ap (λ l. l ++ sh'.tts) (sym (is_empty-nil _ e))
                        ∙ take-append-drop n sh.tts)))
        | inr e ↦
            rw (run_pump, r, e)
              (rw (r, speech_mode, e)
                (append_assoc (take n sh.tts) _ _
                  ∙ ap (◌++◌ (take n sh.tts)) rest
                  ∙ sym (append_assoc (take n sh.tts) _ _)
                  ∙ ap (λ l. l ++ pushed es) (take-append-drop n sh.tts)))
      ]

  turns_empty_buffer :
      (frame_len total n : ℕ) (sh : AudioPumpShared) (at : Cursor)
      → sh.loading_active ≡ false
      → length sh.tts ≤ n * frame_len
      → (run_pump ff frame_len total (replicate n (turn captured)) sh at).0.tts ≡ []
  unfolding run_pump
  turns_empty_buffer frame_len total zero sh at off h = is_empty-nil sh.tts (ground arith)
  turns_empty_buffer frame_len total (suc n) sh at off h =
      let r = iterate_inactive frame_len total captured sh at off in
      let sh' = (take_tts frame_len sh).1 in
      let short : length sh'.tts ≤ n * frame_len =
        omega (arith, length-drop (min frame_len (length sh.tts)) sh.tts) in
      let rest =
        turns_empty_buffer frame_len total n sh' (record at { overlay = none }) off short in
      elim (Bool-cases (is_empty (take_tts frame_len sh).0)) [
        | inl e ↦ rw (run_pump, r, e) (rw (r, speech_mode, e) rest)
        | inr e ↦ rw (run_pump, r, e) (rw (r, speech_mode, e) rest)
      ]

  turns_say_nothing :
      (n : ℕ)
      → SpeechOnly (replicate n (turn captured)) × (pushed (replicate n (turn captured)) ≡ [])
  turns_say_nothing zero = (tt, refl)
  turns_say_nothing (suc n) = turns_say_nothing n

  -- The buffered speech is played out: while no loading clip is active, a number of captured frames
  -- that holds what is buffered plays exactly the buffer, and leaves it empty.
  pub speech_plays_out :
      (frame_len total n : ℕ) (sh : AudioPumpShared) (at : Cursor)
      → sh.loading_active ≡ false
      → length sh.tts ≤ n * frame_len
      → let (sh', at', played) = run_pump ff frame_len total (replicate n (turn captured)) sh at in
        (played ≡ sh.tts) × (sh'.tts ≡ [])
  speech_plays_out frame_len total n sh at off h =
      let es = replicate n (turn captured) in
      let played = (run_pump ff frame_len total es sh at).2 in
      let (quiet, silent) = turns_say_nothing n in
      let empty = turns_empty_buffer frame_len total n sh at off h in
      (
        sym (append-nil played)
            ∙ ap (◌++◌ played) (sym empty)
            ∙ speech_in_order frame_len total es sh at off quiet
            ∙ ap (◌++◌ sh.tts) silent
            ∙ append-nil sh.tts,
        empty,
      )
