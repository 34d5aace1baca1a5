-- ===== src/Tts/Provider/Order.antt =====
-- The order in which speech is heard (src/core/tts/provider.rs).
use sayna.Prelude.{
  ℕ, suc, Bool, true, ◌||◌, List, [], ◌∷◌, ◌++◌, length, length-append, is_empty, refl, sym, ◌≡◌,
  ◌∙◌, inl, inr, Bool-cases, arith,
}
use mathlib.Core.List.{append_assoc, append-nil}
use sayna.Prelude.Text.{Text, trim}
use sayna.Tts.{Message}
use sayna.Tts.Request.{SpeakJob}
use sayna.Tts.Provider.Entries.{
  IsOrdered, in_hand, Keeps, Task-cases, List-cases, length-close, length-send_to,
  length-clear_queue, length-abort_job, cleared-IsInOrder, queued-IsInOrder, dispatch-Keeps,
}
use sayna.Tts.Provider.{
  Call, RequestEntry, Task, off, idle, dead, busy, TtsConfig, Provider, ensure,
}
use sayna.Tts.Provider.Speak.{
  abort_job, generic_clear, generic_disconnect, generic_connect, generic_speak, enqueue,
  enqueue_entry, enqueue_job,
}
use sayna.Tts.Provider.Tasks.{take_job, work_sends, work_ends}
use sayna.Tts.Provider.Events.{
  Event, speak, clear, connect, disconnect, job_taken, job_ended, dispatched, job_sends,
  callback_set, step, run,
}

module _ (base : List (ℕ × Call)) (lo : ℕ) where
  take_job-Keeps : (p : Provider) → Keeps base lo p → Keeps base lo (take_job p)
  unfolding take_job
  take_job-Keeps p i = elim (Task-cases p.queue_worker) [
    | inl (inl at) ↦ rw (take_job, at) i
    | inl (inr (inl at)) ↦ rw (take_job, at) i
    | inl (inr (inr at)) ↦ elim (List-cases p.speak_queue) [
      | inl e ↦ rw (take_job, at, e) i
      | inr (q, qs, e) ↦ rw (take_job, at, e) i
    ]
    | inr (q, at) ↦ rw (take_job, at) i
  ]

  work_sends-Keeps : (m : Message) (p : Provider) → Keeps base lo p → Keeps base lo (work_sends m p)
  unfolding work_sends
  work_sends-Keeps m p i = elim (Task-cases p.queue_worker) [
    | inl (inl at) ↦ rw (work_sends, at) i
    | inl (inr (inl at)) ↦ rw (work_sends, at) i
    | inl (inr (inr at)) ↦ rw (work_sends, at) i
    | inr (q, at) ↦ rw (work_sends, at, length-send_to q.sender m p.channels) i
  ]

  work_ends-Keeps : (p : Provider) → Keeps base lo p → Keeps base lo (work_ends p)
  unfolding work_ends
  work_ends-Keeps p i = elim (Task-cases p.queue_worker) [
    | inl (inl at) ↦ rw (work_ends, at) i
    | inl (inr (inl at)) ↦ rw (work_ends, at) i
    | inl (inr (inr at)) ↦ rw (work_ends, at) i
    | inr (q, at) ↦ rw (work_ends, at, length-close q.sender p.channels) i
  ]

  in_hand-ensure : (t : Task (RequestEntry × Bool)) → in_hand (ensure t) ≡ in_hand t
  unfolding ensure
  in_hand-ensure off = refl
  in_hand-ensure idle = refl
  in_hand-ensure dead = refl
  in_hand-ensure (busy a) = refl

  clear-Keeps : (p : Provider) → Keeps base lo p → Keeps base lo (generic_clear p)
  unfolding generic_clear
  clear-Keeps p i =
      cleared-IsInOrder base lo p.calls (in_hand p.dispatcher ++ p.pending_queue)
        (length p.channels) (length (generic_clear p).channels)
        (length-clear_queue p.speak_queue (abort_job p.queue_worker p.channels)
          ∙ length-abort_job p.queue_worker p.channels)
        i

  module _ (text_hash : Text → Text) where
    enqueue_entry-Keeps :
        (e : RequestEntry) (p : Provider)
        → e.receiver ≡ length p.channels
        → Keeps base lo p
        → Keeps base lo (enqueue_entry text_hash e p)
    unfolding enqueue_entry
    enqueue_entry-Keeps e p at i =
        let long : length (p.channels ++ (record { waiting = []; open_end = true } ∷ []))
            ≡ suc e.receiver =
          omega
            (arith, length-append p.channels (record { waiting = []; open_end = true } ∷ []), at) in
        rw
          (
            in_hand-ensure p.dispatcher,
            long,
            sym (append_assoc (in_hand p.dispatcher) p.pending_queue (e ∷ [])),
          )
          (queued-IsInOrder base lo e p.calls (in_hand p.dispatcher ++ p.pending_queue) (rw at i))

    enqueue_job-Keeps :
        (job : SpeakJob) (sender : ℕ) (p : Provider)
        → Keeps base lo p
        → Keeps base lo (enqueue_job text_hash job sender p).1
    unfolding enqueue_job
    enqueue_job-Keeps job sender p i = elim (Bool-cases p.has_manager) [
      | inl y ↦ rw (enqueue_job, y) i
      | inr n ↦ rw (enqueue_job, n, length-close sender p.channels) i
    ]

    speak-Keeps :
        (config : TtsConfig) (text : Text) (p : Provider)
        → Keeps base lo p
        → Keeps base lo (generic_speak text_hash config text p).1
    unfolding generic_speak enqueue
    speak-Keeps config text p i = elim (Bool-cases p.connected) [
      | inr n ↦ rw (generic_speak, n) i
      | inl y ↦ elim (Bool-cases (is_empty text || is_empty (trim text))) [
        | inl blank ↦ rw (generic_speak, y, blank) i
        | inr some_text ↦
            rw (generic_speak, y, some_text)
              (enqueue_job-Keeps _ (length p.channels) _ (enqueue_entry-Keeps _ p refl i))
      ]
    ]

    step-Keeps : (e : Event) (p : Provider) → Keeps base lo p → Keeps base lo (step text_hash e p)
    unfolding step generic_disconnect generic_connect
    step-Keeps (speak config text) p i = speak-Keeps config text p i
    step-Keeps clear p i = clear-Keeps p i
    step-Keeps connect p i = elim (Bool-cases p.has_manager) [
      | inl y ↦ rw (step, generic_connect, y) i
      | inr n ↦ rw (step, generic_connect, n) i
    ]
    step-Keeps disconnect p i = clear-Keeps p i
    step-Keeps job_taken p i = take_job-Keeps p i
    step-Keeps job_ended p i = work_ends-Keeps p i
    step-Keeps dispatched p i = dispatch-Keeps base lo p i
    step-Keeps (job_sends m) p i = work_sends-Keeps m p i
    step-Keeps (callback_set b) p i = i

    run-Keeps :
        (events : List Event) (p : Provider)
        → Keeps base lo p
        → Keeps base lo (run text_hash events p)
    unfolding run
    run-Keeps [] p i = i
    run-Keeps (e ∷ events) p i = run-Keeps events (step text_hash e p) (step-Keeps e p i)

-- Whatever happens after the queues were cleared, in any order: of the requests made before, nothing
-- more is heard, no audio, no error and no completion; and what is heard of the requests made after
-- is in the order in which they were made.
pub clear-speech_in_turn :
    (text_hash : Text → Text) (events : List Event) (p : Provider)
    → (later : List (ℕ × Call)) × (last : ℕ) × ((run text_hash events (generic_clear p)).calls
        ≡ p.calls ++ later)
      × IsOrdered (length p.channels) later last
unfolding generic_clear
clear-speech_in_turn text_hash events p =
    let start : Keeps p.calls (length p.channels) (generic_clear p) = (
      [],
      length p.channels,
      sym (append-nil p.calls),
      omega arith,
      omega (
        arith,
        length-clear_queue p.speak_queue (abort_job p.queue_worker p.channels),
        length-abort_job p.queue_worker p.channels,
      ),
    ) in
    let (later, last, same, o, a) =
      run-Keeps p.calls (length p.channels) text_hash events (generic_clear p) start in
    (later, last, same, o)
