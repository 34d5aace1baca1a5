-- ===== src/Tts/Provider/Heard.antt =====
-- The audio of a request reaches the callback (src/core/tts/provider.rs).
use sayna.Prelude.{
  ℕ, zero, suc, Bool, true, false, ◌==◌, ◌&&◌, some, List, [], ◌∷◌, ◌++◌, map, is_empty, get_elem?,
  refl, ap, sym, subst, ◌≡◌, ◌∙◌, arith,
}
use mathlib.Core.List.{append_assoc, append-nil}
use sayna.Prelude.Text.{Text}
use sayna.Tts.{Bytes, Message, audio}
use sayna.Tts.Chunks.{duration_ms}
use sayna.Tts.Provider.{
  Call, on_audio, on_complete, Channel, RequestEntry, QueuedJob, Task, idle, busy, Provider, modify,
  send_to, put_message, close, is_raw,
}
use sayna.Tts.Provider.Tasks.{
  drop_first, tell, entry_ends, dispatch_audio, dispatch_message, receive, receive_from, dispatch,
  work_sends, work_ends, take_job,
}
use sayna.Tts.Provider.Events.{Event, dispatched, job_taken, job_sends, job_ended, step, run}

-- The call that a chunk of an entry is told by.
abbrev pub heard : RequestEntry → Bytes → ℕ × Call
heard e chunk = (
  e.receiver,
  on_audio (record {
    data_bytes = chunk;
    sample_rate = e.sample_rate;
    format = e.format;
    duration_ms = duration_ms chunk e.format e.sample_rate;
  }),
)

abbrev pub completion : RequestEntry → Bool → List (ℕ × Call)
completion e true = (e.receiver, on_complete) ∷ []
completion e false = []

get_elem?-modify :
    (i : ℕ) (f : Channel → Channel) (channels : List Channel) (c : Channel)
    → get_elem? channels i ≡ some c
    → get_elem? (modify i f channels) i ≡ some (f c)
unfolding modify
get_elem?-modify i f [] c e = absurd (ground (arith, e))
get_elem?-modify zero f (d ∷ channels) c e = ground (arith, e)
get_elem?-modify (suc i) f (d ∷ channels) c e = get_elem?-modify i f channels c e

dispatch-audio :
    (e : RequestEntry) (chunk : Bytes) (ms : List Message) (o : Bool) (p : Provider)
    → p.dispatcher ≡ busy (e, true)
    → get_elem? p.channels e.receiver ≡ some (record { waiting = audio chunk ∷ ms; open_end = o })
    → (is_raw e.format && (e.sample_rate == 0)) ≡ false
    → dispatch p ≡ record p {
      dispatcher = busy (e, true);
      channels = modify e.receiver drop_first p.channels;
      calls = p.calls ++ (heard e chunk ∷ []);
    }
unfolding dispatch receive_from receive dispatch_message dispatch_audio tell
dispatch-audio e chunk ms o p at waits playable =
    rw (dispatch, at, waits, receive, dispatch_message, dispatch_audio, playable)
      (ap
        (λ (t : Task (RequestEntry × Bool)). record p {
          dispatcher = t;
          channels = modify e.receiver drop_first p.channels;
          calls = p.calls ++ (heard e chunk ∷ []);
        })
        at)

dispatch-end :
    (e : RequestEntry) (p : Provider)
    → p.dispatcher ≡ busy (e, true)
    → get_elem? p.channels e.receiver ≡ some (record { waiting = []; open_end = false })
    → dispatch p ≡ record p {
      dispatcher = idle;
      calls = tell e.receiver (is_empty p.pending_queue) on_complete p.calls;
    }
unfolding dispatch receive_from receive entry_ends
dispatch-end e p at waits = rw (dispatch, at, waits) refl

tell-completion :
    (e : RequestEntry) (last : Bool) (calls : List (ℕ × Call))
    → tell e.receiver last on_complete calls ≡ calls ++ completion e last
unfolding tell
tell-completion e true calls = refl
tell-completion e false calls = sym (append-nil calls)

-- The job at work sends a chunk to the empty channel of the dispatcher's entry, and the dispatcher
-- takes it.
round :
    (e : RequestEntry) (q : QueuedJob) (chunk : Bytes) (p : Provider)
    → p.queue_worker ≡ busy q
    → q.sender ≡ e.receiver
    → p.dispatcher ≡ busy (e, true)
    → get_elem? p.channels e.receiver ≡ some (record { waiting = []; open_end = true })
    → (is_raw e.format && (e.sample_rate == 0)) ≡ false
    → let sent = send_to q.sender (audio chunk) p.channels in
      (dispatch (work_sends (audio chunk) p) ≡ record p {
        dispatcher = busy (e, true);
        channels = modify e.receiver drop_first sent;
        calls = p.calls ++ (heard e chunk ∷ []);
      })
      × (get_elem? (modify e.receiver drop_first sent) e.receiver
          ≡ some (record { waiting = []; open_end = true }))
unfolding work_sends send_to put_message
round e q chunk p works same at waits playable =
    let sent = send_to q.sender (audio chunk) p.channels in
    let full : get_elem? sent e.receiver
        ≡ some (record { waiting = audio chunk ∷ []; open_end = true }) =
      rw same (get_elem?-modify e.receiver (put_message (audio chunk)) p.channels _ waits) in
    let sends : work_sends (audio chunk) p ≡ record p { channels = sent } =
      rw (work_sends, works)
        (ap (λ (t : Task QueuedJob). record p { queue_worker = t; channels = sent }) works) in
    (
      ap dispatch sends
          ∙ dispatch-audio e chunk [] true (record p { channels = sent }) at full playable,
      get_elem?-modify e.receiver drop_first sent _ full,
    )

-- A request that sends its chunks one after the other, each taken by the dispatcher, and ends.
abbrev pub conversation : List Bytes → List Event
conversation [] = job_ended ∷ (dispatched ∷ [])
conversation (chunk ∷ chunks) = job_sends (audio chunk) ∷ (dispatched ∷ conversation chunks)

-- The callback was told of the chunks, and worker and dispatcher wait for the next request.
abbrev pub Told : RequestEntry → List Bytes → Provider → Provider → Type 0
Told e chunks p after =
    (after.calls ≡ p.calls ++ (map (heard e) chunks ++ completion e (is_empty p.pending_queue)))
    × (after.dispatcher ≡ idle)
    × (after.queue_worker ≡ idle)
    × (after.pending_queue ≡ p.pending_queue)
    × (after.speak_queue ≡ p.speak_queue)

work_ends-busy :
    (q : QueuedJob) (p : Provider)
    → p.queue_worker ≡ busy q
    → work_ends p ≡ record p { queue_worker = idle; channels = close q.sender p.channels }
unfolding work_ends
work_ends-busy q p works = rw (work_ends, works) refl

conversation-Told :
    (text_hash : Text → Text) (e : RequestEntry) (q : QueuedJob) (chunks : List Bytes)
    (p : Provider)
    → p.queue_worker ≡ busy q
    → q.sender ≡ e.receiver
    → p.dispatcher ≡ busy (e, true)
    → get_elem? p.channels e.receiver ≡ some (record { waiting = []; open_end = true })
    → (is_raw e.format && (e.sample_rate == 0)) ≡ false
    → Told e chunks p (run text_hash (conversation chunks) p)
unfolding run step close
conversation-Told text_hash e q [] p works same at waits playable =
    let ended : Provider = record p { queue_worker = idle; channels = close q.sender p.channels } in
    let gone : get_elem? (close q.sender p.channels) e.receiver
        ≡ some (record { waiting = []; open_end = false }) =
      rw same (get_elem?-modify e.receiver _ p.channels _ waits) in
    let ends : dispatch (work_ends p) ≡ record ended {
      dispatcher = idle;
      calls = tell e.receiver (is_empty p.pending_queue) on_complete p.calls;
    } =
      ap dispatch (work_ends-busy q p works) ∙ dispatch-end e ended at gone in
    subst (Told e [] p) (sym ends)
      (tell-completion e (is_empty p.pending_queue) p.calls, refl, refl, refl, refl)
conversation-Told text_hash e q (chunk ∷ chunks) p works same at waits playable =
    let (eq, empty) = round e q chunk p works same at waits playable in
    let p' : Provider = record p {
      dispatcher = busy (e, true);
      channels = modify e.receiver drop_first (send_to q.sender (audio chunk) p.channels);
      calls = p.calls ++ (heard e chunk ∷ []);
    } in
    let (calls, idles, rests, pending, queued) =
      conversation-Told text_hash e q chunks p' works same refl empty playable in
    subst (λ r. Told e (chunk ∷ chunks) p (run text_hash (conversation chunks) r)) (sym eq)
      (
        calls
            ∙ append_assoc p.calls (heard e chunk ∷ [])
                (map (heard e) chunks ++ completion e (is_empty p.pending_queue)),
        idles,
        rests,
        pending,
        queued,
      )

take_job-idle :
    (q : QueuedJob) (qs : List QueuedJob) (p : Provider)
    → p.queue_worker ≡ idle
    → p.speak_queue ≡ q ∷ qs
    → take_job p ≡ record p { queue_worker = busy q; speak_queue = qs }
unfolding take_job
take_job-idle q qs p works jobs = rw (take_job, works, jobs) refl

dispatch-idle :
    (e : RequestEntry) (es : List RequestEntry) (p : Provider)
    → p.dispatcher ≡ idle
    → p.pending_queue ≡ e ∷ es
    → p.has_callback ≡ true
    → dispatch p ≡ record p { dispatcher = busy (e, true); pending_queue = es }
unfolding dispatch
dispatch-idle e es p at entries told =
    rw (dispatch, at, entries)
      (ap (λ b. record p { dispatcher = busy (e, b); pending_queue = es }) told)

-- Worker and dispatcher are idle, and the first job and the first entry that wait are of the same
-- request, whose channel is empty and open; a callback is set; the format has no duration, or the
-- rate is not 0. Then both take the request, and when it sends any number of chunks, each one taken
-- from the channel before the next is sent, and ends, the callback is told of every chunk in its
-- order, and then of completion if no other entry waits; worker and dispatcher are idle again, and
-- the other jobs and entries still wait.
pub dispatched-hears_all :
    (text_hash : Text → Text) (e : RequestEntry) (es : List RequestEntry) (q : QueuedJob)
    (qs : List QueuedJob) (chunks : List Bytes) (p : Provider)
    → p.queue_worker ≡ idle
    → p.dispatcher ≡ idle
    → p.speak_queue ≡ q ∷ qs
    → p.pending_queue ≡ e ∷ es
    → p.has_callback ≡ true
    → q.sender ≡ e.receiver
    → get_elem? p.channels e.receiver ≡ some (record { waiting = []; open_end = true })
    → (is_raw e.format && (e.sample_rate == 0)) ≡ false
    → let after = run text_hash (job_taken ∷ (dispatched ∷ conversation chunks)) p in
      (after.calls ≡ p.calls ++ (map (heard e) chunks ++ completion e (is_empty es)))
      × (after.dispatcher ≡ idle)
      × (after.queue_worker ≡ idle)
      × (after.pending_queue ≡ es)
      × (after.speak_queue ≡ qs)
unfolding run step
dispatched-hears_all text_hash e es q qs chunks p works at jobs entries told same waits playable =
    let p' : Provider = record p {
      queue_worker = busy q;
      speak_queue = qs;
      dispatcher = busy (e, true);
      pending_queue = es;
    } in
    subst (λ r. Told e chunks p' (run text_hash (conversation chunks) r))
      (sym (
        ap dispatch (take_job-idle q qs p works jobs)
        ∙ dispatch-idle e es (record p { queue_worker = busy q; speak_queue = qs }) at entries
            told))
      (conversation-Told text_hash e q chunks p' refl same refl waits playable)
