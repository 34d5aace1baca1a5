-- ===== src/Livekit/Worker/Replies.antt =====
-- Who is answered (src/livekit/client/operation_worker.rs).
use mathlib.Core.List.{append_assoc, append-nil, map-append}
use sayna.Prelude.{
  ℕ, ◌≡◌, refl, sym, ap, ◌∙◌, Bool, true, Option, some, none, List, [], ◌∷◌, ◌++◌, map, arith,
  Bool-cases, inl, inr, ltb, ◌&&◌, if◌then◌else◌,
}
use sayna.Prelude.Text.{Text}
use sayna.Livekit.Queue.{
  Operation, send_audio, send_message, send_data_message, clear_audio, is_connected,
  has_audio_source, reconnect, shutdown, QueueStats, record_operation,
}
use sayna.Livekit.Worker.{
  Json, Room, Client, Reply, done, failed, answer, reply, process_send_audio, process_clear_audio,
  process_reconnect, publish_data_packet_internal, process_send_message, process_operation,
  is_shutdown, run_worker,
}

abbrev pub ticket_of : {V : Type 0} → Operation V → List ℕ
ticket_of (send_audio bytes ticket generation) = ticket ∷ []
ticket_of (send_message message role topic debug ticket) = ticket ∷ []
ticket_of (send_data_message topic value ticket) = ticket ∷ []
ticket_of (clear_audio ticket) = ticket ∷ []
ticket_of (is_connected ticket) = ticket ∷ []
ticket_of (has_audio_source ticket) = ticket ∷ []
ticket_of (reconnect ticket) = ticket ∷ []
ticket_of (shutdown (some ticket)) = ticket ∷ []
ticket_of (shutdown none) = []

abbrev pub answered : Client → List ℕ
answered c = map (λ r. r.0) c.replies

answered-reply :
    (ticket : ℕ) (c : Client) (result : Reply × Client)
    → result.1.replies ≡ c.replies
    → answered (reply ticket result.0 result.1) ≡ answered c ++ (ticket ∷ [])
answered-reply ticket c result e =
    map-append (λ r. r.0) result.1.replies ((ticket, result.0) ∷ [])
    ∙ ap (λ rs. map (λ r. r.0) rs ++ (ticket ∷ [])) e

process_send_audio-quiet :
    (bytes : List ℕ) (c : Client) → (process_send_audio bytes c).1.replies ≡ c.replies
unfolding process_send_audio
process_send_audio-quiet bytes c = ground arith

process_clear_audio-quiet : (c : Client) → (process_clear_audio c).1.replies ≡ c.replies
unfolding process_clear_audio
process_clear_audio-quiet c = ground arith

process_reconnect-quiet :
    (room : Room) (c : Client) → (process_reconnect room c).1.replies ≡ c.replies
unfolding process_reconnect
process_reconnect-quiet room c = ground arith

module _ (json : Json) where
  open json use {Value, message_json}

  -- What waits for an answer: the tickets of the operations up to the first shutdown.
  abbrev pub waiting : List (Operation Value × Room × ℕ × Bool) → List ℕ
  waiting [] = []
  waiting ((op, room, latency, unlocked) ∷ ops) =
      let rest = waiting ops in ticket_of op ++ (if is_shutdown json op then [] else rest)

  publish-quiet :
      (room : Room) (topic : Text) (value : Value) (c : Client)
      → (publish_data_packet_internal json room topic value c).1.replies ≡ c.replies
  unfolding publish_data_packet_internal
  publish-quiet room topic value c = ground arith

  message-quiet :
      (room : Room) (message role : Text) (topic : Option Text) (debug : Option Value) (c : Client)
      → (process_send_message json room message role topic debug c).1.replies ≡ c.replies
  unfolding process_send_message
  message-quiet room message role none debug c = ground arith
  message-quiet room message role (some t) debug c = ground arith

  operation-answers :
      (room : Room) (op : Operation Value) (c : Client)
      → answered (process_operation json room op c) ≡ answered c ++ ticket_of op
  unfolding process_operation
  operation-answers room (send_audio bytes ticket generation) c =
      elim (Bool-cases (ltb generation c.audio_generation)) [
        | inl e ↦ rw e (answered-reply ticket c (done, c) refl)
        | inr e ↦ rw e (
            answered-reply ticket c (process_send_audio bytes c) (process_send_audio-quiet bytes c))
      ]
  operation-answers room (send_message message role topic debug ticket) c =
      answered-reply ticket c (process_send_message json room message role topic debug c)
        (message-quiet room message role topic debug c)
  operation-answers room (send_data_message topic value ticket) c =
      answered-reply ticket c (publish_data_packet_internal json room topic value c)
        (publish-quiet room topic value c)
  operation-answers room (clear_audio ticket) c =
      answered-reply ticket c (process_clear_audio c) (process_clear_audio-quiet c)
  operation-answers room (is_connected ticket) c =
      answered-reply ticket c (answer c.connected, c) refl
  operation-answers room (has_audio_source ticket) c =
      answered-reply ticket c (answer (c.audio_source && c.local_track_publication), c) refl
  operation-answers room (reconnect ticket) c =
      let (e, c') = process_reconnect room c in
      answered-reply ticket c (elim e [ none ↦ done | some err ↦ failed err ], c')
        (process_reconnect-quiet room c)
  operation-answers room (shutdown (some ticket)) c = answered-reply ticket c (done, c) refl
  operation-answers room (shutdown none) c = sym (append-nil (answered c))

  -- Every operation the worker receives is answered exactly once, in the order of the queue,
  -- whatever the room answers and whether or not the operation fails: the tickets answered by a run
  -- are those of its operations up to and with the first shutdown (a shutdown without a channel has
  -- none).
  pub each_answered_once :
      (ops : List (Operation Value × Room × ℕ × Bool)) (c : Client) (stats : QueueStats)
      → answered (run_worker json ops c stats).0 ≡ answered c ++ waiting ops
  unfolding run_worker
  each_answered_once [] c stats = sym (append-nil (answered c))
  each_answered_once ((op, room, latency, unlocked) ∷ ops) c stats =
      let c' = process_operation json room op c in
      let stats' = if unlocked then record_operation op true latency stats else stats in
      let one = operation-answers room op c in
      elim (Bool-cases (is_shutdown json op)) [
        | inl e ↦ rw e (one ∙ sym (ap (◌++◌ (answered c)) (append-nil (ticket_of op))))
        | inr e ↦ rw e (
            each_answered_once ops c' stats'
            ∙ ap (λ l. l ++ waiting ops) one
            ∙ append_assoc (answered c) (ticket_of op) (waiting ops))
      ]

  -- No failure is ever counted, also when operations fail and their senders are told so: a run
  -- leaves the count of failed operations as it was.
  pub failures_not_counted :
      (ops : List (Operation Value × Room × ℕ × Bool)) (c : Client) (stats : QueueStats)
      → (run_worker json ops c stats).1.failed_operations ≡ stats.failed_operations
  unfolding run_worker
  failures_not_counted [] c stats = refl
  failures_not_counted ((op, room, latency, unlocked) ∷ ops) c stats =
      let c' = process_operation json room op c in
      let stats' : QueueStats =
        if unlocked then record_operation op true latency stats else stats in
      let one : stats'.failed_operations ≡ stats.failed_operations = ground arith in
      elim (Bool-cases (is_shutdown json op)) [
        | inl e ↦ rw e one
        | inr e ↦ rw e (failures_not_counted ops c' stats' ∙ one)
      ]
