-- ===== src/Webhook/Forward/Claimed.antt =====
-- What a forward does to the rooms (src/handlers/livekit/webhook.rs on src/livekit/room_handler.rs).
use sayna.Prelude.{
  Bool, not, ◌&&◌, is_empty, Option, some, List, refl, ◌≡◌, ◌≢◌, ◌∙◌, inl, inr, Option-cases,
  Bool-cases, ap,
}
use sayna.Prelude.Text.{Text, trim}
use sayna.Rooms.Metadata.{Json, get_auth_id}
use sayna.Rooms.Handler.{Answer, answer, failed, RoomClient}
use sayna.Rooms.Handler.Service.{Answer-cases, IsRoomService}
use sayna.Rooms.Handler.Owner.{ensure-refused}
use sayna.Sip.Served.{SipHooksState}
use sayna.Webhook.{WebhookEvent}
use sayna.Webhook.Prepare.{Draft, ready, sip_event, prepare}
use sayna.Webhook.Signature.{generate_webhook_signature}
use sayna.Webhook.Forward.{
  Post, World, Environment, get_or_create_hook_manager, claim_room, post_of, send_post,
  acquire_and_send, post_to_hook, deliver, forward_prepared, forward_to_sip_hook,
}

module _ {V S M P : Type 0} (json : Json V) (client : RoomClient S P) (env : Environment M) where
  acquire_and_send-rooms :
      (domain : Text) (post : Post) (manager : Answer M) (w : World S M)
      → (acquire_and_send json client env domain post manager w).1.rooms ≡ w.rooms
  unfolding acquire_and_send send_post
  acquire_and_send-rooms domain post (failed e) w = refl
  acquire_and_send-rooms domain post (answer manager) w =
      elim (Answer-cases (env.acquire manager)) [
        | inl (permit, e) ↦ rw (acquire_and_send, e) refl
        | inr (t, e) ↦ rw (acquire_and_send, e) refl
      ]

  post_to_hook-rooms :
      (domain : Text) (post : Post) (w : World S M)
      → (post_to_hook json client env domain post w).1.rooms ≡ w.rooms
  unfolding post_to_hook
  post_to_hook-rooms domain post w =
      let made : Answer M × List (Text × M) =
        get_or_create_hook_manager env.new_manager post.url w.managers in
      acquire_and_send-rooms domain post made.0 (record w { managers = made.1 })

  deliver-rooms :
      (event_id : Text) (d : Draft) (w : World S M)
      → (deliver json client env event_id d w).1.rooms ≡ w.rooms
  unfolding deliver
  deliver-rooms event_id d w = elim (Answer-cases (env.to_json (sip_event d))) [
    | inr (t, e) ↦ rw (deliver, e) refl
    | inl (payload, in_json) ↦ elim (Answer-cases env.now) [
      | inr (t, e) ↦ rw (deliver, in_json, e) refl
      | inl (timestamp, at) ↦
          elim (Option-cases
            (generate_webhook_signature env.hmac d.signing_secret timestamp event_id payload)) [
              | inl e ↦ rw (deliver, in_json, at, e) refl
              | inr (signing, signed) ↦
                  rw (deliver, in_json, at, signed)
                    (post_to_hook-rooms d.domain (post_of json client env d signing payload) w)
            ]
    ]
  ]

  -- The room service does what the source relies on. A forward leaves the metadata of the event's room
  -- as it is when that names another tenant than the hook's.
  pub forward_to_sip_hook-keeps_owner :
      (lower : Text → Text) (has_room_handler : Bool) (state : SipHooksState) (event : WebhookEvent)
      (w : World S M) (metadata_of : S → Text → Option Text) (d : Draft) (raw owner : Text)
      → IsRoomService client metadata_of
      → prepare lower state event ≡ ready d
      → metadata_of w.rooms d.room.name ≡ some raw
      → get_auth_id json raw ≡ some owner
      → owner ≢ d.hook.auth_id
      → metadata_of
          (forward_to_sip_hook json client env lower has_room_handler state event w).1.rooms
          d.room.name
        ≡ some raw
  unfolding forward_to_sip_hook forward_prepared claim_room
  forward_to_sip_hook-keeps_owner lower has state event w metadata_of d raw owner service e there
        named other =
      let claimed : World S M = record w { rooms = claim_room json client env has d w.rooms } in
      let kept : metadata_of claimed.rooms d.room.name ≡ some raw =
        elim (Bool-cases (has && not (is_empty (trim d.hook.auth_id)))) [
          | inr n ↦ rw (claim_room, n) there
          | inl y ↦
              rw (claim_room, y)
                (ensure-refused json client d.room.name d.hook.auth_id metadata_of raw owner w.rooms
                  service there named other).0
        ] in
      rw (forward_to_sip_hook, e)
        (ap (λ (s : S). metadata_of s d.room.name) (deliver-rooms event.id d claimed) ∙ kept)
