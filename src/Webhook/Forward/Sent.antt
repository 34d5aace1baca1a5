-- ===== src/Webhook/Forward/Sent.antt =====
-- What is sent to a SIP hook (src/handlers/livekit/webhook.rs).
use sayna.Prelude.{
  ℕ, Bool, some, List, [], ◌∷◌, ◌++◌, refl, ◌≡◌, ◌≢◌, ◌⊎◌, inl, inr, Option-cases, arith, sym,
}
use sayna.Prelude.Text.{Text, codes}
use sayna.Prelude.Dict.{lookup, insert}
use sayna.Prelude.Decimal.{show}
use sayna.Sip.{SipHookConfig}
use sayna.Rooms.Metadata.{Json}
use sayna.Rooms.Handler.{Answer, answer, failed, RoomClient}
use sayna.Rooms.Handler.Service.{Answer-cases}
use sayna.Sip.Served.{SipHooksState, get_hook_for_domain, get_signing_secret}
use sayna.Webhook.{
  Attributes, WebhookEvent, ParticipantInfo, RoomInfo, SipHookEvent, http_client_error,
}
use sayna.Webhook.Prepare.Headers.{sip_headers-lookup}
use sayna.Webhook.Prepare.Ready.{IsReady, prepare-ready_iff}
use sayna.Webhook.Prepare.{Draft, Prepared-cases, sip_event, prepare}
use sayna.Webhook.Forward.{
  Post, World, Environment, Forwarded, forwarded, not_forwarded, read_response,
  get_or_create_hook_manager, claim_room, post_of, send_post, acquire_and_send, post_to_hook,
  deliver, forward_prepared, forward_to_sip_hook,
}
use sayna.Webhook.Signature.{generate_webhook_signature, canonical_string, signing_headers}

module _ {V S M P : Type 0} (json : Json V) (client : RoomClient S P) (env : Environment M) where
  -- The request of a draft: the event in JSON to the URL of the hook, signed with its secret.
  abbrev IsMade : Text → Draft → Post → Type 0
  IsMade event_id d post =
      (payload : Text) × (timestamp : ℕ) × (signing : Attributes) × (env.to_json (sip_event d)
        ≡ answer payload)
      × (env.now ≡ answer timestamp)
      × (generate_webhook_signature env.hmac d.signing_secret timestamp event_id payload
          ≡ some signing)
      × (post ≡ post_of json client env d signing payload)

  -- Nothing was sent and this is told, or the one request was sent and its answer is told.
  abbrev SentOnce : Text → Post → World S M → Forwarded × World S M → Type 0
  SentOnce domain post w r =
      ((r.1.sent ≡ w.sent) × (r.0 ≢ forwarded))
      ⊎ ((r.1.sent ≡ w.sent ++ (post ∷ [])) × (r.0 ≡ read_response domain (env.send post)))

  not_told : (e : Text) → not_forwarded (http_client_error e) ≢ forwarded
  not_told e same = absurd (ground (arith, same))

  acquire_and_send-once :
      (domain : Text) (post : Post) (manager : Answer M) (w : World S M)
      → SentOnce domain post w (acquire_and_send json client env domain post manager w)
  unfolding acquire_and_send send_post
  acquire_and_send-once domain post (failed e) w = inl (refl, not_told e)
  acquire_and_send-once domain post (answer manager) w = elim (Answer-cases (env.acquire manager)) [
    | inl (permit, e) ↦ rw (acquire_and_send, e) (inr (refl, refl))
    | inr (t, e) ↦ rw (acquire_and_send, e) (inl (refl, not_told t))
  ]

  post_to_hook-once :
      (domain : Text) (post : Post) (w : World S M)
      → SentOnce domain post w (post_to_hook json client env domain post w)
  unfolding post_to_hook
  post_to_hook-once domain post w =
      let made : Answer M × List (Text × M) =
        get_or_create_hook_manager env.new_manager post.url w.managers in
      acquire_and_send-once domain post made.0 (record w { managers = made.1 })

  abbrev Delivered : Text → Draft → World S M → Forwarded × World S M → Type 0
  Delivered event_id d w r =
      ((r.1.sent ≡ w.sent) × (r.0 ≢ forwarded))
      ⊎ ((post : Post) × IsMade event_id d post
          × (r.1.sent ≡ w.sent ++ (post ∷ []))
          × (r.0 ≡ read_response d.domain (env.send post)))

  deliver-once :
      (event_id : Text) (d : Draft) (w : World S M)
      → Delivered event_id d w (deliver json client env event_id d w)
  unfolding deliver post_of
  deliver-once event_id d w = elim (Answer-cases (env.to_json (sip_event d))) [
    | inr (t, e) ↦ rw (deliver, e) (inl (refl, not_told t))
    | inl (payload, in_json) ↦ elim (Answer-cases env.now) [
      | inr (t, e) ↦ rw (deliver, in_json, e) (inl (refl, not_told t))
      | inl (timestamp, at) ↦
          elim (Option-cases
            (generate_webhook_signature env.hmac d.signing_secret timestamp event_id payload)) [
              | inl e ↦
                  rw (deliver, in_json, at, e)
                    (inl (refl, not_told (codes "HMAC initialization failed: ")))
              | inr (signing, signed) ↦
                  let post : Post = post_of json client env d signing payload in
                  rw (deliver, in_json, at, signed)
                    (elim (post_to_hook-once d.domain post w) [
                      | inl unsent ↦ inl unsent
                      | inr (sent, told) ↦ inr (
                        post,
                        (payload, timestamp, signing, refl, refl, signed, refl),
                        sent,
                        told,
                      )
                    ])
            ]
    ]
  ]

  -- The event of the JSON: the caller, the room, the two numbers, the prefix, the domain, and under each
  -- name the attribute that has it after "sip.h.".
  abbrev pub IsEventOf : SipHooksState → ParticipantInfo → RoomInfo → Text → SipHookEvent → Type 0
  IsEventOf state p room domain e =
      (e.participant.name ≡ p.name)
      × (e.participant.identity ≡ p.identity)
      × (e.participant.sid ≡ p.sid)
      × (e.room.name ≡ room.name)
      × (e.room.sid ≡ room.sid)
      × (lookup (codes "sip.phoneNumber") p.attributes ≡ some e.from_phone_number)
      × (lookup (codes "sip.trunkPhoneNumber") p.attributes ≡ some e.to_phone_number)
      × (e.room_prefix ≡ state.room_prefix)
      × (e.sip_host ≡ domain)
      × ((name : Text) → lookup name e.sip_headers ≡ lookup (codes "sip.h." ++ name) p.attributes)

  -- The headers: the content type, the event and the time, and the MAC of "v1:", the time, ":", the
  -- event, ":" and the body.
  abbrev pub IsSigned : (Text → Text) → ℕ → Text → Post → Type 0
  IsSigned mac timestamp event_id post =
      (lookup (codes "Content-Type") post.headers ≡ some (codes "application/json"))
      × (lookup (codes "X-Sayna-Timestamp") post.headers ≡ some (show timestamp))
      × (lookup (codes "X-Sayna-Event-Id") post.headers ≡ some event_id)
      × (lookup (codes "X-Sayna-Signature-Version") post.headers ≡ some (codes "v1"))
      × (lookup (codes "X-Sayna-Signature") post.headers
          ≡ some (
              codes "v1="
              ++ mac (
                  codes "v1:"
                  ++ (show timestamp ++ (codes ":" ++ (event_id ++ (codes ":" ++ post.body)))))))

  -- The request for an event and the domain that it is for, by the configured hook of the domain.
  abbrev pub IsRequest : SipHooksState → WebhookEvent → Text → Post → Type 0
  IsRequest state event domain post =
      (p : ParticipantInfo) × (room : RoomInfo) × (hook : SipHookConfig) × (secret : Text)
      × (mac : Text → Text) × (timestamp : ℕ) × (e : SipHookEvent) × (event.participant ≡ some p)
      × (event.room ≡ some room)
      × (get_hook_for_domain state domain ≡ some hook)
      × (get_signing_secret state hook ≡ some secret)
      × (env.hmac secret ≡ some mac)
      × (env.now ≡ answer timestamp)
      × IsEventOf state p room domain e
      × (env.to_json e ≡ answer post.body)
      × (post.url ≡ hook.url)
      × IsSigned mac timestamp event.id post

  IsMade-IsRequest :
      (lower : Text → Text) (state : SipHooksState) (event : WebhookEvent) (d : Draft) (post : Post)
      → IsReady lower state event d
      → IsMade event.id d post
      → IsRequest state event d.domain post
  unfolding sip_event post_of generate_webhook_signature canonical_string signing_headers lookup
      insert
  IsMade-IsRequest lower state event d post r
        (payload, timestamp, signing, in_json, at, signed, made) =
      let (joined, caller, room, header, from, to, (has, secret, prefix)) = r in
      elim (Option-cases (env.hmac d.signing_secret)) [
        | inl e ↦ absurd (ground (arith, rw (generate_webhook_signature, e) at signed))
        | inr (mac, e) ↦
            let same : signing_headers (mac (canonical_string timestamp event.id payload)) timestamp
                  event.id
                ≡ signing =
              ground (arith, rw (generate_webhook_signature, e) at signed) in
            rw (made, sym same)
              (
                d.participant,
                d.room,
                d.hook,
                d.signing_secret,
                mac,
                timestamp,
                sip_event d,
                caller,
                room,
                has,
                secret,
                e,
                at,
                (
                  refl,
                  refl,
                  refl,
                  refl,
                  refl,
                  from,
                  to,
                  prefix,
                  refl,
                  sip_headers-lookup d.participant.attributes,
                ),
                in_json,
                refl,
                (refl, refl, refl, refl, refl),
              )
      ]

  -- A forward sends at most one request. It tells of success only if it sent one, when it tells what
  -- the hook answered. The request is for a domain that has a hook: it goes to the URL of the hook;
  -- its body is the JSON of the caller, the room, the numbers, the prefix, the domain and the SIP
  -- headers of the event; and it is signed, with the time and the event's id, by the secret of the
  -- hook. Refused by the checks, or where they panic, it sends nothing.
  pub forward_to_sip_hook-sends :
      (lower : Text → Text) (has_room_handler : Bool) (state : SipHooksState) (event : WebhookEvent)
      (w : World S M)
      → let r = forward_to_sip_hook json client env lower has_room_handler state event w in
        ((r.1.sent ≡ w.sent) × (r.0 ≢ forwarded))
        ⊎ ((d : Draft) × (post : Post) × IsReady lower state event d
            × IsRequest state event d.domain post
            × (r.1.sent ≡ w.sent ++ (post ∷ []))
            × (r.0 ≡ read_response d.domain (env.send post)))
  unfolding forward_to_sip_hook forward_prepared
  forward_to_sip_hook-sends lower has_room_handler state event w =
      elim (Prepared-cases (prepare lower state event)) [
        | inl (d, e) ↦
            rw (forward_to_sip_hook, e)
              (elim (deliver-once event.id d
                (record w { rooms = claim_room json client env has_room_handler d w.rooms })) [
                  | inl unsent ↦ inl unsent
                  | inr (post, made, sent, told) ↦
                      let checked = (prepare-ready_iff lower state event d).0 e in
                      inr (
                        d,
                        post,
                        checked,
                        IsMade-IsRequest lower state event d post checked made,
                        sent,
                        told,
                      )
                ])
        | inr (inl (x, e)) ↦
            rw (forward_to_sip_hook, e) (inl (refl, λ same. absurd (ground (arith, same))))
        | inr (inr e) ↦
            rw (forward_to_sip_hook, e) (inl (refl, λ same. absurd (ground (arith, same))))
      ]
