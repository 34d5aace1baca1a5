-- ===== src/Webhook/Forward.antt =====
-- Forwarding an event to a SIP hook (src/handlers/livekit/webhook.rs, `forward_to_sip_hook`). JSON, HMAC,
-- the clock, the HTTP clients and the room service are parameters; the texts of their errors are
-- passed on without the words before them.
pub mod Sent
pub mod Claimed
use sayna.Prelude.{
  ℕ, ◌+◌, ◌-◌, leb, ltb, Bool, true, false, not, ◌&&◌, Option, none, some, List, [], ◌∷◌, ◌++◌,
  is_empty, or_option, if◌then◌else◌,
}
use sayna.Prelude.Text.{Text, codes, text_eq, trim}
use sayna.Prelude.Dict.{lookup, insert}
use sayna.Access.Middleware.{strip_prefix}
use sayna.Rooms.Metadata.{Json}
use sayna.Rooms.Handler.{Answer, answer, failed, RoomClient, ensure_room_auth_id}
use sayna.Sip.{SipHookConfig}
use sayna.Sip.Checks.{utf8_size, utf8_length}
use sayna.Sip.Served.{SipHooksState, get_hook_for_domain, get_signing_secret}
use sayna.Webhook.{
  Attributes, ParticipantInfo, RoomInfo, WebhookEvent, SipHookEvent, SipForwardingError,
  no_participant, missing_sip_header, missing_from_phone_number, missing_to_phone_number,
  malformed_sip_header, no_hook_configured, http_client_error, http_request_error,
  hook_failed_response, missing_signing_secret, sip_headers, get_sip_host_header,
}
use sayna.Webhook.Domain.{Outcome, panics, value, before, parse_sip_domain}
use sayna.Webhook.Prepare.{Draft, Prepared, ready, refused, panicked, sip_event, prepare}
use sayna.Webhook.Signature.{generate_webhook_signature}

pub data Forwarded : Type 0 where
  forwarded : Forwarded
  not_forwarded : SipForwardingError → Forwarded
  aborted : Forwarded

-- A request to a hook.
pub record Post : Type 0 where
  pub url : Text
  pub headers : Attributes
  pub body : Text

pub record HookResponse : Type 0 where
  pub status : ℕ
  pub body : Option Text

-- The rooms, the managers by their keys, and the requests that were made.
pub record World (S M : Type 0) : Type 0 where
  pub rooms : S
  pub managers : List (Text × M)
  pub sent : List Post

pub record Environment (M : Type 0) : Type 0 where
  pub to_json : SipHookEvent → Answer Text
  pub now : Answer ℕ
  pub hmac : Text → Option (Text → Text)
  pub new_manager : Answer M
  pub acquire : M → Answer (Unit {0})
  pub send : Post → Answer HookResponse

-- The host of a URL, by which its manager is known.
unfoldable pub url_host : Text → Option Text
unfolding before
url_host url =
    elim (or_option (strip_prefix (codes "https://") url) (strip_prefix (codes "http://") url)) [
      | none ↦ none
      | some rest ↦ some (before 47 rest)
    ]

unfoldable pub add_manager :
    {M : Type 0} → Text → Option M → Answer M → List (Text × M) → Answer M × List (Text × M)
add_manager key (some manager) made managers = (answer manager, managers)
add_manager key none (answer manager) managers = (answer manager, insert key manager managers)
add_manager key none (failed e) managers = (failed e, managers)

unfoldable pub get_or_create_hook_manager :
    {M : Type 0} → Answer M → Text → List (Text × M) → Answer M × List (Text × M)
unfolding url_host add_manager
get_or_create_hook_manager made url managers = elim (url_host url) [
  | none ↦ (failed (codes "Invalid webhook URL: " ++ url), managers)
  | some host ↦
      let key : Text = codes "sip-hook-" ++ host in
      add_manager key (lookup key managers) made managers
]

-- `&s[..n]`, which panics where the n-th byte is inside a character.
unfoldable pub cut_bytes : ℕ → Text → Outcome Text
cut_bytes n [] = if ltb 0 n then panics else value []
cut_bytes n (c ∷ s) =
    let rest : Outcome Text = cut_bytes (n - utf8_size c) s in
    if leb n 0
    then value []
    else if ltb n (utf8_size c)
    then panics
    else elim rest [ panics ↦ panics | value t ↦ value (c ∷ t) ]

unfoldable pub truncated_body : Text → Outcome Text
unfolding cut_bytes
truncated_body body =
    if ltb 200 (utf8_length body)
    then elim (cut_bytes 200 body) [ panics ↦ panics | value t ↦ value (t ++ codes "...") ]
    else value body

abbrev body_text : Option Text → Text
body_text none = codes "<unable to read body>"
body_text (some body) = body

unfoldable pub read_response : Text → Answer HookResponse → Forwarded
unfolding truncated_body
read_response domain (failed e) = not_forwarded (http_request_error domain e)
read_response domain (answer response) =
    if leb 200 response.status && leb response.status 299
    then forwarded
    else elim (truncated_body (body_text response.body)) [
      | panics ↦ aborted
      | value text ↦ not_forwarded (hook_failed_response domain response.status text)
    ]

module _ {V S M P : Type 0} (json : Json V) (client : RoomClient S P) (env : Environment M) where
  -- The room goes to the tenant of the hook, if there is a room handler and the hook has a tenant. What
  -- the room handler answers is logged only.
  unfoldable pub claim_room : Bool → Draft → S → S
  claim_room has_room_handler d s =
      if has_room_handler && not (is_empty (trim d.hook.auth_id))
      then (ensure_room_auth_id json client d.room.name d.hook.auth_id s).1
      else s

  unfoldable pub post_of : Draft → Attributes → Text → Post
  post_of d signing payload = record {
    url = d.hook.url;
    headers = (codes "Content-Type", codes "application/json") ∷ signing;
    body = payload;
  }

  unfoldable pub send_post : Text → Post → World S M → Forwarded × World S M
  unfolding read_response
  send_post domain post w =
      (read_response domain (env.send post), record w { sent = w.sent ++ (post ∷ []) })

  -- The request, once there is a manager for it and a permit of that manager.
  unfoldable pub acquire_and_send : Text → Post → Answer M → World S M → Forwarded × World S M
  unfolding send_post
  acquire_and_send domain post (failed e) w = (not_forwarded (http_client_error e), w)
  acquire_and_send domain post (answer manager) w = elim (env.acquire manager) [
    | failed e ↦ (not_forwarded (http_client_error e), w)
    | answer permit ↦ send_post domain post w
  ]

  unfoldable pub post_to_hook : Text → Post → World S M → Forwarded × World S M
  unfolding get_or_create_hook_manager acquire_and_send
  post_to_hook domain post w =
      let (manager, managers) = get_or_create_hook_manager env.new_manager post.url w.managers in
      acquire_and_send domain post manager (record w { managers = managers })

  unfoldable pub deliver : Text → Draft → World S M → Forwarded × World S M
  unfolding sip_event generate_webhook_signature post_of post_to_hook
  deliver event_id d w = elim (env.to_json (sip_event d)) [
    | failed e ↦ (not_forwarded (http_client_error e), w)
    | answer payload ↦ elim env.now [
      | failed e ↦ (not_forwarded (http_client_error e), w)
      | answer timestamp ↦
          elim (generate_webhook_signature env.hmac d.signing_secret timestamp event_id payload) [
            | none ↦ (not_forwarded (http_client_error (codes "HMAC initialization failed: ")), w)
            | some signing ↦ post_to_hook d.domain (post_of d signing payload) w
          ]
    ]
  ]

  unfoldable pub forward_prepared : Bool → Text → Prepared → World S M → Forwarded × World S M
  unfolding claim_room deliver
  forward_prepared has_room_handler event_id (refused e) w = (not_forwarded e, w)
  forward_prepared has_room_handler event_id panicked w = (aborted, w)
  forward_prepared has_room_handler event_id (ready d) w =
      deliver event_id d (record w { rooms = claim_room has_room_handler d w.rooms })

  unfoldable pub forward_to_sip_hook :
      (Text → Text) → Bool → SipHooksState → WebhookEvent → World S M → Forwarded × World S M
  unfolding forward_prepared prepare
  forward_to_sip_hook lower has_room_handler state event w =
      forward_prepared has_room_handler event.id (prepare lower state event) w
