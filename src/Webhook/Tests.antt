-- ===== src/Webhook/Tests.antt =====
-- Runs of the webhook (src/handlers/livekit/webhook.rs).
use sayna.Prelude.{ℕ, true, Option, none, some, [], ◌∷◌, ◌++◌, map, refl, ◌≡◌, ◌≢◌, ◌↔◌, ◌⊎◌, arith}
use sayna.Prelude.Text.{Text, codes, trim, trim_start, is_whitespace}
use sayna.Prelude.Dict.{lookup}
use sayna.Access.Middleware.{header}
use sayna.Rooms.Metadata.{get_auth_id}
use sayna.Rooms.Handler.{answer}
use sayna.Rooms.Handler.Tests.{
  Rooms, in_memory, metadata_of, in_memory-IsRoomService, other_json, other_owner, theirs,
}
use sayna.Sip.{SipHookConfig}
use sayna.Sip.Served.{SipHooksState, to_ascii_lowercase, get_hook_for_domain}
use sayna.Webhook.{ParticipantInfo, RoomInfo, WebhookEvent, no_participant, get_sip_host_header}
use sayna.Webhook.Domain.{panics, value, parse_sip_domain}
use sayna.Webhook.Domain.Parsed.{parse_sip_domain-host}
use sayna.Webhook.Domain.Panics.{IsCrossed, parse_sip_domain-panics_iff}
use sayna.Webhook.Signature.{canonical_string_injective}
use sayna.Webhook.Prepare.{Draft, ready, refused, from_key, to_key, participant_joined, prepare}
use sayna.Webhook.Prepare.Ready.{IsReady, prepare-ready_iff}
use sayna.Webhook.Forward.{Post, World, Environment, forwarded, read_response, forward_to_sip_hook}
use sayna.Webhook.Forward.Sent.{IsRequest, forward_to_sip_hook-sends}
use sayna.Webhook.Forward.Claimed.{forward_to_sip_hook-keeps_owner}
use sayna.Webhook.Handler.{
  Verification, verified, received, status, Settings, handle_event, handle_livekit_webhook,
}
use sayna.Webhook.Handler.Verified.{IsVerified, handle_livekit_webhook-IsVerified}
use sayna.Webhook.Handler.Joined.{IsLate, prepare-handle_event, handle_event-prepare}

abbrev lower : Text → Text
lower = map to_ascii_lowercase

parse_sip_domain-host_example :
    parse_sip_domain lower (codes " \"A\" <sips:u@Ex.COM;tag=1>;x") ≡ value (some (codes "ex.com"))
unfolding trim trim_start is_whitespace
parse_sip_domain-host_example =
    parse_sip_domain-host lower (codes " \"A\" <sips:u@Ex.COM;tag=1>;x") (codes "u")
      (codes "Ex.COM") true (some (codes "\"A\" ", codes ";x")) (some (codes "tag=1")) refl
      (ground arith) (ground arith) (ground arith) (ground arith)

parse_sip_domain-panics_iff_example :
    (parse_sip_domain lower (codes "a>b<c") ≡ panics) ↔ IsCrossed (trim (codes "a>b<c"))
parse_sip_domain-panics_iff_example = parse_sip_domain-panics_iff lower (codes "a>b<c")

-- The source's examples.
bare_host :
    parse_sip_domain lower (codes "sip-1.example.com:5060")
    ≡ value (some (codes "sip-1.example.com"))
unfolding parse_sip_domain trim trim_start is_whitespace
bare_host = refl

-- The port of an address of a user stays.
user_port :
    parse_sip_domain lower (codes "sip:u@example.com:5060")
    ≡ value (some (codes "example.com:5060"))
unfolding parse_sip_domain trim trim_start is_whitespace
user_port = refl

abbrev mac : Text → Text
mac t = codes "00" ++ t

abbrev hmac : Text → Option (Text → Text)
hmac secret = some mac

abbrev noon : ℕ
noon = 7

canonical_string_injective_example :
    (noon ≡ noon) × (codes "e" ≡ codes "e") × (codes "{}" ≡ codes "{}")
canonical_string_injective_example =
    canonical_string_injective noon noon (codes "e") (codes "e") (codes "{}") (codes "{}")
      (omega arith) (omega arith) (ground arith) (ground arith) refl

abbrev hook : SipHookConfig
hook = record {
  host = codes "ex.com";
  url = codes "https://h/x";
  secret = none;
  auth_id = codes "acme";
}

abbrev state : SipHooksState
state = record { hooks = hook ∷ []; global_secret = some (codes "s"); room_prefix = codes "sip-" }

abbrev caller : ParticipantInfo
caller = record {
  name = codes "n";
  identity = codes "i";
  sid = codes "p";
  attributes =
      (codes "sip.h.to", codes "sip:u@ex.com")
      ∷ ((from_key, codes "1") ∷ ((to_key, codes "2") ∷ []));
}

abbrev call_room : RoomInfo
call_room = record { name = codes "r"; sid = codes "q" }

abbrev joined : WebhookEvent
joined = record {
  id = codes "e";
  event = participant_joined;
  participant = some caller;
  room = some call_room;
}

abbrev draft : Draft
draft = record {
  participant = caller;
  room = call_room;
  from_phone_number = codes "1";
  to_phone_number = codes "2";
  domain = codes "ex.com";
  hook = hook;
  signing_secret = codes "s";
  room_prefix = codes "sip-";
}

joined_is_ready : prepare lower state joined ≡ ready draft
unfolding prepare parse_sip_domain trim trim_start is_whitespace get_sip_host_header
    get_hook_for_domain lookup sayna.Sip.Served.get_signing_secret
joined_is_ready = refl

prepare-ready_iff_example :
    (prepare lower state joined ≡ ready draft) ↔ IsReady lower state joined draft
prepare-ready_iff_example = prepare-ready_iff lower state joined draft

prepare-handle_event_example : handle_event lower (some state) joined ≡ received (some joined)
prepare-handle_event_example = prepare-handle_event lower state joined draft joined_is_ready

handle_event-prepare_example :
    IsLate lower (prepare lower state joined)
    ⊎ ((joined.room ≡ none)
        × (prepare lower state joined ≡ refused (no_participant participant_joined)))
handle_event-prepare_example =
    handle_event-prepare lower state joined
      (prepare-handle_event lower state joined draft joined_is_ready)

abbrev env : Environment ℕ
env = record {
  to_json = λ e. answer (codes "{}");
  now = answer 5;
  hmac = hmac;
  new_manager = answer 1;
  acquire = λ m. answer tt;
  send = λ post. answer (record { status = 204; body = none });
}

abbrev calm : World Rooms ℕ
calm = record { rooms = theirs; managers = []; sent = [] }

forward_to_sip_hook-sends_example :
    let r = forward_to_sip_hook other_json in_memory env lower true state joined calm in
    ((r.1.sent ≡ []) × (r.0 ≢ forwarded))
    ⊎ ((d : Draft) × (post : Post) × IsReady lower state joined d
        × IsRequest other_json in_memory env state joined d.domain post
        × (r.1.sent ≡ post ∷ [])
        × (r.0 ≡ read_response d.domain (env.send post)))
forward_to_sip_hook-sends_example =
    forward_to_sip_hook-sends other_json in_memory env lower true state joined calm

forward_to_sip_hook-keeps_owner_example :
    metadata_of
      (forward_to_sip_hook other_json in_memory env lower true state joined calm).1.rooms
      (codes "r")
    ≡ some (codes "x")
unfolding lookup get_auth_id trim
forward_to_sip_hook-keeps_owner_example =
    forward_to_sip_hook-keeps_owner other_json in_memory env lower true state joined calm
      metadata_of draft (codes "x") other_owner in_memory-IsRoomService joined_is_ready refl refl
      (λ same. absurd (ground (arith, same)))

abbrev settings : Settings
settings = record {
  livekit_api_key = some (codes "k");
  livekit_api_secret = some (codes "s");
  sip_hooks_state = some state;
}

abbrev receive : Text → Text → Text → Text → Verification
receive key secret text token = verified joined

handle_livekit_webhook-IsVerified_example :
    let reply =
      handle_livekit_webhook lower receive settings
        (header (codes "Bearer t"))
        (some (codes "{}")) in
    ((reply ≡ status 503)
      × ((settings.livekit_api_key ≡ none) ⊎ (settings.livekit_api_secret ≡ none)))
    ⊎ (((reply ≡ status 401) ⊎ (reply ≡ status 400))
        ⊎ ((event : WebhookEvent) × IsVerified lower receive settings
              (header (codes "Bearer t"))
              (some (codes "{}"))
              event
            × (reply ≡ handle_event lower (some state) event)))
handle_livekit_webhook-IsVerified_example =
    handle_livekit_webhook-IsVerified lower receive settings (header (codes "Bearer t"))
      (some (codes "{}"))
