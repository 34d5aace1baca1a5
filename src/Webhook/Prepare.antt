-- ===== src/Webhook/Prepare.antt =====
-- What is checked before an event goes to a SIP hook, and what then goes there
-- (src/handlers/livekit/webhook.rs, the first half of `forward_to_sip_hook`).
pub mod Headers
pub mod Ready
use sayna.Prelude.{
  ℕ, ◌+◌, ◌-◌, leb, ltb, Bool, true, false, not, ◌&&◌, Option, none, some, List, [], ◌∷◌, ◌++◌,
  is_empty, or_option, refl, ◌≡◌, ◌⊎◌, inl, inr, if◌then◌else◌,
}
use sayna.Prelude.Text.{Text, codes, text_eq, trim}
use sayna.Prelude.Dict.{lookup, insert}
use sayna.Access.Middleware.{strip_prefix}
use sayna.Rooms.Metadata.{Json}
use sayna.Rooms.Handler.{Answer, answer, failed, RoomClient, ensure_room_auth_id}
use sayna.Sip.{SipHookConfig}
use sayna.Sip.Checks.{utf8_size, utf8_length}
use sayna.Sip.Served.{SipHooksState, get_hook_for_domain, get_signing_secret}
use sayna.Webhook.{
  Attributes, ParticipantInfo, RoomInfo, WebhookEvent, SipHookEvent, SipForwardingError,
  no_participant, missing_sip_header, missing_from_phone_number, missing_to_phone_number,
  malformed_sip_header, no_hook_configured, http_client_error, http_request_error,
  hook_failed_response, missing_signing_secret, sip_headers, get_sip_host_header,
}
use sayna.Webhook.Domain.{Outcome, panics, value, before, parse_sip_domain}
use sayna.Webhook.Signature.{generate_webhook_signature}

abbrev pub participant_joined : Text
participant_joined = codes "participant_joined"

abbrev pub from_key : Text
from_key = codes "sip.phoneNumber"

abbrev pub to_key : Text
to_key = codes "sip.trunkPhoneNumber"

-- What an event and the hooks give, once every check has passed.
pub record Draft : Type 0 where
  pub participant : ParticipantInfo
  pub room : RoomInfo
  pub from_phone_number : Text
  pub to_phone_number : Text
  pub domain : Text
  pub hook : SipHookConfig
  pub signing_secret : Text
  pub room_prefix : Text

pub data Prepared : Type 0 where
  ready : Draft → Prepared
  refused : SipForwardingError → Prepared
  panicked : Prepared

pub Prepared-cases :
    (p : Prepared)
    → ((d : Draft) × (p ≡ ready d))
      ⊎ (((e : SipForwardingError) × (p ≡ refused e)) ⊎ (p ≡ panicked))
Prepared-cases (ready d) = inl (d, refl)
Prepared-cases (refused e) = inr (inl (e, refl))
Prepared-cases panicked = inr (inr refl)

unfoldable pub prepare_hook :
    SipHooksState → ParticipantInfo → RoomInfo → Text → Text → Text → Prepared
prepare_hook state participant room from to domain = elim (get_hook_for_domain state domain) [
  | none ↦ refused (no_hook_configured domain)
  | some hook ↦ elim (get_signing_secret state hook) [
    | none ↦ refused (missing_signing_secret domain)
    | some signing_secret ↦ ready (record {
      participant = participant;
      room = room;
      from_phone_number = from;
      to_phone_number = to;
      domain = domain;
      hook = hook;
      signing_secret = signing_secret;
      room_prefix = state.room_prefix;
    })
  ]
]

unfoldable pub sip_event : Draft → SipHookEvent
sip_event d = record {
  participant = record {
    name = d.participant.name;
    identity = d.participant.identity;
    sid = d.participant.sid;
  };
  room = record { name = d.room.name; sid = d.room.sid };
  from_phone_number = d.from_phone_number;
  to_phone_number = d.to_phone_number;
  room_prefix = d.room_prefix;
  sip_host = d.domain;
  sip_headers = sip_headers d.participant.attributes;
}

module _ (lower : Text → Text) where
  unfoldable pub prepare_domain :
      SipHooksState → ParticipantInfo → RoomInfo → Text → Text → Text → Prepared
  unfolding prepare_hook
  prepare_domain state participant room from to header = elim (parse_sip_domain lower header) [
    | panics ↦ panicked
    | value none ↦ refused (malformed_sip_header header)
    | value (some domain) ↦ prepare_hook state participant room from to domain
  ]

  unfoldable pub prepare_numbers : SipHooksState → ParticipantInfo → RoomInfo → Prepared
  unfolding prepare_domain
  prepare_numbers state participant room = elim (get_sip_host_header participant.attributes) [
    | none ↦ refused missing_sip_header
    | some header ↦ elim (lookup from_key participant.attributes) [
      | none ↦ refused missing_from_phone_number
      | some from ↦ elim (lookup to_key participant.attributes) [
        | none ↦ refused missing_to_phone_number
        | some to ↦ prepare_domain state participant room from to header
      ]
    ]
  ]

  unfoldable pub prepare : SipHooksState → WebhookEvent → Prepared
  unfolding prepare_numbers
  prepare state event =
      if not (text_eq event.event participant_joined)
      then refused (no_participant event.event)
      else elim event.participant [
        | none ↦ refused (no_participant event.event)
        | some participant ↦ elim event.room [
          | none ↦ refused (no_participant event.event)
          | some room ↦ prepare_numbers state participant room
        ]
      ]
