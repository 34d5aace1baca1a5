-- ===== src/Webhook.antt =====
-- The webhook of LiveKit (src/handlers/livekit/webhook.rs): what an event holds and what of it goes
-- to a SIP hook. Attributes are an association list without a key twice.
pub mod Domain
pub mod Signature
pub mod Prepare
pub mod Forward
pub mod Handler
mod Tests
use sayna.Prelude.{ℕ, Option, none, some, List, [], ◌∷◌, or_option, if◌then◌else◌}
use sayna.Prelude.Text.{Text, codes}
use sayna.Prelude.Dict.{lookup}
use sayna.Rooms.Guard.{starts_with}
use sayna.Access.Middleware.{strip_prefix}

abbrev pub Attributes : Type 0
Attributes = List (Text × Text)

-- `ParticipantInfo`, `Room` and `WebhookEvent` of LiveKit, less what the source does not read.
pub record ParticipantInfo : Type 0 where
  pub name : Text
  pub identity : Text
  pub sid : Text
  pub attributes : Attributes

pub record RoomInfo : Type 0 where
  pub name : Text
  pub sid : Text

pub record WebhookEvent : Type 0 where
  pub id : Text
  pub event : Text
  pub participant : Option ParticipantInfo
  pub room : Option RoomInfo

pub record SipHookParticipant : Type 0 where
  pub name : Text
  pub identity : Text
  pub sid : Text

pub record SipHookRoom : Type 0 where
  pub name : Text
  pub sid : Text

pub record SipHookEvent : Type 0 where
  pub participant : SipHookParticipant
  pub room : SipHookRoom
  pub from_phone_number : Text
  pub to_phone_number : Text
  pub room_prefix : Text
  pub sip_host : Text
  pub sip_headers : Attributes

pub data SipForwardingError : Type 0 where
  no_participant : Text → SipForwardingError
  missing_sip_header missing_from_phone_number missing_to_phone_number : SipForwardingError
  malformed_sip_header : Text → SipForwardingError
  no_hook_configured : Text → SipForwardingError
  http_client_error : Text → SipForwardingError
  http_request_error : Text → Text → SipForwardingError
  hook_failed_response : Text → ℕ → Text → SipForwardingError
  missing_signing_secret : Text → SipForwardingError

unfoldable pub extract_sip_attributes : Attributes → Attributes
extract_sip_attributes [] = []
extract_sip_attributes ((k, v) ∷ attributes) =
    let rest = extract_sip_attributes attributes in
    if starts_with (codes "sip.") k then (k, v) ∷ rest else rest

-- The attributes that are headers, by the header's name.
unfoldable pub sip_headers : Attributes → Attributes
sip_headers [] = []
sip_headers ((k, v) ∷ attributes) =
    let rest = sip_headers attributes in
    elim (strip_prefix (codes "sip.h.") k) [
      | none ↦ rest
      | some header_name ↦ (header_name, v) ∷ rest
    ]

unfoldable pub get_sip_host_header : Attributes → Option Text
get_sip_host_header attributes =
    or_option (lookup (codes "sip.h.x-to-ip") attributes) (lookup (codes "sip.h.to") attributes)
