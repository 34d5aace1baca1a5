-- ===== src/Webhook/Handler.antt =====
-- The endpoint that LiveKit calls (src/handlers/livekit/webhook.rs, `handle_livekit_webhook`). The
-- verification of LiveKit's library is a parameter. What the endpoint starts in the background is part
-- of its reply.
pub mod Verified
pub mod Joined
use sayna.Prelude.{
  ℕ, Bool, true, false, not, ◌&&◌, Option, none, some, List, [], ◌∷◌, is_empty, is_some,
  if◌then◌else◌,
}
use sayna.Prelude.Text.{Text, codes, text_eq, trim}
use sayna.Access.Middleware.{Header, missing, not_a_text, header, strip_prefix}
use sayna.Sip.Served.{SipHooksState, get_hook_for_domain}
use sayna.Webhook.{Attributes, ParticipantInfo, WebhookEvent, get_sip_host_header}
use sayna.Webhook.Domain.{Outcome, panics, value, parse_sip_domain}
use sayna.Webhook.Prepare.{participant_joined}

pub data WebhookError : Type 0 where
  invalid_auth invalid_signature invalid_data invalid_base64 : WebhookError

pub data Verification : Type 0 where
  verified : WebhookEvent → Verification
  rejected : WebhookError → Verification

-- Received, with the event to forward if there is one; a status; or no answer, after a panic.
pub data Reply : Type 0 where
  received : Option WebhookEvent → Reply
  status : ℕ → Reply
  crashed : Reply

pub record Settings : Type 0 where
  pub livekit_api_key : Option Text
  pub livekit_api_secret : Option Text
  pub sip_hooks_state : Option SipHooksState

unfoldable pub webhook_error_to_status : WebhookError → ℕ
webhook_error_to_status invalid_auth = 401
webhook_error_to_status invalid_signature = 401
webhook_error_to_status invalid_data = 400
webhook_error_to_status invalid_base64 = 401

abbrev without_bearer : Text → Option Text → Text
without_bearer token none = token
without_bearer token (some rest) = rest

-- The token of a request, if it has one that is not empty.
unfoldable pub webhook_token : Header → Option Text
webhook_token missing = none
webhook_token not_a_text = none
webhook_token (header text) =
    let token = without_bearer (trim text) (strip_prefix (codes "Bearer ") (trim text)) in
    if is_empty token then none else some token

module _ (lower : Text → Text) where
  -- The hook of a header.
  unfoldable pub has_hook : SipHooksState → Option Text → Outcome Bool
  has_hook state none = value false
  has_hook state (some text) = elim (parse_sip_domain lower text) [
    | panics ↦ panics
    | value none ↦ value false
    | value (some domain) ↦ value (is_some (get_hook_for_domain state domain))
  ]

  abbrev pub host_header : Option ParticipantInfo → Option Text
  host_header none = none
  host_header (some p) = get_sip_host_header p.attributes

  unfoldable pub should_forward : SipHooksState → WebhookEvent → Outcome Bool
  unfolding has_hook
  should_forward state event =
      let looked_up = has_hook state (host_header event.participant) in
      if is_empty state.hooks then value false else looked_up

  abbrev pub forwarding : WebhookEvent → Outcome Bool → Reply
  forwarding event panics = crashed
  forwarding event (value true) = received (some event)
  forwarding event (value false) = received none

  unfoldable pub handle_event : Option SipHooksState → WebhookEvent → Reply
  unfolding should_forward
  handle_event none event = received none
  handle_event (some state) event =
      if text_eq event.event participant_joined
      then forwarding event (should_forward state event)
      else received none

  unfoldable pub handle_verification : Option SipHooksState → Verification → Reply
  unfolding handle_event webhook_error_to_status
  handle_verification state (rejected e) = status (webhook_error_to_status e)
  handle_verification state (verified event) = handle_event state event

  -- `receive` verifies a body and its token with the key and the secret.
  unfoldable pub handle_livekit_webhook :
      (Text → Text → Text → Text → Verification) → Settings → Header → Option Text → Reply
  unfolding webhook_token handle_verification
  handle_livekit_webhook receive settings auth body = elim settings.livekit_api_key [
    | none ↦ status 503
    | some key ↦ elim settings.livekit_api_secret [
      | none ↦ status 503
      | some secret ↦ elim (webhook_token auth) [
        | none ↦ status 401
        | some token ↦ elim body [
          | none ↦ status 400
          | some text ↦ handle_verification settings.sip_hooks_state (receive key secret text token)
        ]
      ]
    ]
  ]
