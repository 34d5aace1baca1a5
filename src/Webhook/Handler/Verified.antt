-- ===== src/Webhook/Handler/Verified.antt =====
-- Which events the endpoint takes up (src/handlers/livekit/webhook.rs).
use sayna.Prelude.{Option, none, some, refl, ◌≡◌, ◌⊎◌, inl, inr, Option-cases}
use sayna.Prelude.Text.{Text}
use sayna.Access.Middleware.{Header}
use sayna.Webhook.{WebhookEvent}
use sayna.Webhook.Handler.{
  Verification, verified, rejected, WebhookError, invalid_auth, invalid_signature, invalid_data,
  invalid_base64, status, Settings, webhook_token, handle_event, handle_verification,
  handle_livekit_webhook, webhook_error_to_status,
}

module _ (lower : Text → Text) (receive : Text → Text → Text → Text → Verification) where
  -- The event is what the verification of the body gives, with the key and the secret of the
  -- configuration and the token of the request.
  abbrev pub IsVerified : Settings → Header → Option Text → WebhookEvent → Type 0
  IsVerified settings auth body event =
      (key : Text) × (secret : Text) × (token : Text) × (text : Text) × (settings.livekit_api_key
        ≡ some key)
      × (settings.livekit_api_secret ≡ some secret)
      × (webhook_token auth ≡ some token)
      × (body ≡ some text)
      × (receive key secret text token ≡ verified event)

  rejected_status :
      (e : WebhookError) → (webhook_error_to_status e ≡ 401) ⊎ (webhook_error_to_status e ≡ 400)
  unfolding webhook_error_to_status
  rejected_status invalid_auth = inl refl
  rejected_status invalid_signature = inl refl
  rejected_status invalid_data = inr refl
  rejected_status invalid_base64 = inl refl

  Verification-cases :
      (v : Verification)
      → ((event : WebhookEvent) × (v ≡ verified event)) ⊎ ((e : WebhookError) × (v ≡ rejected e))
  Verification-cases (verified event) = inl (event, refl)
  Verification-cases (rejected e) = inr (e, refl)

  -- Each request is one of these. It is refused with 503, which asks for another try, without a key or
  -- a secret in the configuration, or with 401 or 400; or its body was verified with the key, the
  -- secret and the token of the request, and the event of the body is the one that is handled.
  pub handle_livekit_webhook-IsVerified :
      (settings : Settings) (auth : Header) (body : Option Text)
      → let reply = handle_livekit_webhook lower receive settings auth body in
        ((reply ≡ status 503)
          × ((settings.livekit_api_key ≡ none) ⊎ (settings.livekit_api_secret ≡ none)))
        ⊎ (((reply ≡ status 401) ⊎ (reply ≡ status 400))
            ⊎ ((event : WebhookEvent) × IsVerified settings auth body event
                × (reply ≡ handle_event lower settings.sip_hooks_state event)))
  unfolding handle_livekit_webhook handle_verification
  handle_livekit_webhook-IsVerified settings auth body =
      elim (Option-cases settings.livekit_api_key) [
        | inl e ↦ rw (handle_livekit_webhook, e) (inl (refl, inl refl))
        | inr (key, has_key) ↦ elim (Option-cases settings.livekit_api_secret) [
          | inl e ↦ rw (handle_livekit_webhook, has_key, e) (inl (refl, inr refl))
          | inr (secret, has_secret) ↦ elim (Option-cases (webhook_token auth)) [
            | inl e ↦ rw (handle_livekit_webhook, has_key, has_secret, e) (inr (inl (inl refl)))
            | inr (token, has_token) ↦ elim (Option-cases body) [
              | inl e ↦
                  rw (handle_livekit_webhook, has_key, has_secret, has_token, e)
                    (inr (inl (inr refl)))
              | inr (text, has_text) ↦ elim (Verification-cases (receive key secret text token)) [
                | inr (x, e) ↦
                    rw (handle_livekit_webhook, has_key, has_secret, has_token, has_text, e)
                      (inr (
                        inl (elim (rejected_status x) [
                          | inl n ↦ inl (rw n refl)
                          | inr n ↦ inr (rw n refl)
                        ])))
                | inl (event, e) ↦
                    rw (handle_livekit_webhook, has_key, has_secret, has_token, has_text, e)
                      (inr
                        (inr (event, (key, secret, token, text, refl, refl, refl, refl, e), refl)))
              ]
            ]
          ]
        ]
      ]
