-- ===== src/Webhook/Handler/Joined.antt =====
-- The endpoint's own test of an event against the checks of the forward that it starts
-- (src/handlers/livekit/webhook.rs).
use sayna.Prelude.{
  true, false, Option, none, some, List, [], ◌∷◌, is_empty, refl, ap, ◌≡◌, ◌∙◌, ◌⊎◌, inl, inr,
  Option-cases, Bool-cases, arith,
}
use sayna.Prelude.Text.{Text, text_eq, text_eq_iff}
use sayna.Prelude.Dict.{lookup}
use sayna.Sip.{SipHookConfig}
use sayna.Sip.Served.{SipHooksState, find_host, get_hook_for_domain, get_signing_secret}
use sayna.Webhook.{
  ParticipantInfo, RoomInfo, WebhookEvent, no_participant, missing_from_phone_number,
  missing_to_phone_number, missing_signing_secret, get_sip_host_header,
}
use sayna.Webhook.Domain.{value, parse_sip_domain}
use sayna.Webhook.Domain.Panics.{Outcome-cases}
use sayna.Webhook.Prepare.{
  Draft, Prepared, ready, refused, participant_joined, from_key, to_key, prepare_hook,
  prepare_domain, prepare_numbers, prepare,
}
use sayna.Webhook.Prepare.Ready.{prepare-ready_iff}
use sayna.Webhook.Handler.{received, has_hook, host_header, should_forward, handle_event}

-- A domain that has a hook is asked of hooks that are some.
hook-some_hooks :
    (hooks : List SipHookConfig) (domain : Text) (hook : SipHookConfig)
    → find_host domain hooks ≡ some hook
    → is_empty hooks ≡ false
unfolding find_host
hook-some_hooks [] domain hook e = absurd (ground (arith, e))
hook-some_hooks (h ∷ hooks) domain hook e = refl

module _ (lower : Text → Text) where
  has_hook-true :
      (state : SipHooksState) (o : Option Text)
      → has_hook lower state o ≡ value true
      → (text : Text) × (domain : Text) × (hook : SipHookConfig) × (o ≡ some text)
        × (parse_sip_domain lower text ≡ value (some domain))
        × (get_hook_for_domain state domain ≡ some hook)
  unfolding has_hook
  has_hook-true state none e = absurd (ground (arith, e))
  has_hook-true state (some text) e = elim (Outcome-cases (parse_sip_domain lower text)) [
    | inl p ↦ absurd (ground (arith, rw (has_hook, p) at e))
    | inr (o, p) ↦ elim (Option-cases o) [
      | inl n ↦ absurd (ground (arith, rw (has_hook, p, n) at e))
      | inr (domain, n) ↦ elim (Option-cases (get_hook_for_domain state domain)) [
        | inl h ↦ absurd (ground (arith, rw (has_hook, p, n, h) at e))
        | inr (hook, h) ↦ (text, domain, hook, refl, p ∙ ap value n, h)
      ]
    ]
  ]

  host_header-some :
      (o : Option ParticipantInfo) (text : Text)
      → host_header lower o ≡ some text
      → (participant : ParticipantInfo) × (o ≡ some participant)
        × (get_sip_host_header participant.attributes ≡ some text)
  host_header-some none text e = absurd (ground (arith, e))
  host_header-some (some participant) text e = (participant, refl, e)

  handle_event-some :
      (state : SipHooksState) (event : WebhookEvent)
      → handle_event lower (some state) event ≡ received (some event)
      → (event.event ≡ participant_joined)
        × (has_hook lower state (host_header lower event.participant) ≡ value true)
  unfolding handle_event should_forward
  handle_event-some state event e = elim (Bool-cases (text_eq event.event participant_joined)) [
    | inr n ↦ absurd (ground (arith, rw (handle_event, n) at e))
    | inl y ↦
        let joined = (text_eq_iff event.event participant_joined).0 y in
        elim (Bool-cases (is_empty state.hooks)) [
          | inl n ↦ absurd (ground (arith, rw (handle_event, y, should_forward, n) at e))
          | inr full ↦
              elim (Outcome-cases (has_hook lower state (host_header lower event.participant))) [
                | inl n ↦
                    absurd (ground (arith, rw (handle_event, y, should_forward, full, n) at e))
                | inr (true, h) ↦ (joined, h)
                | inr (false, h) ↦
                    absurd (ground (arith, rw (handle_event, y, should_forward, full, h) at e))
              ]
        ]
  ]

  -- An event that would pass the checks of the forward, with the hooks as they are, is forwarded.
  pub prepare-handle_event :
      (state : SipHooksState) (event : WebhookEvent) (d : Draft)
      → prepare lower state event ≡ ready d
      → handle_event lower (some state) event ≡ received (some event)
  unfolding handle_event should_forward has_hook get_hook_for_domain
  prepare-handle_event state event d e =
      let (joined, p, r, (header, h, parsed), f, t, (hook, secret, prefix)) =
        (prepare-ready_iff lower state event d).0 e in
      rw
        (
          handle_event,
          (text_eq_iff event.event participant_joined).1 joined,
          should_forward,
          hook-some_hooks state.hooks d.domain d.hook hook,
          p,
          h,
          has_hook,
          parsed,
          get_hook_for_domain,
          hook,
        )
        refl

  -- What is left to fail once the hook of the header is known.
  abbrev pub IsLate : Prepared → Type 0
  IsLate prepared =
      ((d : Draft) × (prepared ≡ ready d))
      ⊎ ((prepared ≡ refused missing_from_phone_number)
          ⊎ ((prepared ≡ refused missing_to_phone_number)
              ⊎ ((domain : Text) × (prepared ≡ refused (missing_signing_secret domain)))))

  prepare_hook-IsLate :
      (state : SipHooksState) (participant : ParticipantInfo) (room : RoomInfo)
      (from to domain : Text) (hook : SipHookConfig)
      → get_hook_for_domain state domain ≡ some hook
      → IsLate (prepare_hook state participant room from to domain)
  unfolding prepare_hook
  prepare_hook-IsLate state participant room from to domain hook has =
      elim (Option-cases (get_signing_secret state hook)) [
        | inl n ↦ rw (prepare_hook, has, n) (inr (inr (inr (domain, refl))))
        | inr (secret, s) ↦ rw (prepare_hook, has, s) (inl (_, refl))
      ]

  prepare_numbers-IsLate :
      (state : SipHooksState) (participant : ParticipantInfo) (room : RoomInfo) (text domain : Text)
      (hook : SipHookConfig)
      → get_sip_host_header participant.attributes ≡ some text
      → parse_sip_domain lower text ≡ value (some domain)
      → get_hook_for_domain state domain ≡ some hook
      → IsLate (prepare_numbers lower state participant room)
  unfolding prepare_numbers prepare_domain
  prepare_numbers-IsLate state participant room text domain hook h parsed has =
      elim (Option-cases (lookup from_key participant.attributes)) [
        | inl n ↦ rw (prepare_numbers, h, n) (inr (inl refl))
        | inr (from, f) ↦ elim (Option-cases (lookup to_key participant.attributes)) [
          | inl n ↦ rw (prepare_numbers, h, f, n) (inr (inr (inl refl)))
          | inr (to, t) ↦
              rw (prepare_numbers, h, f, t, prepare_domain, parsed)
                (prepare_hook-IsLate state participant room from to domain hook has)
        ]
      ]

  -- An event whose forward was started is refused by the checks, with the hooks as they are, only
  -- where it has no room, one of the two numbers is missing, or the hook has no secret.
  pub handle_event-prepare :
      (state : SipHooksState) (event : WebhookEvent)
      → handle_event lower (some state) event ≡ received (some event)
      → IsLate (prepare lower state event)
        ⊎ ((event.room ≡ none) × (prepare lower state event ≡ refused (no_participant event.event)))
  unfolding prepare
  handle_event-prepare state event e =
      let (joined, hooked) = handle_event-some state event e in
      let (text, domain, hook, has_text, parsed, has) =
        has_hook-true state (host_header lower event.participant) hooked in
      let (participant, p, h) = host_header-some event.participant text has_text in
      let y : text_eq event.event participant_joined ≡ true =
        (text_eq_iff event.event participant_joined).1 joined in
      elim (Option-cases event.room) [
        | inl n ↦ inr (n, rw (prepare, y, p, n) refl)
        | inr (room, r) ↦ inl (
            rw (prepare, y, p, r)
              (prepare_numbers-IsLate state participant room text domain hook h parsed has))
      ]
