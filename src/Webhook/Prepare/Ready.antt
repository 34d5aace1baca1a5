-- ===== src/Webhook/Prepare/Ready.antt =====
-- Which events pass the checks before a SIP hook is called (src/handlers/livekit/webhook.rs).
use sayna.Prelude.{some, refl, sym, ap, ◌≡◌, ◌∙◌, ◌↔◌, inl, inr, Option-cases, Bool-cases, arith}
use sayna.Prelude.Text.{Text, text_eq, text_eq_iff}
use sayna.Prelude.Dict.{lookup}
use sayna.Sip.Served.{SipHooksState, get_hook_for_domain, get_signing_secret}
use sayna.Webhook.{ParticipantInfo, RoomInfo, WebhookEvent, get_sip_host_header}
use sayna.Webhook.Domain.{value, parse_sip_domain}
use sayna.Webhook.Domain.Panics.{Outcome-cases}
use sayna.Webhook.Prepare.{
  Draft, ready, participant_joined, from_key, to_key, prepare_hook, prepare_domain, prepare_numbers,
  prepare,
}

-- The hook and the secret of the domain.
abbrev pub IsHooked : SipHooksState → Draft → Type 0
IsHooked state d =
    (get_hook_for_domain state d.domain ≡ some d.hook)
    × (get_signing_secret state d.hook ≡ some d.signing_secret)
    × (d.room_prefix ≡ state.room_prefix)

prepare_hook-ready :
    (state : SipHooksState) (participant : ParticipantInfo) (room : RoomInfo)
    (from to domain : Text) (d : Draft)
    → prepare_hook state participant room from to domain ≡ ready d
    → (d.participant ≡ participant)
      × (d.room ≡ room)
      × (d.from_phone_number ≡ from)
      × (d.to_phone_number ≡ to)
      × (d.domain ≡ domain)
      × IsHooked state d
unfolding prepare_hook
prepare_hook-ready state participant room from to domain d e =
    elim (Option-cases (get_hook_for_domain state domain)) [
      | inl n ↦ absurd (ground (arith, rw (prepare_hook, n) at e))
      | inr (hook, has) ↦ elim (Option-cases (get_signing_secret state hook)) [
        | inl n ↦ absurd (ground (arith, rw (prepare_hook, has, n) at e))
        | inr (secret, has_secret) ↦
            let same : record {
              participant = participant;
              room = room;
              from_phone_number = from;
              to_phone_number = to;
              domain = domain;
              hook = hook;
              signing_secret = secret;
              room_prefix = state.room_prefix;
            }
                ≡ d =
              ground (arith, rw (prepare_hook, has, has_secret) at e) in
            rw (sym same) (refl, refl, refl, refl, refl, (has, has_secret, refl))
      ]
    ]

module _ (lower : Text → Text) where
  -- What the checks ask of an event, for the draft that they make of it.
  abbrev pub IsReady : SipHooksState → WebhookEvent → Draft → Type 0
  IsReady state event d =
      (event.event ≡ participant_joined)
      × (event.participant ≡ some d.participant)
      × (event.room ≡ some d.room)
      × ((header : Text) × (get_sip_host_header d.participant.attributes ≡ some header)
          × (parse_sip_domain lower header ≡ value (some d.domain)))
      × (lookup from_key d.participant.attributes ≡ some d.from_phone_number)
      × (lookup to_key d.participant.attributes ≡ some d.to_phone_number)
      × IsHooked state d

  prepare_domain-ready :
      (state : SipHooksState) (participant : ParticipantInfo) (room : RoomInfo)
      (from to header : Text) (d : Draft)
      → prepare_domain lower state participant room from to header ≡ ready d
      → (domain : Text) × (parse_sip_domain lower header ≡ value (some domain))
        × (prepare_hook state participant room from to domain ≡ ready d)
  unfolding prepare_domain
  prepare_domain-ready state participant room from to header d e =
      elim (Outcome-cases (parse_sip_domain lower header)) [
        | inl p ↦ absurd (ground (arith, rw (prepare_domain, p) at e))
        | inr (o, p) ↦ elim (Option-cases o) [
          | inl n ↦ absurd (ground (arith, rw (prepare_domain, p, n) at e))
          | inr (domain, n) ↦ (domain, p ∙ ap value n, rw (prepare_domain, p, n) at e)
        ]
      ]

  prepare_numbers-ready :
      (state : SipHooksState) (participant : ParticipantInfo) (room : RoomInfo) (d : Draft)
      → prepare_numbers lower state participant room ≡ ready d
      → (from : Text) × (to : Text) × (header : Text) × (get_sip_host_header participant.attributes
          ≡ some header)
        × (lookup from_key participant.attributes ≡ some from)
        × (lookup to_key participant.attributes ≡ some to)
        × (prepare_domain lower state participant room from to header ≡ ready d)
  unfolding prepare_numbers
  prepare_numbers-ready state participant room d e =
      elim (Option-cases (get_sip_host_header participant.attributes)) [
        | inl n ↦ absurd (ground (arith, rw (prepare_numbers, n) at e))
        | inr (header, h) ↦ elim (Option-cases (lookup from_key participant.attributes)) [
          | inl n ↦ absurd (ground (arith, rw (prepare_numbers, h, n) at e))
          | inr (from, f) ↦ elim (Option-cases (lookup to_key participant.attributes)) [
            | inl n ↦ absurd (ground (arith, rw (prepare_numbers, h, f, n) at e))
            | inr (to, t) ↦ (from, to, header, h, f, t, rw (prepare_numbers, h, f, t) at e)
          ]
        ]
      ]

  prepare-ready :
      (state : SipHooksState) (event : WebhookEvent) (d : Draft)
      → prepare lower state event ≡ ready d
      → (participant : ParticipantInfo) × (room : RoomInfo) × (event.event ≡ participant_joined)
        × (event.participant ≡ some participant)
        × (event.room ≡ some room)
        × (prepare_numbers lower state participant room ≡ ready d)
  unfolding prepare
  prepare-ready state event d e = elim (Bool-cases (text_eq event.event participant_joined)) [
    | inr n ↦ absurd (ground (arith, rw (prepare, n) at e))
    | inl y ↦ elim (Option-cases event.participant) [
      | inl n ↦ absurd (ground (arith, rw (prepare, y, n) at e))
      | inr (participant, p) ↦ elim (Option-cases event.room) [
        | inl n ↦ absurd (ground (arith, rw (prepare, y, p, n) at e))
        | inr (room, r) ↦ (
          participant,
          room,
          (text_eq_iff event.event participant_joined).0 y,
          p,
          r,
          rw (prepare, y, p, r) at e,
        )
      ]
    ]
  ]

  ready-IsReady :
      (state : SipHooksState) (event : WebhookEvent) (d : Draft)
      → prepare lower state event ≡ ready d
      → IsReady state event d
  ready-IsReady state event d e =
      let (participant, room, joined, p, r, numbers) = prepare-ready state event d e in
      let (from, to, header, h, f, t, in_domain) =
        prepare_numbers-ready state participant room d numbers in
      let (domain, parsed, hooked) =
        prepare_domain-ready state participant room from to header d in_domain in
      let (same_p, same_r, same_f, same_t, same_d, hook) =
        prepare_hook-ready state participant room from to domain d hooked in
      rw (same_p, same_r, same_f, same_t, same_d)
        (joined, p, r, (header, h, parsed), f, t, rw same_d at hook)

  IsReady-ready :
      (state : SipHooksState) (event : WebhookEvent) (d : Draft)
      → IsReady state event d
      → prepare lower state event ≡ ready d
  unfolding prepare prepare_numbers prepare_domain prepare_hook
  IsReady-ready state event d (joined, p, r, (header, h, parsed), f, t, (hook, secret, prefix)) =
      rw
        (
          prepare,
          (text_eq_iff event.event participant_joined).1 joined,
          p,
          r,
          prepare_numbers,
          h,
          f,
          t,
          prepare_domain,
          parsed,
          prepare_hook,
          hook,
          secret,
          sym prefix,
        )
        refl

  -- An event passes the checks, and `d` is what they make of it, exactly if: it is of a participant who
  -- joined, and has the participant and the room of `d`; the participant has a host header that names
  -- the domain of `d`, and the two numbers; the domain has a hook, and the hook a secret.
  pub prepare-ready_iff :
      (state : SipHooksState) (event : WebhookEvent) (d : Draft)
      → (prepare lower state event ≡ ready d) ↔ IsReady state event d
  prepare-ready_iff state event d = (ready-IsReady state event d, IsReady-ready state event d)
