-- ===== src/Webhook/Signature.antt =====
-- The signature of what goes to a SIP hook (src/handlers/livekit/webhook.rs,
-- `generate_webhook_signature`). HMAC-SHA256 is a parameter, which gives the signature of a text in
-- hexadecimal, or nothing where it does not take the secret.
use sayna.Prelude.{
  ℕ, ◌+◌, ◌==◌, false, ◌^◌, ◌<◌, Option, none, some, [], ◌∷◌, ◌++◌, refl, ◌≡◌, arith,
}
use sayna.Prelude.Text.{Text, codes}
use sayna.Prelude.Dict.{lookup, insert}
use sayna.Prelude.Split.{Lacks, split_unique}
use sayna.Prelude.Decimal.{show, show-Lacks, show_injective}
use sayna.Webhook.{Attributes}

abbrev pub signature_header : Text
signature_header = codes "X-Sayna-Signature"

abbrev pub timestamp_header : Text
timestamp_header = codes "X-Sayna-Timestamp"

abbrev pub event_id_header : Text
event_id_header = codes "X-Sayna-Event-Id"

abbrev pub version_header : Text
version_header = codes "X-Sayna-Signature-Version"

unfoldable pub canonical_string : ℕ → Text → Text → Text
canonical_string timestamp event_id payload =
    codes "v1:" ++ (show timestamp ++ (58 ∷ (event_id ++ (58 ∷ payload))))

unfoldable pub signing_headers : Text → ℕ → Text → Attributes
signing_headers signature_hex timestamp event_id = insert version_header (codes "v1") (
    insert event_id_header event_id (
      insert timestamp_header (show timestamp)
        (insert signature_header (codes "v1=" ++ signature_hex) [])))

module _ (hmac : Text → Option (Text → Text)) where
  unfoldable pub generate_webhook_signature : Text → ℕ → Text → Text → Option Attributes
  unfolding canonical_string signing_headers
  generate_webhook_signature secret timestamp event_id payload = elim (hmac secret) [
    | none ↦ none
    | some mac ↦
        some
          (signing_headers (mac (canonical_string timestamp event_id payload)) timestamp event_id)
  ]

  -- With a secret that the MAC takes, a signature is made. Its headers tell the version, the
  -- event and the time, and sign the version, the time, the event and the payload.
  pub generate_webhook_signature-headers :
      (secret event_id payload : Text) (timestamp : ℕ) (mac : Text → Text)
      → hmac secret ≡ some mac
      → (headers : Attributes) × (generate_webhook_signature secret timestamp event_id payload
          ≡ some headers)
        × (lookup signature_header headers
            ≡ some (codes "v1=" ++ mac (canonical_string timestamp event_id payload)))
        × (lookup timestamp_header headers ≡ some (show timestamp))
        × (lookup event_id_header headers ≡ some event_id)
        × (lookup version_header headers ≡ some (codes "v1"))
  unfolding generate_webhook_signature signing_headers lookup insert
  generate_webhook_signature-headers secret event_id payload timestamp mac e = (
    signing_headers (mac (canonical_string timestamp event_id payload)) timestamp event_id,
    rw (generate_webhook_signature, e) refl,
    refl,
    refl,
    refl,
    refl,
  )

no_colon : (n : ℕ) → n < 10 → ((48 + n) == 58) ≡ false
no_colon n h = ground (arith, h)

-- Times of 64 bits and events without a ":". What is signed for two messages is the same text only if
-- they have the same time, the same event and the same payload.
pub canonical_string_injective :
    (time time' : ℕ) (id id' payload payload' : Text)
    → time < 2 ^ 64
    → time' < 2 ^ 64
    → Lacks 58 id
    → Lacks 58 id'
    → canonical_string time id payload ≡ canonical_string time' id' payload'
    → (time ≡ time') × (id ≡ id') × (payload ≡ payload')
unfolding canonical_string
canonical_string_injective time time' id id' payload payload' h h' l l' e =
    let rest : show time ++ (58 ∷ (id ++ (58 ∷ payload)))
        ≡ show time' ++ (58 ∷ (id' ++ (58 ∷ payload'))) =
      ground (arith, e) in
    let (same_time, same) =
      split_unique 58 (show time) (show time') (id ++ (58 ∷ payload)) (id' ++ (58 ∷ payload'))
        (show-Lacks 58 time no_colon) (show-Lacks 58 time' no_colon) rest in
    let (same_id, same_payload) = split_unique 58 id id' payload payload' l l' same in
    (show_injective time time' h h' same_time, same_id, same_payload)
