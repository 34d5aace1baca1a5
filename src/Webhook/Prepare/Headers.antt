-- ===== src/Webhook/Prepare/Headers.antt =====
-- The headers of an event for a SIP hook (src/handlers/livekit/webhook.rs, `forward_to_sip_hook`).
use sayna.Prelude.{
  none, some, [], ◌∷◌, ◌++◌, refl, ap, ◌≡◌, inl, inr, Option-cases, arith, false, if◌then◌else◌,
}
use sayna.Prelude.Text.{Text, codes, text_eq}
use sayna.Prelude.Dict.{lookup}
use sayna.Access.Middleware.{strip_prefix}
use sayna.Webhook.{Attributes, sip_headers}

strip_prefix-text_eq : (p k n : Text) → (strip_prefix p k ≡ none) → text_eq k (p ++ n) ≡ false
strip_prefix-text_eq [] k n e = absurd (ground (arith, e))
strip_prefix-text_eq (c ∷ p) [] n e = refl
strip_prefix-text_eq (c ∷ p) (d ∷ k) n e = ground (arith, e, strip_prefix-text_eq p k n)

strip_prefix-rest :
    (p k rest n : Text) → strip_prefix p k ≡ some rest → text_eq k (p ++ n) ≡ text_eq rest n
strip_prefix-rest [] k rest n e = ground (arith, e)
strip_prefix-rest (c ∷ p) [] rest n e = absurd (ground (arith, e))
strip_prefix-rest (c ∷ p) (d ∷ k) rest n e = ground (arith, e, strip_prefix-rest p k rest n)

-- A name is looked up in the SIP headers as the attribute that has it after "sip.h.".
pub sip_headers-lookup :
    (attributes : Attributes) (name : Text)
    → lookup name (sip_headers attributes) ≡ lookup (codes "sip.h." ++ name) attributes
unfolding sip_headers lookup
sip_headers-lookup [] name = refl
sip_headers-lookup ((k, v) ∷ attributes) name =
    elim (Option-cases (strip_prefix (codes "sip.h.") k)) [
      | inl e ↦
          rw (sip_headers, e)
            (rw (strip_prefix-text_eq (codes "sip.h.") k name e)
              (sip_headers-lookup attributes name))
      | inr (rest, e) ↦
          rw (sip_headers, e)
            (rw (strip_prefix-rest (codes "sip.h.") k rest name e) (
              ap (λ o. if text_eq rest name then some v else o)
                (sip_headers-lookup attributes name)))
    ]
