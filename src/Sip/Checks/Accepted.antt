-- ===== src/Sip/Checks/Accepted.antt =====
-- What an accepted configuration of SIP has (src/config/validation.rs, `validate_sip_config`).
use sayna.Prelude.{
  ℕ, Bool, true, false, Option, none, some, List, [], ◌∷◌, is_empty, if◌then◌else◌, refl, ◌≡◌, ◌↔◌,
  inl, inr, Bool-cases, arith,
}
use sayna.Prelude.Text.{Text, codes, trim}
use sayna.Sip.{SipHookConfig, SipConfig}
use sayna.Sip.Checks.{
  Check, pass, fail, no_allowed_addresses, ◌then_check◌, validate_hook_secret,
  validate_outbound_address, validate_outbound_auth, check_hosts, check_secrets, is_safe,
  check_addresses, check_prefix, check_all_secrets, check_outbound, validate_sip_config,
}
use sayna.Sip.Checks.Loops.{
  then_check-pass, IsStrong, validate_hook_secret-IsStrong, AllSign, check_secrets-AllSign,
  DistinctHosts, Outside-nil, AllNamed, check_hosts-pass,
}

-- Where there are hooks, a global secret is strong too.
abbrev pub GlobalIsStrong : List SipHookConfig → Option Text → Type 0
GlobalIsStrong [] hook_secret = Unit {0}
GlobalIsStrong (h ∷ hooks) none = Unit {0}
GlobalIsStrong (h ∷ hooks) (some secret) = IsStrong secret

abbrev pub AddressIsGiven : Option Text → Type 0
AddressIsGiven none = Unit {0}
AddressIsGiven (some address) = is_empty (trim address) ≡ false

abbrev pub LoginIsWhole : Option Text → Option Text → Type 0
LoginIsWhole none none = Unit {0}
LoginIsWhole (some user) (some word) =
    (is_empty (trim user) ≡ false) × (is_empty (trim word) ≡ false)
LoginIsWhole none (some word) = ⊥
LoginIsWhole (some user) none = ⊥

module _ (lower : Text → Text) (is_alphanumeric : ℕ → Bool) (looks_like_address : Text → Bool) where
  abbrev pub AllLookRight : List Text → Type 0
  AllLookRight [] = Unit {0}
  AllLookRight (a ∷ addresses) = (looks_like_address a ≡ true) × AllLookRight addresses

  check_addresses-AllLookRight :
      (addresses : List Text)
      → (check_addresses lower is_alphanumeric looks_like_address addresses ≡ pass)
        ↔ AllLookRight addresses
  unfolding check_addresses
  check_addresses-AllLookRight [] = ((λ e. tt), λ u. refl)
  check_addresses-AllLookRight (a ∷ addresses) =
      let (to, from) = check_addresses-AllLookRight addresses in
      elim (Bool-cases (looks_like_address a)) [
        | inl e ↦ rw (check_addresses, e) ((λ c. (refl, to c)), λ (y, r). from r)
        | inr e ↦
            rw (check_addresses, e)
              ((λ c. absurd (ground (arith, c))), λ (y, r). absurd (ground (arith, y)))
      ]

  check_prefix-pass :
      (room_prefix : Text)
      → (check_prefix lower is_alphanumeric looks_like_address room_prefix ≡ pass) ↔ (
          (is_empty room_prefix ≡ false)
          × (is_safe lower is_alphanumeric looks_like_address room_prefix ≡ true))
  unfolding check_prefix
  check_prefix-pass room_prefix = ground arith

  check_all_secrets-pass :
      (config : SipConfig) (hooks : List SipHookConfig) (hook_secret : Option Text)
      → config.hooks ≡ hooks
      → config.hook_secret ≡ hook_secret
      → (check_all_secrets lower is_alphanumeric looks_like_address config ≡ pass)
        ↔ (AllSign hook_secret hooks × GlobalIsStrong hooks hook_secret)
  unfolding check_all_secrets check_secrets
  check_all_secrets-pass config [] hook_secret e f =
      rw (check_all_secrets, e) ((λ c. (tt, tt)), λ u. refl)
  check_all_secrets-pass config (h ∷ hooks) none e f =
      let (to, from) = check_secrets-AllSign lower none (h ∷ hooks) in
      let (both, one) = then_check-pass (check_secrets lower none (h ∷ hooks)) pass in
      rw (check_all_secrets, e, f) ((λ c. (to (both c).0, tt)), λ (a, u). one (from a, refl))
  check_all_secrets-pass config (h ∷ hooks) (some secret) e f =
      let (to, from) = check_secrets-AllSign lower (some secret) (h ∷ hooks) in
      let (strong, weak) = validate_hook_secret-IsStrong secret (codes "global") in
      let (both, one) =
        then_check-pass (check_secrets lower (some secret) (h ∷ hooks))
          (validate_hook_secret secret (codes "global")) in
      rw (check_all_secrets, e, f)
        ((λ c. let (a, b) = both c in (to a, strong b)), λ (a, b). one (from a, weak b))

  check_outbound-pass :
      (config : SipConfig)
      → (check_outbound lower is_alphanumeric looks_like_address config ≡ pass) ↔ (
          AddressIsGiven config.outbound_address
          × LoginIsWhole config.outbound_auth_username config.outbound_auth_password)
  unfolding check_outbound validate_outbound_address validate_outbound_auth
  check_outbound-pass config = ground arith

  -- The checks of a configuration pass exactly when the prefix of rooms is not empty and all its
  -- characters are safe; there is an address and each looks like one; no host has two hooks; each
  -- hook has a tenant, where authentication is required; each hook signs with a secret that is not
  -- blank and has 16 bytes or more, and so is the global secret where there are hooks; an outbound
  -- address is not blank; and the outbound user and password are both there, not blank, or neither.
  pub validate_sip_config_iff :
      (config : SipConfig) (auth_required : Bool)
      → (validate_sip_config lower is_alphanumeric looks_like_address (some config) auth_required
          ≡ pass)
        ↔ (((is_empty config.room_prefix ≡ false)
              × (is_safe lower is_alphanumeric looks_like_address config.room_prefix ≡ true))
            × (is_empty config.allowed_addresses ≡ false)
            × AllLookRight config.allowed_addresses
            × (DistinctHosts lower config.hooks × AllNamed lower auth_required config.hooks)
            × (AllSign config.hook_secret config.hooks
                × GlobalIsStrong config.hooks config.hook_secret)
            × (AddressIsGiven config.outbound_address
                × LoginIsWhole config.outbound_auth_username config.outbound_auth_password))
  unfolding validate_sip_config
  validate_sip_config_iff config auth_required =
      let e₆ : Check = check_outbound lower is_alphanumeric looks_like_address config in
      let e₅ : Check = check_all_secrets lower is_alphanumeric looks_like_address config in
      let e₄ : Check = check_hosts lower auth_required config.hooks [] in
      let e₃ : Check =
        check_addresses lower is_alphanumeric looks_like_address config.allowed_addresses in
      let e₂ : Check =
        if is_empty config.allowed_addresses then fail no_allowed_addresses else pass in
      let e₁ : Check = check_prefix lower is_alphanumeric looks_like_address config.room_prefix in
      let (p₁, q₁) =
        then_check-pass e₁ (e₂ then_check (e₃ then_check (e₄ then_check (e₅ then_check e₆)))) in
      let (p₂, q₂) = then_check-pass e₂ (e₃ then_check (e₄ then_check (e₅ then_check e₆))) in
      let (p₃, q₃) = then_check-pass e₃ (e₄ then_check (e₅ then_check e₆)) in
      let (p₄, q₄) = then_check-pass e₄ (e₅ then_check e₆) in
      let (p₅, q₅) = then_check-pass e₅ e₆ in
      let (prefix, prefix') = check_prefix-pass config.room_prefix in
      let (right, right') = check_addresses-AllLookRight config.allowed_addresses in
      let (hosts, hosts') = check_hosts-pass lower auth_required config.hooks [] in
      let (secrets, secrets') =
        check_all_secrets-pass config config.hooks config.hook_secret refl refl in
      let (out, out') = check_outbound-pass config in
      (
        (λ c.
            let (a, c₂) = p₁ c in
            let (b, c₃) = p₂ c₂ in
            let (d, c₄) = p₃ c₃ in
            let (e, c₅) = p₄ c₄ in
            let (f, g) = p₅ c₅ in
            let (o, distinct, named) = hosts e in
            (prefix a, ground (arith, b), right d, (distinct, named), secrets f, out g)),
        λ (a, b, d, e, f, g). q₁ (
          prefix' a,
          q₂ (
            rw b refl,
            q₃ (
              right' d,
              q₄ (hosts' (Outside-nil lower config.hooks, e.0, e.1), q₅ (secrets' f, out' g)),
            ),
          ),
        ),
      )
