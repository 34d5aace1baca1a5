-- ===== src/Sip/Checks/Loops.antt =====
-- The loops over the hooks of a configuration (src/config/validation.rs, `validate_sip_config`).
use sayna.Prelude.{
  ◌≤◌, Bool, true, false, Option, some, List, [], ◌∷◌, map, or_option, is_empty, if◌then◌else◌,
  refl, subst, ◌≡◌, ◌↔◌, inl, inr, Bool-cases, Option-cases, arith,
}
use sayna.Prelude.Text.{Text, text_eq_iff, trim}
use sayna.Sip.{SipHookConfig}
use sayna.Sip.Hooks.{contains}
use sayna.Sip.Checks.{
  Check, pass, fail, ◌then_check◌, utf8_length, validate_hook_secret, validate_hook_auth_id,
  check_hosts, check_secrets,
}

pub then_check-pass : (a b : Check) → (a then_check b ≡ pass) ↔ ((a ≡ pass) × (b ≡ pass))
then_check-pass pass b = ((λ e. (refl, e)), λ (r, e). e)
then_check-pass (fail x) b = ground arith

-- A secret that is not blank and has 16 bytes or more.
abbrev pub IsStrong : Text → Type 0
IsStrong secret = (is_empty (trim secret) ≡ false) × (16 ≤ utf8_length secret)

pub validate_hook_secret-IsStrong :
    (secret who : Text) → (validate_hook_secret secret who ≡ pass) ↔ IsStrong secret
unfolding validate_hook_secret
validate_hook_secret-IsStrong secret who = ground arith

-- The hook signs with a strong secret, its own or the global one.
abbrev pub Signs : Option Text → SipHookConfig → Type 0
Signs hook_secret h =
    (secret : Text) × (or_option h.secret hook_secret ≡ some secret) × IsStrong secret

abbrev pub AllSign : Option Text → List SipHookConfig → Type 0
AllSign hook_secret [] = Unit {0}
AllSign hook_secret (h ∷ hooks) = Signs hook_secret h × AllSign hook_secret hooks

module _ (lower : Text → Text) where
  pub check_secrets-AllSign :
      (hook_secret : Option Text) (hooks : List SipHookConfig)
      → (check_secrets lower hook_secret hooks ≡ pass) ↔ AllSign hook_secret hooks
  unfolding check_secrets
  check_secrets-AllSign hook_secret [] = ((λ e. tt), λ u. refl)
  check_secrets-AllSign hook_secret (h ∷ hooks) =
      let (to, from) = check_secrets-AllSign hook_secret hooks in
      elim (Option-cases (or_option h.secret hook_secret)) [
        | inl e ↦
            rw (check_secrets, e)
              ((λ c. absurd (ground (arith, c))), λ ((s, q, w), a). absurd (ground (arith, q)))
        | inr (secret, e) ↦
            let (strong, weak) = validate_hook_secret-IsStrong secret h.host in
            let (both, one) =
              then_check-pass (validate_hook_secret secret h.host)
                (check_secrets lower hook_secret hooks) in
            rw (check_secrets, e)
              (
                (λ c. let (a, r) = both c in ((secret, refl, strong a), to r)),
                λ ((s, q, w), a).
                    let same : s ≡ secret = cc in one (weak (subst IsStrong same w), from a),
              )
      ]

  -- No host twice, compared in lower case.
  abbrev pub DistinctHosts : List SipHookConfig → Type 0
  DistinctHosts [] = Unit {0}
  DistinctHosts (h ∷ hooks) =
      (contains lower (lower h.host) (map (λ (x : SipHookConfig). lower x.host) hooks) ≡ false)
      × DistinctHosts hooks

  abbrev pub Outside : List Text → List SipHookConfig → Type 0
  Outside seen [] = Unit {0}
  Outside seen (h ∷ hooks) = (contains lower (lower h.host) seen ≡ false) × Outside seen hooks

  -- Where authentication is required, each hook has a tenant.
  abbrev pub AllNamed : Bool → List SipHookConfig → Type 0
  AllNamed auth_required [] = Unit {0}
  AllNamed auth_required (h ∷ hooks) =
      (auth_required ≡ true → is_empty (trim h.auth_id) ≡ false) × AllNamed auth_required hooks

  Outside-cons :
      (k : Text) (seen : List Text) (hooks : List SipHookConfig)
      → Outside (k ∷ seen) hooks ↔ (
          (contains lower k (map (λ (x : SipHookConfig). lower x.host) hooks) ≡ false)
          × Outside seen hooks)
  unfolding contains
  Outside-cons k seen [] = ((λ o. (refl, tt)), λ o. tt)
  Outside-cons k seen (h ∷ hooks) =
      let (to, from) = Outside-cons k seen hooks in
      (
        (λ (e, o).
            let (apart, rest) = to o in
            (
              ground (arith, e, apart, text_eq_iff k (lower h.host), text_eq_iff (lower h.host) k),
              (ground (arith, e), rest),
            )),
        λ (apart, (e, o)). (
          ground (arith, e, apart, text_eq_iff k (lower h.host), text_eq_iff (lower h.host) k),
          from (ground (arith, apart), o),
        ),
      )

  pub Outside-nil : (hooks : List SipHookConfig) → Outside [] hooks
  unfolding contains
  Outside-nil [] = tt
  Outside-nil (h ∷ hooks) = (refl, Outside-nil hooks)

  named_lem :
      (auth_required : Bool) (h : SipHookConfig)
      → ((if auth_required then validate_hook_auth_id h.auth_id h.host else pass) ≡ pass)
        ↔ (auth_required ≡ true → is_empty (trim h.auth_id) ≡ false)
  unfolding validate_hook_auth_id
  named_lem true h = ground arith
  named_lem false h = ground arith

  pub check_hosts-pass :
      (auth_required : Bool) (hooks : List SipHookConfig) (seen : List Text)
      → (check_hosts lower auth_required hooks seen ≡ pass)
        ↔ (Outside seen hooks × DistinctHosts hooks × AllNamed auth_required hooks)
  unfolding check_hosts
  check_hosts-pass auth_required [] seen = ((λ e. (tt, tt, tt)), λ u. refl)
  check_hosts-pass auth_required (h ∷ hooks) seen =
      let k : Text = lower h.host in
      let (to, from) = check_hosts-pass auth_required hooks (k ∷ seen) in
      let (apart, joint) = Outside-cons k seen hooks in
      let (named, checked) = named_lem auth_required h in
      let first : Check = if auth_required then validate_hook_auth_id h.auth_id h.host else pass in
      let (both, one) = then_check-pass first (check_hosts lower auth_required hooks (k ∷ seen)) in
      elim (Bool-cases (contains lower k seen)) [
        | inl e ↦
            rw (check_hosts, e)
              ((λ c. absurd (ground (arith, c))), λ ((n, o), d, a). absurd (ground (arith, n)))
        | inr e ↦
            rw (check_hosts, e)
              (
                (λ c.
                    let (a, r) = both c in
                    let (o, d, n) = to r in
                    let (x, y) = apart o in ((refl, y), (x, d), (named a, n))),
                λ ((n, o), (x, d), (a, rest)). one (checked a, from (joint (x, o), d, rest)),
              )
      ]
