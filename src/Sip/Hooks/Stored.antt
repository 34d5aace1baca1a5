-- ===== src/Sip/Hooks/Stored.antt =====
-- What the cache file of hooks gives back (src/utils/sip_hooks.rs, `write_hooks_cache` and
-- `read_hooks_cache`).
use sayna.Prelude.{false, List, [], ◌∷◌, map, refl, ap, ◌≡◌, ◌⊎◌, inl, inr, Bool-cases, arith}
use sayna.Prelude.Text.{Text, text_eq_iff, trim}
use sayna.Prelude.Trim.{trim-trim}
use sayna.Sip.{CachedSipHook}
use sayna.Sip.Hooks.{
  ok, err, validation, CacheFile, new, normalize, contains, check_hosts,
  validate_no_duplicate_hosts, read_hooks_cache, write_hooks_cache,
}

module _ (lower : Text → Text) (lower_lower : (t : Text) → lower (lower t) ≡ lower t)
    (trim_lower : (t : Text) → trim (lower (trim t)) ≡ lower (trim t)) where
  abbrev pub renewed : List CachedSipHook → List CachedSipHook
  renewed hooks = map (λ h. new lower h.host h.url h.auth_id) hooks

  normalize-renewed :
      (hooks : List CachedSipHook) → map (normalize lower) (renewed hooks) ≡ renewed hooks
  unfolding new normalize
  normalize-renewed [] = refl
  normalize-renewed (h ∷ hooks) =
      rw
        (trim_lower h.host, lower_lower (trim h.host), trim-trim h.auth_id, normalize-renewed hooks)
        refl

  -- No host twice, compared in lower case.
  abbrev pub Distinct : List CachedSipHook → Type 0
  Distinct [] = Unit {0}
  Distinct (h ∷ hooks) =
      (contains lower (lower h.host) (map (λ x. lower x.host) hooks) ≡ false) × Distinct hooks

  abbrev Outside : List Text → List CachedSipHook → Type 0
  Outside seen [] = Unit {0}
  Outside seen (h ∷ hooks) = (contains lower (lower h.host) seen ≡ false) × Outside seen hooks

  Outside-cons :
      (k : Text) (seen : List Text) (hooks : List CachedSipHook)
      → Outside (k ∷ seen) hooks
      → (contains lower k (map (λ x. lower x.host) hooks) ≡ false) × Outside seen hooks
  unfolding contains
  Outside-cons k seen [] o = (refl, tt)
  Outside-cons k seen (h ∷ hooks) (e, o) =
      let (apart, rest) = Outside-cons k seen hooks o in
      (
        ground (arith, e, apart, text_eq_iff k (lower h.host), text_eq_iff (lower h.host) k),
        (ground (arith, e), rest),
      )

  check_hosts-cases :
      (hooks : List CachedSipHook) (seen : List Text)
      → ((check_hosts lower hooks seen ≡ ok tt) × Outside seen hooks × Distinct hooks)
        ⊎ ((host : Text) × (check_hosts lower hooks seen ≡ err (validation host)))
  unfolding check_hosts
  check_hosts-cases [] seen = inl (refl, tt, tt)
  check_hosts-cases (h ∷ hooks) seen = elim (Bool-cases (contains lower (lower h.host) seen)) [
    | inl e ↦ inr (lower h.host, rw (check_hosts, e) refl)
    | inr e ↦ elim (check_hosts-cases hooks (lower h.host ∷ seen)) [
      | inl (fine, o, d) ↦
          let (apart, rest) = Outside-cons (lower h.host) seen hooks o in
          inl (rw (check_hosts, e) fine, (e, rest), (apart, d))
      | inr (host, bad) ↦ inr (host, rw (check_hosts, e) bad)
    ]
  ]

  -- A write either succeeds, when no two of the hooks have the same normalised host, and a read then
  -- gives the hooks as they were, with host and tenant normalised; or it fails and leaves the file.
  pub write_hooks_cache-read_hooks_cache :
      (hooks : List CachedSipHook) (file : CacheFile)
      → let (r, file') = write_hooks_cache lower hooks file in
        ((r ≡ ok tt)
          × Distinct (renewed hooks)
          × (read_hooks_cache lower file' ≡ ok (renewed hooks)))
        ⊎ ((host : Text) × (r ≡ err (validation host)) × (file' ≡ file))
  unfolding write_hooks_cache validate_no_duplicate_hosts read_hooks_cache
  write_hooks_cache-read_hooks_cache hooks file = elim (check_hosts-cases (renewed hooks) []) [
    | inl (fine, o, d) ↦
        inl (rw (write_hooks_cache, fine) (refl, d, ap ok (normalize-renewed hooks)))
    | inr (host, bad) ↦
        inr (host, rw (write_hooks_cache, bad) refl, rw (write_hooks_cache, bad) refl)
  ]
