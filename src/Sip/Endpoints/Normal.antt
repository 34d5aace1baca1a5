-- ===== src/Sip/Endpoints/Normal.antt =====
-- The cached hooks that the endpoints write are normalised already (src/handlers/sip/hooks.rs,
-- src/utils/sip_hooks.rs).
use sayna.Prelude.{List, [], ◌∷◌, map, is_some, refl, ap, sym, ◌≡◌, ◌∙◌, inl, inr, Bool-cases}
use sayna.Prelude.Text.{Text, text_eq, trim}
use sayna.Prelude.Trim.{trim-trim}
use sayna.Prelude.Dict.{lookup, insert}
use sayna.Sip.{CachedSipHook}
use sayna.Sip.Hooks
use sayna.Sip.Hooks.{
  contains, normalize, insert_existing, insert_cached, insert_missing, merge_hooks,
  remove_hooks_by_hosts, keep, values, CacheFile, read_hooks_cache,
}
use sayna.Sip.Hooks.Stored.{renewed}
use sayna.Sip.Endpoints.{SipHookEntry, new_hooks, drop_protected, existing_hooks}

module _ (lower : Text → Text) (lower_lower : (t : Text) → lower (lower t) ≡ lower t)
    (trim_lower : (t : Text) → trim (lower (trim t)) ≡ lower (trim t)) where
  abbrev pub IsNormal : CachedSipHook → Type 0
  IsNormal h = (lower (trim h.host) ≡ h.host) × (trim h.auth_id ≡ h.auth_id)

  abbrev pub AllNormal : List CachedSipHook → Type 0
  AllNormal [] = Unit {0}
  AllNormal (h ∷ hs) = IsNormal h × AllNormal hs

  abbrev AllEntries : List (Text × CachedSipHook) → Type 0
  AllEntries [] = Unit {0}
  AllEntries ((k, h) ∷ m) = IsNormal h × AllEntries m

  pub renewed-AllNormal :
      (hs : List CachedSipHook) → AllNormal hs → renewed lower lower_lower trim_lower hs ≡ hs
  unfolding Hooks.new
  renewed-AllNormal [] n = refl
  renewed-AllNormal (h ∷ hs) ((a, b), n) = simp (a, b, renewed-AllNormal hs n) refl

  new_hooks-AllNormal : (request : List SipHookEntry) → AllNormal (new_hooks lower request)
  unfolding Hooks.new
  new_hooks-AllNormal [] = tt
  new_hooks-AllNormal (h ∷ hs) = (
    (ap lower (trim_lower h.host) ∙ lower_lower (trim h.host), trim-trim h.auth_id),
    new_hooks-AllNormal hs,
  )

  map-normalize-AllNormal : (hs : List CachedSipHook) → AllNormal (map (normalize lower) hs)
  unfolding normalize
  map-normalize-AllNormal [] = tt
  map-normalize-AllNormal (h ∷ hs) = (
    (ap lower (trim_lower h.host) ∙ lower_lower (trim h.host), trim-trim h.auth_id),
    map-normalize-AllNormal hs,
  )

  drop_protected-AllNormal :
      (hosts : List Text) (hs : List CachedSipHook)
      → AllNormal hs
      → AllNormal (drop_protected lower hosts hs)
  unfolding drop_protected
  drop_protected-AllNormal hosts [] n = tt
  drop_protected-AllNormal hosts (h ∷ hs) (a, n) = elim (Bool-cases (contains lower h.host hosts)) [
    | inl e ↦ rw (drop_protected, e) (drop_protected-AllNormal hosts hs n)
    | inr e ↦ rw (drop_protected, e) (a, drop_protected-AllNormal hosts hs n)
  ]

  pub existing_hooks-AllNormal :
      (hosts : List Text) (file : CacheFile) → AllNormal (existing_hooks lower hosts file)
  unfolding existing_hooks read_hooks_cache
  existing_hooks-AllNormal hosts CacheFile.missing = drop_protected-AllNormal hosts [] tt
  existing_hooks-AllNormal hosts CacheFile.blank = drop_protected-AllNormal hosts [] tt
  existing_hooks-AllNormal hosts CacheFile.garbage = tt
  existing_hooks-AllNormal hosts (CacheFile.listed hs) =
      drop_protected-AllNormal hosts (map (normalize lower) hs) (map-normalize-AllNormal hs)

  keep-AllNormal :
      (hosts : List Text) (hs : List CachedSipHook) → AllNormal hs → AllNormal (keep lower hosts hs)
  unfolding keep
  keep-AllNormal hosts [] n = tt
  keep-AllNormal hosts (h ∷ hs) (a, n) = elim (Bool-cases (contains lower (lower h.host) hosts)) [
    | inl e ↦ rw (keep, e) (keep-AllNormal hosts hs n)
    | inr e ↦ rw (keep, e) (a, keep-AllNormal hosts hs n)
  ]

  pub remove_hooks_by_hosts-AllNormal :
      (hs : List CachedSipHook) (hosts : List Text)
      → AllNormal hs
      → AllNormal (remove_hooks_by_hosts lower hs hosts)
  unfolding remove_hooks_by_hosts
  remove_hooks_by_hosts-AllNormal hs hosts n = keep-AllNormal _ hs n

  insert-AllEntries :
      (k : Text) (h : CachedSipHook) (m : List (Text × CachedSipHook))
      → IsNormal h
      → AllEntries m
      → AllEntries (insert k h m)
  unfolding insert
  insert-AllEntries k h [] n a = (n, tt)
  insert-AllEntries k h ((j, g) ∷ m) n (b, a) = elim (Bool-cases (text_eq j k)) [
    | inl e ↦ rw (insert, e) (n, a)
    | inr e ↦ rw (insert, e) (b, insert-AllEntries k h m n a)
  ]

  insert_existing-AllEntries :
      (hs : List CachedSipHook) (m : List (Text × CachedSipHook))
      → AllNormal hs
      → AllEntries m
      → AllEntries (insert_existing lower hs m)
  unfolding insert_existing
  insert_existing-AllEntries [] m n a = a
  insert_existing-AllEntries (h ∷ hs) m ((x, y), n) a =
      let hook : CachedSipHook = record { host = lower h.host; url = h.url; auth_id = h.auth_id } in
      let host : lower h.host ≡ h.host = ap lower (sym x) ∙ lower_lower (trim h.host) ∙ x in
      insert_existing-AllEntries hs (insert (lower h.host) hook m) n (
        insert-AllEntries (lower h.host) hook m
          (ap (λ (t : Text). lower (trim t)) host ∙ x ∙ sym host, y) a)

  insert_cached-AllEntries :
      (hs : List CachedSipHook) (m : List (Text × CachedSipHook))
      → AllNormal hs
      → AllEntries m
      → AllEntries (insert_cached lower hs m)
  unfolding insert_cached
  insert_cached-AllEntries [] m n a = a
  insert_cached-AllEntries (h ∷ hs) m (x, n) a =
      insert_cached-AllEntries hs (insert (lower h.host) h m) n
        (insert-AllEntries (lower h.host) h m x a)

  insert_missing-AllEntries :
      (existing c m : List (Text × CachedSipHook))
      → AllEntries c
      → AllEntries m
      → AllEntries (insert_missing lower existing c m)
  unfolding insert_missing
  insert_missing-AllEntries existing [] m b a = a
  insert_missing-AllEntries existing ((k, h) ∷ c) m (x, b) a =
      elim (Bool-cases (is_some (lookup k existing))) [
        | inl e ↦ rw (insert_missing, e) (insert_missing-AllEntries existing c m b a)
        | inr e ↦
            rw (insert_missing, e)
              (insert_missing-AllEntries existing c (insert k h m) b (insert-AllEntries k h m x a))
      ]

  values-AllNormal : (m : List (Text × CachedSipHook)) → AllEntries m → AllNormal (values m)
  values-AllNormal [] a = tt
  values-AllNormal ((k, h) ∷ m) (x, a) = (x, values-AllNormal m a)

  pub merge_hooks-AllNormal :
      (kept : List CachedSipHook) (request : List SipHookEntry)
      → AllNormal kept
      → AllNormal (values (merge_hooks lower kept (new_hooks lower request)))
  unfolding merge_hooks
  merge_hooks-AllNormal kept request n =
      let added : List CachedSipHook = new_hooks lower request in
      let fresh : AllNormal added = new_hooks-AllNormal request in
      let existing : List (Text × CachedSipHook) = insert_existing lower kept [] in
      let old : AllEntries existing = insert_existing-AllEntries kept [] n tt in
      let c : List (Text × CachedSipHook) = insert_cached lower added [] in
      let m : List (Text × CachedSipHook) = insert_cached lower added existing in
      values-AllNormal (insert_missing lower existing c m) (
        insert_missing-AllEntries existing c m (insert_cached-AllEntries added [] fresh tt)
          (insert_cached-AllEntries added existing fresh old))
