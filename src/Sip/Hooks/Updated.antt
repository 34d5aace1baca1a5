-- ===== src/Sip/Hooks/Updated.antt =====
-- Which hook serves a host after an update of the cached hooks (src/utils/sip_hooks.rs, `merge_hooks`).
use sayna.Prelude.{
  Option, none, some, List, [], ◌∷◌, is_some, if◌then◌else◌, or_option, refl, ap, ◌≡◌, ◌∙◌, arith,
}
use sayna.Prelude.Text.{Text, text_eq, text_eq_iff}
use sayna.Prelude.Dict.{lookup, insert, lookup-insert, IsUnique, insert-IsUnique}
use sayna.Sip.{CachedSipHook}
use sayna.Sip.Hooks.{insert_existing, insert_cached, insert_missing, merge_hooks}

abbrev Hooks : Type 0
Hooks = List (Text × CachedSipHook)

-- Every entry of one map is what the other shows for its key.
abbrev AllIn : Hooks → Hooks → Type 0
AllIn [] m = Unit {0}
AllIn ((k, h) ∷ c) m = (lookup k m ≡ some h) × AllIn c m

AllIn-from :
    (c m : Hooks)
    → IsUnique c
    → ((k : Text) (h : CachedSipHook) → lookup k c ≡ some h → lookup k m ≡ some h)
    → AllIn c m
unfolding lookup
AllIn-from [] m u f = tt
AllIn-from ((k, h) ∷ c) m (fresh, u) f = (
  f k h (ground (arith, text_eq_iff k k)),
  AllIn-from c m u (λ j g e. f j g (ground (arith, text_eq_iff k j, e, fresh))),
)

AllIn-same : (c m n : Hooks) → ((k : Text) → lookup k n ≡ lookup k m) → AllIn c m → AllIn c n
AllIn-same [] m n f a = tt
AllIn-same ((k, h) ∷ c) m n f (e, a) = (f k ∙ e, AllIn-same c m n f a)

module _ (lower : Text → Text) where
  lookup-insert_missing :
      (existing c m : Hooks) (host : Text)
      → AllIn c m
      → lookup host (insert_missing lower existing c m) ≡ lookup host m
  unfolding insert_missing
  lookup-insert_missing existing [] m host a = refl
  lookup-insert_missing existing ((k, h) ∷ c) m host (e, a) =
      let n : Hooks = if is_some (lookup k existing) then m else insert k h m in
      let same : (j : Text) → lookup j n ≡ lookup j m =
        λ j. ground (arith, lookup-insert k j h m, text_eq_iff k j, e) in
      lookup-insert_missing existing c n host (AllIn-same c m n same a) ∙ same host

  -- The last hook of a host, its host in lower case for the key.
  abbrev pub last_cached : Text → List CachedSipHook → Option CachedSipHook
  last_cached host [] = none
  last_cached host (h ∷ hooks) =
      or_option (last_cached host hooks) (if text_eq (lower h.host) host then some h else none)

  abbrev pub last_existing : Text → List CachedSipHook → Option CachedSipHook
  last_existing host [] = none
  last_existing host (h ∷ hooks) =
      or_option (last_existing host hooks)
        (if text_eq (lower h.host) host then some (record h { host = host }) else none)

  lookup-insert_cached :
      (host : Text) (hooks : List CachedSipHook) (m : Hooks)
      → lookup host (insert_cached lower hooks m)
        ≡ or_option (last_cached host hooks) (lookup host m)
  unfolding insert_cached
  lookup-insert_cached host [] m = refl
  lookup-insert_cached host (h ∷ hooks) m =
      lookup-insert_cached host hooks (insert (lower h.host) h m)
      ∙ ground (arith, lookup-insert (lower h.host) host h m)

  lookup-insert_existing :
      (host : Text) (hooks : List CachedSipHook) (m : Hooks)
      → lookup host (insert_existing lower hooks m)
        ≡ or_option (last_existing host hooks) (lookup host m)
  unfolding insert_existing
  lookup-insert_existing host [] m = refl
  lookup-insert_existing host (h ∷ hooks) m =
      let k : Text = lower h.host in
      let entry : CachedSipHook = record h { host = k } in
      lookup-insert_existing host hooks (insert k entry m)
      ∙ ground (arith, lookup-insert k host entry m, text_eq_iff k host)

  insert_cached-IsUnique :
      (hooks : List CachedSipHook) (m : Hooks) → IsUnique m → IsUnique (insert_cached lower hooks m)
  unfolding insert_cached
  insert_cached-IsUnique [] m u = u
  insert_cached-IsUnique (h ∷ hooks) m u =
      insert_cached-IsUnique hooks (insert (lower h.host) h m)
        (insert-IsUnique (lower h.host) h m u)

  -- After the merge that an update of the cached hooks makes, a host is served by the last of the new
  -- hooks for it, or else by the last of the existing ones: the third loop changes nothing.
  pub merge_hooks-lookup :
      (host : Text) (existing_hooks cached_hooks : List CachedSipHook)
      → lookup host (merge_hooks lower existing_hooks cached_hooks)
        ≡ or_option (last_cached host cached_hooks) (last_existing host existing_hooks)
  unfolding merge_hooks lookup
  merge_hooks-lookup host existing_hooks cached_hooks =
      let existing : Hooks = insert_existing lower existing_hooks [] in
      let c : Hooks = insert_cached lower cached_hooks [] in
      let m : Hooks = insert_cached lower cached_hooks existing in
      let shown : AllIn c m = AllIn-from c m (insert_cached-IsUnique cached_hooks [] tt) (λ k h e.
        lookup-insert_cached k cached_hooks existing
        ∙ ground (arith, lookup-insert_cached k cached_hooks [], e)) in
      lookup-insert_missing existing c m host shown
      ∙ lookup-insert_cached host cached_hooks existing
      ∙ ap (λ (o : Option CachedSipHook). or_option (last_cached host cached_hooks) o)
          (lookup-insert_existing host existing_hooks [] ∙ ground arith)
