-- ===== src/Cache/Files/Refines.antt =====
-- The filesystem backend (src/core/cache/store.rs, `FilesystemCacheBackend`) against the promise of a
-- backend, where no file operation fails.
use sayna.Prelude.{
  ℕ, ◌≤◌, true, false, Option, none, some, List, [], ◌∷◌, if◌then◌else◌, refl, ap, ◌≡◌, ◌≢◌, inl,
  inr, Bool-cases, is_some, length, arith, sym, ◌∙◌,
}
use sayna.Prelude.Text.{Text, text_eq, text_eq→eq}
use sayna.Prelude.Dict.{lookup, remove, lookup-insert, lookup-remove}
use sayna.Cache.{Bytes, deadline, is_expired}
use sayna.Cache.Spec.{
  Call, Answer, answer, Contents, rename, step, nothing, found, there, live, Shows, step-Shows,
  live-expired, InOrder, renamed, replay,
}
use sayna.Cache.Files.{
  Meta, cache_entry_meta, garbage, FilesystemCacheBackend, no_fault, new, set, write_bytes,
  write_meta, remove_both, get, exists, delete, clear,
}

-- An entry needs both of its files.
abbrev pub entry_view : Option Meta → Option Bytes → Option (Bytes × Option ℕ)
entry_view none bytes = none
entry_view (some garbage) bytes = none
entry_view (some (cache_entry_meta at created_at size)) none = none
entry_view (some (cache_entry_meta at created_at size)) (some bytes) = some (bytes, at)

-- By path.
abbrev pub view : FilesystemCacheBackend → Contents
view m p = entry_view (lookup p m.metas) (lookup p m.files)

-- Every file of metadata parses.
abbrev IsReadable : FilesystemCacheBackend → Type 0
IsReadable m = (p : Text) → lookup p m.metas ≢ some garbage

entry_view-none : (mt : Option Meta) → entry_view mt none ≡ none
entry_view-none none = refl
entry_view-none (some garbage) = refl
entry_view-none (some (cache_entry_meta at c size)) = refl

live-dead :
    (at : Option ℕ) (c size : ℕ) (bytes : Option Bytes) {now t : ℕ}
    → is_expired at now ≡ true
    → now ≤ t
    → live t (entry_view (some (cache_entry_meta at c size)) bytes) ≡ none
live-dead at c size none x le = refl
live-dead at c size (some bytes) x le = live-expired bytes at x le

module _ (path : Text → Text) where
  abbrev pub perform : ℕ → Call → FilesystemCacheBackend → Answer × FilesystemCacheBackend
  perform now (Call.set key value ttl) m =
      let (r, m') = set path no_fault now key value ttl m in (answer (λ u. nothing) r, m')
  perform now (Call.get key) m = let (r, m') = get path now key m in (answer found r, m')
  perform now (Call.exists key) m = (answer there (exists path now key m), m)
  perform now (Call.delete key) m = (nothing, delete path key m)
  perform now Call.clear m = (nothing, clear m)

  abbrev pub run : List (ℕ × Call) → FilesystemCacheBackend → List Answer
  run [] m = []
  run ((now, c) ∷ cs) m = let (a, m') = perform now c m in a ∷ run cs m'

  view-set :
      (now : ℕ) (key p : Text) (value : Bytes) (ttl : Option ℕ) (m : FilesystemCacheBackend)
      → view (set path no_fault now key value ttl m).1 p
        ≡ (if text_eq (path key) p then some (value, deadline ttl m.default_ttl now) else view m p)
  unfolding set write_bytes write_meta
  view-set now key p value ttl m =
      let meta = cache_entry_meta (deadline ttl m.default_ttl now) now (length value) in
      ground
        (arith, lookup-insert (path key) p meta m.metas, lookup-insert (path key) p value m.files)

  view-remove_both :
      (key p : Text) (m : FilesystemCacheBackend)
      → view (remove_both path key m) p ≡ (if text_eq (path key) p then none else view m p)
  unfolding remove_both
  view-remove_both key p m =
      ground (arith, lookup-remove (path key) p m.metas, lookup-remove (path key) p m.files)

  -- Removing the files of an entry that shows nothing from now on changes nothing that is shown.
  view-remove_both-dead :
      (now : ℕ) (key : Text) (m : FilesystemCacheBackend)
      → ((t : ℕ) → now ≤ t → live t (view m (path key)) ≡ none)
      → Shows now (view (remove_both path key m)) (view m)
  view-remove_both-dead now key m dead k t p = elim (Bool-cases (text_eq (path key) k)) [
    | inr ne ↦ rw (view-remove_both key k m, ne) refl
    | inl eq ↦
        let same : path key ≡ k = text_eq→eq (path key) k eq in
        rw (view-remove_both key k m, eq) (sym (rw (sym same) (dead t p)))
  ]

  view-drop_meta :
      (key p : Text) (m : FilesystemCacheBackend)
      → lookup (path key) m.files ≡ none
      → view (record m { metas = remove (path key) m.metas }) p ≡ view m p
  view-drop_meta key p m h = elim (Bool-cases (text_eq (path key) p)) [
    | inr ne ↦ rw (lookup-remove (path key) p m.metas, ne) refl
    | inl eq ↦
        let same : path key ≡ p = text_eq→eq (path key) p eq in
        rw (lookup-remove (path key) p m.metas, eq, sym same, h)
          (sym (entry_view-none (lookup (path key) m.metas)))
  ]

  -- What a look at a path returns and leaves, by what the two files hold.
  get_lem :
      (now : ℕ) (key : Text) (m : FilesystemCacheBackend)
      → IsReadable m
      → (answer found (get path now key m).0 ≡ found (live now (view m (path key))))
        × Shows now (view (get path now key m).1) (view m)
  unfolding get
  get_lem now key m h = go (lookup (path key) m.metas) (lookup (path key) m.files) refl refl
    where
      go :
          (mt : Option Meta) (bs : Option Bytes)
          → lookup (path key) m.metas ≡ mt
          → lookup (path key) m.files ≡ bs
          → (answer found (get path now key m).0 ≡ found (live now (view m (path key))))
            × Shows now (view (get path now key m).1) (view m)
      go none bs a b = rw (get, a) (refl, λ k t p. refl)
      go (some garbage) bs a b = elim (h (path key) a) [ ]
      go (some (cache_entry_meta at c size)) bs a b = elim (Bool-cases (is_expired at now)) [
        | inl x ↦
            let dead : (t : ℕ) → now ≤ t → live t (view m (path key)) ≡ none =
              λ t p. rw (a, b) (live-dead at c size bs x p) in
            rw (get, a, x)
              (
                ap found (sym (rw (sym a) (dead now (omega arith)))),
                view-remove_both-dead now key m dead,
              )
        | inr x ↦ alive bs b x
      ]
        where
          alive :
              (bs : Option Bytes)
              → lookup (path key) m.files ≡ bs
              → is_expired at now ≡ false
              → (answer found (get path now key m).0 ≡ found (live now (view m (path key))))
                × Shows now (view (get path now key m).1) (view m)
          alive none b x = rw (get, a, x, b) (refl, λ k t p. ap (live t) (view-drop_meta key k m b))
          alive (some bytes) b x = rw (get, a, x, b) (rw x refl, λ k t p. refl)

  exists_lem :
      (now : ℕ) (key : Text) (m : FilesystemCacheBackend)
      → IsReadable m
      → answer there (exists path now key m) ≡ there (is_some (live now (view m (path key))))
  unfolding exists
  exists_lem now key m h = ground (arith, h (path key))

  -- One call answers as the promise does on the key's path, and leaves what the promise does.
  perform-Shows :
      (now : ℕ) (c : Call) (m : FilesystemCacheBackend)
      → IsReadable m
      → ((perform now c m).0 ≡ (step m.default_ttl now (rename path c) (view m)).0)
        × Shows now (view (perform now c m).1) (step m.default_ttl now (rename path c) (view m)).1
  perform-Shows now (Call.set key value ttl) m h =
      (unfold set in refl, λ k t p. ap (live t) (view-set now key k value ttl m))
  perform-Shows now (Call.get key) m h = get_lem now key m h
  perform-Shows now (Call.exists key) m h = (exists_lem now key m h, λ k t p. refl)
  perform-Shows now (Call.delete key) m h =
      (refl, λ k t p. unfold delete in ap (live t) (view-remove_both key k m))
  perform-Shows now Call.clear m h = unfold clear lookup in (refl, λ k t p. refl)

  perform-IsReadable :
      (now : ℕ) (c : Call) (m : FilesystemCacheBackend)
      → IsReadable m
      → IsReadable (perform now c m).1
  unfolding set write_bytes write_meta get delete remove_both clear lookup
  perform-IsReadable now (Call.set key value ttl) m h p =
      let meta = cache_entry_meta (deadline ttl m.default_ttl now) now (length value) in
      rw (lookup-insert (path key) p meta m.metas) (ground (arith, h p))
  perform-IsReadable now (Call.get key) m h p =
      ground (arith, h p, lookup-remove (path key) p m.metas)
  perform-IsReadable now (Call.exists key) m h p = h p
  perform-IsReadable now (Call.delete key) m h p =
      rw (lookup-remove (path key) p m.metas) (ground (arith, h p))
  perform-IsReadable now Call.clear m h p = ground arith

  perform-default_ttl :
      (now : ℕ) (c : Call) (m : FilesystemCacheBackend)
      → (perform now c m).1.default_ttl ≡ m.default_ttl
  unfolding set write_bytes write_meta get delete remove_both clear
  perform-default_ttl now (Call.set key value ttl) m = refl
  perform-default_ttl now (Call.get key) m = ground arith
  perform-default_ttl now (Call.exists key) m = refl
  perform-default_ttl now (Call.delete key) m = refl
  perform-default_ttl now Call.clear m = refl

  run-Shows :
      (start : ℕ) (cs : List (ℕ × Call)) (m : FilesystemCacheBackend) (d : Option ℕ) (f : Contents)
      → IsReadable m
      → m.default_ttl ≡ d
      → Shows start (view m) f
      → InOrder start cs
      → run cs m ≡ replay d (renamed path cs) f
  unfolding replay
  run-Shows start [] m d f r e h o = refl
  run-Shows start ((now, c) ∷ cs) m d f r e h (le, o) =
      let c' : Call = rename path c in
      let (same, kept) = perform-Shows now c m r in
      let (answered, shown) = step-Shows d c' (view m) f h le in
      let e' : step m.default_ttl now c' (view m) ≡ step d now c' (view m) =
        ap (λ (x : Option ℕ). step x now c' (view m)) e in
      let rest : run cs (perform now c m).1 ≡ replay d (renamed path cs) (step d now c' f).1 =
        run-Shows now cs (perform now c m).1 d (step d now c' f).1 (perform-IsReadable now c m r)
          (perform-default_ttl now c m ∙ e)
          (λ k t p. kept k t p ∙ ap (λ (x : Answer × Contents). live t (x.1 k)) e' ∙ shown k t p)
          o in
      rw (rest, same, e', answered) refl

  -- Where no file operation fails and no time is before the one before it, the filesystem backend
  -- answers every sequence of calls from an empty directory as the promise of a backend answers the
  -- same calls with each key replaced by its path; no call fails.
  pub run-replay :
      (default_ttl : Option ℕ) (cs : List (ℕ × Call))
      → InOrder 0 cs
      → run cs (new default_ttl) ≡ replay default_ttl (renamed path cs) (λ k. none)
  unfolding lookup
  run-replay d cs o =
      run-Shows 0 cs (new d) d (λ k. none) (λ p. ground arith) refl (λ k t p. refl) o
