-- ===== src/Cache/Memory/Refines.antt =====
-- The memory backend (src/core/cache/store.rs, `MemoryCacheBackend`) against the promise of a backend,
-- while its map evicts nothing.
use sayna.Prelude.{
  ℕ, ◌≤◌, true, Option, none, some, List, [], ◌∷◌, if◌then◌else◌, refl, ap, ◌≡◌, inl, inr,
  Bool-cases, Option-cases, is_some, arith, sym, ◌∙◌,
}
use sayna.Prelude.Text.{Text, text_eq, text_eq→eq}
use sayna.Prelude.Dict.{lookup, lookup-insert, lookup-remove}
use sayna.Cache.{Bytes, deadline, is_expired}
use sayna.Cache.Spec.{
  Call, Answer, Contents, step, nothing, found, there, live, Shows, step-Shows, live-expired,
  InOrder, replay,
}
use sayna.Cache.Memory.{
  CacheEntry, MemoryCacheBackend, new, set, invalidate, get, exists, delete, clear,
}

abbrev pub entry_view : Option CacheEntry → Option (Bytes × Option ℕ)
entry_view none = none
entry_view (some e) = some (e.bytes, e.expires_at)

abbrev pub view : MemoryCacheBackend → Contents
view m k = entry_view (lookup k m.cache)

abbrev pub perform : ℕ → Call → MemoryCacheBackend → Answer × MemoryCacheBackend
perform now (Call.set key value ttl) m = (nothing, set now key value ttl m)
perform now (Call.get key) m = let (o, m') = get now key m in (found o, m')
perform now (Call.exists key) m = let (b, m') = exists now key m in (there b, m')
perform now (Call.delete key) m = (nothing, delete key m)
perform now Call.clear m = (nothing, clear m)

-- The answers to calls, each at its time.
abbrev pub run : List (ℕ × Call) → MemoryCacheBackend → List Answer
run [] m = []
run ((now, c) ∷ cs) m = let (a, m') = perform now c m in a ∷ run cs m'

pub view-invalidate :
    (key k : Text) (m : MemoryCacheBackend)
    → view (invalidate key m) k ≡ (if text_eq key k then none else view m k)
unfolding invalidate
view-invalidate key k m = ground (arith, lookup-remove key k m.cache)

view-set :
    (now : ℕ) (key k : Text) (value : Bytes) (ttl : Option ℕ) (m : MemoryCacheBackend)
    → view (set now key value ttl m) k
      ≡ (if text_eq key k then some (value, deadline ttl m.default_ttl now) else view m k)
unfolding set
view-set now key k value ttl m =
    let entry : CacheEntry = record {
      bytes = value;
      expires_at = deadline ttl m.default_ttl now;
    } in
    ground (arith, lookup-insert key k entry m.cache)

invalidate-expired :
    (now t : ℕ) (key k : Text) (e : CacheEntry) (m : MemoryCacheBackend)
    → lookup key m.cache ≡ some e
    → is_expired e.expires_at now ≡ true
    → now ≤ t
    → live t (view (invalidate key m) k) ≡ live t (view m k)
invalidate-expired now t key k e m h x le = elim (Bool-cases (text_eq key k)) [
  | inr ne ↦ rw (view-invalidate key k m, ne) refl
  | inl eq ↦
      let same : key ≡ k = text_eq→eq key k eq in
      rw (view-invalidate key k m, eq, sym same, h) (sym (live-expired e.bytes e.expires_at x le))
]

-- What a look at a key leaves: an entry past its deadline is dropped.
unfoldable after_look : ℕ → Text → MemoryCacheBackend → MemoryCacheBackend
after_look now key m = elim (lookup key m.cache) [
  | none ↦ m
  | some e ↦ if is_expired e.expires_at now then invalidate key m else m
]

after_look-Shows :
    (now : ℕ) (key : Text) (m : MemoryCacheBackend)
    → Shows now (view (after_look now key m)) (view m)
unfolding after_look
after_look-Shows now key m k t p = elim (Option-cases (lookup key m.cache)) [
  | inl h ↦ rw (after_look, h) refl
  | inr (e, h) ↦ elim (Bool-cases (is_expired e.expires_at now)) [
    | inr x ↦ rw (after_look, h, x) refl
    | inl x ↦ rw (after_look, h, x) (invalidate-expired now t key k e m h x p)
  ]
]

get_lem :
    (now : ℕ) (key : Text) (m : MemoryCacheBackend)
    → get now key m ≡ (live now (view m key), after_look now key m)
unfolding get after_look
get_lem now key m = ground arith

exists_lem :
    (now : ℕ) (key : Text) (m : MemoryCacheBackend)
    → exists now key m ≡ (is_some (live now (view m key)), after_look now key m)
unfolding exists after_look
exists_lem now key m = ground arith

-- One call answers as the promise does for what the backend shows, and leaves what the promise does.
pub perform-Shows :
    (now : ℕ) (c : Call) (m : MemoryCacheBackend)
    → ((perform now c m).0 ≡ (step m.default_ttl now c (view m)).0)
      × Shows now (view (perform now c m).1) (step m.default_ttl now c (view m)).1
perform-Shows now (Call.set key value ttl) m =
    (refl, λ k t p. ap (live t) (view-set now key k value ttl m))
perform-Shows now (Call.get key) m = rw (get_lem now key m) (refl, after_look-Shows now key m)
perform-Shows now (Call.exists key) m = rw (exists_lem now key m) (refl, after_look-Shows now key m)
perform-Shows now (Call.delete key) m =
    (refl, λ k t p. unfold delete in ap (live t) (view-invalidate key k m))
perform-Shows now Call.clear m = unfold clear lookup in (refl, λ k t p. refl)

perform-default_ttl :
    (now : ℕ) (c : Call) (m : MemoryCacheBackend) → (perform now c m).1.default_ttl ≡ m.default_ttl
unfolding set get exists delete clear invalidate
perform-default_ttl now (Call.set key value ttl) m = refl
perform-default_ttl now (Call.get key) m = ground arith
perform-default_ttl now (Call.exists key) m = ground arith
perform-default_ttl now (Call.delete key) m = refl
perform-default_ttl now Call.clear m = refl

run-Shows :
    (start : ℕ) (cs : List (ℕ × Call)) (m : MemoryCacheBackend) (d : Option ℕ) (f : Contents)
    → m.default_ttl ≡ d
    → Shows start (view m) f
    → InOrder start cs
    → run cs m ≡ replay d cs f
unfolding replay
run-Shows start [] m d f e h o = refl
run-Shows start ((now, c) ∷ cs) m d f e h (le, o) =
    let (same, kept) = perform-Shows now c m in
    let (answer, shown) = step-Shows d c (view m) f h le in
    let e' : step m.default_ttl now c (view m) ≡ step d now c (view m) =
      ap (λ (x : Option ℕ). step x now c (view m)) e in
    let rest : run cs (perform now c m).1 ≡ replay d cs (step d now c f).1 =
      run-Shows now cs (perform now c m).1 d (step d now c f).1 (perform-default_ttl now c m ∙ e)
        (λ k t p. kept k t p ∙ ap (λ (x : Answer × Contents). live t (x.1 k)) e' ∙ shown k t p) o in
    rw (rest, same, e', answer) refl

-- With no entry evicted, and no time before the one before it, the memory backend answers every
-- sequence of calls from an empty cache as the promise of a backend does.
pub run-replay :
    (default_ttl : Option ℕ) (cs : List (ℕ × Call))
    → InOrder 0 cs
    → run cs (new default_ttl) ≡ replay default_ttl cs (λ k. none)
unfolding lookup
run-replay d cs o = run-Shows 0 cs (new d) d (λ k. none) refl (λ k t p. refl) o
