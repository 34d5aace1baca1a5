-- ===== src/Cache/Memory/Evicted.antt =====
-- The memory backend (src/core/cache/store.rs, `MemoryCacheBackend`) when its map evicts entries to stay
-- within `max_entries` and `max_size_bytes`.
use sayna.Prelude.{
  ℕ, ◌≤◌, false, Option, none, List, [], ◌∷◌, is_some, refl, ap, subst, ◌≡◌, ◌⊎◌, inl, inr,
  Bool-cases, sym, ◌∙◌, arith,
}
use sayna.Prelude.Text.{Text, text_eq}
use sayna.Prelude.Dict.{lookup}
use sayna.Cache.{Bytes}
use sayna.Cache.Spec.{Call, Answer, Contents, step, found, there, live}
use sayna.Cache.Memory.{MemoryCacheBackend, new, evict}
use sayna.Cache.Memory.Refines.{view, perform, view-invalidate, perform-Shows}

-- A call at its time, or an eviction of a key.
pub data Event : Type 0 where
  called : ℕ → Call → Event
  evicted : Text → Event

-- No time of a call is before the one before it.
abbrev pub IsTimed : ℕ → List Event → Type 0
IsTimed start [] = Unit {0}
IsTimed start (called now c ∷ es) = (start ≤ now) × IsTimed now es
IsTimed start (evicted key ∷ es) = IsTimed start es

-- The answer is the promised one, or a miss.
abbrev pub MayMiss : Answer → Answer → Type 0
MayMiss a b = (a ≡ b) ⊎ ((a ≡ found none) ⊎ (a ≡ there false))

-- Each call, on what the evictions have left, answers as the promise does, which knows none, or misses.
abbrev pub Answers : List Event → MemoryCacheBackend → Contents → Type 0
Answers [] m f = Unit {0}
Answers (called now c ∷ es) m f =
    let (a, m') = perform now c m in
    let (b, f') = step m.default_ttl now c f in MayMiss a b × Answers es m' f'
Answers (evicted key ∷ es) m f = Answers es (evict key m) f

-- What is shown from a time on is what is promised, or nothing.
abbrev Below : ℕ → Contents → Contents → Type 0
Below now g f = (k : Text) (t : ℕ) → now ≤ t → (live t (g k) ≡ live t (f k)) ⊎ (live t (g k) ≡ none)

step-Below :
    (d : Option ℕ) {start now : ℕ} (c : Call) (g f : Contents)
    → Below start g f
    → start ≤ now
    → MayMiss (step d now c g).0 (step d now c f).0
      × Below now (step d now c g).1 (step d now c f).1
step-Below d {start} {now} (Call.set key value ttl) g f h le = (
  inl refl,
  λ k t p. elim (Bool-cases (text_eq key k)) [
    | inl e ↦ rw e (inl refl)
    | inr e ↦ rw e (h k t (omega arith))
  ],
)
step-Below d {start} {now} (Call.get key) g f h le = (
  elim (h key now le) [ inl same ↦ inl (ap found same) | inr gone ↦ inr (inl (ap found gone)) ],
  λ k t p. h k t (omega arith),
)
step-Below d {start} {now} (Call.exists key) g f h le = (
  elim (h key now le) [
    | inl same ↦ inl (ap (λ (o : Option Bytes). there (is_some o)) same)
    | inr gone ↦ inr (inr (ap (λ (o : Option Bytes). there (is_some o)) gone))
  ],
  λ k t p. h k t (omega arith),
)
step-Below d {start} {now} (Call.delete key) g f h le = (
  inl refl,
  λ k t p. elim (Bool-cases (text_eq key k)) [
    | inl e ↦ rw e (inl refl)
    | inr e ↦ rw e (h k t (omega arith))
  ],
)
step-Below d {start} {now} Call.clear g f h le = (inl refl, λ k t p. inl refl)

evict-Below :
    (start : ℕ) (key : Text) (m : MemoryCacheBackend) (f : Contents)
    → Below start (view m) f
    → Below start (view (evict key m)) f
unfolding evict
evict-Below start key m f h k t p = elim (Bool-cases (text_eq key k)) [
  | inl e ↦ inr (ap (live t) (view-invalidate key k m) ∙ rw e refl)
  | inr e ↦
      subst (λ o. (live t o ≡ live t (f k)) ⊎ (live t o ≡ none))
        (sym (view-invalidate key k m ∙ rw e refl)) (h k t p)
]

Below-Answers :
    (start : ℕ) (es : List Event) (m : MemoryCacheBackend) (f : Contents)
    → Below start (view m) f
    → IsTimed start es
    → Answers es m f
Below-Answers start [] m f h o = tt
Below-Answers start (evicted key ∷ es) m f h o =
    Below-Answers start es (evict key m) f (evict-Below start key m f h) o
Below-Answers start (called now c ∷ es) m f h (le, o) =
    let (same, kept) = perform-Shows now c m in
    let (missed, below) = step-Below m.default_ttl c (view m) f h le in
    (
      subst (λ a. MayMiss a (step m.default_ttl now c f).0) (sym same) missed,
      Below-Answers now es (perform now c m).1 (step m.default_ttl now c f).1
          (λ k t p.
            subst (λ o. (o ≡ live t ((step m.default_ttl now c f).1 k)) ⊎ (o ≡ none))
              (sym (kept k t p)) (below k t p))
          o,
    )

-- With any entries evicted at any time between the calls, and no time before the one before it, a new
-- memory backend answers each call as the promise of a backend without evictions does, or, to a `get`
-- or an `exists`, that there is nothing: no bytes but those last put and still alive are ever found.
pub evicted-Answers :
    (default_ttl : Option ℕ) (es : List Event)
    → IsTimed 0 es
    → Answers es (new default_ttl) (λ k. none)
unfolding lookup
evicted-Answers d es o = Below-Answers 0 es (new d) (λ k. none) (λ k t p. inl refl) o
