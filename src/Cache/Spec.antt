-- ===== src/Cache/Spec.antt =====
-- What a backend of the cache promises (src/core/cache/store.rs, `CacheBackend`): a function from keys
-- to values that may have a deadline, with no memory of hashes, files or evictions.
use sayna.Prelude.{
  ℕ, ◌≤◌, Bool, true, Option, none, some, List, [], ◌∷◌, is_some, if◌then◌else◌, refl, ap, ◌≡◌, inl,
  inr, Bool-cases, arith,
}
use sayna.Prelude.Text.{Text, text_eq}
use sayna.Cache.{Bytes, CacheError, Result, ok, err, deadline, is_expired}

pub data Call : Type 0 where
  set : Text → Bytes → Option ℕ → Call
  get : Text → Call
  exists : Text → Call
  delete : Text → Call
  clear : Call

-- The call with its key replaced.
abbrev pub rename : (Text → Text) → Call → Call
rename h (set key value ttl) = set (h key) value ttl
rename h (get key) = get (h key)
rename h (exists key) = exists (h key)
rename h (delete key) = delete (h key)
rename h clear = clear

-- What a call returns: `nothing` for one that returns no value. The promise itself never fails.
pub data Answer : Type 0 where
  nothing : Answer
  failed : CacheError → Answer
  found : Option Bytes → Answer
  there : Bool → Answer

abbrev pub answer : {A : Type 0} → (A → Answer) → Result A → Answer
answer f (ok a) = f a
answer f (err e) = failed e

abbrev pub Contents : Type 0
Contents = Text → Option (Bytes × Option ℕ)

-- What an entry shows at a time.
abbrev pub live : ℕ → Option (Bytes × Option ℕ) → Option Bytes
live now none = none
live now (some (value, at)) = if is_expired at now then none else some value

abbrev pub step : Option ℕ → ℕ → Call → Contents → Answer × Contents
step default_ttl now (set key value ttl) f =
    (nothing, λ k. if text_eq key k then some (value, deadline ttl default_ttl now) else f k)
step default_ttl now (get key) f = (found (live now (f key)), f)
step default_ttl now (exists key) f = (there (is_some (live now (f key))), f)
step default_ttl now (delete key) f = (nothing, λ k. if text_eq key k then none else f k)
step default_ttl now clear f = (nothing, λ k. none)

-- The answers to calls, each at its time.
unfoldable pub replay : Option ℕ → List (ℕ × Call) → Contents → List Answer
replay default_ttl [] f = []
replay default_ttl ((now, c) ∷ cs) f =
    let (a, f') = step default_ttl now c f in a ∷ replay default_ttl cs f'

-- The calls with their keys replaced.
abbrev pub renamed : (Text → Text) → List (ℕ × Call) → List (ℕ × Call)
renamed h [] = []
renamed h ((now, c) ∷ cs) = (now, rename h c) ∷ renamed h cs

-- No time is before the one before it.
abbrev pub InOrder : ℕ → List (ℕ × Call) → Type 0
InOrder start [] = Unit {0}
InOrder start ((now, c) ∷ cs) = (start ≤ now) × InOrder now cs

-- Two contents that show the same from a time on.
abbrev pub Shows : ℕ → Contents → Contents → Type 0
Shows now f g = (k : Text) (t : ℕ) → now ≤ t → live t (f k) ≡ live t (g k)

pub step-Shows :
    (default_ttl : Option ℕ) {start now : ℕ} (c : Call) (f g : Contents)
    → Shows start f g
    → start ≤ now
    → ((step default_ttl now c f).0 ≡ (step default_ttl now c g).0)
      × Shows now (step default_ttl now c f).1 (step default_ttl now c g).1
step-Shows d {start} {now} (set key value ttl) f g h le = (
  refl,
  λ k t p. elim (Bool-cases (text_eq key k)) [
    | inl e ↦ rw e refl
    | inr e ↦ rw e (h k t (omega arith))
  ],
)
step-Shows d (get key) f g h le = (ap found (h key _ le), λ k t p. h k t (omega arith))
step-Shows d (exists key) f g h le =
    (ap (λ (o : Option Bytes). there (is_some o)) (h key _ le), λ k t p. h k t (omega arith))
step-Shows d (delete key) f g h le = (
  refl,
  λ k t p. elim (Bool-cases (text_eq key k)) [
    | inl e ↦ rw e refl
    | inr e ↦ rw e (h k t (omega arith))
  ],
)
step-Shows d clear f g h le = (refl, λ k t p. refl)

-- An entry that a time has passed shows nothing later either.
pub live-expired :
    (value : Bytes) (at : Option ℕ) {now t : ℕ}
    → is_expired at now ≡ true
    → now ≤ t
    → live t (some (value, at)) ≡ none
live-expired value none e le = cc
live-expired value (some d) e le = ground arith
