-- ===== src/Cache.antt =====
-- The cache of synthesised audio (src/core/cache/store.rs): two backends behind one interface, and the
-- store that hashes keys and counts. Time is an argument of each call: an `Instant` or Unix seconds.
pub mod Memory
pub mod Files
pub mod Store
pub mod Spec
mod Tests
use sayna.Prelude.{
  ℕ, ◌+◌, Bool, true, false, Option, none, some, List, [], ◌∷◌, ltb, if◌then◌else◌, length, is_some,
  is_none, or_option,
}
use sayna.Prelude.Text.{Text}

pub data CacheError : Type 0 where
  io serialization : CacheError

pub data Result (A : Type 0) : Type 0 where
  ok : A → Result A
  err : CacheError → Result A

abbrev pub Bytes : Type 0
Bytes = List ℕ

-- `expires_at` of the time `now`.
abbrev pub deadline : Option ℕ → Option ℕ → ℕ → Option ℕ
deadline ttl default_ttl now = elim (or_option ttl default_ttl) [
  | none ↦ none
  | some d ↦ some (now + d)
]

abbrev pub is_expired : Option ℕ → ℕ → Bool
is_expired none now = false
is_expired (some at) now = ltb at now
