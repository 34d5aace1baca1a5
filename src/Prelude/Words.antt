-- ===== src/Prelude/Words.antt =====
-- Unsigned machine integers of the source (`u64`, `usize` on 64 bits): a native number and its wrap.
use Prim.Native.Nat.{ℕ, ◌%◌, ◌^◌, ◌<◌}
use mathlib.Core.Path.{◌≡◌}
use native.Mathlib.Omega.{arith}

abbrev pub u32_mod : ℕ
u32_mod = 2 ^ 32

abbrev pub u64_mod : ℕ
u64_mod = 2 ^ 64

-- `fetch_add` and release arithmetic wrap.
abbrev pub u32 : ℕ → ℕ
u32 n = n % u32_mod

abbrev pub u64 : ℕ → ℕ
u64 n = n % u64_mod

pub u64_small : (n : ℕ) → n < u64_mod → u64 n ≡ n
u64_small n h = omega arith
