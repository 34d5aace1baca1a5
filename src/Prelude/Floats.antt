-- ===== src/Prelude/Floats.antt =====
-- What the source uses of `f32`, a parameter of every definition that touches one: the comparison
-- `>`, the truncating cast `as u64` and the constant 1.0. Nothing is assumed of them.
use Prim.Native.Nat.{ℕ, ◌/◌}
use mathlib.Core.Bool.{Bool}
use sayna.Prelude.Tests.{ltb}

pub record Float : Type 1 where
  pub F32 : Type 0
  pub gtb : F32 → F32 → Bool
  pub as_u64 : F32 → ℕ
  pub one : F32

-- Thousandths, for the tests: 500 is 0.5, and 32000 is 32.0.
abbrev pub milli : Float
milli = record { F32 = ℕ; gtb = λ a b. ltb b a; as_u64 = λ a. a / 1000; one = 1000 }
