-- ===== src/Prelude/Int.antt =====
-- Signed integers over the native numbers, and the signed 16-bit samples of the source.
use Prim.Native.Nat.{ℕ, suc, ◌+◌, ◌-◌, ◌≤◌, min}
use native.Mathlib.Omega.{arith}
use sayna.Prelude.Tests.{leb, ltb, if◌then◌else◌}
use mathlib.Core.Path.{◌≡◌, refl, ap}
use mathlib.Core.Bool.{true, false}

-- `negsuc n` is -(n + 1).
pub data ℤ : Type 0 where
  pos : ℕ → ℤ
  negsuc : ℕ → ℤ

abbrev pub pos_part : ℤ → ℕ
pos_part (pos n) = n
pos_part (negsuc n) = 0

abbrev pub neg_part : ℤ → ℕ
neg_part (pos n) = 0
neg_part (negsuc n) = suc n

abbrev pub sub_ℕ : ℕ → ℕ → ℤ
sub_ℕ a b = if leb b a then pos (a - b) else negsuc (b - a - 1)

infixl 65 ◌+ℤ◌
unfoldable pub ◌+ℤ◌ : ℤ → ℤ → ℤ
a +ℤ b = sub_ℕ (pos_part a + pos_part b) (neg_part a + neg_part b)

-- The values of `i16`.
abbrev pub IsI16 : ℤ → Type 0
IsI16 (pos n) = n ≤ 32767
IsI16 (negsuc n) = n ≤ 32767

abbrev pub clamp_i16 : ℤ → ℤ
clamp_i16 (pos n) = pos (min n 32767)
clamp_i16 (negsuc n) = negsuc (min n 32767)

-- `i16::saturating_add`
unfoldable pub saturating_add : ℤ → ℤ → ℤ
unfolding ◌+ℤ◌
saturating_add a b = clamp_i16 (a +ℤ b)

pub clamp_i16-IsI16 : (a : ℤ) → IsI16 (clamp_i16 a)
clamp_i16-IsI16 (pos n) = omega arith
clamp_i16-IsI16 (negsuc n) = omega arith

pub saturating_add-IsI16 : (a b : ℤ) → IsI16 (saturating_add a b)
unfolding saturating_add
saturating_add-IsI16 a b = clamp_i16-IsI16 (a +ℤ b)

-- The `i16` of a 16-bit pattern, and its pattern.
abbrev pub of_bits : ℕ → ℤ
of_bits w = if ltb w 32768 then pos w else negsuc (65535 - w)

abbrev pub to_bits : ℤ → ℕ
to_bits (pos n) = n
to_bits (negsuc n) = 65535 - n

pub of_bits-to_bits : (a : ℤ) → IsI16 a → of_bits (to_bits a) ≡ a
of_bits-to_bits (pos n) h = let e : ltb n 32768 ≡ true = ground arith in rw e refl
of_bits-to_bits (negsuc n) h =
    let e : ltb (65535 - n) 32768 ≡ false = ground arith in
    let b : 65535 - (65535 - n) ≡ n = omega arith in rw e (ap negsuc b)
