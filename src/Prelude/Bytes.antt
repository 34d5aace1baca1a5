-- ===== src/Prelude/Bytes.antt =====
-- Bytes and 16-bit samples: `i16::from_le_bytes`, `i16::to_le_bytes` and `chunks_exact(2)`. A sample
-- is its bit pattern, a number below 2 ^ 16.
use sayna.Prelude.Lists.{length}
use Prim.Native.Nat.{ℕ, ◌+◌, ◌-◌, ◌*◌, ◌/◌, ◌%◌, ◌<◌}
use mathlib.Core.Path.{◌≡◌, refl, ap₂}
use mathlib.Core.List.{List, [], ◌∷◌}
use native.Mathlib.Omega.{arith}

abbrev pub from_le_bytes : ℕ → ℕ → ℕ
from_le_bytes lo hi = lo + 256 * hi

-- `chunks_exact(2)` drops an odd last byte.
unfoldable pub samples_of_bytes : List ℕ → List ℕ
samples_of_bytes [] = []
samples_of_bytes (lo ∷ []) = []
samples_of_bytes (lo ∷ hi ∷ bs) = from_le_bytes lo hi ∷ samples_of_bytes bs

unfoldable pub bytes_of_samples : List ℕ → List ℕ
bytes_of_samples [] = []
bytes_of_samples (x ∷ xs) = x % 256 ∷ (x / 256) ∷ bytes_of_samples xs

abbrev pub AllBelow : ℕ → List ℕ → Type 0
AllBelow n [] = Unit {0}
AllBelow n (x ∷ xs) = (x < n) × AllBelow n xs

pub samples_of_bytes-bytes_of_samples : (xs : List ℕ) → samples_of_bytes (bytes_of_samples xs) ≡ xs
unfolding samples_of_bytes bytes_of_samples
samples_of_bytes-bytes_of_samples [] = refl
samples_of_bytes-bytes_of_samples (x ∷ xs) =
    ap₂ ◌∷◌ (omega arith) (samples_of_bytes-bytes_of_samples xs)

pub bytes_of_samples-samples_of_bytes :
    (bs : List ℕ) (n : ℕ)
    → AllBelow 256 bs
    → length bs ≡ 2 * n
    → bytes_of_samples (samples_of_bytes bs) ≡ bs
unfolding samples_of_bytes bytes_of_samples
bytes_of_samples-samples_of_bytes [] n a e = refl
bytes_of_samples-samples_of_bytes (lo ∷ []) n a e = absurd (omega arith)
bytes_of_samples-samples_of_bytes (lo ∷ hi ∷ bs) n a e =
    ap₂ ◌∷◌ (omega arith)
      (ap₂ ◌∷◌ (omega arith) (bytes_of_samples-samples_of_bytes bs (n - 1) a.1.1 (omega arith)))

pub samples-below : (bs : List ℕ) → AllBelow 256 bs → AllBelow 65536 (samples_of_bytes bs)
unfolding samples_of_bytes
samples-below [] a = tt
samples-below (lo ∷ []) a = tt
samples-below (lo ∷ hi ∷ bs) a = (omega arith, samples-below bs a.1.1)

pub length-samples_of_bytes : (bs : List ℕ) → length (samples_of_bytes bs) ≡ length bs / 2
unfolding samples_of_bytes
length-samples_of_bytes [] = omega arith
length-samples_of_bytes (lo ∷ []) = omega arith
length-samples_of_bytes (lo ∷ hi ∷ bs) = omega (arith, length-samples_of_bytes bs)
