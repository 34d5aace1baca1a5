-- ===== src/Prelude/Split.antt =====
-- Texts split at the first place of a character.
use Prim.Native.Nat.{ℕ}
use mathlib.Core.Path.{◌≡◌, refl, ap, ◌∙◌}
use mathlib.Core.Bool.{false}
use mathlib.Core.List.{[], ◌∷◌, ◌++◌}
use native.Mathlib.Omega.{arith}
use sayna.Prelude.Tests.{◌==◌}
use sayna.Prelude.Text.{Text}

-- The character is not in the text.
abbrev pub Lacks : ℕ → Text → Type 0
Lacks c [] = Unit {0}
Lacks c (d ∷ s) = ((d == c) ≡ false) × Lacks c s

pub Lacks-append : (c : ℕ) (p q : Text) → Lacks c p → Lacks c q → Lacks c (p ++ q)
Lacks-append c [] q hp hq = hq
Lacks-append c (d ∷ p) q (n, hp) hq = (n, Lacks-append c p q hp hq)

-- Texts that agree, split at the first `c` of each, agree before it and after it.
pub split_unique :
    (c : ℕ) (p p' q q' : Text)
    → Lacks c p
    → Lacks c p'
    → p ++ (c ∷ q) ≡ p' ++ (c ∷ q')
    → (p ≡ p') × (q ≡ q')
split_unique c [] [] q q' h h' e = (refl, ground (arith, e))
split_unique c [] (d ∷ p') q q' h (n, h') e = absurd (ground (arith, e, n))
split_unique c (d ∷ p) [] q q' (n, h) h' e = absurd (ground (arith, e, n))
split_unique c (d ∷ p) (d' ∷ p') q q' (n, h) (n', h') e =
    let first : d ≡ d' = ground (arith, e) in
    let rest : p ++ (c ∷ q) ≡ p' ++ (c ∷ q') = ground (arith, e) in
    let (same, same') = split_unique c p p' q q' h h' rest in
    (ap (λ (k : ℕ). k ∷ p) first ∙ ap (◌∷◌ d') same, same')
