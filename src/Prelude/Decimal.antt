-- ===== src/Prelude/Decimal.antt =====
-- `u64::to_string`: decimal digits, the first one not 0 unless it is alone. A number of 64 bits has at
-- most 20 digits.
use Prim.Native.Nat.{ℕ, zero, suc, ◌+◌, ◌-◌, ◌*◌, ◌/◌, ◌%◌, ◌^◌, ◌<◌}
use mathlib.Core.Path.{◌≡◌, refl, ap, sym, ◌∙◌}
use mathlib.Core.Logic.{inl, inr}
use mathlib.Core.Bool.{false}
use mathlib.Core.List.{[], ◌∷◌, ◌++◌}
use native.Mathlib.Omega.{arith}
use sayna.Prelude.Tests.{ltb, if◌then◌else◌, ◌==◌, Bool-cases}
use sayna.Prelude.Text.{Text}
use sayna.Prelude.Split.{Lacks, Lacks-append}

unfoldable pub digits : ℕ → ℕ → Text
digits zero n = []
digits (suc f) n =
    let rest = digits f (n / 10) in if ltb n 10 then (48 + n) ∷ [] else rest ++ ((48 + n % 10) ∷ [])

unfoldable pub show : ℕ → Text
unfolding digits
show n = digits 20 n

-- The number that digits stand for, after those that stand for `a`.
abbrev read_from : ℕ → Text → ℕ
read_from a [] = a
read_from a (c ∷ s) = read_from (a * 10 + (c - 48)) s

read_from-append :
    (a c : ℕ) (s : Text) → read_from a (s ++ (c ∷ [])) ≡ read_from a s * 10 + (c - 48)
read_from-append a c [] = refl
read_from-append a c (d ∷ s) = read_from-append (a * 10 + (d - 48)) c s

read_from-digits : (f n : ℕ) → n < 10 ^ f → read_from 0 (digits f n) ≡ n
unfolding digits
read_from-digits zero n h = omega (arith, h)
read_from-digits (suc f) n h = elim (Bool-cases (ltb n 10)) [
  | inl y ↦ rw (digits, y) (omega arith)
  | inr big ↦
      let smaller : n / 10 < 10 ^ f = omega (arith, h) in
      rw (digits, big)
        (read_from-append 0 (48 + n % 10) (digits f (n / 10))
          ∙ omega (arith, read_from-digits f (n / 10) smaller))
]

-- No digit is this character.
abbrev pub IsNoDigit : ℕ → Type 0
IsNoDigit c = (n : ℕ) → n < 10 → ((48 + n) == c) ≡ false

digits-Lacks : (c f n : ℕ) → IsNoDigit c → Lacks c (digits f n)
unfolding digits
digits-Lacks c zero n h = tt
digits-Lacks c (suc f) n h = elim (Bool-cases (ltb n 10)) [
  | inl y ↦ rw (digits, y) (h n (ground (arith, y)), tt)
  | inr big ↦
      rw (digits, big)
        (Lacks-append c (digits f (n / 10)) ((48 + n % 10) ∷ []) (digits-Lacks c f (n / 10) h)
          (h (n % 10) (omega arith), tt))
]

pub show-Lacks : (c n : ℕ) → IsNoDigit c → Lacks c (show n)
unfolding show
show-Lacks c n h = digits-Lacks c 20 n h

pub show_injective : (m n : ℕ) → m < 2 ^ 64 → n < 2 ^ 64 → show m ≡ show n → m ≡ n
unfolding show
show_injective m n hm hn e =
    sym (read_from-digits 20 m (omega (arith, hm)))
    ∙ ap (read_from 0) e
    ∙ read_from-digits 20 n (omega (arith, hn))
