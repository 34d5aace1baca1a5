-- ===== src/Prelude/Trim.antt =====
-- `str::trim` done twice.
use Prim.Native.Nat.{ℕ}
use mathlib.Core.Path.{◌≡◌, refl, ap, ◌∙◌}
use mathlib.Core.Logic.{◌⊎◌, inl, inr}
use mathlib.Core.Bool.{false}
use mathlib.Core.List.{[], ◌∷◌, ◌++◌, reverse, reverse-cons, reverse-append, reverse-reverse}
use sayna.Prelude.Tests.{Bool-cases}
use sayna.Prelude.Text.{Text, trim, trim_start, is_whitespace}

trim_start-end :
    (s : Text) (c : ℕ)
    → is_whitespace c ≡ false
    → trim_start (s ++ (c ∷ [])) ≡ trim_start s ++ (c ∷ [])
unfolding trim_start
trim_start-end [] c h = rw h refl
trim_start-end (x ∷ s) c h = elim (Bool-cases (is_whitespace x)) [
  | inl e ↦ rw (trim_start, e) (trim_start-end s c h)
  | inr e ↦ rw (trim_start, e) refl
]

-- A text is empty, or starts with a character that is no blank, once its start is trimmed.
trim_start-cases :
    (s : Text)
    → (trim_start s ≡ [])
      ⊎ ((c : ℕ) × (t : Text) × (trim_start s ≡ c ∷ t) × (is_whitespace c ≡ false))
unfolding trim_start
trim_start-cases [] = inl refl
trim_start-cases (x ∷ s) = elim (Bool-cases (is_whitespace x)) [
  | inl e ↦ rw (trim_start, e) (trim_start-cases s)
  | inr e ↦ inr (x, s, rw e refl, e)
]

trim_start-trim_start : (s : Text) → trim_start (trim_start s) ≡ trim_start s
unfolding trim_start
trim_start-trim_start s = elim (trim_start-cases s) [
  | inl e ↦ rw e refl
  | inr (c, t, e, h) ↦ rw e (rw h refl)
]

abbrev trim_end : Text → Text
trim_end s = reverse (trim_start (reverse s))

trim_end-head : (c : ℕ) (t : Text) → is_whitespace c ≡ false → trim_end (c ∷ t) ≡ c ∷ trim_end t
trim_end-head c t h =
    ap (λ (l : Text). reverse (trim_start l)) (reverse-cons c t)
    ∙ ap reverse (trim_start-end (reverse t) c h)
    ∙ reverse-append (trim_start (reverse t)) (c ∷ [])

trim_end-trim_end : (s : Text) → trim_end (trim_end s) ≡ trim_end s
trim_end-trim_end s =
    ap (λ (l : Text). reverse (trim_start l)) (reverse-reverse (trim_start (reverse s)))
    ∙ ap reverse (trim_start-trim_start (reverse s))

pub trim-trim : (s : Text) → trim (trim s) ≡ trim s
unfolding trim
trim-trim s = elim (trim_start-cases s) [
  | inl e ↦ rw e refl
  | inr (c, t, e, h) ↦
      let first : trim_start (trim_end (c ∷ t)) ≡ trim_end (c ∷ t) =
        rw (trim_end-head c t h) (unfold trim_start in rw h refl) in
      rw e (ap trim_end first ∙ trim_end-trim_end (c ∷ t))
]
