-- ===== src/Prelude/Dict.antt =====
-- `HashMap<String, V>` and `HashSet<String>` as association lists. The order of the entries means
-- nothing in the source; only what `lookup` shows is stated of them.
use mathlib.Core.Path.{◌≡◌, refl, sym}
use mathlib.Core.Logic.{inl, inr}
use mathlib.Core.Option.{Option, none, some}
use mathlib.Core.List.{List, [], ◌∷◌}
use native.Mathlib.Omega.{arith}
use sayna.Prelude.Tests.{Bool-cases, if◌then◌else◌}
use sayna.Prelude.Text.{Text, text_eq, text_eq_iff}

module _ {ℓ} {V : Type ℓ} where
  unfoldable pub lookup : Text → List (Text × V) → Option V
  lookup k [] = none
  lookup k ((j, v) ∷ m) = if text_eq j k then some v else lookup k m

  unfoldable pub insert : Text → V → List (Text × V) → List (Text × V)
  insert k v [] = (k, v) ∷ []
  insert k v ((j, w) ∷ m) = if text_eq j k then (k, v) ∷ m else (j, w) ∷ insert k v m

  unfoldable pub remove : Text → List (Text × V) → List (Text × V)
  remove k [] = []
  remove k ((j, w) ∷ m) = let rest = remove k m in if text_eq j k then rest else (j, w) ∷ rest

  pub lookup-insert :
      (k j : Text) (v : V) (m : List (Text × V))
      → lookup j (insert k v m) ≡ (if text_eq k j then some v else lookup j m)
  unfolding lookup insert
  lookup-insert k j v [] = refl
  lookup-insert k j v ((i, w) ∷ m) =
      ground (arith, text_eq_iff k j, text_eq_iff i k, text_eq_iff i j, lookup-insert k j v m)

  pub lookup-remove :
      (k j : Text) (m : List (Text × V))
      → lookup j (remove k m) ≡ (if text_eq k j then none else lookup j m)
  unfolding lookup remove
  lookup-remove k j [] = ground arith
  lookup-remove k j ((i, w) ∷ m) =
      ground (arith, text_eq_iff k j, text_eq_iff i k, text_eq_iff i j, lookup-remove k j m)

pub ruleset dict_laws = (lookup-insert, lookup-remove)

-- No key twice.
abbrev pub IsUnique {ℓ} : {V : Type ℓ} → List (Text × V) → Type ℓ
IsUnique [] = Unit
IsUnique ((k, v) ∷ m) = (lookup k m ≡ none) × IsUnique m

module _ {ℓ} {V : Type ℓ} where
  pub insert-IsUnique :
      (k : Text) (v : V) (m : List (Text × V)) → IsUnique m → IsUnique (insert k v m)
  unfolding insert lookup
  insert-IsUnique k v [] u = (refl, tt)
  insert-IsUnique k v ((j, w) ∷ m) (fresh, u) = elim (Bool-cases (text_eq j k)) [
    | inl e ↦ rw (insert, e) (rw (sym ((text_eq_iff j k).0 e)) fresh, u)
    | inr e ↦
        rw (insert, e)
          (
            rw (lookup-insert k j v m) (ground (arith, text_eq_iff j k, text_eq_iff k j)),
            insert-IsUnique k v m u,
          )
  ]
