-- ===== src/Config/Parse.antt =====
-- The texts of variables (src/config/merge.rs): numbers and lists.
use sayna.Prelude.{
  ℕ, ◌+◌, ◌-◌, ◌*◌, ltb, leb, ◌==◌, ◌&&◌, Option, none, some, List, [], ◌∷◌, map, is_empty,
  if◌then◌else◌,
}
use sayna.Prelude.Text.{Text, trim}

abbrev parse_digits : ℕ → Text → Option ℕ
parse_digits a [] = some a
parse_digits a (c ∷ s) = if leb 48 c && leb c 57 then parse_digits (a * 10 + (c - 48)) s else none

abbrev below : ℕ → Option ℕ → Option ℕ
below limit none = none
below limit (some n) = if ltb n limit then some n else none

-- `str::parse` of an unsigned number below `limit`, which may have a "+".
unfoldable pub parse_unsigned : ℕ → Text → Option ℕ
parse_unsigned limit [] = none
parse_unsigned limit (c ∷ s) =
    if c == 43
    then (if is_empty s then none else below limit (parse_digits 0 s))
    else below limit (parse_digits 0 (c ∷ s))

abbrev cons_first : ℕ → List Text → List Text
cons_first c [] = (c ∷ []) ∷ []
cons_first c (s ∷ ss) = (c ∷ s) ∷ ss

unfoldable pub split_commas : Text → List Text
split_commas [] = [] ∷ []
split_commas (c ∷ s) = let rest = split_commas s in if c == 44 then [] ∷ rest else cons_first c rest

unfoldable pub drop_empty : List Text → List Text
drop_empty [] = []
drop_empty (s ∷ ss) = let rest = drop_empty ss in if is_empty s then rest else s ∷ rest

abbrev pub from_env_list : Option Text → List Text
from_env_list none = []
from_env_list (some addresses) = drop_empty (map trim (split_commas addresses))
