-- ===== src/Webhook/Domain.antt =====
-- The host in a SIP header (src/handlers/livekit/webhook.rs, `parse_sip_domain`). Positions count
-- characters where the source's count bytes; both cut at the same places. A slice whose end is before
-- its start panics.
pub mod Parsed
pub mod Panics
use sayna.Prelude.{
  ℕ, suc, ◌+◌, ◌-◌, ltb, leb, Bool, true, false, not, ◌&&◌, ◌||◌, Option, none, some, List, [], ◌∷◌,
  ◌++◌, is_empty, is_none, is_some, or_option, take, drop, if◌then◌else◌, ◌==◌,
}
use sayna.Prelude.Text.{Text, codes, trim}
use sayna.Rooms.Guard.{starts_with, contains}
use sayna.Access.Middleware.{strip_prefix}

-- What a call that may panic comes to.
pub data Outcome (A : Type 0) : Type 0 where
  panics : Outcome A
  value : A → Outcome A

-- `str::find` of a character.
unfoldable pub find : ℕ → Text → Option ℕ
find c [] = none
find c (d ∷ s) =
    let rest : Option ℕ = find c s in
    if d == c then some 0 else elim rest [ none ↦ none | some i ↦ some (suc i) ]

-- `&s[i..j]`
unfoldable pub slice : ℕ → ℕ → Text → Outcome Text
slice i j s = if ltb j i then panics else value (take (j - i) (drop i s))

-- The address between angle brackets, or the whole header.
unfoldable pub address : Text → Outcome Text
unfolding find slice
address header = elim (find 60 header) [
  | none ↦ value header
  | some start ↦ elim (find 62 header) [
    | none ↦ value header
    | some end ↦ slice (start + 1) end header
  ]
]

-- `split(c).next()`
unfoldable pub before : ℕ → Text → Text
before c [] = []
before c (d ∷ s) = if d == c then [] else d ∷ before c s

-- The text after the first `c`.
unfoldable pub after : ℕ → Text → Option Text
after c [] = none
after c (d ∷ s) = if d == c then some s else after c s

-- The texts around the last `c`, as `rfind` finds it.
unfoldable pub around_last : ℕ → Text → Option (Text × Text)
around_last c [] = none
around_last c (d ∷ s) = elim (around_last c s) [
  | some (p, q) ↦ some (d ∷ p, q)
  | none ↦ if d == c then some ([], s) else none
]

abbrev all_digits : Text → Bool
all_digits [] = true
all_digits (c ∷ s) = leb 48 c && leb c 57 && all_digits s

-- A bare host, less its port.
unfoldable pub without_port : Text → Text
unfolding around_last
without_port uri = elim (around_last 58 uri) [
  | none ↦ uri
  | some (host, potential_port) ↦
      if all_digits potential_port && not (is_empty potential_port) then host else uri
]

-- What follows the scheme of a SIP address.
unfoldable pub sip_part : Text → Option Text
sip_part uri = or_option (strip_prefix (codes "sip:") uri) (strip_prefix (codes "sips:") uri)

-- The host after the user of a SIP address.
unfoldable pub host_of_user : Text → Option Text
unfolding sip_part after
host_of_user uri = elim (sip_part uri) [ none ↦ none | some part ↦ after 64 part ]

module _ (lower : Text → Text) where
  unfoldable pub plain_host : Text → Option Text
  unfolding without_port contains
  plain_host uri =
      if not (is_empty uri)
        && not (starts_with (codes "sip:") uri || starts_with (codes "sips:") uri)
        && contains (codes ".") uri
        && not (contains (codes " ") uri)
        && not (contains (codes "@") uri)
      then (if is_empty (without_port uri) then none else some (lower (without_port uri)))
      else none

  unfoldable pub parse_uri : Text → Option Text
  unfolding host_of_user plain_host
  parse_uri uri = elim (host_of_user uri) [
    | some domain ↦ some (lower (trim domain))
    | none ↦ plain_host (trim uri)
  ]

  -- A header less the blanks around it.
  unfoldable pub parse_trimmed : Text → Outcome (Option Text)
  unfolding address before parse_uri
  parse_trimmed [] = value none
  parse_trimmed (c ∷ header) = elim (address (c ∷ header)) [
    | panics ↦ panics
    | value uri ↦ value (parse_uri (before 59 uri))
  ]

  unfoldable pub parse_sip_domain : Text → Outcome (Option Text)
  unfolding parse_trimmed
  parse_sip_domain header = parse_trimmed (trim header)
