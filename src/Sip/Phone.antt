-- ===== src/Sip/Phone.antt =====
-- Phone numbers of SIP transfers (src/utils/phone_validation.rs).
use sayna.Prelude.{
  ℕ, ◌+◌, ◌==◌, leb, Bool, true, false, not, ◌&&◌, Option, none, some, [], ◌∷◌, ◌++◌, is_empty,
  if◌then◌else◌, refl, ◌≡◌, ◌↔◌, ◌⊎◌, inl, inr, Bool-cases, Option-cases, arith,
}
use sayna.Prelude.Text.{Text, codes, trim}

pub data PhoneError : Type 0 where
  empty no_digit : PhoneError
  misplaced_plus : ℕ → PhoneError
  invalid_character : ℕ → ℕ → PhoneError

pub data Result : Type 0 where
  ok : Text → Result
  err : PhoneError → Result

abbrev pub plus : ℕ
plus = 0x2b

abbrev pub is_ascii_digit : ℕ → Bool
is_ascii_digit c = leb 0x30 c && leb c 0x39

-- The loop over the digits: the first character that may not stand there, and its position.
unfoldable pub check_digits : ℕ → Text → Option PhoneError
check_digits position [] = none
check_digits position (ch ∷ rest) =
    let later = check_digits (position + 1) rest in
    if ch == plus
    then some (misplaced_plus position)
    else if not (is_ascii_digit ch)
    then some (invalid_character ch position)
    else later

abbrev pub strip_plus : Text → Option Text
strip_plus [] = none
strip_plus (c ∷ s) = if c == plus then some s else none

abbrev finish : Text → Option PhoneError → Result
finish trimmed none = ok (codes "tel:" ++ trimmed)
finish trimmed (some e) = err e

unfoldable pub check_trimmed : Text → Result
unfolding check_digits
check_trimmed trimmed = if is_empty trimmed then err empty else elim (strip_plus trimmed) [
  | some digits ↦ if is_empty digits then err no_digit else finish trimmed (check_digits 1 digits)
  | none ↦ finish trimmed (check_digits 0 trimmed)
]

unfoldable pub validate_phone_number : Text → Result
unfolding check_trimmed
validate_phone_number phone = check_trimmed (trim phone)

-- One digit or more.
abbrev pub all_digits : Text → Bool
all_digits [] = true
all_digits (c ∷ s) = is_ascii_digit c && all_digits s

-- An optional plus, and one digit or more.
abbrev pub is_number : Text → Bool
is_number [] = false
is_number (c ∷ s) = if c == plus then not (is_empty s) && all_digits s else all_digits (c ∷ s)

check_digits-all_digits : (n : ℕ) (s : Text) → (check_digits n s ≡ none) ↔ (all_digits s ≡ true)
unfolding check_digits
check_digits-all_digits n [] = ((λ e. refl), λ e. refl)
check_digits-all_digits n (c ∷ s) = ground (arith, check_digits-all_digits (n + 1) s)

-- The outcome of the loop, whether or not the text before it is a plus.
finish-cases :
    (t : Text) (n : ℕ) (digits : Text)
    → ((finish t (check_digits n digits) ≡ ok (codes "tel:" ++ t)) × (all_digits digits ≡ true))
      ⊎ ((e : PhoneError) × (finish t (check_digits n digits) ≡ err e)
          × (all_digits digits ≡ false))
finish-cases t n digits = elim (Option-cases (check_digits n digits)) [
  | inl h ↦ inl (rw h refl, (check_digits-all_digits n digits).0 h)
  | inr (e, h) ↦ inr (e, rw h refl, ground (arith, check_digits-all_digits n digits, h))
]

number-cases :
    (t : Text)
    → ((check_trimmed t ≡ ok (codes "tel:" ++ t)) × (is_number t ≡ true))
      ⊎ ((e : PhoneError) × (check_trimmed t ≡ err e) × (is_number t ≡ false))
unfolding check_trimmed
number-cases [] = inr (empty, refl, refl)
number-cases (c ∷ []) = elim (Bool-cases (c == plus)) [
  | inl p ↦ rw p (inr (no_digit, refl, refl))
  | inr p ↦ rw p (finish-cases (c ∷ []) 0 (c ∷ []))
]
number-cases (c ∷ d ∷ s) = elim (Bool-cases (c == plus)) [
  | inl p ↦ rw p (finish-cases (c ∷ d ∷ s) 1 (d ∷ s))
  | inr p ↦ rw p (finish-cases (c ∷ d ∷ s) 0 (c ∷ d ∷ s))
]

-- A phone number is accepted exactly when, less the blanks around it, it is one ASCII digit or more
-- after at most one plus, and then it is given back with the scheme `tel:`.
pub validate_phone_number-is_number :
    (phone : Text)
    → ((validate_phone_number phone ≡ ok (codes "tel:" ++ trim phone))
        × (is_number (trim phone) ≡ true))
      ⊎ ((e : PhoneError) × (validate_phone_number phone ≡ err e)
          × (is_number (trim phone) ≡ false))
unfolding validate_phone_number
validate_phone_number-is_number phone = number-cases (trim phone)
