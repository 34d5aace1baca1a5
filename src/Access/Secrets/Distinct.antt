-- ===== src/Access/Secrets/Distinct.antt =====
-- Accepted secrets tell their owners apart (src/config/validation.rs, src/auth/api_secret.rs).
use mathlib.Core.List.{Memᴰ}
use sayna.Prelude.{
  ℕ, ◌+◌, false, none, some, List, [], ◌∷◌, is_empty, refl, sym, ◌≡◌, inl, inr, Bool-cases, arith,
}
use sayna.Prelude.Text.{Text, text_eq, text_eq_iff, trim}
use sayna.Prelude.Dict.{lookup, insert, lookup-insert}
use sayna.Access.{AuthApiSecret}
use sayna.Access.Secrets.{pass, check_entries, validate_auth_api_secrets, match_api_secret_id}

-- An id that is trimmed and not empty.
abbrev pub IsTrimmed : Text → Type 0
IsTrimmed id = (is_empty id ≡ false) × (trim id ≡ id)

abbrev AllNew : List AuthApiSecret → List (Text × Text) → Type 0
AllNew [] seen = Unit {0}
AllNew (e ∷ es) seen =
    (lookup e.secret seen ≡ none) × IsTrimmed e.id × AllNew es (insert e.secret e.id seen)

module _ (lower : Text → Text) where
  check_entries-AllNew :
      (index : ℕ) (es : List AuthApiSecret) (ids secrets : List (Text × Text))
      → check_entries lower index es ids secrets ≡ pass
      → AllNew es secrets
  unfolding check_entries
  check_entries-AllNew index [] ids secrets e = tt
  check_entries-AllNew index (entry ∷ es) ids secrets e =
      let rest : check_entries lower (index + 1) es (insert (lower (trim entry.id)) entry.id ids)
            (insert entry.secret entry.id secrets)
          ≡ pass =
        ground (arith, e) in
      let trimmed : trim entry.id ≡ entry.id =
        ground (arith, e, text_eq_iff (trim entry.id) entry.id) in
      let some_id : is_empty (trim entry.id) ≡ false = ground (arith, e) in
      (
        ground (arith, e),
        (rw (sym trimmed) some_id, trimmed),
        check_entries-AllNew (index + 1) es _ _ rest,
      )

Memᴰ-new :
    (es : List AuthApiSecret) (seen : List (Text × Text)) (f : AuthApiSecret)
    → AllNew es seen
    → Memᴰ f es
    → (lookup f.secret seen ≡ none) × IsTrimmed f.id
Memᴰ-new [] seen f n m = elim m [ ]
Memᴰ-new (e ∷ es) seen f (new, trimmed, n) (Memᴰ.head same) = rw same (new, trimmed)
Memᴰ-new (e ∷ es) seen f (new, trimmed, n) (Memᴰ.tail t) =
    let (later, trimmed') = Memᴰ-new es (insert e.secret e.id seen) f n t in
    (ground (arith, later, lookup-insert e.secret f.secret e.id seen), trimmed')

match_api_secret_id-found :
    (es : List AuthApiSecret) (seen : List (Text × Text)) (f : AuthApiSecret)
    → AllNew es seen
    → Memᴰ f es
    → match_api_secret_id f.secret es ≡ some f.id
unfolding match_api_secret_id
match_api_secret_id-found [] seen f n m = elim m [ ]
match_api_secret_id-found (e ∷ es) seen f n (Memᴰ.head same) =
    rw same (ground (arith, text_eq_iff e.secret e.secret))
match_api_secret_id-found (e ∷ es) seen f (new, trimmed, n) (Memᴰ.tail t) =
    let (later, trimmed') = Memᴰ-new es (insert e.secret e.id seen) f n t in
    ground (
      arith,
      later,
      lookup-insert e.secret f.secret e.id seen,
      text_eq_iff e.secret f.secret,
      text_eq_iff f.secret e.secret,
      match_api_secret_id-found es (insert e.secret e.id seen) f n t,
    )

match_api_secret_id-from :
    (es : List AuthApiSecret) (token id : Text)
    → match_api_secret_id token es ≡ some id
    → (f : AuthApiSecret) × Memᴰ f es × (f.secret ≡ token) × (f.id ≡ id)
unfolding match_api_secret_id
match_api_secret_id-from [] token id h = absurd (ground arith)
match_api_secret_id-from (e ∷ es) token id h = elim (Bool-cases (text_eq token e.secret)) [
  | inl y ↦ (e, Memᴰ.head refl, ground (arith, text_eq_iff token e.secret), ground (arith, h, y))
  | inr n ↦
      let (f, there, s, i) = match_api_secret_id-from es token id (ground (arith, h, n)) in
      (f, Memᴰ.tail there, s, i)
]

-- Where the secrets passed their checks, the secret of each entry is matched to the id of that entry,
-- which is trimmed and not empty; and a token that is matched is the secret of an entry with that id.
pub accepted_secrets :
    (lower : Text → Text) (secrets : List AuthApiSecret)
    → validate_auth_api_secrets lower secrets ≡ pass
    → ((f : AuthApiSecret)
        → Memᴰ f secrets
        → (match_api_secret_id f.secret secrets ≡ some f.id) × IsTrimmed f.id)
      × ((token id : Text)
          → match_api_secret_id token secrets ≡ some id
          → (f : AuthApiSecret) × Memᴰ f secrets × (f.secret ≡ token) × (f.id ≡ id))
unfolding validate_auth_api_secrets
accepted_secrets lower secrets e =
    let n : AllNew secrets [] = check_entries-AllNew lower 0 secrets [] [] e in
    (
      (λ f m. (match_api_secret_id-found secrets [] f n m, (Memᴰ-new secrets [] f n m).1)),
      match_api_secret_id-from secrets,
    )
