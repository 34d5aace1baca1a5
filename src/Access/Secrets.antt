-- ===== src/Access/Secrets.antt =====
-- The secrets of the API: their checks at start-up (src/config/validation.rs) and the match of a token
-- (src/auth/api_secret.rs). `lower` is `str::to_lowercase`.
pub mod Distinct
use sayna.Prelude.{
  ℕ, ◌+◌, Bool, true, false, not, ◌&&◌, Option, none, some, List, [], ◌∷◌, is_some, is_empty,
  if◌then◌else◌,
}
use sayna.Prelude.Text.{Text, text_eq, trim}
use sayna.Prelude.Dict.{lookup, insert}
use sayna.Access.{AuthApiSecret}

pub data AuthConfigError : Type 0 where
  service_url_required signing_key_required signing_key_missing no_auth_method : AuthConfigError
  empty_id : ℕ → AuthConfigError
  untrimmed_id duplicate_id empty_secret : Text → AuthConfigError
  reused_secret : Text → Text → AuthConfigError

pub data Check : Type 0 where
  pass : Check
  fail : AuthConfigError → Check

-- `exists` tells whether the file of the signing key is there.
unfoldable pub validate_jwt_auth : (Text → Bool) → Option Text → Option Text → Check
validate_jwt_auth exists none none = pass
validate_jwt_auth exists none (some key_path) = fail service_url_required
validate_jwt_auth exists (some url) none = fail signing_key_required
validate_jwt_auth exists (some url) (some key_path) =
    if exists key_path then pass else fail signing_key_missing

unfoldable pub validate_auth_required :
    Bool → Option Text → Option Text → List AuthApiSecret → Check
validate_auth_required auth_required url key_path secrets =
    if not auth_required
    then pass
    else if not (is_some url && is_some key_path) && is_empty secrets
    then fail no_auth_method
    else pass

module _ (lower : Text → Text) where
  -- The loop: the ids and the secrets seen so far are maps, and `index` is the entry's place.
  unfoldable pub check_entries :
      ℕ → List AuthApiSecret → List (Text × Text) → List (Text × Text) → Check
  check_entries index [] seen_ids seen_secrets = pass
  check_entries index (entry ∷ entries) seen_ids seen_secrets =
      let rest =
        check_entries (index + 1) entries (insert (lower (trim entry.id)) entry.id seen_ids)
          (insert entry.secret entry.id seen_secrets) in
      if is_empty (trim entry.id)
      then fail (empty_id index)
      else if not (text_eq (trim entry.id) entry.id)
      then fail (untrimmed_id entry.id)
      else if is_some (lookup (lower (trim entry.id)) seen_ids)
      then fail (duplicate_id entry.id)
      else if is_empty (trim entry.secret)
      then fail (empty_secret entry.id)
      else elim (lookup entry.secret seen_secrets) [
        | some existing_id ↦ fail (reused_secret entry.id existing_id)
        | none ↦ rest
      ]

  unfoldable pub validate_auth_api_secrets : List AuthApiSecret → Check
  unfolding check_entries
  validate_auth_api_secrets auth_api_secrets = check_entries 0 auth_api_secrets [] []

-- Texts are equal exactly if their bytes are.
abbrev pub api_secret_matches : Text → Text → Bool
api_secret_matches token secret = text_eq token secret

unfoldable pub match_api_secret_id : Text → List AuthApiSecret → Option Text
match_api_secret_id token [] = none
match_api_secret_id token (entry ∷ secrets) =
    if api_secret_matches token entry.secret
    then some entry.id
    else match_api_secret_id token secrets
