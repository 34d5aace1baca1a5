-- ===== src/Access/Middleware.antt =====
-- The token of a request (src/auth/extractor.rs) and the authentication before the handlers
-- (src/middleware/auth.rs). The parsed query and the answer of the authentication service are input.
pub mod Tenants
use sayna.Prelude.{
  Bool, true, false, not, Option, none, some, List, [], ◌∷◌, is_empty, is_none, if◌then◌else◌, ◌==◌,
}
use sayna.Prelude.Text.{Text, codes, text_eq, trim}
use sayna.Rooms.{Auth}
use sayna.Access.{AuthApiSecret}
use sayna.Access.Secrets.{match_api_secret_id}

pub data AuthError : Type 0 where
  missing_auth_header invalid_auth_header unauthorized client_not_initialized no_auth_method :
      AuthError
  from_service : AuthError

pub data Result (A : Type 0) : Type 0 where
  ok : A → Result A
  err : AuthError → Result A

-- The header "authorization": missing, not a text, or a text.
pub data Header : Type 0 where
  missing not_a_text : Header
  header : Text → Header

abbrev pub strip_prefix : Text → Text → Option Text
strip_prefix [] s = some s
strip_prefix (c ∷ p) [] = none
strip_prefix (c ∷ p) (d ∷ s) = if c == d then strip_prefix p s else none

unfoldable pub extract_api_key : List (Text × Text) → Option Text
extract_api_key [] = none
extract_api_key ((key, value) ∷ query) =
    let rest = extract_api_key query in
    if text_eq key (codes "api_key")
    then (if is_empty (trim value) then rest else some value)
    else rest

abbrev or_error : Option Text → AuthError → Result Text
or_error none e = err e
or_error (some token) e = ok token

unfoldable pub extract_auth_token : Header → List (Text × Text) → Result Text
unfolding extract_api_key
extract_auth_token missing query = or_error (extract_api_key query) missing_auth_header
extract_auth_token not_a_text query = or_error (extract_api_key query) invalid_auth_header
extract_auth_token (header auth_header) query = elim (strip_prefix (codes "Bearer ") auth_header) [
  | none ↦ or_error (extract_api_key query) invalid_auth_header
  | some token ↦
      if is_empty token then or_error (extract_api_key query) invalid_auth_header else ok token
]

pub record AuthSettings : Type 0 where
  pub auth_required : Bool
  pub auth_api_secrets : List AuthApiSecret
  pub has_jwt_auth : Bool
  pub has_auth_client : Bool

-- Whom the request goes on as, or the refusal. `service` is what the service says of a token.
unfoldable pub auth_middleware :
    (Text → Result Auth) → AuthSettings → Header → List (Text × Text) → Result Auth
unfolding extract_auth_token
auth_middleware service settings auth_header query =
    if not settings.auth_required
    then ok (record { id = none })
    else elim (extract_auth_token auth_header query) [
      | err e ↦ err e
      | ok token ↦
          if not (is_empty settings.auth_api_secrets)
          then elim (match_api_secret_id token settings.auth_api_secrets) [
            | some secret_id ↦ ok (record { id = some secret_id })
            | none ↦ err unauthorized
          ]
          else if not settings.has_jwt_auth
          then err no_auth_method
          else if not settings.has_auth_client
          then err client_not_initialized
          else service token
    ]
