-- ===== src/Access/Tests.antt =====
-- Runs of the authentication (src/middleware/auth.rs).
use mathlib.Core.List.{Memᴰ}
use sayna.Prelude.{ℕ, true, false, none, some, [], ◌∷◌, refl, ◌≡◌, ◌↔◌}
use sayna.Prelude.Text.{Text, codes, trim, trim_start, is_whitespace}
use sayna.Prelude.Dict.{lookup, insert}
use sayna.Rooms.{Auth}
use sayna.Rooms.Metadata.{Json, get_auth_id}
use sayna.Rooms.Guard
use sayna.Rooms.Guard.{Room, details, check_room_access}
use sayna.Access.{AuthApiSecret}
use sayna.Access.Secrets.{pass, check_entries, validate_auth_api_secrets, match_api_secret_id}
use sayna.Access.Middleware.{
  Result, ok, err, unauthorized, header, AuthSettings, extract_auth_token, auth_middleware,
}
use sayna.Access.Middleware.Tenants.{own_rooms_only}

abbrev lower : Text → Text
lower t = t

abbrev acme : AuthApiSecret
acme = record { id = codes "acme"; secret = codes "s1" }

abbrev other : AuthApiSecret
other = record { id = codes "other"; secret = codes "s2" }

abbrev settings : AuthSettings
settings = record {
  auth_required = true;
  auth_api_secrets = acme ∷ other ∷ [];
  has_jwt_auth = false;
  has_auth_client = false;
}

abbrev no_service : Text → Result Auth
no_service token = err unauthorized

abbrev no_json : Json (Unit {0})
no_json = record { from_str = λ t. none; to_string = λ m. [] }

accepted : validate_auth_api_secrets lower (acme ∷ other ∷ []) ≡ pass
unfolding validate_auth_api_secrets check_entries lookup insert trim trim_start is_whitespace
accepted = refl

own_rooms_only_example :
    (f : AuthApiSecret) × Memᴰ f (acme ∷ other ∷ [])
    × (extract_auth_token (header (codes "Bearer s2")) [] ≡ ok f.secret)
    × ((room_name : Text) (room : Room) (ps : ℕ)
        → (check_room_access no_json
              (record { id = some (codes "other") })
              room_name
              (details room ps)
            ≡ Guard.ok tt)
          ↔ (get_auth_id no_json room.metadata ≡ some f.id))
unfolding auth_middleware extract_auth_token match_api_secret_id
own_rooms_only_example =
    own_rooms_only lower no_service settings no_json (header (codes "Bearer s2")) []
      (record { id = some (codes "other") }) refl accepted refl refl
