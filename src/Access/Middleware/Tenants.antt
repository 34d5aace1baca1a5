-- ===== src/Access/Middleware/Tenants.antt =====
-- From the secret of a request to the rooms it gets at (src/middleware/auth.rs,
-- src/handlers/livekit/room_guard.rs).
use mathlib.Core.List.{Memᴰ}
use sayna.Prelude.{
  true, false, some, List, ◌++◌, is_empty, refl, ap, sym, ◌≡◌, ◌∙◌, ◌↔◌, ◌⊎◌, Option-cases, inl,
  inr, arith,
}
use sayna.Prelude.Text.{Text, codes}
use sayna.Rooms.{Auth, effective_id}
use sayna.Rooms.Metadata.{Json, get_auth_id}
use sayna.Rooms.Guard
use sayna.Rooms.Guard.{Room, details, check_room_access}
use sayna.Rooms.Guard.Isolation.{check_room_access_iff}
use sayna.Access.{AuthApiSecret}
use sayna.Access.Secrets.{pass, validate_auth_api_secrets, match_api_secret_id}
use sayna.Access.Secrets.Distinct.{IsTrimmed, accepted_secrets}
use sayna.Access.Middleware.{
  AuthError, Result, ok, err, Header, header, AuthSettings, extract_auth_token, auth_middleware,
}

effective_id-IsTrimmed :
    (id : Text) → IsTrimmed id → effective_id (record { id = some id }) ≡ some id
unfolding effective_id
effective_id-IsTrimmed id (some_id, trimmed) = rw (trimmed, some_id) refl

Result-cases :
    {A : Type 0} (r : Result A) → ((a : A) × (r ≡ ok a)) ⊎ ((e : AuthError) × (r ≡ err e))
Result-cases (ok a) = inl (a, refl)
Result-cases (err e) = inr (e, refl)

-- What let a request go on.
goes_on-token :
    (service : Text → Result Auth) (settings : AuthSettings) (auth_header : Header)
    (query : List (Text × Text)) (auth : Auth)
    → settings.auth_required ≡ true
    → is_empty settings.auth_api_secrets ≡ false
    → auth_middleware service settings auth_header query ≡ ok auth
    → (token : Text) × (id : Text) × (extract_auth_token auth_header query ≡ ok token)
      × (match_api_secret_id token settings.auth_api_secrets ≡ some id)
      × (record { id = some id } ≡ auth)
unfolding auth_middleware
goes_on-token service settings auth_header query auth required some_secrets e =
    elim (Result-cases (extract_auth_token auth_header query)) [
      | inr (x, r) ↦ absurd (ground (arith, e, r, required))
      | inl (token, r) ↦ elim (Option-cases (match_api_secret_id token settings.auth_api_secrets)) [
        | inl n ↦ absurd (ground (arith, e, r, n, required, some_secrets))
        | inr (id, m) ↦ (token, id, r, m, ground (arith, e, r, m, required, some_secrets))
      ]
    ]

module _ (lower : Text → Text) (service : Text → Result Auth) (settings : AuthSettings) where
  -- Where authentication is required by secrets that passed their checks, a request that carries the
  -- secret of an entry goes on as the tenant of that entry.
  pub bearer_goes_on :
      (f : AuthApiSecret) (query : List (Text × Text))
      → settings.auth_required ≡ true
      → validate_auth_api_secrets lower settings.auth_api_secrets ≡ pass
      → is_empty settings.auth_api_secrets ≡ false
      → Memᴰ f settings.auth_api_secrets
      → is_empty f.secret ≡ false
      → auth_middleware service settings (header (codes "Bearer " ++ f.secret)) query
        ≡ ok (record { id = some f.id })
  unfolding auth_middleware extract_auth_token
  bearer_goes_on f query required v some_secrets m some_secret =
      let (found, trimmed) = (accepted_secrets lower settings.auth_api_secrets v).0 f m in
      ground (arith, required, some_secrets, some_secret, found)

  -- Where authentication is required by secrets that passed their checks, a request goes on only if its
  -- token is the secret of an entry, and then it is let into a room that the server gives exactly if
  -- the metadata of the room names the id of that entry.
  pub own_rooms_only :
      {V P : Type 0} (json : Json V) (auth_header : Header) (query : List (Text × Text))
      (auth : Auth)
      → settings.auth_required ≡ true
      → validate_auth_api_secrets lower settings.auth_api_secrets ≡ pass
      → is_empty settings.auth_api_secrets ≡ false
      → auth_middleware service settings auth_header query ≡ ok auth
      → (f : AuthApiSecret) × Memᴰ f settings.auth_api_secrets
        × (extract_auth_token auth_header query ≡ ok f.secret)
        × ((room_name : Text) (room : Room) (ps : P)
            → (check_room_access json auth room_name (details room ps) ≡ Guard.ok tt)
              ↔ (get_auth_id json room.metadata ≡ some f.id))
  own_rooms_only {V} {P} json auth_header query auth required v some_secrets e =
      let (sound, complete) = accepted_secrets lower settings.auth_api_secrets v in
      let (token, id, r, m, a) =
        goes_on-token service settings auth_header query auth required some_secrets e in
      let (f, there, owns, names) = complete token id m in
      let tenant : effective_id auth ≡ some f.id =
        rw (sym a, sym names) (effective_id-IsTrimmed f.id (sound f there).1) in
      (
        f,
        there,
        r ∙ ap ok (sym owns),
        λ room_name room ps.
            let (to, from) =
              check_room_access_iff json auth f.id room_name (details room ps) tenant in
            (
              (λ c.
                  let (room', ps', same, named) = to c in
                  let here : room' ≡ room = cc in rw (sym here) named),
              λ n. from (room, ps, refl, n),
            ),
      )
