-- ===== src/Rooms/Tests.antt =====
-- Runs of the room guard (src/handlers/livekit/room_guard.rs, src/livekit/metadata.rs).
use sayna.Prelude.{ℕ, Option, none, some, [], ◌∷◌, if◌then◌else◌, refl, ◌≡◌, ◌↔◌}
use sayna.Prelude.Text.{Text, codes, text_eq, trim, trim_start, is_whitespace}
use sayna.Rooms.{Auth, effective_id}
use sayna.Rooms.Metadata.{Json, Map, Value, object, string, auth_id_key, get_auth_id}
use sayna.Rooms.Guard
use sayna.Rooms.Guard.{
  Room, Details, details, auth_id_mismatch, not_found, access_denied, into_response_masked,
  check_room_access, filter_rooms_by_auth,
}
use sayna.Rooms.Guard.Isolation.{check_room_access_iff}

abbrev pub acme : Text
acme = codes "acme"

abbrev pub owned_text : Text
owned_text = codes "{auth_id:acme}"

abbrev pub owned_map : Map (Unit {0})
owned_map = (auth_id_key, string acme) ∷ []

-- A JSON library that knows two texts.
abbrev pub read : Text → Option (Value (Unit {0}))
read t =
    if text_eq t (codes "{}")
    then some (object [])
    else if text_eq t owned_text
    then some (object owned_map)
    else none

abbrev write : Map (Unit {0}) → Text
write [] = codes "{}"
write (f ∷ m) = owned_text

abbrev pub small_json : Json (Unit {0})
small_json = record { from_str = read; to_string = write }

abbrev participants : ℕ
participants = 7

abbrev pub tenant : Auth
tenant = record { id = some (codes " acme ") }

abbrev owned_room : Room
owned_room = record { name = codes "r"; metadata = owned_text }

pub tenant_id : effective_id tenant ≡ some acme
unfolding effective_id trim trim_start is_whitespace
tenant_id = refl

check_room_access_iff_example :
    (check_room_access small_json tenant (codes "r") (details owned_room participants)
      ≡ Guard.ok tt)
    ↔ ((room : Room) × (ps : ℕ) × (details owned_room participants ≡ details room ps)
        × (get_auth_id small_json room.metadata ≡ some acme))
check_room_access_iff_example =
    check_room_access_iff small_json tenant acme (codes "r") (details owned_room participants)
      tenant_id
