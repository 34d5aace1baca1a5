-- ===== src/Rooms/Guard.antt =====
-- The guard of the room endpoints (src/handlers/livekit/room_guard.rs). The server's answer about a
-- room is input, and so is the JSON library.
pub mod Isolation
pub mod Masked
use sayna.Prelude.{
  ℕ, Bool, true, false, ◌||◌, Option, none, some, List, [], ◌∷◌, ◌++◌, if◌then◌else◌, ◌==◌,
}
use sayna.Prelude.Text.{Text, codes, text_eq}
use sayna.Rooms.{Auth, effective_id}
use sayna.Rooms.Metadata.{Json, get_auth_id}

pub data AccessDeniedReason : Type 0 where
  auth_id_mismatch : Text → Text → AccessDeniedReason
  missing_auth_id : AccessDeniedReason

pub data RoomAccessError : Type 0 where
  not_found : Text → RoomAccessError
  access_denied : Text → AccessDeniedReason → RoomAccessError
  livekit_error : Text → RoomAccessError

pub data Result (A : Type 0) : Type 0 where
  ok : A → Result A
  err : RoomAccessError → Result A

-- A status and the text of the body's field "error".
pub record Response : Type 0 where
  pub status : ℕ
  pub message : Text

abbrev quoted : Text → Text
quoted room = codes "Room '" ++ (room ++ codes "'")

unfoldable pub into_response_masked : RoomAccessError → Response
into_response_masked (not_found room) = record {
  status = 404;
  message = quoted room ++ codes " not found";
}
into_response_masked (access_denied room reason) = record {
  status = 404;
  message = quoted room ++ codes " not found or not accessible";
}
into_response_masked (livekit_error msg) = record {
  status = 500;
  message = codes "Failed to access room: " ++ msg;
}

unfoldable pub into_response_explicit : RoomAccessError → Response
into_response_explicit (not_found room) = record {
  status = 404;
  message = quoted room ++ codes " not found";
}
into_response_explicit (access_denied room (auth_id_mismatch expected actual)) = record {
  status = 403;
  message = codes "Access denied to room '" ++ (room ++ codes "'");
}
into_response_explicit (access_denied room missing_auth_id) = record {
  status = 403;
  message = codes "Access denied to room '" ++ (room ++ codes "': room not associated with tenant");
}
into_response_explicit (livekit_error msg) = record {
  status = 500;
  message = codes "Failed to access room: " ++ msg;
}

abbrev pub starts_with : Text → Text → Bool
starts_with [] s = true
starts_with (c ∷ p) [] = false
starts_with (c ∷ p) (d ∷ s) = if c == d then starts_with p s else false

-- `str::contains`
unfoldable pub contains : Text → Text → Bool
contains p [] = starts_with p []
contains p (c ∷ s) = starts_with p (c ∷ s) || contains p s

-- A room, less the fields that the guard does not read.
pub record Room : Type 0 where
  pub name : Text
  pub metadata : Text

-- What `get_room_details` gives: a room and its participants, or the text of an error.
pub data Details (P : Type 0) : Type 0 where
  details : Room → P → Details P
  failed : Text → Details P

-- The error of a request for details.
unfoldable pub lookup_error : Text → Text → RoomAccessError
unfolding contains
lookup_error room_name err_msg =
    if contains (codes "not found") err_msg then not_found room_name else livekit_error err_msg

-- The decision, by the room's tenant.
unfoldable pub decide : Text → Text → Option Text → Result (Unit {0})
decide auth_id room_name none = err (access_denied room_name missing_auth_id)
decide auth_id room_name (some rid) =
    if text_eq rid auth_id
    then ok tt
    else err (access_denied room_name (auth_id_mismatch auth_id rid))

module _ {V P : Type 0} (json : Json V) where
  unfoldable pub check_room_access : Auth → Text → Details P → Result (Unit {0})
  unfolding effective_id lookup_error decide
  check_room_access auth room_name answer = elim (effective_id auth) [
    | none ↦ ok tt
    | some auth_id ↦ elim answer [
      | failed msg ↦ err (lookup_error room_name msg)
      | details room ps ↦ decide auth_id room_name (get_auth_id json room.metadata)
    ]
  ]

  unfoldable pub check_room_access_with_data : Auth → Text → Details P → Result (Room × P)
  unfolding effective_id lookup_error decide
  check_room_access_with_data auth room_name answer = elim answer [
    | failed msg ↦ err (lookup_error room_name msg)
    | details room ps ↦ elim (effective_id auth) [
      | none ↦ ok (room, ps)
      | some auth_id ↦ elim (decide auth_id room_name (get_auth_id json room.metadata)) [
        | ok u ↦ ok (room, ps)
        | err e ↦ err e
      ]
    ]
  ]

module _ {V : Type 0} (json : Json V) where
  -- The test of `filter_rooms_by_auth`.
  unfoldable pub belongs_to : Text → Room → Bool
  belongs_to auth_id room = elim (get_auth_id json room.metadata) [
    | none ↦ false
    | some rid ↦ text_eq rid auth_id
  ]

  unfoldable pub keep : Text → List Room → List Room
  unfolding belongs_to
  keep auth_id [] = []
  keep auth_id (room ∷ rooms) =
      let rest = keep auth_id rooms in if belongs_to auth_id room then room ∷ rest else rest

  unfoldable pub filter_rooms_by_auth : Auth → List Room → List Room
  unfolding effective_id keep
  filter_rooms_by_auth auth rooms = elim (effective_id auth) [
    | none ↦ rooms
    | some auth_id ↦ keep auth_id rooms
  ]
