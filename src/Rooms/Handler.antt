-- ===== src/Rooms/Handler.antt =====
-- The room handler (src/livekit/room_handler.rs): rooms, tokens and the tenant that owns a room. The
-- room service of LiveKit, which the source reaches through `RoomClient`, is a parameter that answers
-- each call and passes on its own state; so are the JSON library and the texts of its errors.
pub mod Service
pub mod Owner
pub mod Listed
pub mod Tests
use sayna.Prelude.{
  ℕ, Bool, true, false, Option, none, some, List, [], ◌∷◌, ◌++◌, is_empty, if◌then◌else◌,
}
use sayna.Prelude.Text.{Text, codes, text_eq}
use sayna.Rooms.Metadata
use sayna.Rooms.Metadata.{Json, MetadataError, get_auth_id, merge_auth_id}
use sayna.Rooms.Guard
use sayna.Rooms.Guard.{Room, Details, details, starts_with}

pub data LiveKitError : Type 0 where
  connection_failed : Text → LiveKitError
  not_connected audio_callback_not_set : LiveKitError
  room_event_error audio_stream_error : Text → LiveKitError
  sip_transfer_request_timeout : LiveKitError
  metadata_conflict : Text → Text → LiveKitError
  room_not_found : Text → LiveKitError

pub data Result (A : Type 0) : Type 0 where
  ok : A → Result A
  err : LiveKitError → Result A

-- What the service answers: the value, or the text of an error.
pub data Answer (A : Type 0) : Type 0 where
  answer : A → Answer A
  failed : Text → Answer A

-- The calls of `RoomClient`, on the state of the service.
pub record RoomClient (S P : Type 0) : Type 0 where
  pub list_rooms : List Text → S → Answer (List Room) × S
  pub create_room : Text → ℕ → S → Answer (Unit {0}) × S
  pub delete_room : Text → S → Answer (Unit {0}) × S
  pub list_participants : Text → S → Answer (List P) × S
  pub remove_participant : Text → Text → S → Answer (Unit {0}) × S
  pub update_room_metadata : Text → Text → S → Answer (Unit {0}) × S

-- `map_err`, with what the source puts before the text of the error.
unfoldable pub or_failed : {A : Type 0} → Text → Answer A → Result A
or_failed context (answer a) = ok a
or_failed context (failed e) = err (connection_failed (context ++ e))

unfoldable pub starting_with : Text → List Room → List Room
starting_with p [] = []
starting_with p (r ∷ rooms) =
    let rest = starting_with p rooms in if starts_with p r.name then r ∷ rest else rest

unfoldable pub filter_rooms : Option Text → List Room → List Room
unfolding starting_with
filter_rooms none all_rooms = all_rooms
filter_rooms (some p) all_rooms = if is_empty p then all_rooms else starting_with p all_rooms

-- `rooms.iter().any(|r| r.name == room_name)`
unfoldable pub any_named : Text → List Room → Bool
any_named room_name [] = false
any_named room_name (r ∷ rooms) =
    if text_eq r.name room_name then true else any_named room_name rooms

-- The error of metadata that a tenant cannot be merged into.
unfoldable pub merge_error : MetadataError → LiveKitError
merge_error (Metadata.auth_id_conflict existing attempted) = metadata_conflict existing attempted
merge_error Metadata.invalid_json = connection_failed (codes "Invalid room metadata JSON: ")
merge_error Metadata.not_an_object =
    connection_failed (codes "Room metadata is not a JSON object: ")

-- The text of an error.
unfoldable pub to_string : LiveKitError → Text
to_string (connection_failed e) = codes "Connection failed: " ++ e
to_string not_connected = codes "Not connected to room"
to_string audio_callback_not_set = codes "Audio callback not set"
to_string (room_event_error e) = codes "Room event error: " ++ e
to_string (audio_stream_error e) = codes "Audio stream error: " ++ e
to_string sip_transfer_request_timeout =
    codes "SIP transfer request timeout (transfer likely succeeded)"
to_string (metadata_conflict existing attempted) =
    codes "Room metadata conflict: existing auth_id="
    ++ (existing ++ (codes ", attempted=" ++ attempted))
to_string (room_not_found name) = codes "Room not found: " ++ name

-- What the guard of the endpoints gets of the details.
unfoldable pub as_details : {P : Type 0} → Result (Room × List P) → Details (List P)
unfolding to_string
as_details (ok (room, participants)) = details room participants
as_details (err e) = Guard.failed (to_string e)

module _ {S P : Type 0} (client : RoomClient S P) where
  unfoldable pub create_room : Text → S → Result (Unit {0}) × S
  unfolding or_failed
  create_room room_name s =
      let (a, after) = client.create_room room_name 3 s in
      (or_failed (codes "Failed to create room: ") a, after)

  unfoldable pub delete_room : Text → S → Result (Unit {0}) × S
  unfolding or_failed
  delete_room room_name s =
      let (a, after) = client.delete_room room_name s in
      (or_failed (codes "Failed to delete room: ") a, after)

  unfoldable pub list_participants : Text → S → Result (List P) × S
  unfolding or_failed
  list_participants room_name s =
      let (a, after) = client.list_participants room_name s in
      (or_failed (codes "Failed to list participants: ") a, after)

  unfoldable pub remove_participant : Text → Text → S → Result (Unit {0}) × S
  unfolding or_failed
  remove_participant room_name identity s =
      let (a, after) = client.remove_participant room_name identity s in
      (or_failed (codes "Failed to remove participant: ") a, after)

  unfoldable pub update_room_metadata : Text → Text → S → Result (Unit {0}) × S
  unfolding or_failed
  update_room_metadata room_name metadata s =
      let (a, after) = client.update_room_metadata room_name metadata s in
      (or_failed (codes "Failed to update room metadata: ") a, after)

  unfoldable pub list_rooms : Option Text → S → Result (List Room) × S
  unfolding filter_rooms
  list_rooms prefix s =
      let (a, after) = client.list_rooms [] s in
      elim a [
        | answer all_rooms ↦ (ok (filter_rooms prefix all_rooms), after)
        | failed e ↦ (err (connection_failed (codes "Failed to list rooms: " ++ e)), after)
      ]

  -- The participants of the first room of a list.
  unfoldable pub details_of : Text → List Room → S → Result (Room × List P) × S
  unfolding list_participants
  details_of room_name [] s =
      (err (connection_failed (codes "Room '" ++ (room_name ++ codes "' not found"))), s)
  details_of room_name (room ∷ rooms) s =
      let (a, after) = list_participants room_name s in
      elim a [ ok participants ↦ (ok (room, participants), after) | err e ↦ (err e, after) ]

  unfoldable pub get_room_details : Text → S → Result (Room × List P) × S
  unfolding details_of
  get_room_details room_name s =
      let (a, after) = client.list_rooms (room_name ∷ []) s in
      elim a [
        | failed e ↦ (err (connection_failed (codes "Failed to get room: " ++ e)), after)
        | answer rooms ↦ details_of room_name rooms after
      ]

  -- The room is there after a creation that failed, or that failure is the answer.
  unfoldable pub exists_again : Text → LiveKitError → S → Result (Unit {0}) × S
  unfolding any_named
  exists_again room_name e s =
      let (a, after) = client.list_rooms (room_name ∷ []) s in
      elim a [
        | failed e' ↦ (err (connection_failed (codes "Failed to check room: " ++ e')), after)
        | answer rooms ↦ (if any_named room_name rooms then ok tt else err e, after)
      ]

  unfoldable pub create_or_exists : Text → S → Result (Unit {0}) × S
  unfolding create_room exists_again
  create_or_exists room_name s =
      let (a, after) = create_room room_name s in
      elim a [ ok u ↦ (ok tt, after) | err e ↦ exists_again room_name e after ]

  unfoldable pub ensure_room_exists : Text → S → Result (Unit {0}) × S
  unfolding create_or_exists any_named
  ensure_room_exists room_name s =
      let (a, after) = client.list_rooms (room_name ∷ []) s in
      elim a [
        | failed e ↦ (err (connection_failed (codes "Failed to check room: " ++ e)), after)
        | answer rooms ↦
            let created : Result (Unit {0}) × S = create_or_exists room_name after in
            if any_named room_name rooms then (ok tt, after) else created
      ]

module _ {V S P : Type 0} (json : Json V) (client : RoomClient S P) where
  unfoldable pub write_auth_id : Text → Text → Text → S → Result (Unit {0}) × S
  unfolding update_room_metadata merge_error
  write_auth_id room_name auth_id current_metadata s =
      elim (merge_auth_id json current_metadata auth_id) [
        | Metadata.err e ↦ (err (merge_error e), s)
        | Metadata.ok new_metadata ↦ update_room_metadata client room_name new_metadata s
      ]

  -- Nothing is written when the metadata names the tenant already.
  unfoldable pub set_auth_id : Text → Text → Text → S → Result (Unit {0}) × S
  unfolding write_auth_id
  set_auth_id room_name auth_id current_metadata s =
      let written : Result (Unit {0}) × S = write_auth_id room_name auth_id current_metadata s in
      elim (get_auth_id json current_metadata) [
        | none ↦ written
        | some existing_id ↦ if text_eq existing_id auth_id then (ok tt, s) else written
      ]

  unfoldable pub set_first : Text → Text → List Room → S → Result (Unit {0}) × S
  unfolding set_auth_id
  set_first room_name auth_id [] s = (err (room_not_found room_name), s)
  set_first room_name auth_id (room ∷ rooms) s = set_auth_id room_name auth_id room.metadata s

  unfoldable pub ensure_room_auth_id : Text → Text → S → Result (Unit {0}) × S
  unfolding set_first
  ensure_room_auth_id room_name auth_id s =
      let (a, after) = client.list_rooms (room_name ∷ []) s in
      elim a [
        | failed e ↦ (err (connection_failed (codes "Failed to get room: " ++ e)), after)
        | answer rooms ↦ set_first room_name auth_id rooms after
      ]

  -- Whether or not the creation works, the room is looked at again.
  unfoldable pub create_and_ensure : Text → Text → S → Result (Unit {0}) × S
  unfolding create_room ensure_room_auth_id
  create_and_ensure room_name auth_id s =
      ensure_room_auth_id room_name auth_id (create_room client room_name s).1

  unfoldable pub retry : Text → Text → Result (Unit {0}) → S → Result (Unit {0}) × S
  unfolding create_and_ensure
  retry room_name auth_id (err (room_not_found name)) s = create_and_ensure room_name auth_id s
  retry room_name auth_id r s = (r, s)

  unfoldable pub ensure_room_with_auth_id : Text → Text → S → Result (Unit {0}) × S
  unfolding ensure_room_auth_id retry
  ensure_room_with_auth_id room_name auth_id s =
      let (a, after) = ensure_room_auth_id room_name auth_id s in retry room_name auth_id a after
