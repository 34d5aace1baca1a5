-- ===== src/Rooms/Handler/Service.antt =====
-- What the source relies on of the room service and of the JSON library
-- (src/livekit/room_handler.rs).
use sayna.Prelude.{Option, none, some, List, [], ◌∷◌, refl, ◌≡◌, ◌⊎◌, inl, inr, arith}
use sayna.Prelude.Text.{Text}
use sayna.Prelude.Dict.{insert}
use sayna.Rooms.Metadata
use sayna.Rooms.Metadata.{
  Json, Map, string, auth_id_key, auth_id_conflict, parse_metadata, get_auth_id, merge_auth_id,
  as_str,
}
use sayna.Rooms.Metadata.Merge.{ReadsBack}
use sayna.Rooms.Guard.{Room}
use sayna.Rooms.Handler.{ok, Answer, answer, failed, RoomClient, or_failed}

abbrev pub first_metadata : List Room → Option Text
first_metadata [] = none
first_metadata (room ∷ rooms) = some room.metadata

-- What the source relies on of the room service, where `metadata_of` is the metadata that the service
-- has of a room: a list of one name is of the room with that name, reading and creating leave the
-- metadata of the rooms there are, and an update that is answered has been made.
pub record IsRoomService {S P : Type 0} (client : RoomClient S P)
    (metadata_of : S → Text → Option Text) : Type 0 where
  pub lists :
      (name : Text) (s : S) (rooms : List Room)
      → (client.list_rooms (name ∷ []) s).0 ≡ answer rooms
      → metadata_of s name ≡ first_metadata rooms
  pub list_keeps :
      (name : Text) (s : S)
      → metadata_of (client.list_rooms (name ∷ []) s).1 name ≡ metadata_of s name
  pub create_keeps :
      (name m : Text) (s : S)
      → metadata_of s name ≡ some m
      → metadata_of (client.create_room name 3 s).1 name ≡ some m
  pub updates :
      (name m : Text) (s : S)
      → (client.update_room_metadata name m s).0 ≡ answer tt
      → metadata_of (client.update_room_metadata name m s).1 name ≡ some m

-- What the JSON library writes for a tenant reads back.
abbrev pub Writes : {V : Type 0} → Json V → Text → Type 0
Writes {V = V} json auth_id =
    (raw : Text) (map : Map V)
    → parse_metadata json raw ≡ Metadata.ok map
    → ReadsBack json map × ReadsBack json (insert auth_id_key (string auth_id) map)

pub Parsed-cases :
    {A : Type 0} (r : Metadata.Result A)
    → ((a : A) × (r ≡ Metadata.ok a)) ⊎ ((e : Metadata.MetadataError) × (r ≡ Metadata.err e))
Parsed-cases (Metadata.ok a) = inl (a, refl)
Parsed-cases (Metadata.err e) = inr (e, refl)

pub Answer-cases :
    {A : Type 0} → (r : Answer A) → ((a : A) × (r ≡ answer a)) ⊎ ((t : Text) × (r ≡ failed t))
Answer-cases (answer a) = inl (a, refl)
Answer-cases (failed t) = inr (t, refl)

pub or_failed-ok :
    {A : Type 0} (context : Text) (a : Answer A) (x : A) → or_failed context a ≡ ok x → a ≡ answer x
unfolding or_failed
or_failed-ok context (answer a) x e = ground (arith, e)
or_failed-ok context (failed t) x e = absurd (ground (arith, e))
