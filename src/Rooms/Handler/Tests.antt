-- ===== src/Rooms/Handler/Tests.antt =====
-- Runs of the room handler (src/livekit/room_handler.rs) on a room service in memory.
use sayna.Prelude.{
  ℕ, true, Option, none, some, List, [], ◌∷◌, is_empty, if◌then◌else◌, refl, sym, ◌≡◌, ◌↔◌, ◌⊎◌,
  inl, inr, Option-cases, Bool-cases, arith,
}
use sayna.Prelude.Text.{Text, codes, text_eq, trim, trim_start, is_whitespace}
use sayna.Prelude.Dict.{lookup, insert, lookup-insert}
use sayna.Rooms.Metadata
use sayna.Rooms.Metadata.{Map, parse_metadata, get_auth_id}
use sayna.Rooms.Guard
use sayna.Rooms.Guard.{Room, not_found, check_room_access}
use sayna.Rooms.Handler.{
  err, answer, metadata_conflict, connection_failed, RoomClient, as_details, get_room_details,
  ensure_room_with_auth_id,
}
use sayna.Rooms.Handler.Service.{IsRoomService, Writes}
use sayna.Rooms.Handler.Owner.{ensure_room_with_auth_id-takes, ensure_room_with_auth_id-refused}
use sayna.Rooms.Handler.Listed.{check_room_access-get_room_details}
use sayna.Rooms.Tests.{acme, owned_text, owned_map, small_json, read, tenant, tenant_id}

abbrev pub Rooms : Type 0
Rooms = List (Text × Text)

abbrev found : Text → Option Text → List Room
found name none = []
found name (some m) = record { name = name; metadata = m } ∷ []

abbrev listed : List Text → Rooms → List Room
listed [] s = []
listed (name ∷ names) s = found name (lookup name s)

abbrev created : Text → Option Text → Rooms → Rooms
created name none s = insert name [] s
created name (some m) s = s

abbrev pub in_memory : RoomClient Rooms ℕ
in_memory = record {
  list_rooms = λ names s. (answer (listed names s), s);
  create_room = λ name n s. (answer tt, created name (lookup name s) s);
  delete_room = λ name s. (answer tt, s);
  list_participants = λ name s. (answer [], s);
  remove_participant = λ name identity s. (answer tt, s);
  update_room_metadata = λ name m s. (answer tt, insert name m s);
}

abbrev pub metadata_of : Rooms → Text → Option Text
metadata_of s name = lookup name s

text_eq_refl : (t : Text) → text_eq t t ≡ true
text_eq_refl [] = refl
text_eq_refl (c ∷ t) = ground (arith, text_eq_refl t)

pub in_memory-IsRoomService : IsRoomService in_memory metadata_of
in_memory-IsRoomService = record {
  lists = λ name s rooms e. elim (Option-cases (lookup name s)) [
    | inl n ↦ let same : [] ≡ rooms = ground (arith, n, e) in rw (n, sym same) refl
    | inr (m, n) ↦
        let same : record { name = name; metadata = m } ∷ [] ≡ rooms = ground (arith, n, e) in
        rw (n, sym same) refl
  ];
  list_keeps = λ name s. refl;
  create_keeps = λ name m s e. rw (e, e) refl;
  updates = λ name m s e. rw (lookup-insert name name m s, text_eq_refl name) refl;
}

two_maps :
    (t : Text) (map : Map (Unit {0}))
    → (if is_empty t then Metadata.ok [] else elim (read t) [
      | none ↦ Metadata.err Metadata.invalid_json
      | some (Metadata.object m) ↦ Metadata.ok m
      | some Metadata.other_value ↦ Metadata.err Metadata.not_an_object
    ])
      ≡ Metadata.ok map
    → (map ≡ []) ⊎ (map ≡ owned_map)
two_maps [] map e = inl (ground (arith, e))
two_maps (c ∷ t) map e = elim (Bool-cases (text_eq (c ∷ t) (codes "{}"))) [
  | inl y ↦ inl (ground (arith, e, y))
  | inr n ↦ elim (Bool-cases (text_eq (c ∷ t) owned_text)) [
    | inl y ↦ inr (ground (arith, e, n, y))
    | inr n' ↦ absurd (ground (arith, e, n, n'))
  ]
]

small_json-Writes : Writes small_json acme
unfolding parse_metadata trim trim_start is_whitespace insert
small_json-Writes raw map e = elim (two_maps (trim raw) map e) [
  | inl n ↦ rw n ((refl, refl), (refl, refl))
  | inr o ↦ rw o ((refl, refl), (refl, refl))
]

ensure_room_with_auth_id-takes_example :
    (m : Text) × (metadata_of
        (ensure_room_with_auth_id small_json in_memory (codes "r") acme []).1
        (codes "r")
      ≡ some m)
    × (get_auth_id small_json m ≡ some acme)
unfolding ensure_room_with_auth_id lookup insert get_auth_id trim Metadata.merge_auth_id
ensure_room_with_auth_id-takes_example =
    ensure_room_with_auth_id-takes small_json in_memory (codes "r") acme metadata_of []
      in_memory-IsRoomService small_json-Writes refl

abbrev pub theirs : Rooms
theirs = (codes "r", codes "x") ∷ []

abbrev pub other_owner : Text
other_owner = codes "other"

-- A JSON library that knows one text, the room of the other tenant.
abbrev pub other_json : Metadata.Json (Unit {0})
other_json = record {
  from_str = λ t. some (Metadata.object ((Metadata.auth_id_key, Metadata.string other_owner) ∷ []));
  to_string = λ m. codes "x";
}

ensure_room_with_auth_id-refused_example :
    let after = ensure_room_with_auth_id other_json in_memory (codes "r") acme theirs in
    (metadata_of after.1 (codes "r") ≡ some (codes "x"))
    × ((after.0 ≡ err (metadata_conflict other_owner acme))
        ⊎ ((t : Text) × (after.0 ≡ err (connection_failed t))))
unfolding lookup get_auth_id trim
ensure_room_with_auth_id-refused_example =
    ensure_room_with_auth_id-refused other_json in_memory (codes "r") acme metadata_of (codes "x")
      other_owner theirs in_memory-IsRoomService refl refl (λ same. absurd (ground (arith, same)))

check_room_access-get_room_details_example :
    let seen =
      check_room_access small_json tenant
        (codes "r")
        (as_details (get_room_details in_memory (codes "r") theirs).0) in
    ((seen ≡ Guard.ok tt) ↔ (
      (m : Text) × (metadata_of theirs (codes "r") ≡ some m)
      × (get_auth_id small_json m ≡ some acme)))
    × (metadata_of theirs (codes "r") ≡ none → seen ≡ Guard.err (not_found (codes "r")))
unfolding lookup
check_room_access-get_room_details_example =
    check_room_access-get_room_details small_json in_memory tenant acme metadata_of (codes "r")
      theirs (record { name = codes "r"; metadata = codes "x" } ∷ []) [] in_memory-IsRoomService
      tenant_id refl refl
