-- ===== src/Rooms/Handler/Listed.antt =====
-- A tenant asks for a room (src/handlers/livekit/room_guard.rs on src/livekit/room_handler.rs).
use sayna.Prelude.{
  true, Option, none, some, List, [], ◌∷◌, ◌++◌, refl, ap, sym, ◌≡◌, ◌∙◌, ◌↔◌, arith,
}
use sayna.Prelude.Text.{Text, codes}
use sayna.Rooms.{Auth, effective_id}
use sayna.Rooms.Metadata.{Json, get_auth_id}
use sayna.Rooms.Guard
use sayna.Rooms.Guard.{
  Room, details, contains, starts_with, not_found, lookup_error, decide, check_room_access,
}
use sayna.Rooms.Guard.Isolation.{decide_iff}
use sayna.Rooms.Handler.{
  answer, RoomClient, or_failed, to_string, as_details, list_participants, details_of,
  get_room_details,
}
use sayna.Rooms.Handler.Service.{IsRoomService}

starts_with_self : (p : Text) → starts_with p p ≡ true
starts_with_self [] = refl
starts_with_self (c ∷ p) = ground (arith, starts_with_self p)

contains_self : (p : Text) → contains p p ≡ true
unfolding contains
contains_self [] = refl
contains_self (c ∷ p) = ground (arith, starts_with_self (c ∷ p))

contains-append :
    (p before : Text) (s : Text) → contains p s ≡ true → contains p (before ++ s) ≡ true
unfolding contains
contains-append p [] s h = h
contains-append p (c ∷ before) s h = ground (arith, contains-append p before s h)

module _ {S P : Type 0} (client : RoomClient S P) (room_name : Text) (s : S) where
  absent_details :
      (client.list_rooms (room_name ∷ []) s).0 ≡ answer []
      → as_details (get_room_details client room_name s).0
        ≡ Guard.failed (codes "Connection failed: Room '" ++ (room_name ++ codes "' not found"))
  unfolding get_room_details details_of as_details to_string
  absent_details listed = rw (get_room_details, listed) refl

  present_details :
      (room : Room) (rooms : List Room) (participants : List P)
      → (client.list_rooms (room_name ∷ []) s).0 ≡ answer (room ∷ rooms)
      → (client.list_participants room_name (client.list_rooms (room_name ∷ []) s).1).0
        ≡ answer participants
      → as_details (get_room_details client room_name s).0 ≡ details room participants
  unfolding get_room_details details_of list_participants or_failed as_details
  present_details room rooms participants listed there =
      rw (get_room_details, listed, details_of, list_participants, there) refl

-- What the details of a missing room say is what the guard takes for a missing room.
told_not_found :
    (room_name : Text)
    → lookup_error room_name
        (codes "Connection failed: Room '" ++ (room_name ++ codes "' not found"))
      ≡ not_found room_name
unfolding lookup_error
told_not_found room_name =
    let told : contains (codes "not found")
          (codes "Connection failed: Room '" ++ (room_name ++ codes "' not found"))
        ≡ true =
      contains-append (codes "not found") (codes "Connection failed: Room '")
        (room_name ++ codes "' not found")
        (contains-append (codes "not found") room_name (codes "' not found") (
          contains-append (codes "not found") (codes "' ") (codes "not found")
            (contains_self (codes "not found")))) in
    rw (lookup_error, told) refl

module _ {V : Type 0} (json : Json V) (auth : Auth) (id room_name : Text) (P : Type 0) where
  guarded_failed :
      (t : Text)
      → effective_id auth ≡ some id
      → check_room_access {P = P} json auth room_name (Guard.failed t)
        ≡ Guard.err (lookup_error room_name t)
  unfolding check_room_access
  guarded_failed t e = rw (check_room_access, e) refl

  guarded_details :
      (room : Room) (ps : P)
      → effective_id auth ≡ some id
      → check_room_access json auth room_name (details room ps)
        ≡ decide id room_name (get_auth_id json room.metadata)
  unfolding check_room_access
  guarded_details room ps e = rw (check_room_access, e) refl

module _ {V S P : Type 0} (json : Json V) (client : RoomClient S P) (auth : Auth) (id : Text) where
  -- The room service does what the source relies on and answers, and `id` is the tenant that asks.
  -- The tenant gets at a room exactly if the service has metadata of it that names the tenant, and a
  -- room that the service does not have is reported as not found.
  pub check_room_access-get_room_details :
      (metadata_of : S → Text → Option Text) (room_name : Text) (s : S) (rooms : List Room)
      (participants : List P)
      → IsRoomService client metadata_of
      → effective_id auth ≡ some id
      → (client.list_rooms (room_name ∷ []) s).0 ≡ answer rooms
      → (client.list_participants room_name (client.list_rooms (room_name ∷ []) s).1).0
        ≡ answer participants
      → ((check_room_access json auth room_name (as_details (get_room_details client room_name s).0)
            ≡ Guard.ok tt)
          ↔ ((m : Text) × (metadata_of s room_name ≡ some m) × (get_auth_id json m ≡ some id)))
        × (metadata_of s room_name ≡ none
            → check_room_access json auth room_name
                (as_details (get_room_details client room_name s).0)
              ≡ Guard.err (not_found room_name))
  check_room_access-get_room_details metadata_of room_name s [] participants service e listed
        there =
      let absent : metadata_of s room_name ≡ none = service.lists room_name s [] listed in
      rw
        (
          absent_details client room_name s listed,
          guarded_failed json auth id room_name (List P)
              (codes "Connection failed: Room '" ++ (room_name ++ codes "' not found")) e,
          told_not_found room_name,
        )
        (
          (
            (λ bad. absurd (ground (arith, bad))),
            λ (m, has, named). absurd (ground (arith, has, absent)),
          ),
          λ gone. refl,
        )
  check_room_access-get_room_details metadata_of room_name s (room ∷ rooms) participants service e
        listed there =
      let has : metadata_of s room_name ≡ some room.metadata =
        service.lists room_name s (room ∷ rooms) listed in
      let decided = decide_iff id room_name (get_auth_id json room.metadata) in
      rw
        (
          present_details client room_name s room rooms participants listed there,
          guarded_details json auth id room_name (List P) room participants e,
        )
        (
          (
            (λ good. (room.metadata, has, decided.0 good)),
            λ (m, same, named).
                let eq : m ≡ room.metadata = ground (arith, has, same) in
                decided.1 (ap (get_auth_id json) (sym eq) ∙ named),
          ),
          λ gone. absurd (ground (arith, gone, has)),
        )
