-- ===== src/Rooms/Handler/Owner.antt =====
-- Who owns a room after a tenant asked for it (src/livekit/room_handler.rs).
use sayna.Prelude.{
  Option, some, [], ◌∷◌, ◌++◌, refl, ap, sym, ◌≡◌, ◌≢◌, ◌∙◌, ◌⊎◌, inl, inr, Bool-cases,
  Option-cases, arith,
}
use sayna.Prelude.Text.{Text, codes, text_eq, text_eq_iff}
use sayna.Prelude.Dict.{lookup}
use sayna.Rooms.Metadata
use sayna.Rooms.Metadata.{
  Json, Map, string, auth_id_key, auth_id_conflict, parse_metadata, get_auth_id, merge_auth_id,
  as_str,
}
use sayna.Rooms.Metadata.Merge.{merge_auth_id-owner}
use sayna.Rooms.Handler.{
  Result, ok, err, room_not_found, RoomClient, create_room, update_room_metadata, write_auth_id,
  set_auth_id, set_first, ensure_room_auth_id, create_and_ensure, retry, ensure_room_with_auth_id,
  merge_error, metadata_conflict, connection_failed,
}
use sayna.Rooms.Handler.Service.{IsRoomService, Writes, Parsed-cases, Answer-cases, or_failed-ok}

module _ {V S P : Type 0} (json : Json V) (client : RoomClient S P) (room_name auth_id : Text) where
  merge-needs-map :
      (raw merged : Text)
      → merge_auth_id json raw auth_id ≡ Metadata.ok merged
      → (map : Map V) × (parse_metadata json raw ≡ Metadata.ok map)
  unfolding merge_auth_id
  merge-needs-map raw merged e = elim (Parsed-cases (parse_metadata json raw)) [
    | inl there ↦ there
    | inr (x, bad) ↦ absurd (ground (arith, rw (merge_auth_id, bad) at e))
  ]

  merged-owner :
      (raw merged : Text)
      → Writes json auth_id
      → merge_auth_id json raw auth_id ≡ Metadata.ok merged
      → get_auth_id json merged ≡ some auth_id
  merged-owner raw merged w e =
      let (map, p) = merge-needs-map raw merged e in
      elim (merge_auth_id-owner json raw auth_id map p (w raw map p).0 (w raw map p).1) [
        | inl (owner, has, other, conflict) ↦ absurd (ground (arith, e, conflict))
        | inr (m, after, same, q, owner, rest) ↦
            let eq : m ≡ merged = ground (arith, e, same) in rw (sym eq) owner
      ]

  write-takes :
      (metadata_of : S → Text → Option Text) (raw : Text) (s : S)
      → IsRoomService client metadata_of
      → Writes json auth_id
      → (write_auth_id json client room_name auth_id raw s).0 ≡ ok tt
      → (m : Text) × (metadata_of (write_auth_id json client room_name auth_id raw s).1 room_name
          ≡ some m)
        × (get_auth_id json m ≡ some auth_id)
  unfolding write_auth_id update_room_metadata
  write-takes metadata_of raw s service w e = elim (Parsed-cases (merge_auth_id json raw auth_id)) [
    | inr (x, bad) ↦ absurd (ground (arith, rw (write_auth_id, bad) at e))
    | inl (merged, good) ↦
        rw (write_auth_id, good)
          (
            merged,
            service.updates room_name merged s (
                or_failed-ok (codes "Failed to update room metadata: ")
                  (client.update_room_metadata room_name merged s).0 tt
                  (rw (write_auth_id, good) at e)),
            merged-owner raw merged w good,
          )
  ]

  set-takes :
      (metadata_of : S → Text → Option Text) (raw : Text) (s : S)
      → IsRoomService client metadata_of
      → Writes json auth_id
      → metadata_of s room_name ≡ some raw
      → (set_auth_id json client room_name auth_id raw s).0 ≡ ok tt
      → (m : Text) × (metadata_of (set_auth_id json client room_name auth_id raw s).1 room_name
          ≡ some m)
        × (get_auth_id json m ≡ some auth_id)
  unfolding set_auth_id
  set-takes metadata_of raw s service w there e = elim (Option-cases (get_auth_id json raw)) [
    | inl free ↦
        rw (set_auth_id, free)
          (write-takes metadata_of raw s service w (rw (set_auth_id, free) at e))
    | inr (owner, has) ↦ elim (Bool-cases (text_eq owner auth_id)) [
      | inl y ↦
          rw (set_auth_id, has, y) (raw, there, has ∙ ap some ((text_eq_iff owner auth_id).0 y))
      | inr n ↦
          rw (set_auth_id, has, n)
            (write-takes metadata_of raw s service w (rw (set_auth_id, has, n) at e))
    ]
  ]

  ensure-takes :
      (metadata_of : S → Text → Option Text) (s : S)
      → IsRoomService client metadata_of
      → Writes json auth_id
      → (ensure_room_auth_id json client room_name auth_id s).0 ≡ ok tt
      → (m : Text) × (metadata_of (ensure_room_auth_id json client room_name auth_id s).1 room_name
          ≡ some m)
        × (get_auth_id json m ≡ some auth_id)
  unfolding ensure_room_auth_id set_first
  ensure-takes metadata_of s service w e =
      elim (Answer-cases (client.list_rooms (room_name ∷ []) s).0) [
        | inr (t, bad) ↦ absurd (ground (arith, rw (ensure_room_auth_id, bad) at e))
        | inl ([], good) ↦ absurd (ground (arith, rw (ensure_room_auth_id, good) at e))
        | inl (room ∷ rooms, good) ↦
            let after : S = (client.list_rooms (room_name ∷ []) s).1 in
            let there : metadata_of after room_name ≡ some room.metadata =
              service.list_keeps room_name s ∙ service.lists room_name s (room ∷ rooms) good in
            rw (ensure_room_auth_id, good)
              (set-takes metadata_of room.metadata after service w there
                (rw (ensure_room_auth_id, good) at e))
      ]

  -- A room of another tenant: the merge is refused, and nothing is written.
  set-refused :
      (raw owner : Text) (s : S)
      → get_auth_id json raw ≡ some owner
      → owner ≢ auth_id
      → set_auth_id json client room_name auth_id raw s ≡ (err (metadata_conflict owner auth_id), s)
  unfolding set_auth_id write_auth_id merge_auth_id merge_error get_auth_id
  set-refused raw owner s has other = elim (Parsed-cases (parse_metadata json raw)) [
    | inr (x, bad) ↦ absurd (ground (arith, rw (get_auth_id, bad) at has))
    | inl (map, good) ↦ elim (Bool-cases (text_eq owner auth_id)) [
      | inl y ↦ absurd (other ((text_eq_iff owner auth_id).0 y))
      | inr n ↦
          let named : as_str (lookup auth_id_key map) ≡ some owner =
            rw (get_auth_id, good) at has in
          rw (set_auth_id, has, n, write_auth_id, merge_auth_id, good, named, n) refl
    ]
  ]

  pub ensure-refused :
      (metadata_of : S → Text → Option Text) (raw owner : Text) (s : S)
      → IsRoomService client metadata_of
      → metadata_of s room_name ≡ some raw
      → get_auth_id json raw ≡ some owner
      → owner ≢ auth_id
      → (metadata_of (ensure_room_auth_id json client room_name auth_id s).1 room_name ≡ some raw)
        × (((ensure_room_auth_id json client room_name auth_id s).0
              ≡ err (metadata_conflict owner auth_id))
            ⊎ ((t : Text) × ((ensure_room_auth_id json client room_name auth_id s).0
                  ≡ err (connection_failed t))))
  unfolding ensure_room_auth_id set_first
  ensure-refused metadata_of raw owner s service there has other =
      elim (Answer-cases (client.list_rooms (room_name ∷ []) s).0) [
        | inr (t, bad) ↦
            rw (ensure_room_auth_id, bad)
              (
                service.list_keeps room_name s ∙ there,
                inr (codes "Failed to get room: " ++ t, refl),
              )
        | inl ([], good) ↦ absurd (ground (arith, there, service.lists room_name s [] good))
        | inl (room ∷ rooms, good) ↦
            let same : room.metadata ≡ raw =
              ground (arith, there, service.lists room_name s (room ∷ rooms) good) in
            rw
              (
                ensure_room_auth_id,
                good,
                set-refused room.metadata owner (client.list_rooms (room_name ∷ []) s).1
                    (ap (get_auth_id json) same ∙ has) other,
              )
              (service.list_keeps room_name s ∙ there, inl refl)
      ]

  retry-cases :
      (r : Result (Unit {0})) (s : S)
      → (retry json client room_name auth_id r s ≡ (r, s))
        ⊎ (retry json client room_name auth_id r s
            ≡ create_and_ensure json client room_name auth_id s)
  unfolding retry
  retry-cases (err (room_not_found n)) s = inr refl
  retry-cases r s = inl refl

  -- The room service does what the source relies on, and the JSON library reads back what it writes
  -- for the tenant. A room that a tenant asked for with success has metadata that names the tenant,
  -- whether it was there, was created, or was created by another process meanwhile.
  pub ensure_room_with_auth_id-takes :
      (metadata_of : S → Text → Option Text) (s : S)
      → IsRoomService client metadata_of
      → Writes json auth_id
      → (ensure_room_with_auth_id json client room_name auth_id s).0 ≡ ok tt
      → (m : Text) × (metadata_of
            (ensure_room_with_auth_id json client room_name auth_id s).1
            room_name
          ≡ some m)
        × (get_auth_id json m ≡ some auth_id)
  unfolding ensure_room_with_auth_id create_and_ensure
  ensure_room_with_auth_id-takes metadata_of s service w e =
      let first : Result (Unit {0}) × S = ensure_room_auth_id json client room_name auth_id s in
      elim (retry-cases first.0 first.1) [
        | inl same ↦
            rw (ensure_room_with_auth_id, same)
              (ensure-takes metadata_of s service w (rw (ensure_room_with_auth_id, same) at e))
        | inr again ↦
            rw (ensure_room_with_auth_id, again)
              (ensure-takes metadata_of (create_room client room_name first.1).1 service w
                (rw (ensure_room_with_auth_id, again) at e))
      ]

  -- The room service does what the source relies on. Where the metadata of the room names another
  -- tenant, it is as it was after a tenant asked for the room, who gets a conflict that names both
  -- tenants, or an error of the connection.
  pub ensure_room_with_auth_id-refused :
      (metadata_of : S → Text → Option Text) (raw owner : Text) (s : S)
      → IsRoomService client metadata_of
      → metadata_of s room_name ≡ some raw
      → get_auth_id json raw ≡ some owner
      → owner ≢ auth_id
      → (metadata_of (ensure_room_with_auth_id json client room_name auth_id s).1 room_name
          ≡ some raw)
        × (((ensure_room_with_auth_id json client room_name auth_id s).0
              ≡ err (metadata_conflict owner auth_id))
            ⊎ ((t : Text) × ((ensure_room_with_auth_id json client room_name auth_id s).0
                  ≡ err (connection_failed t))))
  unfolding ensure_room_with_auth_id retry
  ensure_room_with_auth_id-refused metadata_of raw owner s service there has other =
      let (kept, answered) = ensure-refused metadata_of raw owner s service there has other in
      elim answered [
        | inl e ↦ rw (ensure_room_with_auth_id, e) (kept, inl refl)
        | inr (t, e) ↦ rw (ensure_room_with_auth_id, e) (kept, inr (t, refl))
      ]
