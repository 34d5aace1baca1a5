-- ===== src/Rooms/Guard/Isolation.antt =====
-- A tenant gets at its own rooms and no others (src/handlers/livekit/room_guard.rs).
use mathlib.Core.List.{Memᴰ}
use sayna.Prelude.{
  true, Option, none, some, List, [], ◌∷◌, refl, ap, sym, ◌≡◌, ◌∙◌, ◌↔◌, inl, inr, Bool-cases,
  Option-cases, arith,
}
use sayna.Prelude.Text.{Text, text_eq_iff}
use sayna.Rooms.{Auth, effective_id}
use sayna.Rooms.Metadata.{Json, get_auth_id}
use sayna.Rooms.Guard.{
  ok, err, Room, Details, details, failed, check_room_access, check_room_access_with_data, decide,
  belongs_to, keep, filter_rooms_by_auth,
}

-- The decision lets in the tenant that the metadata names.
pub decide_iff :
    (id room_name : Text) (owner : Option Text)
    → (decide id room_name owner ≡ ok tt) ↔ (owner ≡ some id)
unfolding decide
decide_iff id room_name none = ground arith
decide_iff id room_name (some rid) = ground (arith, text_eq_iff rid id)

belongs_to_iff :
    {V : Type 0} (json : Json V) (id : Text) (room : Room)
    → (belongs_to json id room ≡ true) ↔ (get_auth_id json room.metadata ≡ some id)
unfolding belongs_to
belongs_to_iff json id room = elim (Option-cases (get_auth_id json room.metadata)) [
  | inl e ↦ rw e (ground arith)
  | inr (rid, e) ↦ rw e (ground (arith, text_eq_iff rid id))
]

module _ {V : Type 0} (json : Json V) (id : Text) (room : Room) where
  Listed-cons :
      (r : Room) (rs rest : List Room)
      → belongs_to json id r ≡ true
      → (Memᴰ room rest → Memᴰ room rs × (belongs_to json id room ≡ true))
      → Memᴰ room (r ∷ rest)
      → Memᴰ room (r ∷ rs) × (belongs_to json id room ≡ true)
  Listed-cons r rs rest e f (Memᴰ.head same) = (Memᴰ.head same, ap (belongs_to json id) same ∙ e)
  Listed-cons r rs rest e f (Memᴰ.tail t) = let (there, b) = f t in (Memᴰ.tail there, b)

  Memᴰ-keep :
      (rooms : List Room)
      → Memᴰ room (keep json id rooms)
      → Memᴰ room rooms × (belongs_to json id room ≡ true)
  unfolding keep
  Memᴰ-keep [] m = elim m [ ]
  Memᴰ-keep (r ∷ rs) m = elim (Bool-cases (belongs_to json id r)) [
    | inl e ↦ Listed-cons r rs (keep json id rs) e (Memᴰ-keep rs) (rw (keep, e) at m)
    | inr e ↦ let (there, b) = Memᴰ-keep rs (rw (keep, e) at m) in (Memᴰ.tail there, b)
  ]

  keep-Memᴰ :
      (rooms : List Room)
      → Memᴰ room rooms
      → belongs_to json id room ≡ true
      → Memᴰ room (keep json id rooms)
  unfolding keep
  keep-Memᴰ [] m b = elim m [ ]
  keep-Memᴰ (r ∷ rs) (Memᴰ.head same) b =
      rw (keep, ap (belongs_to json id) (sym same) ∙ b) (Memᴰ.head same)
  keep-Memᴰ (r ∷ rs) (Memᴰ.tail t) b = elim (Bool-cases (belongs_to json id r)) [
    | inl e ↦ rw (keep, e) (Memᴰ.tail (keep-Memᴰ rs t b))
    | inr e ↦ rw (keep, e) (keep-Memᴰ rs t b)
  ]

module _ {V P : Type 0} (json : Json V) where
  -- A tenant is let in exactly when the server gives the room and the metadata of the room names that
  -- tenant.
  pub check_room_access_iff :
      (auth : Auth) (id room_name : Text) (answer : Details P)
      → effective_id auth ≡ some id
      → (check_room_access json auth room_name answer ≡ ok tt) ↔ (
          (room : Room) × (ps : P) × (answer ≡ details room ps)
          × (get_auth_id json room.metadata ≡ some id))
  unfolding check_room_access
  check_room_access_iff auth id room_name (failed msg) h =
      rw (check_room_access, h)
        ((λ e. absurd (ground arith)), λ (room, ps, e, o). absurd (ground arith))
  check_room_access_iff auth id room_name (details room ps) h =
      let (to, from) = decide_iff id room_name (get_auth_id json room.metadata) in
      rw (check_room_access, h) ((λ e. (room, ps, refl, to e)), λ (room', ps', e, o). from (cc))

  -- Where the server gives the room, a request that also wants the data is let in, or refused with the
  -- same error, as one that does not.
  pub check_room_access_with_data-check_room_access :
      (auth : Auth) (room_name : Text) (room : Room) (ps : P)
      → (check_room_access_with_data json auth room_name (details room ps)
          ≡ elim (check_room_access json auth room_name (details room ps)) [
            | ok u ↦ ok (room, ps)
            | err e ↦ err e
          ])
  unfolding check_room_access check_room_access_with_data
  check_room_access_with_data-check_room_access auth room_name room ps =
      elim (Option-cases (effective_id auth)) [
        | inl e ↦ rw (check_room_access, check_room_access_with_data, e) refl
        | inr (id, e) ↦ rw (check_room_access, check_room_access_with_data, e) refl
      ]

  -- A tenant's list of rooms holds exactly the rooms of the whole list that the guard lets the tenant
  -- into; with no tenant it is the whole list.
  pub filter_rooms_by_auth-lets_in :
      (auth : Auth) (room : Room) (ps : P) (rooms : List Room)
      → Memᴰ room (filter_rooms_by_auth json auth rooms)
        ↔ (Memᴰ room rooms × (check_room_access json auth room.name (details room ps) ≡ ok tt))
  unfolding check_room_access filter_rooms_by_auth
  filter_rooms_by_auth-lets_in auth room ps rooms = elim (Option-cases (effective_id auth)) [
    | inl e ↦ rw (filter_rooms_by_auth, check_room_access, e) ((λ m. (m, refl)), λ (m, r). m)
    | inr (id, e) ↦
        let (lets, named) = decide_iff id room.name (get_auth_id json room.metadata) in
        let (owns, owned) = belongs_to_iff json id room in
        rw (filter_rooms_by_auth, check_room_access, e)
          (
            (λ m. let (there, b) = Memᴰ-keep json id room rooms m in (there, named (owns b))),
            λ (m, r). keep-Memᴰ json id room rooms m (owned (lets r)),
          )
  ]
