-- ===== src/Rooms/Guard/Masked.antt =====
-- What a masked refusal tells (src/handlers/livekit/room_guard.rs, `into_response_masked`).
use sayna.Prelude.{◌++◌, length, length-append, refl, ap, ◌≡◌, ◌≢◌, arith}
use sayna.Prelude.Text.{Text, codes}
use sayna.Rooms.Guard.{not_found, access_denied, AccessDeniedReason, into_response_masked}

-- A missing room and a room of another tenant are both answered with status 404, whatever the reason,
-- but not with the same text: the message of the second is longer, so the caller learns that the room
-- exists.
pub masked_tells :
    (room : Text) (reason : AccessDeniedReason)
    → ((into_response_masked (not_found room)).status ≡ 404)
      × ((into_response_masked (access_denied room reason)).status ≡ 404)
      × ((into_response_masked (not_found room)).message
          ≢ (into_response_masked (access_denied room reason)).message)
unfolding into_response_masked
masked_tells room reason = (
  refl,
  refl,
  λ e.
      let sizes : length (codes "Room '" ++ (room ++ codes "'") ++ codes " not found")
          ≡ length (codes "Room '" ++ (room ++ codes "'") ++ codes " not found or not accessible") =
        ap length e in
      absurd (grind (arith, length-append)),
)
