-- ===== src/Rooms.antt =====
-- Which tenant may touch which room (src/auth/context.rs, src/livekit/metadata.rs and
-- src/handlers/livekit/room_guard.rs).
pub mod Metadata
pub mod Guard
pub mod Handler
mod Tests
use sayna.Prelude.{Bool, true, false, Option, none, some, List, is_empty, if◌then◌else◌}
use sayna.Prelude.Text.{Text, trim}

pub record Auth : Type 0 where
  pub id : Option Text

unfoldable pub effective_id : Auth → Option Text
effective_id auth = elim auth.id [
  | none ↦ none
  | some id ↦ if is_empty (trim id) then none else some (trim id)
]
