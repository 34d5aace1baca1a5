-- ===== src/Livekit.antt =====
-- Audio towards the LiveKit room: src/livekit.
pub mod Pump
pub mod Clip
pub mod Queue
pub mod Worker
