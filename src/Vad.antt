-- ===== src/Vad.antt =====
-- Voice activity: src/core/vad.
pub mod Tracker
