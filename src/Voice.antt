-- ===== src/Voice.antt =====
-- Turn taking: src/core/voice_manager.
pub mod State
pub mod Chunks
pub mod Tasks
pub mod Results
