-- ===== src/Downloads.antt =====
-- Download jobs (backend/src/fetchnow/downloads/).
pub mod Errors
pub mod States
pub mod Stages
pub mod Model
pub mod Grants
pub mod Slot
pub mod Worker
pub mod Progress
pub mod Reaper
pub mod Moves
pub mod History
pub mod ByteProgress
