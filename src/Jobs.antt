-- ===== src/Jobs.antt =====
-- Durable media-inspection jobs (backend/src/fetchnow/jobs/).
pub mod States
pub mod Model
pub mod Repository
pub mod Worker
pub mod Reaper
pub mod RowStep
pub mod RowLaws
pub mod Refinement
pub mod History
pub mod TableStep
pub mod Invariants
pub mod Fencing
pub mod RowHistory
pub mod Lease
pub mod Rules
