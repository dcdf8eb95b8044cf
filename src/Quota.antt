-- ===== src/Quota.antt =====
-- Free-tier quota (backend/src/fetchnow/quota/).
pub mod Intervals
pub mod Model
pub mod Ranges
pub mod Delivery
pub mod Admission
