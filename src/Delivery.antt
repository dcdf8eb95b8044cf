-- ===== src/Delivery.antt =====
-- Authenticated delivery of private artifacts (backend/src/fetchnow/delivery/).
pub mod RangeParse
pub mod Authorize
pub mod Issue
pub mod Cookie
pub mod Cleanup
