-- ===== src/Payments.antt =====
-- Payment orders and the Premium entitlements that they buy (backend/src/fetchnow/payments/ and
-- backend/src/fetchnow/premium/).
pub mod Model
pub mod Amount
pub mod Signature
pub mod Orders
pub mod Callback
pub mod History
pub mod Premium
