-- ===== src/Refund/Service.antt =====
-- server/services/refundService.js: the operations that change refunds, in four children.
pub mod Reserve
pub mod Initiate
pub mod Settle
pub mod Retry
