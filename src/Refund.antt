-- ===== src/Refund.antt =====
-- The refund subsystem of the server.
pub mod State
pub mod Errors
pub mod Store
pub mod Router
pub mod Ledger
pub mod Projector
pub mod Service
pub mod RetryJob
pub mod Held
pub mod Funds
mod Samples
