-- ===== src/Payment.antt =====
-- api/src/payment: the settlement of payments that aggregators report.
pub mod Repository
pub mod Service
pub mod Effect
pub mod Refinement
pub mod Replay
pub mod Unnamed
pub mod Clock
pub mod Returns
pub mod Webhook
pub mod Signed
mod Tests
