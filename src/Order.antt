-- ===== src/Order.antt =====
-- api/src/order: the statements on the order tables, the adapter that payments use, and order
-- creation.
pub mod Repository
pub mod Adapter
pub mod Service
pub mod Gates
pub mod Written
pub mod Columns
pub mod Stored
pub mod Created
pub mod Returns
pub mod Stock
mod Tests
