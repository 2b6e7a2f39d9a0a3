-- ===== src/Notification.antt =====
-- api/src/notification: which channels an event uses, the outbox, the adapter that other modules
-- queue notifications through, the templates, and the dispatcher of the outbox.
pub mod ChannelPolicy
pub mod Outbox
pub mod Adapter
pub mod Returns
pub mod Delivery
pub mod Claims
pub mod Render
pub mod Placeholders
pub mod Dispatcher
pub mod Queue
pub mod Delivered
pub mod Due
pub mod Attempts
pub mod Drained
pub mod Idle
pub mod Unique
pub mod Mandatory
pub mod Texted
mod Tests
mod DispatchTests
