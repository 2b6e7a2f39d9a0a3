-- ===== src/Login.antt =====
-- api/src/identity: the store of challenges and the two steps of a login.
pub mod World
pub mod Store
pub mod Notice
pub mod Service
pub mod Sent
pub mod Laws
pub mod Stored
pub mod Queued
pub mod Exchange
pub mod Admitted
pub mod Settled
pub mod Opened
pub mod Once
pub mod Guesses
pub mod Lockout
pub mod Resent
pub mod Toy
mod Tests
