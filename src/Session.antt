-- ===== src/Session.antt =====
-- api/src/common/auth: session tokens and the guard of the routes.
pub mod Token
pub mod Guard
pub mod Base64
pub mod Issued
pub mod Admitted
pub mod Toy
mod Tests
