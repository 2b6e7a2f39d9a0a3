-- ===== src/Http.antt =====
-- api/src: the requests of the API, from the guard to the controllers and their answers.
pub mod Requests
pub mod Validation
pub mod Server
pub mod Guarded
pub mod Typed
pub mod Session
mod Tests
