-- ===== src/Catalog.antt =====
-- api/src/catalog: the publication of a listing. Its resolution for an order is in Adapters.
pub mod Repository
pub mod Service
pub mod Search
pub mod Sorted
pub mod Shown
pub mod Nearest
pub mod Radius
pub mod Published
pub mod Orderable
mod Tests
mod SearchTests
