-- ===== src/Database.antt =====
-- api/src/common/database, and the tables of docs/data-model/phase-1-schema.sql that the services
-- read and write: each as the list of its rows, with the columns that a statement of the program
-- names. The engine is PostgreSQL, a parameter.
mod Rows
pub mod Transaction
mod Tests
pub use Rows.*
