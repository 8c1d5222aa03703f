-- ===== src/Schemagen.antt =====
-- cmd/schemagen: the generator of table models.
pub mod Types
pub mod Camelize
pub mod MapTypes
pub mod References
pub mod Imports
pub mod Usage
pub mod Keyspace
mod Tests
