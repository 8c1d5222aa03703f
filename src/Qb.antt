-- ===== src/Qb.antt =====
-- Package qb: the query builders.
mod Tests
pub mod Emit
pub mod Template
pub mod Queries
pub mod Binding
pub mod Value
pub mod Cmp
pub mod Limit
pub mod Using
pub mod Token
pub mod Select
pub mod Delete
pub mod Insert
pub mod Update
pub mod Batch
