-- ===== src/Qb/Cmp.antt =====
-- qb/cmp.go: `Cmp`, its constructors by operator, and the clauses made of comparators.
pub mod Defs
pub mod Equality
pub mod Order
pub mod Membership
pub mod Writes
pub use Defs.{Op, Cmp}
unfoldable pub use Defs.{write_op, write_cmp, write_cmps, write_where, write_if}
