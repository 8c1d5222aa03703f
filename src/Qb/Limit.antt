-- ===== src/Qb/Limit.antt =====
-- qb/limit.go: the LIMIT and PER PARTITION LIMIT clauses.
pub mod Writes
use cqlx.Common.Decimal.{format_uint}
use cqlx.Common.{ℕ, Bytes, Bool, Option, none, some, codes, false}
use cqlx.Qb.Emit.{Emit, ◌>>◌, write_string, write_byte, skip, when}
use cqlx.Qb.Value.{Value, lit, param, write_value}

-- `none` is the interface value nil, of a builder with no such clause.
pub record Limit : Type 0 where
  pub value : Option Value
  pub per_partition : Bool

abbrev pub no_limit : Limit
no_limit = record { value = none; per_partition = false }

unfoldable pub limit_lit : ℕ → Bool → Limit
limit_lit l per_partition = record {
  value = some (lit (format_uint l));
  per_partition = per_partition;
}

unfoldable pub limit_named : Bytes → Bool → Limit
limit_named name per_partition = record { value = some (param name); per_partition = per_partition }

-- `limit.writeCql` by its value.
write_limit_value : Bool → Option Value → Emit
write_limit_value per_partition none = skip
write_limit_value per_partition (some v) = do
  when per_partition (write_string (codes "PER PARTITION "))
  write_string (codes "LIMIT ")
  write_value v
  write_byte b' '

unfoldable pub write_limit : Limit → Emit
unfolding write_limit_value when
write_limit l = write_limit_value l.per_partition l.value
