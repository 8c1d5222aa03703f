-- ===== src/Qb/Insert.antt =====
-- qb/insert.go: the INSERT builder.
pub mod Writes
pub mod Built
use cqlx.Common.{Bytes, List, [], ◌∷◌, ◌++◌, Bool, true, false, codes, ℤ, map, if◌then◌else◌}
use cqlx.Qb.Emit.{Emit, ◌>>◌, write_string, write_byte, when, write_each, Stmt, run}
use cqlx.Qb.Using
use cqlx.Qb.Using.{Using, no_using, write_using}
use cqlx.Qb.Value.{Value, param, tuple_param, lit, func, Func, write_value}

pub record Initializer : Type 0 where
  pub value : Value
  pub column : Bytes

pub record InsertBuilder : Type 0 where
  pub table : Bytes
  pub columns : List Initializer
  pub using : Using
  pub unique : Bool
  pub json : Bool

unfoldable pub insert : Bytes → InsertBuilder
insert table = record {
  table = table;
  columns = [];
  using = no_using;
  unique = false;
  json = false;
}

-- `ToCql` with `b.json` set returns before the rest, and leaves its receiver as it is.
unfoldable pub to_cql : InsertBuilder → InsertBuilder × Stmt
unfolding run ◌>>◌ write_string write_byte when write_each write_value write_using
to_cql b =
    let (using, write_using_clause) = write_using b.using in
    if b.json
    then (
      b,
      run (do
        write_string (codes "INSERT ")
        write_string (codes "INTO ")
        write_string b.table
        write_byte b' '
        write_string (codes "JSON ?")),
    )
    else (
      record b { using = using },
      run (do
        write_string (codes "INSERT ")
        write_string (codes "INTO ")
        write_string b.table
        write_byte b' '
        write_byte b'('
        write_each (write_byte b',') (λ c. write_string c.column) b.columns
        write_string (codes ") ")
        write_string (codes "VALUES (")
        write_each (write_byte b',') (λ c. write_value c.value) b.columns
        write_string (codes ") ")
        when b.unique (write_string (codes "IF NOT EXISTS "))
        write_using_clause),
    )

unfoldable pub into : Bytes → InsertBuilder → InsertBuilder
into table b = record b { table = table }

unfoldable pub json : InsertBuilder → InsertBuilder
json b = record b { json = true }

abbrev add_column : Bytes → Value → InsertBuilder → InsertBuilder
add_column column value b = record b {
  columns = b.columns ++ record { value = value; column = column } ∷ [];
}

-- The loop appends one initializer for each column.
unfoldable pub columns : List Bytes → InsertBuilder → InsertBuilder
columns [] b = b
columns (c ∷ cols) b = columns cols (add_column c (param c) b)

unfoldable pub named_column : Bytes → Bytes → InsertBuilder → InsertBuilder
named_column column name b = add_column column (param name) b

unfoldable pub lit_column : Bytes → Bytes → InsertBuilder → InsertBuilder
lit_column column literal b = add_column column (lit literal) b

unfoldable pub func_column : Bytes → Func → InsertBuilder → InsertBuilder
func_column column fn b = add_column column (func fn) b

unfoldable pub tuple_column : Bytes → ℤ → InsertBuilder → InsertBuilder
tuple_column column count b = add_column column (tuple_param column count) b

unfoldable pub unique : InsertBuilder → InsertBuilder
unique b = record b { unique = true }

unfoldable pub ttl : (ℤ → ℤ) → ℤ → InsertBuilder → InsertBuilder
unfolding Using.set_ttl
ttl seconds d b = record b { using = Using.set_ttl seconds d b.using }

unfoldable pub ttl_named : Bytes → InsertBuilder → InsertBuilder
unfolding Using.ttl_named
ttl_named name b = record b { using = Using.ttl_named name b.using }

unfoldable pub timestamp : ℤ → InsertBuilder → InsertBuilder
unfolding Using.set_timestamp
timestamp t b = record b { using = Using.set_timestamp t b.using }

unfoldable pub timestamp_named : Bytes → InsertBuilder → InsertBuilder
unfolding Using.timestamp_named
timestamp_named name b = record b { using = Using.timestamp_named name b.using }

unfoldable pub timeout : ℤ → InsertBuilder → InsertBuilder
unfolding Using.set_timeout
timeout d b = record b { using = Using.set_timeout d b.using }

unfoldable pub timeout_named : Bytes → InsertBuilder → InsertBuilder
unfolding Using.timeout_named
timeout_named name b = record b { using = Using.timeout_named name b.using }
