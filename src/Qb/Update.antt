-- ===== src/Qb/Update.antt =====
-- qb/update.go: the UPDATE builder.
pub mod Writes
pub mod Built
use cqlx.Common.{Bytes, List, [], ◌∷◌, ◌++◌, Bool, true, false, is_empty, codes, ℤ, if◌then◌else◌}
use cqlx.Qb.Cmp.{Cmp, write_where, write_if}
use cqlx.Qb.Emit.{Emit, ◌>>◌, write_string, write_byte, when, write_each, Stmt, run}
use cqlx.Qb.Using
use cqlx.Qb.Using.{Using, no_using, write_using}
use cqlx.Qb.Value.{Value, param, tuple_param, lit, func, Func, write_value}

pub record Assignment : Type 0 where
  pub column : Bytes
  pub value : Value
  pub value_prefix : Bytes

unfoldable pub write_assignment : Assignment → Emit
unfolding ◌>>◌ write_string write_byte write_value
write_assignment a = do
  write_string a.column
  write_byte b'='
  write_string a.value_prefix
  write_value a.value

pub record UpdateBuilder : Type 0 where
  pub table : Bytes
  pub assignments : List Assignment
  pub where_cmps : List Cmp
  pub if_cmps : List Cmp
  pub using : Using
  pub exists : Bool
  pub allow_filtering : Bool

unfoldable pub update : Bytes → UpdateBuilder
update table = record {
  table = table;
  assignments = [];
  where_cmps = [];
  if_cmps = [];
  using = no_using;
  exists = false;
  allow_filtering = false;
}

-- `ToCql` also changes the receiver, by its USING clause.
unfoldable pub to_cql : UpdateBuilder → UpdateBuilder × Stmt
unfolding run ◌>>◌ write_string write_byte when write_each write_assignment write_where write_if
    write_using
to_cql b =
    let (using, write_using_clause) = write_using b.using in
    (
      record b { using = using },
      run (do
        write_string (codes "UPDATE ")
        write_string b.table
        write_byte b' '
        write_using_clause
        write_string (codes "SET ")
        write_each (write_byte b',') write_assignment b.assignments
        write_byte b' '
        write_where b.where_cmps
        write_if b.if_cmps
        when b.exists (write_string (codes "IF EXISTS "))
        when b.allow_filtering (write_string (codes "ALLOW FILTERING "))),
    )

-- `Table`.
unfoldable pub table : Bytes → UpdateBuilder → UpdateBuilder
table name b = record b { table = name }

unfoldable pub ttl : (ℤ → ℤ) → ℤ → UpdateBuilder → UpdateBuilder
unfolding Using.set_ttl
ttl seconds d b = record b { using = Using.set_ttl seconds d b.using }

unfoldable pub ttl_named : Bytes → UpdateBuilder → UpdateBuilder
unfolding Using.ttl_named
ttl_named name b = record b { using = Using.ttl_named name b.using }

unfoldable pub timestamp : ℤ → UpdateBuilder → UpdateBuilder
unfolding Using.set_timestamp
timestamp t b = record b { using = Using.set_timestamp t b.using }

unfoldable pub timestamp_named : Bytes → UpdateBuilder → UpdateBuilder
unfolding Using.timestamp_named
timestamp_named name b = record b { using = Using.timestamp_named name b.using }

unfoldable pub timeout : ℤ → UpdateBuilder → UpdateBuilder
unfolding Using.set_timeout
timeout d b = record b { using = Using.set_timeout d b.using }

unfoldable pub timeout_named : Bytes → UpdateBuilder → UpdateBuilder
unfolding Using.timeout_named
timeout_named name b = record b { using = Using.timeout_named name b.using }

abbrev assign : Bytes → Value → Bytes → UpdateBuilder → UpdateBuilder
assign column value prefix b = record b {
  assignments =
      b.assignments ++ record { column = column; value = value; value_prefix = prefix } ∷ [];
}

-- The loop of `Set` appends one assignment for each column.
unfoldable pub set : List Bytes → UpdateBuilder → UpdateBuilder
set [] b = b
set (c ∷ cols) b = set cols (assign c (param c) [] b)

unfoldable pub set_named : Bytes → Bytes → UpdateBuilder → UpdateBuilder
set_named column name b = assign column (param name) [] b

unfoldable pub set_lit : Bytes → Bytes → UpdateBuilder → UpdateBuilder
set_lit column literal b = assign column (lit literal) [] b

unfoldable pub set_func : Bytes → Func → UpdateBuilder → UpdateBuilder
set_func column fn b = assign column (func fn) [] b

unfoldable pub set_tuple : Bytes → ℤ → UpdateBuilder → UpdateBuilder
set_tuple column count b = assign column (tuple_param column count) [] b

unfoldable pub add_value : Bytes → Value → UpdateBuilder → UpdateBuilder
add_value column value b = assign column value (column ++ codes "+") b

unfoldable pub remove_value : Bytes → Value → UpdateBuilder → UpdateBuilder
remove_value column value b = assign column value (column ++ codes "-") b

unfoldable pub add : Bytes → UpdateBuilder → UpdateBuilder
unfolding add_value
add column b = add_value column (param column) b

unfoldable pub add_named : Bytes → Bytes → UpdateBuilder → UpdateBuilder
unfolding add_value
add_named column name b = add_value column (param name) b

unfoldable pub add_lit : Bytes → Bytes → UpdateBuilder → UpdateBuilder
unfolding add_value
add_lit column literal b = add_value column (lit literal) b

unfoldable pub add_func : Bytes → Func → UpdateBuilder → UpdateBuilder
unfolding add_value
add_func column fn b = add_value column (func fn) b

unfoldable pub remove : Bytes → UpdateBuilder → UpdateBuilder
unfolding remove_value
remove column b = remove_value column (param column) b

unfoldable pub remove_named : Bytes → Bytes → UpdateBuilder → UpdateBuilder
unfolding remove_value
remove_named column name b = remove_value column (param name) b

unfoldable pub remove_lit : Bytes → Bytes → UpdateBuilder → UpdateBuilder
unfolding remove_value
remove_lit column literal b = remove_value column (lit literal) b

unfoldable pub remove_func : Bytes → Func → UpdateBuilder → UpdateBuilder
unfolding remove_value
remove_func column fn b = remove_value column (func fn) b

unfoldable pub allow_filtering : UpdateBuilder → UpdateBuilder
allow_filtering b = record b { allow_filtering = true }

abbrev extend : List Cmp → List Cmp → List Cmp
extend xs ys = if is_empty xs then ys else xs ++ ys

unfoldable pub where_cmps : List Cmp → UpdateBuilder → UpdateBuilder
where_cmps w b = record b { where_cmps = extend b.where_cmps w }

unfoldable pub if_cmps : List Cmp → UpdateBuilder → UpdateBuilder
if_cmps w b = record b { if_cmps = extend b.if_cmps w }

unfoldable pub existing : UpdateBuilder → UpdateBuilder
existing b = record b { exists = true }
