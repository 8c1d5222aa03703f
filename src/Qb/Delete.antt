-- ===== src/Qb/Delete.antt =====
-- qb/delete.go: the DELETE builder.
pub mod Writes
pub mod Built
use cqlx.Common.{Bytes, List, [], ◌++◌, Bool, true, false, not, is_empty, codes, ℤ}
use cqlx.Qb.Cmp.{Cmp, write_where, write_if}
use cqlx.Qb.Emit.{Emit, ◌>>◌, write_string, write_byte, when, Stmt, run}
use cqlx.Qb.Using
use cqlx.Qb.Using.{Using, no_using, write_using}
use cqlx.Qb.Value.{write_columns}

pub record DeleteBuilder : Type 0 where
  pub table : Bytes
  pub columns : List Bytes
  pub where_cmps : List Cmp
  pub if_cmps : List Cmp
  pub using : Using
  pub exists : Bool

unfoldable pub delete : Bytes → DeleteBuilder
delete table = record {
  table = table;
  columns = [];
  where_cmps = [];
  if_cmps = [];
  using = no_using;
  exists = false;
}

-- `ToCql` also changes the receiver, by its USING clause.
unfoldable pub to_cql : DeleteBuilder → DeleteBuilder × Stmt
unfolding run ◌>>◌ write_string write_byte when write_columns write_where write_if write_using
to_cql b =
    let (using, write_using_clause) = write_using b.using in
    (
      record b { using = using },
      run (do
        write_string (codes "DELETE ")
        when (not (is_empty b.columns)) (do write_columns b.columns; write_byte b' ')
        write_string (codes "FROM ")
        write_string b.table
        write_byte b' '
        write_using_clause
        write_where b.where_cmps
        write_if b.if_cmps
        when b.exists (write_string (codes "IF EXISTS "))),
    )

unfoldable pub from : Bytes → DeleteBuilder → DeleteBuilder
from table b = record b { table = table }

unfoldable pub columns : List Bytes → DeleteBuilder → DeleteBuilder
columns cols b = record b { columns = b.columns ++ cols }

unfoldable pub timestamp : ℤ → DeleteBuilder → DeleteBuilder
unfolding Using.set_timestamp
timestamp t b = record b { using = Using.set_timestamp t b.using }

unfoldable pub timestamp_named : Bytes → DeleteBuilder → DeleteBuilder
unfolding Using.timestamp_named
timestamp_named name b = record b { using = Using.timestamp_named name b.using }

unfoldable pub timeout : ℤ → DeleteBuilder → DeleteBuilder
unfolding Using.set_timeout
timeout d b = record b { using = Using.set_timeout d b.using }

unfoldable pub timeout_named : Bytes → DeleteBuilder → DeleteBuilder
unfolding Using.timeout_named
timeout_named name b = record b { using = Using.timeout_named name b.using }

unfoldable pub where_cmps : List Cmp → DeleteBuilder → DeleteBuilder
where_cmps w b = record b { where_cmps = b.where_cmps ++ w }

unfoldable pub if_cmps : List Cmp → DeleteBuilder → DeleteBuilder
if_cmps w b = record b { if_cmps = b.if_cmps ++ w }

unfoldable pub existing : DeleteBuilder → DeleteBuilder
existing b = record b { exists = true }
