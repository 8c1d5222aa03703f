-- ===== src/Qb/Select.antt =====
-- qb/select.go: the SELECT builder. A method that changes its receiver returns it.
pub mod Writes
pub mod Built
use cqlx.Common.{
  ℕ, Bytes, List, [], ◌∷◌, ◌++◌, Bool, true, false, not, is_empty, codes, if◌then◌else◌, ℤ,
}
use cqlx.Qb.Cmp.{Cmp, write_where}
use cqlx.Qb.Emit.{Emit, ◌>>◌, write_string, write_byte, when, Stmt, run}
use cqlx.Qb.Limit
use cqlx.Qb.Limit.{Limit, no_limit, write_limit}
use cqlx.Qb.Using
use cqlx.Qb.Using.{Using, no_using, write_using}
use cqlx.Qb.Value.{write_columns}

-- The constants of `Order`, and its `String`.
pub data Order : Type 0 where
  asc desc : Order

unfoldable pub order_text : Order → Bytes
order_text asc = codes "ASC"
order_text desc = codes "DESC"

pub record SelectBuilder : Type 0 where
  pub limit : Limit
  pub limit_per_partition : Limit
  pub table : Bytes
  pub where_cmps : List Cmp
  pub group_by : List Bytes
  pub order_by : List Bytes
  pub columns : List Bytes
  pub distinct : List Bytes
  pub using : Using
  pub allow_filtering : Bool
  pub bypass_cache : Bool
  pub json : Bool

unfoldable pub select : Bytes → SelectBuilder
select table = record {
  limit = no_limit;
  limit_per_partition = no_limit;
  table = table;
  where_cmps = [];
  group_by = [];
  order_by = [];
  columns = [];
  distinct = [];
  using = no_using;
  allow_filtering = false;
  bypass_cache = false;
  json = false;
}

-- The switch of `ToCql`, over `b.distinct`, `b.groupBy` and `b.columns`.
write_selection : List Bytes → List Bytes → List Bytes → Emit
write_selection distinct group_by columns =
    if not (is_empty distinct)
    then (do write_string (codes "DISTINCT "); write_columns distinct)
    else if not (is_empty group_by)
    then (do
      write_columns group_by
      when (not (is_empty columns)) (do write_byte b','; write_columns columns))
    else if is_empty columns
    then write_byte b'*'
    else write_columns columns

-- The GROUP BY and ORDER BY clauses.
write_list : Bytes → List Bytes → Emit
write_list keyword cols =
    when (not (is_empty cols)) (do write_string keyword; write_columns cols; write_byte b' ')

-- `ToCql` also changes the receiver, by its USING clause.
unfoldable pub to_cql : SelectBuilder → SelectBuilder × Stmt
unfolding write_selection write_list run ◌>>◌ write_string write_byte when write_columns write_where
    write_limit write_using
to_cql b =
    let (using, write_using_clause) = write_using b.using in
    (
      record b { using = using },
      run (do
        write_string (codes "SELECT ")
        when b.json (write_string (codes "JSON "))
        write_selection b.distinct b.group_by b.columns
        write_string (codes " FROM ")
        write_string b.table
        write_byte b' '
        write_where b.where_cmps
        write_list (codes "GROUP BY ") b.group_by
        write_list (codes "ORDER BY ") b.order_by
        write_limit b.limit_per_partition
        write_limit b.limit
        when b.allow_filtering (write_string (codes "ALLOW FILTERING "))
        when b.bypass_cache (write_string (codes "BYPASS CACHE "))
        write_using_clause),
    )

unfoldable pub from : Bytes → SelectBuilder → SelectBuilder
from table b = record b { table = table }

unfoldable pub json : SelectBuilder → SelectBuilder
json b = record b { json = true }

-- `append`, with the assignment that replaces it while the slice is empty.
abbrev extend {ℓ} : {A : Type ℓ} → List A → List A → List A
extend xs ys = if is_empty xs then ys else xs ++ ys

unfoldable pub columns : List Bytes → SelectBuilder → SelectBuilder
columns cols b = record b { columns = extend b.columns cols }

-- `As`.
unfoldable pub as_name : Bytes → Bytes → Bytes
as_name column name = column ++ (codes " AS " ++ name)

-- The test is of the WHERE clause, not of the columns.
unfoldable pub distinct : List Bytes → SelectBuilder → SelectBuilder
distinct cols b = record b { distinct = if is_empty b.where_cmps then cols else b.distinct ++ cols }

unfoldable pub timeout : ℤ → SelectBuilder → SelectBuilder
unfolding Using.set_timeout
timeout d b = record b { using = Using.set_timeout d b.using }

unfoldable pub timeout_named : Bytes → SelectBuilder → SelectBuilder
unfolding Using.timeout_named
timeout_named name b = record b { using = Using.timeout_named name b.using }

unfoldable pub where_cmps : List Cmp → SelectBuilder → SelectBuilder
where_cmps w b = record b { where_cmps = extend b.where_cmps w }

unfoldable pub group_by : List Bytes → SelectBuilder → SelectBuilder
group_by cols b = record b { group_by = extend b.group_by cols }

unfoldable pub order_by : Bytes → Order → SelectBuilder → SelectBuilder
unfolding order_text
order_by column o b = record b {
  order_by = b.order_by ++ (column ++ (codes " " ++ order_text o)) ∷ [];
}

unfoldable pub limit : ℕ → SelectBuilder → SelectBuilder
unfolding Limit.limit_lit
limit l b = record b { limit = Limit.limit_lit l false }

unfoldable pub limit_named : Bytes → SelectBuilder → SelectBuilder
unfolding Limit.limit_named
limit_named name b = record b { limit = Limit.limit_named name false }

unfoldable pub limit_per_partition : ℕ → SelectBuilder → SelectBuilder
unfolding Limit.limit_lit
limit_per_partition l b = record b { limit_per_partition = Limit.limit_lit l true }

unfoldable pub limit_per_partition_named : Bytes → SelectBuilder → SelectBuilder
unfolding Limit.limit_named
limit_per_partition_named name b = record b { limit_per_partition = Limit.limit_named name true }

unfoldable pub allow_filtering : SelectBuilder → SelectBuilder
allow_filtering b = record b { allow_filtering = true }

unfoldable pub bypass_cache : SelectBuilder → SelectBuilder
bypass_cache b = record b { bypass_cache = true }

-- `SelectBuilder.fn`.
unfoldable pub call : Bytes → Bytes → SelectBuilder → SelectBuilder
unfolding columns
call name column b = columns ((name ++ (codes "(" ++ (column ++ codes ")"))) ∷ []) b

unfoldable pub count : Bytes → SelectBuilder → SelectBuilder
unfolding call
count column b = call (codes "count") column b

unfoldable pub count_all : SelectBuilder → SelectBuilder
unfolding count
count_all b = count (codes "*") b

unfoldable pub min : Bytes → SelectBuilder → SelectBuilder
unfolding call
min column b = call (codes "min") column b

unfoldable pub max : Bytes → SelectBuilder → SelectBuilder
unfolding call
max column b = call (codes "max") column b

unfoldable pub avg : Bytes → SelectBuilder → SelectBuilder
unfolding call
avg column b = call (codes "avg") column b

unfoldable pub sum : Bytes → SelectBuilder → SelectBuilder
unfolding call
sum column b = call (codes "sum") column b
